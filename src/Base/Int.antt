-- ===== src/Base/Int.antt =====
-- Integers over the native numbers, as far as the code needs them.
use Prim.Native.Nat.{ℕ, suc, ◌-◌, ◌^◌}
use mathlib.Core.List.{◌++◌}
use mail_server_client.Base.Tests.{ltb, if◌then◌else◌}
use mail_server_client.Base.Text.{Bytes, codes, to_string}

-- `negsuc n` is -(n + 1).
pub data ℤ : Type 0 where
  pos negsuc : ℕ → ℤ

-- static_cast<std::int64_t> of a std::uint64_t, and back
abbrev pub int64_of_uint64 : ℕ → ℤ
int64_of_uint64 n = if ltb n (2 ^ 63) then pos n else negsuc (2 ^ 64 - suc n)

abbrev pub uint64_of_int64 : ℤ → ℕ
uint64_of_int64 (pos n) = n
uint64_of_int64 (negsuc n) = 2 ^ 64 - suc n

-- std::to_string
abbrev pub int_to_string : ℤ → Bytes
int_to_string (pos n) = to_string n
int_to_string (negsuc n) = codes "-" ++ to_string (suc n)

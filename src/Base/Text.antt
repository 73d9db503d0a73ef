-- ===== src/Base/Text.antt =====
-- Text as its bytes, and what the code uses of the C and C++ standard libraries on it: comparison,
-- `find`, `isspace`, `toupper`, `to_string`, and the `>>` of an input stream.
use Prim.Native.Nat.{ℕ, zero, suc, ◌+◌, ◌-◌, ◌/◌, ◌%◌}
use Prim.Native.Char.{code}
use Prim.Native.String.{String}
use mathlib.Core.Path.{◌≡◌, refl, ap, sym, ◌∙◌}
use mathlib.Core.Logic.{◌↔◌, ◌≢◌, ◌⊎◌, inl, inr}
use mathlib.Core.Bool.{Bool, true, false, ◌&&◌, ◌||◌}
use mathlib.Core.Option
use mathlib.Core.Option.{Option, none, some}
use mathlib.Core.List.{List, [], ◌∷◌, ◌++◌}
use native.Mathlib.Omega.{arith}
use mail_server_client.Base.Tests.{Bool-cases, leb, ◌==◌, if◌then◌else◌}
use mail_server_client.Base.Lists.{length, All, take, drop}

abbrev pub Bytes : Type 0
Bytes = List ℕ

-- The bytes of an ASCII literal.
abbrev pub codes : String → Bytes
codes String.[] = []
codes (String.◌∷◌ c s) = code c ∷ codes s

-- operator== of strings
unfoldable pub bytes_eq : Bytes → Bytes → Bool
bytes_eq [] [] = true
bytes_eq [] (y ∷ ys) = false
bytes_eq (x ∷ xs) [] = false
bytes_eq (x ∷ xs) (y ∷ ys) = x == y && bytes_eq xs ys

pub bytes_eq_sound : (xs ys : Bytes) → bytes_eq xs ys ≡ true → xs ≡ ys
unfolding bytes_eq
bytes_eq_sound [] [] h = refl
bytes_eq_sound [] (y ∷ ys) h = ground arith
bytes_eq_sound (x ∷ xs) [] h = ground arith
bytes_eq_sound (x ∷ xs) (y ∷ ys) h = ground (arith, bytes_eq_sound xs ys)

pub bytes_eq_refl : (xs : Bytes) → bytes_eq xs xs ≡ true
unfolding bytes_eq
bytes_eq_refl [] = refl
bytes_eq_refl (x ∷ xs) = ground (arith, bytes_eq_refl xs)

pub bytes_eq_iff : (xs ys : Bytes) → (bytes_eq xs ys ≡ true) ↔ (xs ≡ ys)
bytes_eq_iff xs ys = (bytes_eq_sound xs ys, λ e. ap (bytes_eq xs) (sym e) ∙ bytes_eq_refl xs)

-- std::isspace and std::toupper in the C locale
unfoldable pub is_space : ℕ → Bool
is_space c = c == 32 || (leb 9 c && leb c 13)

unfoldable pub to_upper_byte : ℕ → ℕ
to_upper_byte c = if leb b'a' c && leb c b'z' then c - 32 else c

-- std::string::find of one byte; `none` is npos
unfoldable pub find_byte : ℕ → Bytes → Option ℕ
find_byte c [] = none
find_byte c (x ∷ xs) = if x == c then some 0 else Option.map suc (find_byte c xs)

-- No entry is the byte `c`.
abbrev pub Lacks : ℕ → Bytes → Type 0
Lacks c = All (λ x. x ≢ c)

pub find_byte-append :
    (c : ℕ) (xs ys : Bytes) → Lacks c xs → find_byte c (xs ++ c ∷ ys) ≡ some (length xs)
unfolding find_byte
find_byte-append c [] ys h = ground arith
find_byte-append c (x ∷ xs) ys h = ground (arith, find_byte-append c xs ys h.1)

pub find_byte-Lacks : (c : ℕ) (xs : Bytes) → Lacks c xs → find_byte c xs ≡ none
unfolding find_byte
find_byte-Lacks c [] h = refl
find_byte-Lacks c (x ∷ xs) h = ground (arith, find_byte-Lacks c xs h.1)

-- What a found position says of the text.
pub record IsSplit (c : ℕ) (s : Bytes) (i : ℕ) : Type 0 where
  pub before : Lacks c (take i s)
  pub joined : s ≡ take i s ++ c ∷ drop (suc i) s

IsSplit-cons : (c x : ℕ) (xs : Bytes) (i : ℕ) → x ≢ c → IsSplit c xs i → IsSplit c (x ∷ xs) (suc i)
IsSplit-cons c x xs i h s = record { before = (h, s.before); joined = ap (◌∷◌ x) s.joined }

find_byte-cons :
    (c x : ℕ) (o : Option ℕ) (i : ℕ)
    → (if x == c then some 0 else Option.map suc o) ≡ some i
    → ((x ≡ c) × (i ≡ 0)) ⊎ ((j : ℕ) × (x ≢ c) × (o ≡ some j) × (i ≡ suc j))
find_byte-cons c x none i h = ground arith
find_byte-cons c x (some j) i h = elim (Bool-cases (x == c)) [
  | inl e ↦ inl (ground arith)
  | inr e ↦ inr (j, ground arith, refl, ground arith)
]

-- `find` reports the first place of the byte, and the text falls apart there.
pub find_byte-IsSplit : (c : ℕ) (s : Bytes) (i : ℕ) → find_byte c s ≡ some i → IsSplit c s i
unfolding find_byte
find_byte-IsSplit c [] i h = cc
find_byte-IsSplit c (x ∷ xs) i h = elim (find_byte-cons c x (find_byte c xs) i h) [
  | inl (e, z) ↦ rw (z, e) (record { before = tt; joined = refl })
  | inr (j, ne, e, k) ↦ rw k (IsSplit-cons c x xs j ne (find_byte-IsSplit c xs j e))
]

-- std::to_string of a number that is not negative, on fuel
digits_on : ℕ → ℕ → Bytes → Bytes
digits_on zero n acc = acc
digits_on (suc fuel) n acc =
    let rest = digits_on fuel (n / 10) ((n % 10 + b'0') ∷ acc) in if n == 0 then acc else rest

unfoldable pub to_string : ℕ → Bytes
unfolding digits_on
to_string n = if n == 0 then b'0' ∷ [] else digits_on (n + 1) n []

to_string_test : to_string 10485760 ≡ codes "10485760"
unfolding to_string
to_string_test = refl

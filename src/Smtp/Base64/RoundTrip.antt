-- ===== src/Smtp/Base64/RoundTrip.antt =====
-- The decoder against the encoding of RFC 4648, section 4.
use native.Mathlib.Nat.{add-zero}
use mail_server_client.Base.{
  ℕ, ◌+◌, ◌-◌, ◌*◌, ◌/◌, ◌%◌, ◌^◌, ◌<◌, ◌≡◌, refl, ap, sym, false, [], ◌∷◌, ◌++◌, append_assoc,
  append-nil, some, Bytes, is_space, ltb, ◌==◌, if◌then◌else◌, arith, All, codes,
}
use mail_server_client.Smtp.Base64.{sextet, Decoder, push_sextet, decode_loop, decode_base64}

-- The character of a value below 64.
pub character : ℕ → ℕ
character v =
    if ltb v 26
    then v + b'A'
    else if ltb v 52
    then v - 26 + b'a'
    else if ltb v 62
    then v - 52 + b'0'
    else if v == 62
    then b'+'
    else b'/'

-- Three bytes in four characters; a shorter rest is padded by `=`.
pub encode_base64 : Bytes → Bytes
encode_base64 [] = []
encode_base64 (a ∷ []) = character (a / 4) ∷ character (a % 4 * 16) ∷ b'=' ∷ b'=' ∷ []
encode_base64 (a ∷ b ∷ []) =
    character (a / 4) ∷ character (a % 4 * 16 + b / 16) ∷ character (b % 16 * 4) ∷ b'=' ∷ []
encode_base64 (a ∷ b ∷ c ∷ rest) =
    character (a / 4)
    ∷ character (a % 4 * 16 + b / 16)
    ∷ character (b % 16 * 4 + c / 64)
    ∷ character (c % 64)
    ∷ encode_base64 rest

sextet-character : (v : ℕ) → v < 64 → sextet (character v) ≡ some v
unfolding sextet character
sextet-character v h = ground arith

is_space-character : (v : ℕ) → v < 64 → is_space (character v) ≡ false
unfolding is_space character
is_space-character v h = ground arith

character-ne-pad : (v : ℕ) → v < 64 → (character v == b'=') ≡ false
unfolding character
character-ne-pad v h = ground arith

decode_loop-character :
    (v : ℕ) (input : Bytes) (d : Decoder)
    → v < 64
    → decode_loop (character v ∷ input) d ≡ decode_loop input (push_sextet d v)
unfolding decode_loop
decode_loop-character v input d h =
    rw (is_space-character v h, character-ne-pad v h, sextet-character v h, decode_loop) refl

-- A decoder between two groups of four characters.
abbrev aligned : ℕ → Bytes → Decoder
aligned buffer output = record { buffer = buffer; bits = 0; output = output }

abbrev shift : ℕ → ℕ → ℕ
shift buffer value = (buffer * 64 + value) % 2 ^ 32

first_byte :
    (buffer a v : ℕ)
    → a < 256
    → v < 16
    → (shift (shift buffer (a / 4)) (a % 4 * 16 + v) / 2 ^ 4) % 256 ≡ a
first_byte buffer a v ha hv = omega arith

second_byte :
    (buffer b v w : ℕ)
    → b < 256
    → w < 4
    → (shift (shift buffer (v * 16 + b / 16)) (b % 16 * 4 + w) / 2 ^ 2) % 256 ≡ b
second_byte buffer b v w hb hw = omega arith

third_byte :
    (buffer c v : ℕ) → c < 256 → (shift (shift buffer (v * 4 + c / 64)) (c % 64) / 2 ^ 0) % 256 ≡ c
third_byte buffer c v hc = omega arith

-- What two, three and four characters of a group leave in the decoder.
module _ (buffer a b c : ℕ) (output : Bytes) (ha : a < 256) where
  push_two :
      (v : ℕ)
      → v < 16
      → push_sextet (push_sextet (aligned buffer output) (a / 4)) (a % 4 * 16 + v) ≡ record {
        buffer = shift (shift buffer (a / 4)) (a % 4 * 16 + v);
        bits = 4;
        output = output ++ a ∷ [];
      }
  unfolding push_sextet
  push_two v hv = rw (first_byte buffer a v ha hv)

  push_three :
      (w : ℕ)
      → b < 256
      → w < 4
      → push_sextet
          (push_sextet (push_sextet (aligned buffer output) (a / 4)) (a % 4 * 16 + b / 16))
          (b % 16 * 4 + w)
        ≡ record {
          buffer = shift (shift (shift buffer (a / 4)) (a % 4 * 16 + b / 16)) (b % 16 * 4 + w);
          bits = 2;
          output = (output ++ a ∷ []) ++ b ∷ [];
        }
  unfolding push_sextet
  push_three w hb hw = rw (
    first_byte buffer a (b / 16) ha (omega arith),
    second_byte (shift buffer (a / 4)) b (a % 4) w hb hw,
  )

  group_buffer : ℕ
  group_buffer =
      shift (shift (shift (shift buffer (a / 4)) (a % 4 * 16 + b / 16)) (b % 16 * 4 + c / 64))
        (c % 64)

  push_four :
      b < 256
      → c < 256
      → push_sextet
          (push_sextet
            (push_sextet (push_sextet (aligned buffer output) (a / 4)) (a % 4 * 16 + b / 16))
            (b % 16 * 4 + c / 64))
          (c % 64)
        ≡ aligned group_buffer (((output ++ a ∷ []) ++ b ∷ []) ++ c ∷ [])
  unfolding push_sextet group_buffer
  push_four hb hc = rw (
    first_byte buffer a (b / 16) ha (omega arith),
    second_byte (shift buffer (a / 4)) b (a % 4) (c / 64) hb (omega arith),
    third_byte (shift (shift buffer (a / 4)) (a % 4 * 16 + b / 16)) c (b % 16) hc,
  )

abbrev pub IsByte : ℕ → Type 0
IsByte x = x < 256

decode_loop-pad : (input : Bytes) (d : Decoder) → decode_loop (b'=' ∷ input) d ≡ some d.output
unfolding decode_loop is_space
decode_loop-pad input d = refl

decode_loop-encode :
    (input : Bytes) (buffer : ℕ) (output : Bytes)
    → All IsByte input
    → decode_loop (encode_base64 input) (aligned buffer output) ≡ some (output ++ input)
unfolding encode_base64
decode_loop-encode [] buffer output h = unfold decode_loop in ap some (sym (append-nil output))
decode_loop-encode (a ∷ []) buffer output h = rw (
  decode_loop-character (a / 4) _ _ (omega arith),
  decode_loop-character (a % 4 * 16) _ _ (omega arith),
  decode_loop-pad,
  ← add-zero (a % 4 * 16),
  push_two buffer a 0 0 output h.0 0 (omega arith),
)
decode_loop-encode (a ∷ b ∷ []) buffer output h = rw (
  decode_loop-character (a / 4) _ _ (omega arith),
  decode_loop-character (a % 4 * 16 + b / 16) _ _ (omega arith),
  decode_loop-character (b % 16 * 4) _ _ (omega arith),
  decode_loop-pad,
  ← add-zero (b % 16 * 4),
  push_three buffer a b 0 output h.0 0 h.1.0 (omega arith),
  append_assoc,
)
decode_loop-encode (a ∷ b ∷ c ∷ rest) buffer output h =
    rw
      (
        decode_loop-character (a / 4) _ _ (omega arith),
        decode_loop-character (a % 4 * 16 + b / 16) _ _ (omega arith),
        decode_loop-character (b % 16 * 4 + c / 64) _ _ (omega arith),
        decode_loop-character (c % 64) _ _ (omega arith),
        push_four buffer a b c output h.0 h.1.0 h.1.1.0,
        decode_loop-encode rest _ _ h.1.1.1,
      )
      (simp append_assoc)

-- Decoding undoes the encoding of RFC 4648, for every sequence of bytes: however long it is, what
-- the 32-bit buffer loses on the way never reaches the output.
pub decode_base64-encode_base64 :
    (input : Bytes) → All IsByte input → decode_base64 (encode_base64 input) ≡ some input
unfolding decode_base64
decode_base64-encode_base64 input h = decode_loop-encode input 0 [] h

man_test : encode_base64 (codes "Man") ≡ codes "TWFu"
unfolding encode_base64 character
man_test = refl

padded_test : encode_base64 (codes "Password:") ≡ codes "UGFzc3dvcmQ6"
unfolding encode_base64 character
padded_test = refl

-- ===== src/Smtp/Base64.antt =====
-- `DecodeBase64` and `ParsePlainAuth` of apps/smtp-server/src/smtp/SmtpSessionHandler.cpp.
-- `int buffer` is kept as its 32 bits: the shift to the left drops what leaves the word, as the
-- compilers do it. `int bits` starts at -8 and is written 8 higher, so that it is never negative.
pub mod RoundTrip
pub mod Plain
use mail_server_client.Base.{
  ℕ, suc, ◌+◌, ◌-◌, ◌*◌, ◌/◌, ◌%◌, ◌^◌, Bool, true, false, not, ◌&&◌, List, [], ◌∷◌, ◌++◌, Option,
  none, some, Bytes, is_empty, is_space, find_byte, take, drop, ltb, leb, ◌==◌, if◌then◌else◌,
}

-- table[character], with `none` for -1
unfoldable pub sextet : ℕ → Option ℕ
sextet c =
    if leb b'A' c && leb c b'Z'
    then some (c - b'A')
    else if leb b'a' c && leb c b'z'
    then some (c - b'a' + 26)
    else if leb b'0' c && leb c b'9'
    then some (c - b'0' + 52)
    else if c == b'+'
    then some 62
    else if c == b'/'
    then some 63
    else none

pub record Decoder : Type 0 where
  pub buffer : ℕ
  pub bits : ℕ
  pub output : Bytes

abbrev pub decoder_start : Decoder
decoder_start = record { buffer = 0; bits = 0; output = [] }

-- buffer = (buffer << 6) | value; bits += 6; and the byte that is complete, if one is
unfoldable pub push_sextet : Decoder → ℕ → Decoder
push_sextet d value =
    let buffer = (d.buffer * 64 + value) % 2 ^ 32 in
    let bits = d.bits + 6 in
    if ltb bits 8 then record { buffer = buffer; bits = bits; output = d.output } else record {
      buffer = buffer;
      bits = bits - 8;
      output = d.output ++ ((buffer / 2 ^ (bits - 8)) % 256) ∷ [];
    }

unfoldable pub decode_loop : Bytes → Decoder → Option Bytes
decode_loop [] d = some d.output
decode_loop (c ∷ input) d = elim (is_space c) [
  | true ↦ decode_loop input d
  | false ↦ elim (c == b'=') [
    | true ↦ some d.output
    | false ↦ elim (sextet c) [ none ↦ none | some value ↦ decode_loop input (push_sextet d value) ]
  ]
]

unfoldable pub decode_base64 : Bytes → Option Bytes
decode_base64 input = decode_loop input decoder_start

-- `ParsePlainAuth` behind its decoding: the text behind the first NUL is cut at the next NUL.
unfoldable pub credentials_at : Bytes → ℕ → Option (Bytes × Bytes)
credentials_at rest second =
    if not (is_empty (take second rest))
    then some (take second rest, drop (suc second) rest)
    else none

unfoldable pub read_credentials : Bytes → Option (Bytes × Bytes)
read_credentials rest = elim (find_byte 0 rest) [
  | none ↦ none
  | some second ↦ credentials_at rest second
]

unfoldable pub split_credentials : Bytes → Option (Bytes × Bytes)
split_credentials value = elim (find_byte 0 value) [
  | none ↦ none
  | some first ↦ read_credentials (drop (suc first) value)
]

-- `none` is `false`: the callers read the two results only if it is `true`.
unfoldable pub parse_plain_auth : Bytes → Option (Bytes × Bytes)
unfolding split_credentials read_credentials credentials_at
parse_plain_auth encoded = elim (decode_base64 encoded) [
  | none ↦ none
  | some value ↦ split_credentials value
]

-- ===== src/Smtp/Base64/Plain.antt =====
-- The credentials of AUTH PLAIN (RFC 4616): authzid NUL authcid NUL passwd.
use mail_server_client.Base.{
  ℕ, suc, ◌≡◌, refl, ap, inl, inr, false, [], ◌∷◌, ◌++◌, some, Bytes, length, drop, take,
  take-append, is_empty, find_byte, find_byte-append, find_byte-IsSplit, Lacks, All, sym, ◌∙◌,
  Option-cases, Bool-cases,
}
use mail_server_client.Smtp.Base64.{
  credentials_at, read_credentials, split_credentials, parse_plain_auth,
}
use mail_server_client.Smtp.Base64.RoundTrip.{encode_base64, IsByte, decode_base64-encode_base64}

-- authzid NUL username NUL secret
abbrev pub plain_message : Bytes → Bytes → Bytes → Bytes
plain_message authzid username secret = authzid ++ 0 ∷ (username ++ 0 ∷ secret)

drop-suc-append : (xs : Bytes) (c : ℕ) (ys : Bytes) → drop (suc (length xs)) (xs ++ c ∷ ys) ≡ ys
drop-suc-append [] c ys = refl
drop-suc-append (x ∷ xs) c ys = drop-suc-append xs c ys

read_credentials-append :
    (username secret : Bytes)
    → Lacks 0 username
    → is_empty username ≡ false
    → read_credentials (username ++ 0 ∷ secret) ≡ some (username, secret)
unfolding read_credentials credentials_at
read_credentials-append username secret hu ne = rw (
  find_byte-append 0 username secret hu,
  read_credentials,
  drop-suc-append username 0 secret,
  take-append username (0 ∷ secret),
  ne,
)

split_credentials-plain_message :
    (authzid username secret : Bytes)
    → Lacks 0 authzid
    → Lacks 0 username
    → is_empty username ≡ false
    → split_credentials (plain_message authzid username secret) ≡ some (username, secret)
unfolding split_credentials
split_credentials-plain_message authzid username secret hz hu ne =
    rw
      (
        find_byte-append 0 authzid (username ++ 0 ∷ secret) hz,
        split_credentials,
        drop-suc-append authzid 0 (username ++ 0 ∷ secret),
      )
      (read_credentials-append username secret hu ne)

-- Whatever a client encodes as RFC 4616 asks is read back, if the user name is not empty and no NUL
-- stands in the two names.
pub parse_plain_auth-encode_base64 :
    (authzid username secret : Bytes)
    → All IsByte (plain_message authzid username secret)
    → Lacks 0 authzid
    → Lacks 0 username
    → is_empty username ≡ false
    → parse_plain_auth (encode_base64 (plain_message authzid username secret))
      ≡ some (username, secret)
unfolding parse_plain_auth
parse_plain_auth-encode_base64 authzid username secret bytes hz hu ne =
    rw (decode_base64-encode_base64 _ bytes, parse_plain_auth)
      (split_credentials-plain_message authzid username secret hz hu ne)

-- The credentials that a decoded response holds.
pub record Holds (value username secret : Bytes) : Type 0 where
  pub authzid : Bytes
  pub is_message : value ≡ plain_message authzid username secret
  pub authzid_lacks : Lacks 0 authzid
  pub username_lacks : Lacks 0 username
  pub named : is_empty username ≡ false

credentials_at-parts :
    (rest : Bytes) (second : ℕ) (username secret : Bytes)
    → credentials_at rest second ≡ some (username, secret)
    → (take second rest ≡ username)
      × (drop (suc second) rest ≡ secret)
      × (is_empty username ≡ false)
unfolding credentials_at
credentials_at-parts rest second username secret h =
    elim (Bool-cases (is_empty (take second rest))) [
      | inl e ↦ let g = rw e at h in cc
      | inr e ↦
          let g = rw e at h in
          let name : take second rest ≡ username = cc in (name, cc, ap is_empty (sym name) ∙ e)
    ]

read_credentials-parts :
    (rest username secret : Bytes)
    → read_credentials rest ≡ some (username, secret)
    → (rest ≡ username ++ 0 ∷ secret) × Lacks 0 username × (is_empty username ≡ false)
unfolding read_credentials
read_credentials-parts rest username secret h = elim (Option-cases (find_byte 0 rest)) [
  | inl e ↦ let g = rw (e, read_credentials) at h in cc
  | inr (second, e) ↦
      let g = rw (e, read_credentials) at h in
      let (name, tail, named) = credentials_at-parts rest second username secret g in
      let s = find_byte-IsSplit 0 rest second e in
      (rw (name, tail) at s.joined, rw name at s.before, named)
]

-- The other way round: what is read from a response is what stands between its first two NULs and
-- behind them, and the user name is not empty.
pub split_credentials-Holds :
    (value username secret : Bytes)
    → split_credentials value ≡ some (username, secret)
    → Holds value username secret
unfolding split_credentials
split_credentials-Holds value username secret h = elim (Option-cases (find_byte 0 value)) [
  | inl e ↦ let g = rw (e, split_credentials) at h in cc
  | inr (first, e) ↦
      let g = rw (e, split_credentials) at h in
      let parts = read_credentials-parts (drop (suc first) value) username secret g in
      let s = find_byte-IsSplit 0 value first e in
      record {
        authzid = take first value;
        is_message = rw parts.0 at s.joined;
        authzid_lacks = s.before;
        username_lacks = parts.1;
        named = parts.2;
      }
]

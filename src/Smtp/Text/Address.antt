-- ===== src/Smtp/Text/Address.antt =====
-- The address of a MAIL or RCPT argument (`ExtractPathArgument`).
use mail_server_client.Base.{
  ℕ, suc, ◌+◌, ◌-◌, ◌≡◌, refl, true, false, [], ◌∷◌, ◌++◌, Bytes, arith, is_space, find_byte-append,
  find_byte-Lacks, Lacks, All-append, length, length-append, take-append, drop, ◌≢◌, leb,
}
use mail_server_client.Smtp.Text.{
  after_colon, before_space, back_is, strip_angles, extract_path_argument,
}
use mail_server_client.Smtp.Text.Trim.{IsTrimmed, FrontFree, BackFree, BackFree-append, trim-id}

-- An address as a path writes it.
abbrev pub in_angles : Bytes → Bytes
in_angles address = b'<' ∷ address ++ b'>' ∷ []

back_is-append : (c : ℕ) (s : Bytes) → back_is c (s ++ c ∷ []) ≡ true
back_is-append c [] = ground arith
back_is-append c (x ∷ []) = ground arith
back_is-append c (x ∷ y ∷ ys) = back_is-append c (y ∷ ys)

back_is-cons : (c x : ℕ) (s : Bytes) → back_is c (x ∷ s ++ c ∷ []) ≡ back_is c (s ++ c ∷ [])
back_is-cons c x [] = refl
back_is-cons c x (y ∷ ys) = refl

strip_angles-in_angles : (address : Bytes) → strip_angles (in_angles address) ≡ address
unfolding strip_angles
strip_angles-in_angles address =
    let size : length (address ++ b'>' ∷ []) ≡ length address + 1 =
      length-append address (b'>' ∷ []) in
    let long : leb 2 (suc (length address + 1)) ≡ true = ground arith in
    let inner : suc (length address + 1) - 2 ≡ length address = omega arith in
    rw (back_is-cons b'>' b'<' address, back_is-append b'>' address, size, long, inner)
      (take-append address (b'>' ∷ []))

is_space-close : is_space b'>' ≡ false
unfolding is_space
is_space-close = refl

is_space-open : is_space b'<' ≡ false
unfolding is_space
is_space-open = refl

in_angles-IsTrimmed : (address : Bytes) → IsTrimmed (in_angles address)
in_angles-IsTrimmed address = record {
  front = is_space-open;
  back = BackFree-append (b'<' ∷ address) b'>' is_space-close;
}

before_space-Lacks : (s : Bytes) → Lacks b' ' s → before_space s ≡ s
unfolding before_space
before_space-Lacks s h = rw (find_byte-Lacks b' ' s h, before_space)

pub drop-suc-append : (p : Bytes) (c : ℕ) (r : Bytes) → drop (suc (length p)) (p ++ c ∷ r) ≡ r
drop-suc-append [] c r = refl
drop-suc-append (x ∷ p) c r = drop-suc-append p c r

after_colon-append : (p r : Bytes) → Lacks b':' p → IsTrimmed r → after_colon (p ++ b':' ∷ r) ≡ r
unfolding after_colon
after_colon-append p r h t =
    rw (find_byte-append b':' p r h, after_colon) (rw (drop-suc-append p b':' r) (trim-id r t))

in_angles-Lacks : (address : Bytes) → Lacks b' ' address → Lacks b' ' (in_angles address)
in_angles-Lacks address h =
    (ground arith, All-append (λ x. x ≢ b' ') address (b'>' ∷ []) h (ground arith, tt))

pub BackFree-path : (p address : Bytes) → BackFree (p ++ b':' ∷ in_angles address)
BackFree-path [] address = BackFree-append (b':' ∷ b'<' ∷ address) b'>' is_space-close
BackFree-path (x ∷ []) address = BackFree-path [] address
BackFree-path (x ∷ y ∷ p) address = BackFree-path (y ∷ p) address

-- The argument of `MAIL FROM:<address>` and `RCPT TO:<address>` is the address between the brackets:
-- for every keyword `p` that has no colon and does not begin with a space, and every address without
-- a space.
pub extract_path_argument-in_angles :
    (p address : Bytes)
    → FrontFree (p ++ b':' ∷ in_angles address)
    → Lacks b':' p
    → Lacks b' ' address
    → extract_path_argument (p ++ b':' ∷ in_angles address) ≡ address
unfolding extract_path_argument
extract_path_argument-in_angles p address front no_colon no_space =
    rw
      (
        trim-id _ (record { front = front; back = BackFree-path p address }),
        after_colon-append p (in_angles address) no_colon (in_angles-IsTrimmed address),
        before_space-Lacks (in_angles address) (in_angles-Lacks address no_space),
      )
      (strip_angles-in_angles address)

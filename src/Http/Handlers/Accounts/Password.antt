-- ===== src/Http/Handlers/Accounts/Password.antt =====
-- The hash of a password and its check.
use mail_server_client.Base.{
  ℕ, suc, ◌≡◌, ◌↔◌, refl, sym, ap, ◌∙◌, true, [], ◌∷◌, ◌++◌, Bytes, bytes_eq, bytes_eq_sound,
  bytes_eq_refl, find_byte-append, Lacks, length, drop, take-append, All-append, arith,
}
use mail_server_client.Storage.Database.{bind_text}
use mail_server_client.Http.World.{Crypto}
use mail_server_client.Http.Handlers.Accounts.{hash_with, verify_password}
use mail_server_client.Storage.Database.Laws.{bind_text-Lacks}

-- What HexEncoder and HexDecoder promise: digits only, and that they undo each other.
pub record HexLaws (c : Crypto) : Type 0 where
  pub round_trip : (x : Bytes) → c.from_hex (c.to_hex x) ≡ x
  pub no_colon : (x : Bytes) → Lacks b':' (c.to_hex x)
  pub no_nul : (x : Bytes) → Lacks 0 (c.to_hex x)

drop-after : (c : ℕ) (xs ys : Bytes) → drop (suc (length xs)) (xs ++ c ∷ ys) ≡ ys
drop-after c [] ys = refl
drop-after c (x ∷ xs) ys = drop-after c xs ys

colon-Lacks : (xs : Bytes) → Lacks 0 xs → Lacks 0 (b':' ∷ xs)
colon-Lacks xs h = ((λ e. absurd (ground arith)), h)

module _ (c : Crypto) (laws : HexLaws c) (password salt : Bytes) where
  to_hex_injective : (x y : Bytes) → c.to_hex x ≡ c.to_hex y → x ≡ y
  to_hex_injective x y h = sym (laws.round_trip x) ∙ ap c.from_hex h ∙ laws.round_trip y

  verify_run :
      (attempt : Bytes)
      → verify_password c attempt (hash_with c salt password)
        ≡ bytes_eq (c.to_hex (c.derive_key attempt salt)) (c.to_hex (c.derive_key password salt))
  unfolding verify_password hash_with
  verify_run attempt =
      rw
        (
          find_byte-append b':' (c.to_hex salt) (c.to_hex (c.derive_key password salt))
              (laws.no_colon salt),
          take-append (c.to_hex salt) (b':' ∷ c.to_hex (c.derive_key password salt)),
          drop-after b':' (c.to_hex salt) (c.to_hex (c.derive_key password salt)),
          laws.round_trip salt,
          verify_password,
        )
        refl

  -- A password is accepted against the hash of another, under any salt, exactly where the key derivation
  -- gives both the same key with that salt; the hex codec is assumed to give digits only and to be
  -- undone by the decoder.
  pub verify_password-hash :
      (attempt : Bytes)
      → (verify_password c attempt (hash_with c salt password) ≡ true)
        ↔ (c.derive_key attempt salt ≡ c.derive_key password salt)
  verify_password-hash attempt = (
    λ h. to_hex_injective _ _ (bytes_eq_sound _ _ (sym (verify_run attempt) ∙ h)),
    λ h.
        verify_run attempt
        ∙ ap (λ k. bytes_eq (c.to_hex k) (c.to_hex (c.derive_key password salt))) h
        ∙ bytes_eq_refl _,
  )

  -- The hash is stored as it is: it holds no NUL.
  pub hash_with-bind_text : bind_text (hash_with c salt password) ≡ hash_with c salt password
  unfolding hash_with
  hash_with-bind_text = bind_text-Lacks _ (
      All-append _ (c.to_hex salt) _ (laws.no_nul salt)
        (colon-Lacks _ (laws.no_nul (c.derive_key password salt))))

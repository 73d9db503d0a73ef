-- ===== src/Smtp/Protocol/Invariant.antt =====
-- The invariant of a session's state, and the parts of it that the commands keep.
use mail_server_client.Base.{
  ℕ, ◌+◌, ◌≤◌, ◌≡◌, refl, Bool, true, false, List, [], ◌∷◌, ◌++◌, Bytes, is_empty, length,
  length-append, arith,
}
use mail_server_client.Smtp.State.{
  SessionState, Phase, AuthStage, Context, no_stage, initial_state, crlf,
}
use mail_server_client.Smtp.Handler.Auth.{is_auth_allowed}
use mail_server_client.Smtp.Handler.Greeting.{is_receiving}
use mail_server_client.Smtp.Handler.Transaction.{reset_mail_transaction}

abbrev pub is_idle : AuthStage → Bool
is_idle no_stage = true
is_idle _ = false

pub record Inv (ctx : Context) (s : SessionState) : Type 0 where
  -- While a message is received there is a sender and a recipient, and no AUTH is pending.
  pub sender_known : is_receiving s.phase ≡ true → is_empty s.sender ≡ false
  pub recipient_known : is_receiving s.phase ≡ true → is_empty s.recipients ≡ false
  pub no_auth_in_data : is_receiving s.phase ≡ true → is_idle s.auth_stage ≡ true
  -- Recipients are named only behind a sender.
  pub sender_first : is_empty s.recipients ≡ false → is_empty s.sender ≡ false
  -- The message is within the limit.
  pub bounded : length s.message_buffer ≤ ctx.config.max_message_size_bytes
  -- Who must authenticate has done so before naming a sender.
  pub sender_authenticated :
      ctx.config.require_authentication ≡ true → is_empty s.sender ≡ false → s.authenticated ≡ true
  -- An AUTH is pending only before the session is authenticated.
  pub auth_once : is_idle s.auth_stage ≡ false → s.authenticated ≡ false
  -- No credentials are asked for, or taken, where they would pass in the clear against the rules.
  pub auth_allowed : is_idle s.auth_stage ≡ false → is_auth_allowed ctx s ≡ true
  pub authenticated_allowed : s.authenticated ≡ true → is_auth_allowed ctx s ≡ true

pub initial_state-Inv : (ctx : Context) (connection_id : ℕ) → Inv ctx (initial_state connection_id)
unfolding is_receiving
initial_state-Inv ctx connection_id = ground arith

is_receiving-reset : (s : SessionState) → is_receiving (reset_mail_transaction s).phase ≡ false
unfolding is_receiving reset_mail_transaction
is_receiving-reset s = ground arith

pub reset_mail_transaction-Inv :
    (ctx : Context) (s : SessionState) → Inv ctx s → Inv ctx (reset_mail_transaction s)
unfolding is_receiving reset_mail_transaction is_auth_allowed
reset_mail_transaction-Inv ctx s h = ground arith

pub is_empty-snoc {ℓ} : {A : Type ℓ} (xs : List A) (x : A) → is_empty (xs ++ x ∷ []) ≡ false
is_empty-snoc [] x = refl
is_empty-snoc (y ∷ ys) x = refl

pub length-line :
    (buffer line : Bytes) → length (buffer ++ (line ++ crlf)) ≡ length buffer + length line + 2
length-line buffer line =
    omega (arith, length-append buffer (line ++ crlf), length-append line crlf)

pub with_phase-Inv :
    (ctx : Context) (s : SessionState) (phase : Phase)
    → is_receiving phase ≡ false
    → Inv ctx s
    → Inv ctx (record s { phase = phase })
unfolding is_auth_allowed
with_phase-Inv ctx s phase e h = ground arith

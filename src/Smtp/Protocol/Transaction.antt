-- ===== src/Smtp/Protocol/Transaction.antt =====
-- The lines of a mail transaction keep the invariant.
use mail_server_client.Base.{ℕ, ◌≡◌, true, Bytes, arith, if_elim, bytes_eq, codes}
use mail_server_client.Storage.Database.{Result, ok, err, Db}
use mail_server_client.Smtp.State.{SessionState, Context, World, Outcome}
use mail_server_client.Smtp.Handler.Transaction.{
  acknowledge, end_of_message, append_line, unstuff, receive_line, handle_mail, handle_rcpt,
  handle_data,
}
use mail_server_client.Smtp.Handler.Auth.{is_auth_allowed}
use mail_server_client.Smtp.Handler.Greeting.{is_receiving}
use mail_server_client.Smtp.Protocol.Invariant.{
  Inv, is_idle, reset_mail_transaction-Inv, length-line,
}

module _ (ctx : Context) (s : SessionState) (w : World) where
  -- The transaction.
  pub handle_mail-Inv :
      (argument : Bytes) → Inv ctx s → Inv ctx (handle_mail ctx argument s w).state
  unfolding handle_mail is_receiving is_auth_allowed
  handle_mail-Inv argument h = ground arith

  pub handle_rcpt-Inv : (argument : Bytes) → Inv ctx s → Inv ctx (handle_rcpt argument s w).state
  unfolding handle_rcpt is_receiving is_auth_allowed
  handle_rcpt-Inv argument h = ground arith

  pub handle_data-Inv : is_idle s.auth_stage ≡ true → Inv ctx s → Inv ctx (handle_data s w).state
  unfolding handle_data is_receiving is_auth_allowed
  handle_data-Inv idle h = ground arith

  append_line-Inv :
      (line : Bytes)
      → is_receiving s.phase ≡ true
      → Inv ctx s
      → Inv ctx (append_line ctx line s w).state
  unfolding append_line is_receiving is_auth_allowed
  append_line-Inv line r h = ground (arith, length-line s.message_buffer line)

  acknowledge-Inv : (r : Result ℕ × Db) → Inv ctx s → Inv ctx (acknowledge s w r).state
  unfolding acknowledge is_receiving
  acknowledge-Inv (ok id, db) h = reset_mail_transaction-Inv ctx s h
  acknowledge-Inv (err e, db) h = h

  pub receive_line-Inv :
      (line : Bytes)
      → is_receiving s.phase ≡ true
      → Inv ctx s
      → Inv ctx (receive_line ctx line s w).state
  unfolding receive_line end_of_message
  receive_line-Inv line r h =
      if_elim (λ (o : Outcome). Inv ctx o.state) (bytes_eq line (codes ".")) _ _
        (λ _. acknowledge-Inv _ h) (λ _. append_line-Inv (unstuff line) r h)

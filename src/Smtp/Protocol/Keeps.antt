-- ===== src/Smtp/Protocol/Keeps.antt =====
-- Every event keeps the invariant.
use mail_server_client.Base.{◌≡◌, refl, ap, true, false, Bytes, arith, if_elim}
use mail_server_client.Smtp.Text.{trim}
use mail_server_client.Smtp.State.{
  Event, EventType, connected, message_received, tls_succeeded, tls_failed, disconnected,
  SessionState, AuthStage, Context, World, Outcome, no_stage, plain_response, login_username,
  login_password,
}
use mail_server_client.Smtp.Handler.{
  Verb, helo, ehlo, starttls, auth, mail, rcpt, begin_data, rset, vrfy, expn, help, noop, quit,
  other_verb, run_verb, handle_command, handle_plain_line, handle_line, handle_message_received,
  handle_type, handle_event, handle_connected, handle_disconnected, handle_tls_succeeded,
  handle_tls_failed, verb_of, split_line,
}
use mail_server_client.Smtp.Handler.Transaction.{handle_rset}
use mail_server_client.Smtp.Handler.Auth.{is_auth_allowed}
use mail_server_client.Smtp.Handler.Greeting.{
  is_receiving, handle_helo, handle_ehlo, handle_starttls, handle_quit, reply_only,
}
use mail_server_client.Smtp.Protocol.Invariant.{Inv, is_idle, reset_mail_transaction-Inv}
use mail_server_client.Smtp.Protocol.Transaction.{
  handle_mail-Inv, handle_rcpt-Inv, handle_data-Inv, receive_line-Inv,
}
use mail_server_client.Smtp.Protocol.Auth.{
  receive_plain-Inv, receive_username-Inv, receive_password-Inv, handle_auth-Inv,
}

module _ (ctx : Context) (s : SessionState) (w : World) where
  -- The other commands.
  handle_ehlo-Inv : (argument : Bytes) → Inv ctx s → Inv ctx (handle_ehlo ctx argument s w).state
  unfolding handle_ehlo is_receiving is_auth_allowed
  handle_ehlo-Inv argument h = ground arith

  handle_helo-Inv : (argument : Bytes) → Inv ctx s → Inv ctx (handle_helo ctx argument s w).state
  unfolding handle_helo is_receiving is_auth_allowed
  handle_helo-Inv argument h = ground arith

  handle_starttls-Inv : Inv ctx s → Inv ctx (handle_starttls ctx s w).state
  unfolding handle_starttls is_receiving is_auth_allowed
  handle_starttls-Inv h = ground arith

  handle_quit-Inv : Inv ctx s → Inv ctx (handle_quit ctx s w).state
  unfolding handle_quit is_receiving is_auth_allowed
  handle_quit-Inv h = ground arith

  run_verb-Inv :
      (verb : Verb) (argument : Bytes)
      → is_receiving s.phase ≡ false
      → is_idle s.auth_stage ≡ true
      → Inv ctx s
      → Inv ctx (run_verb ctx verb argument s w).state
  unfolding run_verb reply_only handle_rset
  run_verb-Inv helo argument r idle h = handle_helo-Inv argument h
  run_verb-Inv ehlo argument r idle h = handle_ehlo-Inv argument h
  run_verb-Inv starttls argument r idle h = handle_starttls-Inv h
  run_verb-Inv auth argument r idle h = handle_auth-Inv ctx s w argument r h
  run_verb-Inv mail argument r idle h = handle_mail-Inv ctx s w argument h
  run_verb-Inv rcpt argument r idle h = handle_rcpt-Inv ctx s w argument h
  run_verb-Inv begin_data argument r idle h = handle_data-Inv ctx s w idle h
  run_verb-Inv rset argument r idle h = reset_mail_transaction-Inv ctx s h
  run_verb-Inv quit argument r idle h = handle_quit-Inv h
  run_verb-Inv vrfy argument r idle h = h
  run_verb-Inv expn argument r idle h = h
  run_verb-Inv help argument r idle h = h
  run_verb-Inv noop argument r idle h = h
  run_verb-Inv other_verb argument r idle h = h

  handle_plain_line-Inv :
      (line : Bytes)
      → is_idle s.auth_stage ≡ true
      → Inv ctx s
      → Inv ctx (handle_plain_line ctx line s w).state
  unfolding handle_plain_line handle_command
  handle_plain_line-Inv line idle h =
      if_elim (λ (o : Outcome). Inv ctx o.state) (is_receiving s.phase) _ _
        (λ r. receive_line-Inv ctx s w line r h)
        (λ r. run_verb-Inv (verb_of (split_line line).0) (split_line line).1 r idle h)

  -- A session that waits for an answer to AUTH receives no message.
  busy-not-receiving : is_idle s.auth_stage ≡ false → Inv ctx s → is_receiving s.phase ≡ false
  busy-not-receiving busy h = ground arith

  handle_line-Inv :
      (stage : AuthStage) (line : Bytes)
      → s.auth_stage ≡ stage
      → Inv ctx s
      → Inv ctx (handle_line stage ctx line s w).state
  unfolding handle_line
  handle_line-Inv no_stage line e h = handle_plain_line-Inv line (ap is_idle e) h
  handle_line-Inv plain_response line e h = receive_plain-Inv ctx s w line (ap is_idle e) h
  handle_line-Inv login_username line e h =
      receive_username-Inv ctx s w line (ap is_idle e) (busy-not-receiving (ap is_idle e) h) h
  handle_line-Inv login_password line e h = receive_password-Inv ctx s w line (ap is_idle e) h

  handle_disconnected-Inv : Inv ctx s → Inv ctx (handle_disconnected s w).state
  unfolding handle_disconnected is_receiving is_auth_allowed
  handle_disconnected-Inv h = ground arith

  handle_tls_succeeded-Inv : Inv ctx s → Inv ctx (handle_tls_succeeded s w).state
  unfolding handle_tls_succeeded is_receiving is_auth_allowed
  handle_tls_succeeded-Inv h = ground arith

  handle_tls_failed-Inv : Inv ctx s → Inv ctx (handle_tls_failed s w).state
  unfolding handle_tls_failed is_receiving is_auth_allowed
  handle_tls_failed-Inv h = ground arith

  handle_connected-Inv : Inv ctx s → Inv ctx (handle_connected ctx s w).state
  unfolding handle_connected is_receiving is_auth_allowed
  handle_connected-Inv h = ground arith

  handle_type-Inv :
      (type : EventType) (payload : Bytes)
      → Inv ctx s
      → Inv ctx (handle_type type ctx payload s w).state
  unfolding handle_type handle_message_received
  handle_type-Inv connected payload h = handle_connected-Inv h
  handle_type-Inv message_received payload h = handle_line-Inv s.auth_stage (trim payload) refl h
  handle_type-Inv tls_succeeded payload h = handle_tls_succeeded-Inv h
  handle_type-Inv tls_failed payload h = handle_tls_failed-Inv h
  handle_type-Inv disconnected payload h = handle_disconnected-Inv h

  -- Every event, in whatever state of the world and also if the handler throws, keeps the invariant of
  -- a session: in DATA there are a sender and a recipient and no AUTH is pending, recipients are named
  -- only behind a sender, the message is within the limit, who must authenticate has done so before
  -- naming a sender, and an AUTH is pending, or done, only where the rules on TLS allow it.
  pub handle_event-Inv : (event : Event) → Inv ctx s → Inv ctx (handle_event ctx event s w).state
  unfolding handle_event
  handle_event-Inv event h = handle_type-Inv event.type event.payload h

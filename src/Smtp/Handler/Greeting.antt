-- ===== src/Smtp/Handler/Greeting.antt =====
-- HELO, EHLO, STARTTLS, QUIT, and the commands that only reply.
use mail_server_client.Base.{
  ℕ, Bool, true, false, not, ◌&&◌, ◌||◌, [], ◌++◌, Bytes, codes, to_string, if◌then◌else◌,
}
use mail_server_client.Smtp.State.{
  SessionState, Phase, Context, World, Outcome, waiting_for_greeting, ready_for_mail,
  receiving_message, closing, SocketCall, send, close, start_tls, call, returned, send_reply, crlf,
}
use mail_server_client.Smtp.Handler.Auth.{is_auth_allowed}
use mail_server_client.Smtp.Handler.Transaction.{reset_mail_transaction}

unfoldable pub call_if : Bool → SocketCall → World → World
unfolding call
call_if b c w = if b then call c w else w

abbrev greeted : Bytes → SessionState → SessionState
greeted argument s = record s { client_name = argument; phase = ready_for_mail }

unfoldable pub handle_helo : Context → Bytes → SessionState → World → Outcome
unfolding send_reply
handle_helo ctx argument s w =
    returned (greeted argument s) (send_reply s.connection_id 250 ctx.config.server_name w)

unfoldable pub handle_ehlo : Context → Bytes → SessionState → World → Outcome
unfolding call_if is_auth_allowed
handle_ehlo ctx argument s w =
    let id = s.connection_id in
    let w₁ = call (send id (codes "250-" ++ (ctx.config.server_name ++ crlf))) w in
    let w₂ =
      call_if (ctx.config.tls.enabled && not s.tls_active) (send id (codes "250-STARTTLS" ++ crlf))
        w₁ in
    let w₃ =
      call_if (not s.authenticated && is_auth_allowed ctx s)
        (send id (codes "250-AUTH PLAIN LOGIN" ++ crlf)) w₂ in
    returned (greeted argument s) (
      call (send id (codes "250 SIZE " ++ (to_string ctx.config.max_message_size_bytes ++ crlf)))
        w₃)

unfoldable pub is_receiving : Phase → Bool
is_receiving receiving_message = true
is_receiving _ = false

unfoldable pub handle_starttls : Context → SessionState → World → Outcome
unfolding reset_mail_transaction send_reply call is_receiving
handle_starttls ctx s w =
    if not ctx.config.tls.enabled
    then returned s (send_reply s.connection_id 454 (codes "TLS not available") w)
    else if s.tls_active || s.tls_handshake_pending
    then returned s (send_reply s.connection_id 503 (codes "TLS is already active") w)
    else if is_receiving s.phase
    then returned s (send_reply s.connection_id 503 (codes "Cannot start TLS during DATA") w)
    else returned
        (record (reset_mail_transaction s) {
          client_name = [];
          authenticated = false;
          authenticated_identity = [];
          tls_handshake_pending = true;
          phase = waiting_for_greeting;
        })
        (call (start_tls s.connection_id)
          (send_reply s.connection_id 220 (codes "Ready to start TLS") w))

unfoldable pub handle_quit : Context → SessionState → World → Outcome
unfolding send_reply call
handle_quit ctx s w =
    returned (record s { phase = closing })
      (call (close s.connection_id)
        (send_reply s.connection_id 221 (ctx.config.server_name ++ codes " closing connection") w))

-- A command that changes nothing.
unfoldable pub reply_only : ℕ → Bytes → SessionState → World → Outcome
unfolding send_reply
reply_only code message s w = returned s (send_reply s.connection_id code message w)

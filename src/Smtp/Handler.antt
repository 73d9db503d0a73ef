-- ===== src/Smtp/Handler.antt =====
-- `SmtpSessionHandler`, apps/smtp-server/src/smtp/SmtpSessionHandler.cpp. Each part of
-- HandleMessageReceived that ends in a `return` is a function of its own, in the children.
pub mod Transaction
pub mod Auth
pub mod Greeting
use mail_server_client.Base.{
  ℕ, suc, Bool, true, false, ◌||◌, Option, none, some, [], ◌∷◌, ◌++◌, Bytes, codes, bytes_eq,
  find_byte, take, drop, if◌then◌else◌,
}
use mail_server_client.Smtp.Text.{trim, to_upper}
use mail_server_client.Smtp.State.{
  Event, EventType, connected, message_received, tls_succeeded, tls_failed, disconnected,
  SessionState, Phase, AuthStage, Context, World, Outcome, waiting_for_greeting, closed, no_stage,
  plain_response, login_username, login_password, close, call, returned, send_reply,
}
use Transaction.{
  reset_mail_transaction, receive_line, handle_mail, handle_rcpt, handle_data, handle_rset,
}
use Auth.{receive_plain, receive_username, receive_password, handle_auth}
use Greeting.{handle_helo, handle_ehlo, handle_starttls, handle_quit, reply_only, is_receiving}

-- The commands that the chain of comparisons tells apart.
pub data Verb : Type 0 where
  helo ehlo starttls auth mail rcpt begin_data rset vrfy expn help noop quit other_verb : Verb

unfoldable pub verb_of : Bytes → Verb
verb_of command =
    if bytes_eq command (codes "HELO")
    then helo
    else if bytes_eq command (codes "EHLO")
    then ehlo
    else if bytes_eq command (codes "STARTTLS")
    then starttls
    else if bytes_eq command (codes "AUTH")
    then auth
    else if bytes_eq command (codes "MAIL")
    then mail
    else if bytes_eq command (codes "RCPT")
    then rcpt
    else if bytes_eq command (codes "DATA")
    then begin_data
    else if bytes_eq command (codes "RSET")
    then rset
    else if bytes_eq command (codes "VRFY")
    then vrfy
    else if bytes_eq command (codes "EXPN")
    then expn
    else if bytes_eq command (codes "HELP")
    then help
    else if bytes_eq command (codes "NOOP")
    then noop
    else if bytes_eq command (codes "QUIT")
    then quit
    else other_verb

unfoldable pub run_verb : Context → Verb → Bytes → SessionState → World → Outcome
run_verb ctx helo argument s w = handle_helo ctx argument s w
run_verb ctx ehlo argument s w = handle_ehlo ctx argument s w
run_verb ctx starttls argument s w = handle_starttls ctx s w
run_verb ctx auth argument s w = handle_auth ctx argument s w
run_verb ctx mail argument s w = handle_mail ctx argument s w
run_verb ctx rcpt argument s w = handle_rcpt argument s w
run_verb ctx begin_data argument s w = handle_data s w
run_verb ctx rset argument s w = handle_rset s w
run_verb ctx vrfy argument s w =
    reply_only 252 (codes "Cannot VRFY user, but will accept message") s w
run_verb ctx expn argument s w = reply_only 502 (codes "EXPN not implemented") s w
run_verb ctx help argument s w =
    reply_only 214
      (codes "Commands: HELO EHLO MAIL RCPT DATA RSET VRFY EXPN HELP NOOP QUIT STARTTLS AUTH") s w
run_verb ctx noop argument s w = reply_only 250 (codes "OK") s w
run_verb ctx quit argument s w = handle_quit ctx s w
run_verb ctx other_verb argument s w = reply_only 500 (codes "Command unrecognized") s w

-- The command and its argument.
unfoldable pub split_line : Bytes → Bytes × Bytes
split_line line = elim (find_byte b' ' line) [
  | none ↦ (to_upper line, [])
  | some space ↦ (to_upper (take space line), trim (drop (suc space) line))
]

unfoldable pub handle_command : Context → Bytes → SessionState → World → Outcome
handle_command ctx line s w = run_verb ctx (verb_of (split_line line).0) (split_line line).1 s w

-- With no answer to AUTH pending.
unfoldable pub handle_plain_line : Context → Bytes → SessionState → World → Outcome
unfolding is_receiving
handle_plain_line ctx line s w =
    if is_receiving s.phase then receive_line ctx line s w else handle_command ctx line s w

unfoldable pub handle_line : AuthStage → Context → Bytes → SessionState → World → Outcome
handle_line plain_response ctx line s w = receive_plain ctx line s w
handle_line login_username ctx line s w = receive_username line s w
handle_line login_password ctx line s w = receive_password ctx line s w
handle_line no_stage ctx line s w = handle_plain_line ctx line s w

unfoldable pub handle_message_received : Context → Bytes → SessionState → World → Outcome
handle_message_received ctx payload s w = handle_line s.auth_stage ctx (trim payload) s w

unfoldable pub handle_connected : Context → SessionState → World → Outcome
unfolding send_reply
handle_connected ctx s w =
    returned (record s { phase = waiting_for_greeting })
      (send_reply s.connection_id 220 (ctx.config.server_name ++ codes " ESMTP ready") w)

unfoldable pub handle_disconnected : SessionState → World → Outcome
unfolding reset_mail_transaction
handle_disconnected s w = returned (record (reset_mail_transaction s) { phase = closed }) w

unfoldable pub handle_tls_succeeded : SessionState → World → Outcome
unfolding reset_mail_transaction
handle_tls_succeeded s w =
    returned
      (record (reset_mail_transaction
        (record s { tls_active = true; tls_handshake_pending = false; client_name = [] })) {
          phase = waiting_for_greeting;
        })
      w

unfoldable pub handle_tls_failed : SessionState → World → Outcome
unfolding call
handle_tls_failed s w =
    returned (record s { tls_handshake_pending = false; phase = closed })
      (call (close s.connection_id) w)

unfoldable pub handle_type : EventType → Context → Bytes → SessionState → World → Outcome
handle_type connected ctx payload s w = handle_connected ctx s w
handle_type message_received ctx payload s w = handle_message_received ctx payload s w
handle_type tls_succeeded ctx payload s w = handle_tls_succeeded s w
handle_type tls_failed ctx payload s w = handle_tls_failed s w
handle_type disconnected ctx payload s w = handle_disconnected s w

-- HandleEvent
unfoldable pub handle_event : Context → Event → SessionState → World → Outcome
unfolding handle_type
handle_event ctx event s w = handle_type event.type ctx event.payload s w

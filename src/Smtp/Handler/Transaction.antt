-- ===== src/Smtp/Handler/Transaction.antt =====
-- The mail transaction: MAIL, RCPT, DATA, RSET, and the lines of a message.
use mail_server_client.Base.{
  ℕ, ◌+◌, Bool, true, false, not, ◌&&◌, ◌||◌, some, [], ◌∷◌, ◌++◌, Bytes, codes, to_string,
  bytes_eq, is_empty, length, drop, ltb, if◌then◌else◌,
}
use mail_server_client.Storage.Database.{Result, ok, err, Db}
use mail_server_client.Smtp.Text.{starts_with_case_insensitive, extract_path_argument}
use mail_server_client.Smtp.Store.{store_message}
use mail_server_client.Smtp.State.{
  SessionState, Phase, Context, World, Outcome, ready_for_mail, mail_transaction, receiving_message,
  closing, closed, returned, send_reply, crlf,
}

unfoldable pub is_ending : Phase → Bool
is_ending closing = true
is_ending closed = true
is_ending _ = false

unfoldable pub reset_mail_transaction : SessionState → SessionState
unfolding is_ending
reset_mail_transaction s = record s {
  sender = [];
  recipients = [];
  message_buffer = [];
  phase = if is_ending s.phase then s.phase else ready_for_mail;
}

-- What follows StoreMessage: its exception goes on, or the message is acknowledged.
unfoldable pub acknowledge : SessionState → World → Result ℕ × Db → Outcome
unfolding send_reply reset_mail_transaction
acknowledge s w (err e, db) = record { state = s; world = record w { db = db }; thrown = some e }
acknowledge s w (ok message_id, db) = returned (reset_mail_transaction s) (
    send_reply s.connection_id 250 (codes "Message accepted as " ++ to_string message_id)
      (record w { db = db }))

-- line == "."
unfoldable pub end_of_message : SessionState → World → Outcome
unfolding acknowledge
end_of_message s w = acknowledge s w (store_message s.sender s.recipients s.message_buffer w.db)

-- if the line starts with "..", its first dot is erased
unfoldable pub unstuff : Bytes → Bytes
unstuff line = if starts_with_case_insensitive line (codes "..") then drop 1 line else line

unfoldable pub append_line : Context → Bytes → SessionState → World → Outcome
unfolding send_reply reset_mail_transaction
append_line ctx line s w =
    if ltb ctx.config.max_message_size_bytes (length s.message_buffer + length line + 2)
    then returned (reset_mail_transaction s)
        (send_reply s.connection_id 552 (codes "Message size exceeds fixed maximum message size") w)
    else returned (record s { message_buffer = s.message_buffer ++ (line ++ crlf) }) w

unfoldable pub receive_line : Context → Bytes → SessionState → World → Outcome
unfolding end_of_message unstuff append_line
receive_line ctx line s w =
    if bytes_eq line (codes ".") then end_of_message s w else append_line ctx (unstuff line) s w

unfoldable pub handle_mail : Context → Bytes → SessionState → World → Outcome
unfolding send_reply reset_mail_transaction
handle_mail ctx argument s w =
    let sender = extract_path_argument argument in
    if ctx.config.require_authentication && not s.authenticated
    then returned s (send_reply s.connection_id 530 (codes "Authentication required") w)
    else if not (starts_with_case_insensitive argument (codes "FROM:"))
    then returned s (send_reply s.connection_id 501 (codes "Expected MAIL FROM:<address>") w)
    else if is_empty sender
    then returned s (send_reply s.connection_id 501 (codes "Invalid sender") w)
    else returned (record (reset_mail_transaction s) { sender = sender; phase = mail_transaction })
        (send_reply s.connection_id 250 (codes "Sender OK") w)

unfoldable pub handle_rcpt : Bytes → SessionState → World → Outcome
unfolding send_reply
handle_rcpt argument s w =
    let recipient = extract_path_argument argument in
    if is_empty s.sender
    then returned s (send_reply s.connection_id 503 (codes "Need MAIL FROM before RCPT TO") w)
    else if not (starts_with_case_insensitive argument (codes "TO:"))
    then returned s (send_reply s.connection_id 501 (codes "Expected RCPT TO:<address>") w)
    else if is_empty recipient
    then returned s (send_reply s.connection_id 501 (codes "Invalid recipient") w)
    else returned
        (record s { recipients = s.recipients ++ recipient ∷ []; phase = mail_transaction })
        (send_reply s.connection_id 250 (codes "Recipient OK") w)

unfoldable pub handle_data : SessionState → World → Outcome
unfolding send_reply
handle_data s w =
    if is_empty s.sender || is_empty s.recipients
    then returned s
        (send_reply s.connection_id 503 (codes "Need MAIL FROM and RCPT TO before DATA") w)
    else returned (record s { phase = receiving_message; message_buffer = [] })
        (send_reply s.connection_id 354 (codes "End data with <CR><LF>.<CR><LF>") w)

unfoldable pub handle_rset : SessionState → World → Outcome
unfolding send_reply reset_mail_transaction
handle_rset s w =
    returned (reset_mail_transaction s) (send_reply s.connection_id 250 (codes "Reset OK") w)

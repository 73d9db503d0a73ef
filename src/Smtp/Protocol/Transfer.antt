-- ===== src/Smtp/Protocol/Transfer.antt =====
-- A whole mail transaction: the commands of a client, and the rows that they leave in the database.
use mail_server_client.Storage.Database.Laws.{at_ok}
use mail_server_client.Base.{
  ℕ, suc, ◌≤◌, ◌≡◌, refl, ◌∙◌, false, not, ◌&&◌, none, List, [], ◌∷◌, ◌++◌, map, Bytes, All, codes,
  is_empty, is_space, length, arith, bytes_eq_refl,
}
use mail_server_client.Storage.Database.{Db, ok}
use mail_server_client.Smtp.Text.Trim.{IsTrimmed}
use mail_server_client.Smtp.State.{
  SessionState, Context, World, Outcome, returned, send_reply, ready_for_mail, mail_transaction,
  receiving_message,
}
use mail_server_client.Smtp.Store.{store_message}
use mail_server_client.Smtp.Store.Rows.{with_message, store_message-rows}
use mail_server_client.Smtp.Store.Returns.{store_message-returns}
use mail_server_client.Smtp.Handler.{handle_message_received}
use mail_server_client.Smtp.Handler.Greeting.{is_receiving}
use mail_server_client.Smtp.Handler.Transaction.{
  acknowledge, end_of_message, receive_line, handle_data, reset_mail_transaction,
}
use mail_server_client.Smtp.Protocol.Conversation.{
  run_lines, run_lines-cons, run_lines-then, and_then,
}
use mail_server_client.Smtp.Protocol.Body.{stuff, text_of, handle_receiving, run_lines-stuff}
use mail_server_client.Smtp.Protocol.Envelope.{
  IsWaiting, IsPath, mail_line, rcpt_line, handle_mail-accepted, run_lines-rcpt_line,
  accept_recipients, db-accept_recipients, handle-data_line,
}

dot-IsTrimmed : IsTrimmed (codes ".")
unfolding is_space
dot-IsTrimmed = record { front = refl; back = refl }

and_then-returned : (o : Outcome) → and_then o returned ≡ o
and_then-returned o = ground arith

run_lines-one :
    (ctx : Context) (line : Bytes) (s : SessionState) (w : World)
    → run_lines ctx (line ∷ []) s w ≡ handle_message_received ctx line s w
unfolding run_lines
run_lines-one ctx line s w = and_then-returned (handle_message_received ctx line s w)

-- What a client sends for a message: MAIL, RCPT for each recipient, DATA, the lines with their leading
-- dots doubled, and the final dot.
pub transfer : Bytes → List Bytes → List Bytes → List Bytes
transfer sender recipients lines =
    mail_line sender
    ∷ (map rcpt_line recipients ++ codes "DATA" ∷ (map stuff lines ++ codes "." ∷ []))

-- The session of a client that may send, and a message that the server takes.
pub record CanSend (ctx : Context) (s : SessionState) (sender : Bytes)
    (recipients lines : List Bytes) : Type 0 where
  pub waiting : IsWaiting s
  pub allowed : (ctx.config.require_authentication && not s.authenticated) ≡ false
  pub sender_path : IsPath sender
  pub recipient_paths : All IsPath recipients
  pub some_recipient : is_empty recipients ≡ false
  pub trimmed : All IsTrimmed lines
  pub fits : length (text_of lines) ≤ ctx.config.max_message_size_bytes

module _ (ctx : Context) (s : SessionState) (sender : Bytes) (recipients lines : List Bytes)
    (c : CanSend ctx s sender recipients lines) where
  -- The state behind MAIL, behind RCPT, behind DATA, and before the final dot.
  named : SessionState
  named = record (reset_mail_transaction s) { sender = sender; phase = mail_transaction }

  addressed : SessionState
  unfolding named
  addressed = record named { recipients = recipients }

  opened : SessionState
  unfolding addressed
  opened = record addressed { phase = receiving_message; message_buffer = [] }

  written : SessionState
  unfolding opened
  written = record opened { message_buffer = text_of lines }

  module _ (w : World) where
    after_mail : World
    after_mail = send_reply s.connection_id 250 (codes "Sender OK") w

    after_rcpt : World
    unfolding after_mail
    after_rcpt = accept_recipients s.connection_id recipients after_mail

    after_data : World
    unfolding after_rcpt
    after_data = send_reply s.connection_id 354 (codes "End data with <CR><LF>.<CR><LF>") after_rcpt

    run_mail : handle_message_received ctx (mail_line sender) s w ≡ returned named after_mail
    unfolding named after_mail
    run_mail = handle_mail-accepted ctx sender s w c.waiting c.sender_path c.allowed

    run_rcpt :
        run_lines ctx (map rcpt_line recipients) named after_mail ≡ returned addressed after_rcpt
    unfolding addressed after_rcpt reset_mail_transaction
    run_rcpt =
        run_lines-rcpt_line ctx recipients named after_mail c.waiting.stage refl c.recipient_paths
          c.sender_path.named

    run_data :
        handle_message_received ctx (codes "DATA") addressed after_rcpt ≡ returned opened after_data
    unfolding opened after_data reset_mail_transaction is_receiving
    run_data =
        handle-data_line ctx addressed after_rcpt (record { stage = c.waiting.stage; phase = refl })
        ∙ (unfold handle_data in rw (c.sender_path.named, c.some_recipient) refl)

    run_body : run_lines ctx (map stuff lines) opened after_data ≡ returned written after_data
    unfolding written reset_mail_transaction
    run_body =
        run_lines-stuff ctx lines opened after_data
          (record { phase = refl; stage = c.waiting.stage }) c.trimmed (omega (arith, c.fits))

    run_dot :
        handle_message_received ctx (codes ".") written after_data
        ≡ end_of_message written after_data
    unfolding written reset_mail_transaction
    run_dot =
        handle_receiving ctx (codes ".") written after_data
          (record { phase = refl; stage = c.waiting.stage }) dot-IsTrimmed
        ∙ (unfold receive_line in rw (bytes_eq_refl (codes ".")) refl)

    run_transfer :
        run_lines ctx (transfer sender recipients lines) s w ≡ end_of_message written after_data
    unfolding transfer
    run_transfer =
        run_lines-cons ctx _ _ s w run_mail
        ∙ run_lines-then ctx (map rcpt_line recipients) _ named after_mail run_rcpt
        ∙ run_lines-cons ctx _ _ addressed after_rcpt run_data
        ∙ run_lines-then ctx (map stuff lines) _ opened after_data run_body
        ∙ run_lines-one ctx (codes ".") written after_data
        ∙ run_dot

    db-after_data : after_data.db ≡ w.db
    unfolding after_data after_mail send_reply
    db-after_data = db-accept_recipients s.connection_id recipients after_mail

-- What the transaction has done.
pub record Stored (sender : Bytes) (recipients lines : List Bytes) (before : Db) (o : Outcome)
    : Type 0 where
  pub returns : o.thrown ≡ none
  pub rows :
      o.world.db.tables ≡ with_message sender recipients (text_of lines) before.clock before.tables
  pub no_transaction : o.world.db.saved ≡ none
  pub ready : o.state.phase ≡ ready_for_mail
  pub forgotten : (o.state.sender ≡ []) × (o.state.recipients ≡ []) × (o.state.message_buffer ≡ [])

acknowledge-Stored :
    (s : SessionState) (w : World) (n : ℕ) (db : Db) (sender : Bytes)
    (recipients lines : List Bytes) (before : Db)
    → s.phase ≡ receiving_message
    → db.tables ≡ with_message sender recipients (text_of lines) before.clock before.tables
    → db.saved ≡ none
    → Stored sender recipients lines before (acknowledge s w (ok n, db))
unfolding acknowledge
acknowledge-Stored s w n db sender recipients lines before ph t f = record {
  returns = refl;
  rows = t;
  no_transaction = f;
  ready = rw ph refl;
  forgotten = (refl, refl, refl);
}

-- MAIL, RCPT for each recipient, DATA, the lines with their leading dots doubled, and the final dot:
-- if the session waits for a command and has authenticated where it must, there is a recipient, the
-- addresses are not empty and hold no space, the lines have no space at either end and fit the size
-- limit, no transaction is open and SQLite carries the statements out, then no exception is thrown,
-- the tables gain exactly the message, its sender and all its recipients, the body being the lines as
-- they were before their dots were doubled, with their ends (what stands before a NUL), and the session
-- has forgotten the message and is ready for the next one.
pub transfer-Stored :
    (ctx : Context) (s : SessionState) (sender : Bytes) (recipients lines : List Bytes) (w : World)
    → CanSend ctx s sender recipients lines
    → w.db.faults ≡ []
    → w.db.saved ≡ none
    → Stored sender recipients lines w.db (run_lines ctx (transfer sender recipients lines) s w)
unfolding end_of_message written reset_mail_transaction
transfer-Stored ctx s sender recipients lines w c f n =
    let body = text_of lines in
    let result = store_message-returns sender recipients body w.db f n in
    let pair =
      at_ok (store_message sender recipients body w.db) (ok (suc w.db.tables.last_message))
        result in
    let kept = store_message-rows sender recipients body w.db _ _ pair in
    let t = written ctx s sender recipients lines c in
    rw (run_transfer ctx s sender recipients lines c w) (
      rw (db-after_data ctx s sender recipients lines c w, pair)
        (acknowledge-Stored t (after_data ctx s sender recipients lines c w) _ _ sender recipients
          lines w.db refl kept.1 kept.2))

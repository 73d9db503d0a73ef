-- ===== src/Smtp/Protocol/Envelope.antt =====
-- The commands MAIL, RCPT and DATA as a client writes them.
use mail_server_client.Base.{
  ℕ, ◌≡◌, refl, sym, ap, ◌∙◌, true, false, not, ◌&&◌, List, [], ◌∷◌, ◌++◌, append_assoc, append-nil,
  map, Bytes, All, Lacks, codes, is_space, is_empty, bytes_eq, find_byte-append, find_byte-Lacks,
  take-append, to_upper_byte, arith,
}
use mail_server_client.Smtp.Text.{to_upper, starts_with_case_insensitive}
use mail_server_client.Smtp.Text.Trim.{IsTrimmed, trim-id}
use mail_server_client.Smtp.Text.Address.{
  in_angles, extract_path_argument-in_angles, BackFree-path, drop-suc-append,
}
use mail_server_client.Smtp.State.{
  SessionState, Context, World, returned, send_reply, no_stage, mail_transaction,
}
use mail_server_client.Smtp.Handler.{
  mail, rcpt, begin_data, verb_of, run_verb, split_line, handle_command, handle_plain_line,
  handle_line, handle_message_received,
}
use mail_server_client.Smtp.Handler.Greeting.{is_receiving}
use mail_server_client.Smtp.Handler.Transaction.{
  handle_mail, handle_rcpt, handle_data, reset_mail_transaction,
}
use mail_server_client.Smtp.Protocol.Conversation.{run_lines, run_lines-cons}

-- A session that waits for a command.
pub record IsWaiting (s : SessionState) : Type 0 where
  pub stage : s.auth_stage ≡ no_stage
  pub phase : is_receiving s.phase ≡ false

-- A path that the two commands take.
pub record IsPath (address : Bytes) : Type 0 where
  pub named : is_empty address ≡ false
  pub no_space : Lacks b' ' address

abbrev pub mail_line : Bytes → Bytes
mail_line address = codes "MAIL FROM:" ++ in_angles address

abbrev pub rcpt_line : Bytes → Bytes
rcpt_line address = codes "RCPT TO:" ++ in_angles address

split_line-append :
    (command argument : Bytes)
    → Lacks b' ' command
    → IsTrimmed argument
    → split_line (command ++ b' ' ∷ argument) ≡ (to_upper command, argument)
unfolding split_line
split_line-append command argument h t =
    rw (find_byte-append b' ' command argument h, split_line)
      (rw
        (
          take-append command (b' ' ∷ argument),
          drop-suc-append command b' ' argument,
          trim-id argument t,
        )
        refl)

split_line-Lacks :
    (command : Bytes) → Lacks b' ' command → split_line command ≡ (to_upper command, [])
unfolding split_line
split_line-Lacks command h = rw (find_byte-Lacks b' ' command h, split_line) refl

module _ (ctx : Context) where
  handle_waiting :
      (line : Bytes) (s : SessionState) (w : World)
      → IsWaiting s
      → IsTrimmed line
      → handle_message_received ctx line s w ≡ handle_command ctx line s w
  unfolding handle_message_received handle_line handle_plain_line
  handle_waiting line s w r t = rw (r.stage, handle_line) (rw r.phase (rw (trim-id line t) refl))

verb_of-mail : verb_of (to_upper (codes "MAIL")) ≡ mail
unfolding verb_of to_upper to_upper_byte bytes_eq
verb_of-mail = refl

verb_of-rcpt : verb_of (to_upper (codes "RCPT")) ≡ rcpt
unfolding verb_of to_upper to_upper_byte bytes_eq
verb_of-rcpt = refl

verb_of-data : verb_of (to_upper (codes "DATA")) ≡ begin_data
unfolding verb_of to_upper to_upper_byte bytes_eq
verb_of-data = refl

-- A line of a keyword and a path.
path_line-IsTrimmed :
    (first : ℕ) (rest address : Bytes)
    → is_space first ≡ false
    → IsTrimmed (first ∷ rest ++ b':' ∷ in_angles address)
path_line-IsTrimmed first rest address h = record {
  front = h;
  back = BackFree-path (first ∷ rest) address;
}

Lacks-space : Lacks b' ' (codes "MAIL") × Lacks b' ' (codes "RCPT") × Lacks b' ' (codes "DATA")
Lacks-space = ground arith

Lacks-colon : Lacks b':' (codes "FROM") × Lacks b':' (codes "TO")
Lacks-colon = ground arith

no_spaces :
    (is_space b'M' ≡ false)
    × (is_space b'F' ≡ false)
    × (is_space b'R' ≡ false)
    × (is_space b'T' ≡ false)
    × (is_space b'D' ≡ false)
    × (is_space b'A' ≡ false)
unfolding is_space
no_spaces = (refl, refl, refl, refl, refl, refl)

module _ (ctx : Context) (address : Bytes) (s : SessionState) (w : World) (r : IsWaiting s) where
  handle-mail_line :
      handle_message_received ctx (mail_line address) s w
      ≡ handle_mail ctx (codes "FROM:" ++ in_angles address) s w
  handle-mail_line =
      handle_waiting ctx (mail_line address) s w r
        (path_line-IsTrimmed b'M' (codes "AIL FROM") address no_spaces.0)
      ∙ (unfold handle_command run_verb in
          rw
            (
              split_line-append (codes "MAIL") (codes "FROM:" ++ in_angles address) Lacks-space.0
                  (path_line-IsTrimmed b'F' (codes "ROM") address no_spaces.1),
              verb_of-mail,
            )
            refl)

  handle-rcpt_line :
      handle_message_received ctx (rcpt_line address) s w
      ≡ handle_rcpt (codes "TO:" ++ in_angles address) s w
  handle-rcpt_line =
      handle_waiting ctx (rcpt_line address) s w r
        (path_line-IsTrimmed b'R' (codes "CPT TO") address no_spaces.2)
      ∙ (unfold handle_command run_verb in
          rw
            (
              split_line-append (codes "RCPT") (codes "TO:" ++ in_angles address) Lacks-space.1
                  (path_line-IsTrimmed b'T' (codes "O") address no_spaces.3),
              verb_of-rcpt,
            )
            refl)

module _ (ctx : Context) (s : SessionState) (w : World) (r : IsWaiting s) where
  pub handle-data_line : handle_message_received ctx (codes "DATA") s w ≡ handle_data s w
  handle-data_line =
      handle_waiting ctx (codes "DATA") s w r (record { front = no_spaces.4; back = no_spaces.5 })
      ∙ (unfold handle_command run_verb in
          rw (split_line-Lacks (codes "DATA") Lacks-space.2, verb_of-data) refl)

from_keyword :
    (address : Bytes)
    → starts_with_case_insensitive (codes "FROM:" ++ in_angles address) (codes "FROM:") ≡ true
unfolding starts_with_case_insensitive to_upper_byte
from_keyword address = ground arith

to_keyword :
    (address : Bytes)
    → starts_with_case_insensitive (codes "TO:" ++ in_angles address) (codes "TO:") ≡ true
unfolding starts_with_case_insensitive to_upper_byte
to_keyword address = ground arith

-- MAIL FROM:<address> is accepted: the transaction begins anew, from this sender.
pub handle_mail-accepted :
    (ctx : Context) (address : Bytes) (s : SessionState) (w : World)
    → IsWaiting s
    → IsPath address
    → (ctx.config.require_authentication && not s.authenticated) ≡ false
    → handle_message_received ctx (mail_line address) s w
      ≡ returned
          (record (reset_mail_transaction s) { sender = address; phase = mail_transaction })
          (send_reply s.connection_id 250 (codes "Sender OK") w)
handle_mail-accepted ctx address s w r p a =
    handle-mail_line ctx address s w r
    ∙ (unfold handle_mail in
        rw
          (
            a,
            from_keyword address,
            extract_path_argument-in_angles (codes "FROM") address no_spaces.1 Lacks-colon.0
                p.no_space,
            p.named,
          )
          refl)

abbrev with_recipient : Bytes → SessionState → SessionState
with_recipient address s = record s {
  recipients = s.recipients ++ address ∷ [];
  phase = mail_transaction;
}

handle_rcpt-accepted :
    (ctx : Context) (address : Bytes) (s : SessionState) (w : World)
    → IsWaiting s
    → IsPath address
    → is_empty s.sender ≡ false
    → handle_message_received ctx (rcpt_line address) s w
      ≡ returned
          (with_recipient address s)
          (send_reply s.connection_id 250 (codes "Recipient OK") w)
handle_rcpt-accepted ctx address s w r p a =
    handle-rcpt_line ctx address s w r
    ∙ (unfold handle_rcpt in
        rw
          (
            a,
            to_keyword address,
            extract_path_argument-in_angles (codes "TO") address no_spaces.3 Lacks-colon.1
                p.no_space,
            p.named,
          )
          refl)

-- The replies to the recipients.
pub accept_recipients : ℕ → List Bytes → World → World
accept_recipients id [] w = w
accept_recipients id (r ∷ rest) w =
    accept_recipients id rest (send_reply id 250 (codes "Recipient OK") w)

pub db-accept_recipients :
    (id : ℕ) (rs : List Bytes) (w : World) → (accept_recipients id rs w).db ≡ w.db
unfolding accept_recipients send_reply
db-accept_recipients id [] w = refl
db-accept_recipients id (r ∷ rest) w = db-accept_recipients id rest _

pub run_lines-rcpt_line :
    (ctx : Context) (rs : List Bytes) (s : SessionState) (w : World)
    → s.auth_stage ≡ no_stage
    → s.phase ≡ mail_transaction
    → All IsPath rs
    → is_empty s.sender ≡ false
    → run_lines ctx (map rcpt_line rs) s w
      ≡ returned
          (record s { recipients = s.recipients ++ rs })
          (accept_recipients s.connection_id rs w)
unfolding run_lines accept_recipients is_receiving
run_lines-rcpt_line ctx [] s w g ph p a = rw (append-nil s.recipients) refl
run_lines-rcpt_line ctx (r ∷ rest) s w g ph p a =
    run_lines-cons ctx (rcpt_line r) (map rcpt_line rest) s w
      (handle_rcpt-accepted ctx r s w (record { stage = g; phase = ap is_receiving ph }) p.0 a)
    ∙ run_lines-rcpt_line ctx rest (with_recipient r s) _ g refl p.1 a
    ∙ (λ i.
        returned
          (record s { phase = sym ph i; recipients = append_assoc s.recipients (r ∷ []) rest i })
          (accept_recipients s.connection_id (r ∷ rest) w))

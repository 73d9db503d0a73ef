-- ===== src/Http/Handlers/Sending/Delivered.antt =====
-- What a mail that was accepted has become.
use mail_server_client.Base.{
  ◌≡◌, refl, sym, ap, ◌∙◌, true, ◌++◌, Bytes, codes, Bool-cases, inl, inr, arith,
}
use mathlib.Core.Path.{subst}
use mail_server_client.Storage.Database.{Result, ok, err, std_exception, other_exception}
use mail_server_client.Client.Mail.{
  Mail, SmtpResult, is_ok, set_sender, add_recipients, set_subject, set_body, build,
}
use mail_server_client.Client.Wire.{Wire}
use mail_server_client.Client.Send.{send_mail_message}
use mail_server_client.Client.Dialogue.{dialogue, send_mail_message-dialogue}
use mail_server_client.Http.Json.{
  Fields, Parsed, parsed, parse_failed, null, boolean, int64, uint64, real, text, array, object,
}
use mail_server_client.Http.Config.{LogLevel}
use mail_server_client.Http.Message.{Request, Response, make_json_response, make_error}
use mail_server_client.Http.World.{Services, World, ◌>>=◌, give, caught, try_catch, log, pure, ◌>>◌}
use mail_server_client.Http.Runs.{Split-of, given, after_give, run_bind}
use mail_server_client.Http.Handlers.Reading.{
  read_required_string, read_recipients, read_json_object, on_parsed, with_object,
}
use mail_server_client.Http.Handlers.Sending.{deliver, answer_delivery, submit, send_mail_handler}

-- The mail that the object asks for.
pub record Asks (fields : Fields) (mail : Mail) : Type 0 where
  pub sender : read_required_string fields (codes "from") ≡ ok mail.sender
  pub recipients : read_recipients fields ≡ ok mail.recipients
  pub subject : read_required_string fields (codes "subject") ≡ ok mail.subject
  pub body : read_required_string fields (codes "body") ≡ ok mail.body

build_same : (m mail : Mail) → build m ≡ ok mail → m ≡ mail
unfolding build
build_same m mail h = ground arith

module _ {P : Type 0} (s : Services P) (request : Request) where
  deliver_sent :
      (mail : Mail) (w : World P)
      → is_ok
          (send_mail_message s.peer s.configuration.smtp.host s.configuration.smtp.port mail
            w.wire).0
        ≡ true
      → (deliver s mail w).1.wire.sent ≡ w.wire.sent ++ dialogue mail
  unfolding deliver
  deliver_sent mail w h =
      send_mail_message-dialogue s.peer s.configuration.smtp.host s.configuration.smtp.port mail
        w.wire h

  log_wire :
      (level : LogLevel) (message : Bytes) (w : World P) → (log s level message w).1.wire ≡ w.wire
  unfolding log
  log_wire level message w = ground arith

  log_then :
      (level : LogLevel) (message : Bytes) (x r : Response) (w v : World P)
      → (log s level message >> pure x) w ≡ (ok r, v)
      → (x ≡ r) × (v.wire ≡ w.wire)
  log_then level message x r w v h =
      let p = Split-of _ _ w v r h in
      let (same, still) = given (ok x) p.between v r p.second in
      let there : (log s level message w).1 ≡ p.between = ap (λ t. t.1) p.first in
      (cc, ap (λ (u : World P). u.wire) (still ∙ sym there) ∙ log_wire level message w)

  -- Only a delivery that succeeded is answered with 202.
  answer_accepted :
      (sender : Bytes) (result : SmtpResult) (w v : World P) (r : Response)
      → answer_delivery s request sender result w ≡ (ok r, v)
      → r.status ≡ 202
      → (is_ok result ≡ true) × (v.wire ≡ w.wire)
  unfolding answer_delivery make_json_response
  answer_accepted sender result w v r h e = elim (Bool-cases (is_ok result)) [
    | inl b ↦ (b, (log_then _ _ _ r w v (rw (b, answer_delivery) at h)).1)
    | inr b ↦
        let same = (log_then _ _ _ r w v (rw (b, answer_delivery) at h)).0 in
        let wrong : 502 ≡ 202 = ap (λ (r : Response). r.status) same ∙ e in
        absurd (omega (arith, wrong))
  ]

  -- The mail that was submitted, and the world behind it.
  pub record Sent (fields : Fields) (w v : World P) : Type 0 where
    pub mail : Mail
    pub asked : Asks fields mail
    pub on_wire : v.wire.sent ≡ w.wire.sent ++ dialogue mail

  delivered-Sent :
      (fields : Fields) (mail : Mail) (w v : World P) (r : Response) (sender : Bytes)
      → Asks fields mail
      → (deliver s mail >>= answer_delivery s request sender) w ≡ (ok r, v)
      → r.status ≡ 202
      → Sent fields w v
  unfolding deliver
  delivered-Sent fields mail w v r sender a h e =
      let smtp = s.configuration.smtp in
      let sent = send_mail_message s.peer smtp.host smtp.port mail w.wire in
      let behind : World P = record w { wire = sent.1 } in
      let answered =
        sym (run_bind (deliver s mail) (answer_delivery s request sender) sent.0 w behind refl)
        ∙ h in
      let (good, same) = answer_accepted sender sent.0 behind v r answered e in
      record {
        mail = mail;
        asked = a;
        on_wire = ap (λ (u : Wire P). u.sent) same ∙ deliver_sent mail w good;
      }

  submit-Sent :
      (fields : Fields) (w v : World P) (r : Response)
      → submit s request fields w ≡ (ok r, v)
      → r.status ≡ 202
      → Sent fields w v
  unfolding submit set_body set_subject add_recipients set_sender
  submit-Sent fields w v r h e =
      after_give (read_required_string fields (codes "from")) _ w v r h λ sender e₁ h₁.
        after_give (read_recipients fields) _ w v r h₁ λ recipients e₂ h₂.
          after_give (read_required_string fields (codes "subject")) _ w v r h₂ λ subject e₃ h₃.
            after_give (read_required_string fields (codes "body")) _ w v r h₃ λ body e₄ h₄.
              after_give _ _ w v r h₄ λ mail e₅ h₅.
                let same : record {
                  recipients = recipients;
                  subject = subject;
                  sender = sender;
                  body = body;
                }
                    ≡ mail =
                  build_same _ mail e₅ in
                delivered-Sent fields mail w v r sender
                  (subst (Asks fields) same
                    (record { sender = e₁; recipients = e₂; subject = e₃; body = e₄ }))
                  h₅ e

  refused :
      (m : Bytes) (r : Response) → ok (make_error s.json request 400 m) ≡ ok r → r.status ≡ 202 → ⊥
  unfolding make_error make_json_response
  refused m r g e =
      let same : make_error s.json request 400 m ≡ r = cc in
      let wrong : 400 ≡ 202 = ap (λ (x : Response). x.status) same ∙ e in omega (arith, wrong)

  caught-Sent :
      (fields : Fields) (w v : World P) (r : Response) (t : Result Response)
      → submit s request fields w ≡ (t, v)
      → caught (λ message. make_error s.json request 400 message) t ≡ ok r
      → r.status ≡ 202
      → Sent fields w v
  unfolding make_error make_json_response
  caught-Sent fields w v r (ok x) h g e =
      let same : x ≡ r = cc in
      submit-Sent fields w v r (h ∙ ap (λ (y : Response). (ok y, v)) same) e
  caught-Sent fields w v r (err (std_exception m)) h g e = absurd (refused m r g e)
  caught-Sent fields w v r (err other_exception) h g e = cc

  pub record Accepted (w v : World P) : Type 0 where
    pub fields : Fields
    pub document : read_json_object s.json request ≡ ok fields
    pub sent : Sent fields w v

  document_of :
      (fields : Fields)
      → s.json.parse request.body ≡ parsed (object fields)
      → read_json_object s.json request ≡ ok fields
  unfolding read_json_object
  document_of fields q = rw (q, read_json_object) refl

  parsed-Accepted :
      (w : World P) (r : Response) (p : Parsed)
      → s.json.parse request.body ≡ p
      → (on_parsed s request
          (λ fields.
            try_catch (submit s request fields) (λ message. make_error s.json request 400 message))
          p
          w).0
        ≡ ok r
      → r.status ≡ 202
      → Accepted w
          (on_parsed s request
            (λ fields.
              try_catch
                (submit s request fields)
                (λ message. make_error s.json request 400 message))
            p
            w).1
  unfolding on_parsed give try_catch
  parsed-Accepted w r (parse_failed m) q h e = absurd (refused _ r h e)
  parsed-Accepted w r (parsed (object fields)) q h e = record {
    fields = fields;
    document = document_of fields q;
    sent =
        caught-Sent fields w (submit s request fields w).1 r (submit s request fields w).0 refl h e;
  }
  parsed-Accepted w r (parsed null) q h e = absurd (refused _ r h e)
  parsed-Accepted w r (parsed (boolean b)) q h e = absurd (refused _ r h e)
  parsed-Accepted w r (parsed (int64 n)) q h e = absurd (refused _ r h e)
  parsed-Accepted w r (parsed (uint64 n)) q h e = absurd (refused _ r h e)
  parsed-Accepted w r (parsed (real t)) q h e = absurd (refused _ r h e)
  parsed-Accepted w r (parsed (text t)) q h e = absurd (refused _ r h e)
  parsed-Accepted w r (parsed (array xs)) q h e = absurd (refused _ r h e)

  -- Where a request to send mail is answered with 202, its body is an object that gives a sender, at
  -- least one recipient, a subject and a text, and the server's SMTP client has sent the whole dialogue
  -- for that mail to the SMTP server: EHLO, MAIL FROM, RCPT TO for each recipient, DATA, the text, QUIT.
  pub send_mail_handler-Accepted :
      (w : World P) (r : Response)
      → (send_mail_handler s request w).0 ≡ ok r
      → r.status ≡ 202
      → Accepted w (send_mail_handler s request w).1
  unfolding send_mail_handler with_object
  send_mail_handler-Accepted w r h e = parsed-Accepted w r (s.json.parse request.body) refl h e

-- ===== src/Http/Handlers/Sending.antt =====
-- SendMailHandler.cpp of apps/mail-server/src/handlers.
pub mod Delivered
use mail_server_client.Base.{Bool, true, false, List, [], ◌∷◌, ◌++◌, Bytes, codes, if◌then◌else◌}
use mail_server_client.Storage.Database.{ok}
use mail_server_client.Client.Mail.{
  Mail, SmtpResult, is_ok, empty_mail, set_sender, add_recipients, set_subject, set_body, build,
}
use mail_server_client.Client.Send.{send_mail_message}
use mail_server_client.Http.Json.{Fields, text, int64, object, fields_of}
use mail_server_client.Http.Config.{info, warning}
use mail_server_client.Http.Message.{Request, Response, make_json_response, make_error}
use mail_server_client.Http.World.{Services, World, Action, ◌>>=◌, ◌>>◌, pure, give, try_catch, log}
use mail_server_client.Http.Handlers.Reading.{read_required_string, read_recipients, with_object}

module _ {P : Type 0} (s : Services P) where
  -- smtp_client.SendMailMessage(mail), on a socket of its own
  unfoldable pub deliver : Mail → Action P SmtpResult
  deliver mail w =
      let smtp = s.configuration.smtp in
      let sent = send_mail_message s.peer smtp.host smtp.port mail w.wire in
      (ok sent.0, record w { wire = sent.1 })

  unfoldable pub answer_delivery : Request → Bytes → SmtpResult → Action P Response
  answer_delivery request sender result =
      if is_ok result
      then log s info (codes "Mail submitted to SMTP server from " ++ sender)
        >> pure (
            make_json_response s.json request 202 (
              object (
                fields_of (
                  (codes "status", text (codes "accepted"))
                  ∷ (codes "message", text result.message)
                  ∷ (codes "smtp_code", int64 result.smtp_code)
                  ∷ []))))
      else log s warning (codes "SMTP delivery failed: " ++ result.message)
        >> pure (
            make_json_response s.json request 502 (
              object (
                fields_of (
                  (codes "status", text (codes "failed"))
                  ∷ (codes "message", text result.message)
                  ∷ (codes "smtp_code", int64 result.smtp_code)
                  ∷ []))))

  unfoldable pub submit : Request → Fields → Action P Response
  unfolding deliver answer_delivery
  submit request fields = do
    sender ← give (read_required_string fields (codes "from"))
    recipients ← give (read_recipients fields)
    subject ← give (read_required_string fields (codes "subject"))
    body ← give (read_required_string fields (codes "body"))
    mail ← give (
        build (
          set_body body
            (set_subject subject (add_recipients recipients (set_sender sender empty_mail)))))
    result ← deliver mail
    answer_delivery request sender result

  unfoldable pub send_mail_handler : Request → Action P Response
  unfolding with_object submit
  send_mail_handler request =
      with_object s request λ fields.
        try_catch (submit request fields) (λ message. make_error s.json request 400 message)

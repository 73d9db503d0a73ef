-- ===== src/Client/Send.antt =====
-- `SmtpClient::SendMailMessage` and `CheckConnection`, libs/smtp-server-sdk/src/SmtpClient.cpp.
use mail_server_client.Base.{
  ℕ, pos, negsuc, Bool, false, List, [], ◌∷◌, ◌++◌, Bytes, codes, to_string, ◌==◌, if◌then◌else◌,
}
use mail_server_client.Client.Mail.{
  Mail, SmtpReply, SmtpResult, SmtpError, connection_failed, dns_resolution_failed, timeout,
  server_error, recipient_rejected, unknown, success, fail,
}
use mail_server_client.Client.Wire.{
  Failure, host_not_found, connection_refused, timed_out, system_error, other_error, Attempt, done,
  failed, Peer, Wire, Exchange, ◌>>=◌, ◌>>◌, pure, connect, send_command, read_reply, close,
}

unfoldable pub has_code : ℕ → SmtpReply → Bool
has_code n reply = elim reply.code [ pos m ↦ m == n | negsuc m ↦ false ]

abbrev pub message_text : Mail → Bytes
message_text mail =
    codes "From: "
    ++ (mail.sender
        ++ (13 ∷ 10 ∷ [])
        ++ (codes "Subject: "
            ++ (mail.subject
                ++ (13 ∷ 10 ∷ 13 ∷ 10 ∷ [])
                ++ (mail.body ++ ((13 ∷ 10 ∷ []) ++ codes ".")))))

-- A reply is read: with the code that is expected the rest follows, with any other the result is a
-- failure that tells the reply.
unfoldable pub expect :
    {P : Type 0} → ℕ → SmtpError → Bytes → Exchange P SmtpResult → Exchange P SmtpResult
unfolding has_code
expect code error text next = read_reply >>= λ reply.
    if has_code code reply then next else pure (fail error (text ++ reply.text) reply.code)

module _ {P : Type 0} (p : Peer P) where
  -- for (const std::string& recipient : mail.recipients)
  unfoldable pub send_recipients : List Bytes → Exchange P SmtpResult → Exchange P SmtpResult
  unfolding expect
  send_recipients [] next = next
  send_recipients (recipient ∷ recipients) next =
      send_command p (codes "RCPT TO:<" ++ (recipient ++ codes ">"))
      >> expect 250 recipient_rejected (codes "Recipient <" ++ (recipient ++ codes "> rejected: "))
          (send_recipients recipients next)

  unfoldable pub send_body : Mail → Exchange P SmtpResult
  unfolding expect
  send_body mail =
      send_command p (codes "DATA")
      >> expect 354 server_error (codes "DATA command rejected: ") (
          send_command p (message_text mail)
          >> expect 250 server_error (codes "Message not accepted: ")
              (send_command p (codes "QUIT") >> pure success))

  -- The body of the `try`, without the closing of the socket that ends each branch.
  unfoldable pub try_send : Mail → Exchange P SmtpResult
  unfolding expect send_recipients send_body
  try_send mail =
      connect p
      >> expect 220 connection_failed (codes "Server greeting failed: ") (
          send_command p (codes "EHLO client")
          >> expect 250 server_error (codes "EHLO rejected: ") (
              send_command p (codes "MAIL FROM:<" ++ (mail.sender ++ codes ">"))
              >> expect 250 server_error (codes "MAIL FROM rejected: ")
                  (send_recipients mail.recipients (send_body mail))))

-- The catch branches.
unfoldable pub failure_result : Bytes → ℕ → Failure → SmtpResult
failure_result address port host_not_found =
    fail dns_resolution_failed (codes "Host not found: " ++ address) (pos 0)
failure_result address port connection_refused =
    fail connection_failed
      (codes "Connection refused on " ++ (address ++ (codes ":" ++ to_string port))) (pos 0)
failure_result address port timed_out =
    fail timeout (codes "Connection timed out to " ++ (address ++ (codes ":" ++ to_string port)))
      (pos 0)
failure_result address port (system_error text) = fail unknown text (pos 0)
failure_result address port (other_error text) = fail unknown text (pos 0)

unfoldable pub end_send :
    {P : Type 0} → Bytes → ℕ → Attempt SmtpResult × Wire P → SmtpResult × Wire P
unfolding failure_result
end_send address port (done result, w) = (result, close w)
end_send address port (failed e, w) = (failure_result address port e, close w)

unfoldable pub send_mail_message :
    {P : Type 0} → Peer P → Bytes → ℕ → Mail → Wire P → SmtpResult × Wire P
unfolding try_send end_send
send_mail_message p address port mail w = end_send address port (try_send p mail w)

unfoldable pub end_check : {P : Type 0} → Attempt Bool × Wire P → Bool × Wire P
end_check (done answer, w) = (answer, close w)
end_check (failed e, w) = (false, close w)

unfoldable pub check_connection : {P : Type 0} → Peer P → Wire P → Bool × Wire P
unfolding end_check has_code
check_connection p w =
    end_check (
      (do connect p; reply ← read_reply; send_command p (codes "QUIT"); pure (has_code 220 reply))
        w)

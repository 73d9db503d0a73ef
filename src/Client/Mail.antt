-- ===== src/Client/Mail.antt =====
-- MailBuilder.h, MailBuilder.cpp and SmtpResult.h.
use mail_server_client.Base.{
  ℤ, pos, Bool, true, false, List, [], Bytes, codes, is_empty, if◌then◌else◌,
}
use mail_server_client.Storage.Database.{Result, ok, err, std_exception}

pub record Mail : Type 0 where
  pub recipients : List Bytes
  pub subject : Bytes
  pub sender : Bytes
  pub body : Bytes

abbrev pub empty_mail : Mail
empty_mail = record { recipients = []; subject = []; sender = []; body = [] }

-- A builder is the message that it has so far.
unfoldable pub add_recipients : List Bytes → Mail → Mail
add_recipients recipients m = record m { recipients = recipients }

unfoldable pub set_sender : Bytes → Mail → Mail
set_sender sender m = record m { sender = sender }

unfoldable pub set_subject : Bytes → Mail → Mail
set_subject subject m = record m { subject = subject }

unfoldable pub set_body : Bytes → Mail → Mail
set_body body m = record m { body = body }

unfoldable pub build : Mail → Result Mail
build m =
    if is_empty m.sender
    then err (std_exception (codes "Sender is required"))
    else if is_empty m.recipients
    then err (std_exception (codes "At least one recipient is required"))
    else ok m

pub data SmtpError : Type 0 where
  no_error connection_failed dns_resolution_failed authentication_failed : SmtpError
  recipient_rejected timeout server_error unknown : SmtpError

pub record SmtpReply : Type 0 where
  pub code : ℤ
  pub text : Bytes

pub record SmtpResult : Type 0 where
  pub error : SmtpError
  pub message : Bytes
  pub smtp_code : ℤ

unfoldable pub is_ok : SmtpResult → Bool
is_ok result = elim result.error [ no_error ↦ true | _ ↦ false ]

abbrev pub success : SmtpResult
success = record {
  error = no_error;
  message = codes "Message sent successfully";
  smtp_code = pos 250;
}

abbrev pub fail : SmtpError → Bytes → ℤ → SmtpResult
fail error message code = record { error = error; message = message; smtp_code = code }

-- ===== src/Client/Tests.antt =====
-- The theorem on the SMTP client, at a peer that accepts every command.
use mail_server_client.Base.{
  ◌≡◌, refl, true, false, [], ◌∷◌, ◌++◌, codes, bytes_eq, is_space, take, if◌then◌else◌,
}
use mail_server_client.Client.Mail.{Mail, is_ok}
use mail_server_client.Client.Wire.{
  Peer, Wire, operation, connect, send_command, read_lines, read_response, read_reply, reply_of,
  is_last_line, stoi,
}
use mail_server_client.Client.Send.{
  has_code, expect, send_recipients, send_body, try_send, end_send, send_mail_message,
}
use mail_server_client.Client.Dialogue.{dialogue, send_mail_message-dialogue}

abbrev friendly : Peer (Unit {0})
friendly = record {
  greeting = λ u. (codes "220 mail" ∷ [], u);
  respond = λ text u. (
    if bytes_eq (take 4 text) (codes "DATA") then codes "354 go" ∷ [] else codes "250 ok" ∷ [],
    u,
  );
}

abbrev greetings : Mail
greetings = record {
  recipients = codes "b@x" ∷ codes "c@x" ∷ [];
  subject = codes "hi";
  sender = codes "a@x";
  body = codes "hello";
}

abbrev silent : Wire (Unit {0})
silent = record { peer = tt; incoming = []; sent = []; faults = []; is_open = false }

is_delivered : is_ok (send_mail_message friendly (codes "mail") 25 greetings silent).0 ≡ true
unfolding send_mail_message try_send end_send send_recipients send_body expect has_code connect
    send_command operation read_reply read_response read_lines is_last_line reply_of stoi is_ok
    bytes_eq is_space
is_delivered = refl

send_mail_message-dialogue_example :
    (send_mail_message friendly (codes "mail") 25 greetings silent).1.sent
    ≡ silent.sent ++ dialogue greetings
send_mail_message-dialogue_example =
    send_mail_message-dialogue friendly (codes "mail") 25 greetings silent is_delivered

-- ===== src/Http/Tests/Sending.antt =====
-- A mail that is sent on.
use mail_server_client.Base.{
  ◌≡◌, refl, true, none, [], ◌∷◌, codes, bytes_eq, is_space, take, if◌then◌else◌,
}
use mail_server_client.Storage.Database.{ok, bind_text}
use mail_server_client.Client.Mail.{is_ok, build, set_sender, add_recipients, set_subject, set_body}
use mail_server_client.Client.Wire.{
  operation, connect, send_command, read_lines, read_response, read_reply, reply_of, is_last_line,
  stoi,
}
use mail_server_client.Client.Send.{
  has_code, expect, send_recipients, send_body, try_send, end_send, send_mail_message,
}
use mail_server_client.Http.Json.{if_contains}
use mail_server_client.Http.Message.{Request, Response, post, make_json_response}
use mail_server_client.Http.World.{Services, try_catch, give, log, level_rank, ◌>>=◌}
use mail_server_client.Http.Handlers.Reading.{
  read_required_string, read_recipients, read_addresses, some_recipients, on_parsed, with_object,
}
use mail_server_client.Http.Handlers.Sending.{deliver, answer_delivery, submit, send_mail_handler}
use mail_server_client.Http.Handlers.Sending.Delivered.{Accepted, send_mail_handler-Accepted}
use mail_server_client.Http.Tests.Fixtures.{server, mail_world, request_to, mail_document}

abbrev friendly : Services (Unit {0})
friendly = record (server mail_document) {
  peer = record {
    greeting = λ u. (codes "220 mail" ∷ [], u);
    respond = λ bytes u. (
      if bytes_eq (take 4 bytes) (codes "DATA") then codes "354 go" ∷ [] else codes "250 ok" ∷ [],
      u,
    );
  };
}

abbrev send_request : Request
send_request = request_to post (codes "/send-mail") none

abbrev accepted : Response
accepted = record {
  status = 202;
  version = 11;
  server = codes "boost-beast";
  content_type = codes "application/json";
  keep_alive = true;
  content_length = 0;
  body = [];
}

is_accepted : (send_mail_handler friendly send_request mail_world).0 ≡ ok accepted
unfolding send_mail_handler with_object on_parsed submit deliver answer_delivery
    read_required_string read_recipients read_addresses some_recipients make_json_response try_catch
    give log level_rank ◌>>=◌ if_contains build set_sender add_recipients set_subject set_body
    bind_text send_mail_message try_send end_send send_recipients send_body expect has_code connect
    send_command operation read_reply read_response read_lines is_last_line reply_of stoi is_ok
    bytes_eq is_space
is_accepted = refl

send_mail_handler-Accepted_example :
    Accepted friendly send_request mail_world (send_mail_handler friendly send_request mail_world).1
send_mail_handler-Accepted_example =
    send_mail_handler-Accepted friendly send_request mail_world accepted is_accepted refl

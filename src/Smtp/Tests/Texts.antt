-- ===== src/Smtp/Tests/Texts.antt =====
-- The texts, the credentials and the configuration.
use mail_server_client.Base.{
  ◌≡◌, ◌↔◌, refl, true, false, some, [], codes, arith, bytes_eq, if◌then◌else◌,
}
use mail_server_client.Smtp.Base64.{decode_base64, parse_plain_auth}
use mail_server_client.Smtp.Base64.RoundTrip.{encode_base64, decode_base64-encode_base64}
use mail_server_client.Smtp.Base64.Plain.{plain_message, parse_plain_auth-encode_base64}
use mail_server_client.Smtp.AuthService.{authenticate, add_user, authenticate-add_user}
use mail_server_client.Smtp.Config.{ok, configuration}
use mail_server_client.Smtp.Config.Usable.{Accepted, configuration-Accepted}
use mail_server_client.Smtp.Tests.Fixtures.{users, request, alice, tree, tree_configuration}

decode_base64-encode_base64_example : decode_base64 (encode_base64 alice) ≡ some alice
decode_base64-encode_base64_example = decode_base64-encode_base64 alice (ground arith)

parse_plain_auth-encode_base64_example :
    parse_plain_auth (encode_base64 (plain_message [] (codes "alice") (codes "secret")))
    ≡ some (codes "alice", codes "secret")
parse_plain_auth-encode_base64_example =
    parse_plain_auth-encode_base64 [] (codes "alice") (codes "secret") (ground arith) tt
      (ground arith) refl

authenticate-add_user_example :
    authenticate (add_user (codes "alice") (codes "pw") users) request ≡ (
      if bytes_eq (codes "alice") request.username
      then if bytes_eq (codes "pw") request.secret
        then record { accepted = true; identity = codes "alice" }
        else record { accepted = false; identity = [] }
      else authenticate users request)
authenticate-add_user_example = authenticate-add_user (codes "alice") (codes "pw") users request

configuration-Accepted_example :
    (configuration (some tree) ≡ ok tree_configuration) ↔ Accepted tree tree_configuration
configuration-Accepted_example = configuration-Accepted tree tree_configuration

-- ===== src/Http/Tests/Accounts.antt =====
-- Passwords, a registration and a login.
use mail_server_client.Base.{
  ℕ, ◌+◌, ◌-◌, ◌≤◌, ◌≡◌, ◌↔◌, refl, true, some, none, [], ◌∷◌, Bytes, codes, bytes_eq, map, Lacks,
  arith,
}
use mail_server_client.Storage.Database.{ok, bind_text}
use mail_server_client.Storage.Rows.{exists_where}
use mail_server_client.Http.Json.{Fields, if_contains, fields_of, text}
use mail_server_client.Http.Message.{Request, post, make_json_response}
use mail_server_client.Http.MailStorage.{user_object}
use mail_server_client.Http.Handlers.Reading.{read_json_object, read_filled_string}
use mail_server_client.Http.Handlers.Accounts.{
  hash_with, verify_password, user_response, register_handler, login_handler,
}
use mail_server_client.Http.Handlers.Accounts.Password.{HexLaws, verify_password-hash}
use mail_server_client.Http.Handlers.Accounts.Registration.{
  ReadsAs, IsFree, status_of, register-login,
}
use mail_server_client.Http.Tests.Fixtures.{
  letters, server, mail_world, request_to, account_document,
}

lowered : (xs : Bytes) → map (λ n. n - 65) (map (λ n. n + 65) xs) ≡ xs
lowered [] = refl
lowered (x ∷ xs) = let rest = lowered xs in ground (arith, rest)

raised : (c : ℕ) (xs : Bytes) → (65 ≤ c → ⊥) → Lacks c (map (λ n. n + 65) xs)
raised c [] h = tt
raised c (x ∷ xs) h = (λ e. h (omega (arith, e)), raised c xs h)

letters-HexLaws : HexLaws letters
letters-HexLaws = record {
  round_trip = lowered;
  no_colon = λ xs. raised b':' xs (λ h. omega (arith, h));
  no_nul = λ xs. raised 0 xs (λ h. omega (arith, h));
}

verify_password-hash_example :
    (verify_password letters (codes "secret") (hash_with letters (7 ∷ []) (codes "secret")) ≡ true)
    ↔ (letters.derive_key (codes "secret") (7 ∷ []) ≡ letters.derive_key (codes "secret") (7 ∷ []))
verify_password-hash_example =
    verify_password-hash letters letters-HexLaws (codes "secret") (7 ∷ []) (codes "secret")

abbrev register_request : Request
register_request = request_to post (codes "/register") none

abbrev login_request : Request
login_request = request_to post (codes "/login") none

abbrev account_fields : Fields
account_fields = fields_of (
    (codes "username", text (codes "ann"))
    ∷ (codes "email", text (codes "ann@x"))
    ∷ (codes "password", text (codes "secret"))
    ∷ [])

account_reads :
    (request : Request) → ReadsAs (server account_document) request (codes "ann@x") (codes "secret")
unfolding read_json_object read_filled_string if_contains bytes_eq bind_text
account_reads request = record {
  fields = account_fields;
  document = refl;
  with_email = refl;
  with_password = refl;
}

is_named :
    read_filled_string (account_reads register_request).fields (codes "username") ≡ ok (codes "ann")
unfolding account_reads read_filled_string if_contains bytes_eq bind_text
is_named = refl

is_free : IsFree (codes "ann") (codes "ann@x") mail_world.db.tables
unfolding exists_where
is_free = refl

register-login_example :
    (status_of (register_handler (server account_document) register_request mail_world).0
      ≡ some 201)
    × ((login_handler
          (server account_document)
          login_request
          (register_handler (server account_document) register_request mail_world).1).0
        ≡ ok (
            make_json_response (server account_document).json login_request 200 (
              user_response
                (server account_document)
                (user_object 1 (bind_text (codes "ann")) (bind_text (codes "ann@x"))))))
register-login_example =
    register-login (server account_document) register_request login_request (codes "ann")
      (codes "ann@x") (codes "secret") (account_reads register_request)
      (account_reads login_request) mail_world letters-HexLaws is_named refl is_free

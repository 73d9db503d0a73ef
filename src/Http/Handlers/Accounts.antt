-- ===== src/Http/Handlers/Accounts.antt =====
-- HelloHandler.cpp and AuthHandler.cpp of apps/mail-server/src/handlers.
pub mod Password
pub mod Registration
use mail_server_client.Base.{
  ℕ, suc, Bool, true, false, not, ◌||◌, Option, none, some, List, [], ◌∷◌, ◌++◌, Bytes, codes,
  bytes_eq, find_byte, take, drop, if◌then◌else◌,
}
use mail_server_client.Storage.Records.{User}
use mail_server_client.Storage.Database.{ok, bind_text}
use mail_server_client.Storage.Users.{find_by_email, is_active}
use mail_server_client.Http.Json.{Json, text, object, fields_of, if_contains}
use mail_server_client.Http.Config.{info}
use mail_server_client.Http.Message.{Request, Response, make_json_response, make_error}
use mail_server_client.Http.World.{
  Crypto, Services, World, Action, ◌>>=◌, ◌>>◌, pure, give, query, try_catch, log,
}
use mail_server_client.Http.MailStorage.{create_storage_user, user_object}
use mail_server_client.Http.Handlers.Reading.{read_json_object, read_filled_string, with_object}

-- HashPassword, with the salt that the random pool gives
unfoldable pub hash_with : Crypto → Bytes → Bytes → Bytes
hash_with c salt password = c.to_hex salt ++ b':' ∷ c.to_hex (c.derive_key password salt)

unfoldable pub verify_password : Crypto → Bytes → Bytes → Bool
verify_password c password stored_hash = elim (find_byte b':' stored_hash) [
  | none ↦ bytes_eq password stored_hash
  | some separator ↦
      let salt = c.from_hex (take separator stored_hash) in
      let expected_hash = drop (suc separator) stored_hash in
      bytes_eq (c.to_hex (c.derive_key password salt)) expected_hash
]

module _ {P : Type 0} (s : Services P) where
  unfoldable pub hash_password : Bytes → Action P Bytes
  unfolding hash_with
  hash_password password w = (
    ok (hash_with s.crypto (s.crypto.random_block w.blocks) password),
    record w { blocks = suc w.blocks },
  )

  abbrev pub user_response : Json → Json
  user_response user = object (fields_of ((codes "user", user) ∷ []))

  unfoldable pub register_handler : Request → Action P Response
  unfolding hash_password
  register_handler request =
      try_catch
        (do
          fields ← give (read_json_object s.json request)
          username ← give (read_filled_string fields (codes "username"))
          email ← give (read_filled_string fields (codes "email"))
          password ← give (read_filled_string fields (codes "password"))
          password_hash ← hash_password password
          user ← query (create_storage_user username email password_hash)
          log s info (codes "Registered user " ++ email)
          pure (make_json_response s.json request 201 (user_response user)))
        (λ message. make_error s.json request 400 message)

  -- !user.has_value() || user->status != Active || !VerifyPassword(…), and what follows
  unfoldable pub finish_login : Request → Bytes → Bytes → Option User → Action P Response
  unfolding verify_password
  finish_login request email password none =
      pure (make_error s.json request 401 (codes "Invalid email or password"))
  finish_login request email password (some user) =
      if not (is_active user.status) || not (verify_password s.crypto password user.password_hash)
      then pure (make_error s.json request 401 (codes "Invalid email or password"))
      else log s info (codes "Logged in user " ++ email)
        >> pure (
            make_json_response s.json request 200
              (user_response (user_object user.id user.username user.email)))

  unfoldable pub login_handler : Request → Action P Response
  unfolding finish_login
  login_handler request =
      try_catch
        (do
          fields ← give (read_json_object s.json request)
          email ← give (read_filled_string fields (codes "email"))
          password ← give (read_filled_string fields (codes "password"))
          user ← query (find_by_email email)
          finish_login request email password user)
        (λ message. make_error s.json request 400 message)

  unfoldable pub greet : Request → Option Json → Response
  greet request (some (text name)) = make_json_response s.json request 200 (
      object (
        fields_of
          ((codes "message", text (codes "Hello, " ++ (bind_text name ++ codes "!"))) ∷ [])))
  greet request _ = make_error s.json request 400 (codes "\"name\" must be a string")

  unfoldable pub hello_handler : Request → Action P Response
  unfolding with_object greet
  hello_handler request =
      with_object s request λ fields. pure (greet request (if_contains (codes "name") fields))

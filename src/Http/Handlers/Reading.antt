-- ===== src/Http/Handlers/Reading.antt =====
-- What the handlers read out of a request: the helpers at the head of StarHandler.cpp,
-- ArchiveHandler.cpp, DeleteMailHandler.cpp, AuthHandler.cpp and SendMailHandler.cpp.
use mail_server_client.Base.{
  ℤ, int64_of_uint64, none, some, List, [], ◌∷◌, ◌++◌, Bytes, codes, is_empty, if◌then◌else◌,
}
use mail_server_client.Storage.Database.{Result, ok, err, bind_text}
use mail_server_client.Http.Json.{
  Elements, Fields, JsonText, Parsed, parsed, parse_failed, int64, uint64, text, array, object,
  if_contains, no_more, item,
}
use mail_server_client.Http.Config.{throw_error}
use mail_server_client.Http.Message.{Request, Response, make_error}
use mail_server_client.Http.World.{Services, Action, pure}

-- "\"" + std::string{field} + "\"" + rest
unfoldable pub quoted : Bytes → Bytes → Bytes
quoted name rest = (b'"' ∷ []) ++ (name ++ ((b'"' ∷ []) ++ rest))

unfoldable pub read_required_int64 : Fields → Bytes → Result ℤ
unfolding quoted
read_required_int64 fields name = elim (if_contains name fields) [
  | some (int64 n) ↦ ok n
  | some (uint64 n) ↦ ok (int64_of_uint64 n)
  | _ ↦ throw_error (quoted name (codes " must be an integer"))
]

unfoldable pub read_required_user_email : Request → Result Bytes
read_required_user_email request = elim request.user_email [
  | none ↦ throw_error (codes "X-User-Email header is required")
  | some email ↦
      if is_empty email then throw_error (codes "X-User-Email header is required") else ok email
]

-- ReadRequiredString of SendMailHandler.cpp
unfoldable pub read_required_string : Fields → Bytes → Result Bytes
unfolding quoted
read_required_string fields name = elim (if_contains name fields) [
  | some (text value) ↦ ok (bind_text value)
  | _ ↦ throw_error (quoted name (codes " must be a string"))
]

-- ReadRequiredString of AuthHandler.cpp
unfoldable pub read_filled_string : Fields → Bytes → Result Bytes
unfolding quoted
read_filled_string fields name = elim (if_contains name fields) [
  | some (text value) ↦
      if is_empty (bind_text value)
      then throw_error (quoted name (codes " must not be empty"))
      else ok (bind_text value)
  | _ ↦ throw_error (quoted name (codes " must be a string"))
]

-- The loop of ReadRecipients.
unfoldable pub read_addresses : Elements → Result (List Bytes)
read_addresses no_more = ok []
read_addresses (item (text address) rest) = elim (read_addresses rest) [
  | ok addresses ↦ ok (bind_text address ∷ addresses)
  | err e ↦ err e
]
read_addresses (item _ rest) = throw_error (codes "\"to\" must be an array of strings")

unfoldable pub some_recipients : List Bytes → Result (List Bytes)
some_recipients [] = throw_error (codes "\"to\" must contain at least one recipient")
some_recipients (address ∷ addresses) = ok (address ∷ addresses)

unfoldable pub read_recipients : Fields → Result (List Bytes)
unfolding read_addresses some_recipients
read_recipients fields = elim (if_contains (codes "to") fields) [
  | some (array values) ↦ elim (read_addresses values) [
    | ok addresses ↦ some_recipients addresses
    | err e ↦ err e
  ]
  | _ ↦ throw_error (codes "\"to\" must be an array of strings")
]

-- ReadJsonObject of AuthHandler.cpp
unfoldable pub read_json_object : JsonText → Request → Result Fields
read_json_object json request = elim (json.parse request.body) [
  | parse_failed message ↦ throw_error (codes "Invalid JSON")
  | parsed (object fields) ↦ ok fields
  | parsed _ ↦ throw_error (codes "Expected a JSON object")
]

-- The head of the other handlers: the body must be an object.
unfoldable pub on_parsed :
    {P : Type 0} → Services P → Request → (Fields → Action P Response) → Parsed → Action P Response
on_parsed s request f (parse_failed message) =
    pure (make_error s.json request 400 (codes "Invalid JSON"))
on_parsed s request f (parsed (object fields)) = f fields
on_parsed s request f (parsed _) =
    pure (make_error s.json request 400 (codes "Expected a JSON object"))

unfoldable pub with_object :
    {P : Type 0} → Services P → Request → (Fields → Action P Response) → Action P Response
unfolding on_parsed
with_object s request f = on_parsed s request f (s.json.parse request.body)

-- ===== src/Http/Tests/Fixtures.antt =====
-- A server, a world and requests.
use mail_server_client.Base.{
  ℕ, pos, true, false, Option, none, some, [], ◌∷◌, ◌++◌, Bytes, codes, map, ◌+◌, ◌-◌,
}
use mail_server_client.Storage.Records.{Actor, ActorType, from, to, DeliveryStatus, sent, delivered}
use mail_server_client.Storage.Database.{Db}
use mail_server_client.Client.Wire.{Peer}
use mail_server_client.Http.Json.{
  Json, JsonText, parsed, text, int64, array, object, fields_of, elements_of,
}
use mail_server_client.Http.Config.{MailServerConfiguration, info}
use mail_server_client.Http.Message.{Verb, Request}
use mail_server_client.Http.World.{Crypto, Services, World}

abbrev pub reads : Json → JsonText
reads document = record { parse = λ body. parsed document; serialize = λ value. [] }

abbrev pub letters : Crypto
letters = record {
  derive_key = λ password salt. password ++ salt;
  to_hex = map (λ n. n + 65);
  from_hex = map (λ n. n - 65);
  random_block = λ n. n ∷ [];
}

abbrev pub settings : MailServerConfiguration
settings = record {
  database = record { storage_path = codes "mail.db"; migrations_path = codes "migrations" };
  server = record { host = codes "0.0.0.0"; port = 8080 };
  smtp = record { host = codes "smtp"; port = 25 };
  logger = record { file_path = codes "mail.log"; print_in_console = false; level = info };
}

abbrev pub quiet_peer : Peer (Unit {0})
quiet_peer = record { greeting = λ u. ([], u); respond = λ bytes u. ([], u) }

abbrev pub server : Json → Services (Unit {0})
server document = record {
  json = reads document;
  crypto = letters;
  configuration = settings;
  peer = quiet_peer;
}

abbrev actor : ℕ → Bytes → ActorType → Option DeliveryStatus → Actor
actor id email type status = record {
  id = id;
  message_id = 1;
  actor_email = email;
  actor_type = type;
  delivery_status = status;
  attempt_count = 0;
  next_attempt_at = none;
  last_error = none;
  delivered_at = none;
  read_at = none;
  starred_at = none;
  archived_at = none;
  deleted_at = none;
}

abbrev pub mail_db : Db
mail_db = record {
  tables = record {
    messages =
        record {
          id = 1;
          subject = none;
          body = codes "hello";
          reply_to_message_id = none;
          created_at = codes "2026-01-01 00:00:00";
          message_status = sent;
        }
        ∷ [];
    actors = actor 1 (codes "a@x") from none ∷ actor 2 (codes "b@x") to (some delivered) ∷ [];
    users = [];
    last_message = 1;
    last_actor = 2;
    last_user = 0;
  };
  saved = none;
  faults = [];
  clock = codes "2026-01-02 00:00:00";
}

abbrev pub mail_world : World (Unit {0})
mail_world = record {
  db = mail_db;
  wire = record { peer = tt; incoming = []; sent = []; faults = []; is_open = false };
  blocks = 0;
  file = [];
  console = [];
}

abbrev pub request_to : Verb → Bytes → Option Bytes → Request
request_to method target email = record {
  method = method;
  target = target;
  version = 11;
  keep_alive = true;
  user_email = email;
  body = [];
}

abbrev pub id_document : Json
id_document = object (fields_of ((codes "id", int64 (pos 1)) ∷ []))

abbrev pub account_document : Json
account_document = object (
    fields_of (
      (codes "username", text (codes "ann"))
      ∷ (codes "email", text (codes "ann@x"))
      ∷ (codes "password", text (codes "secret"))
      ∷ []))

abbrev pub mail_document : Json
mail_document = object (
    fields_of (
      (codes "from", text (codes "a@x"))
      ∷ (codes "to", array (elements_of (text (codes "b@x") ∷ [])))
      ∷ (codes "subject", text (codes "hi"))
      ∷ (codes "body", text (codes "hello"))
      ∷ []))

abbrev pub endpoint_document : Bytes → Json
endpoint_document host = object (fields_of ((codes "host", text host) ∷ []))

abbrev pub settings_document : Json
settings_document = object (
    fields_of (
      (
        codes "database",
        object (
            fields_of (
              (codes "storage_path", text (codes "mail.db"))
              ∷ (codes "migrations_path", text (codes "migrations"))
              ∷ [])),
      )
      ∷ (codes "server", endpoint_document (codes "0.0.0.0"))
      ∷ (
        codes "smtp",
        object
            (fields_of ((codes "host", text (codes "smtp")) ∷ (codes "port", int64 (pos 25)) ∷ [])),
      )
      ∷ (codes "logging", object (fields_of ((codes "file_path", text (codes "mail.log")) ∷ [])))
      ∷ []))

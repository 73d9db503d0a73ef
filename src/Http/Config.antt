-- ===== src/Http/Config.antt =====
-- apps/mail-server/include/mail_server/Configuration.h and src/services/MailServerConfigurator.cpp. A
-- path is its text. A member whose reading throws leaves the configurator unbuilt.
pub mod Bounds
use mail_server_client.Base.{
  ℕ, ℤ, pos, negsuc, uint64_of_int64, Bool, true, false, ◌||◌, Option, none, some, List, [], ◌++◌,
  Bytes, codes, bytes_eq, is_empty, ltb, ◌==◌, if◌then◌else◌,
}
use mail_server_client.Storage.Database.{Result, ok, err, std_exception, bind_text}
use mail_server_client.Http.Json.{
  Json, Fields, JsonText, Parsed, parsed, parse_failed, boolean, int64, uint64, text, object,
  if_contains,
}

pub data LogLevel : Type 0 where
  trace debug info warning error : LogLevel

pub record DatabaseConfiguration : Type 0 where
  pub storage_path : Bytes
  pub migrations_path : Bytes

-- ServerConfiguration and SmtpConfiguration
pub record Endpoint : Type 0 where
  pub host : Bytes
  pub port : ℕ

pub record LoggerConfiguration : Type 0 where
  pub file_path : Bytes
  pub print_in_console : Bool
  pub level : LogLevel

pub record MailServerConfiguration : Type 0 where
  pub database : DatabaseConfiguration
  pub server : Endpoint
  pub smtp : Endpoint
  pub logger : LoggerConfiguration

infixl 5 ◌>>=◌
unfoldable pub ◌>>=◌ : {A B : Type 0} → Result A → (A → Result B) → Result B
ok a >>= f = f a
err e >>= f = err e

abbrev pure : {A : Type 0} → A → Result A
pure a = ok a

-- throw std::runtime_error(message)
abbrev pub throw_error : {A : Type 0} → Bytes → Result A
throw_error message = err (std_exception message)

unfoldable pub get_object : Fields → Bytes → Result Fields
get_object fields name = elim (if_contains name fields) [
  | some (object value) ↦ ok value
  | _ ↦ throw_error (name ++ codes " must be an object")
]

unfoldable pub get_string : Fields → Bytes → Bytes → Result Bytes
get_string fields name default_value = elim (if_contains name fields) [
  | none ↦ ok default_value
  | some (text value) ↦ ok (bind_text value)
  | some _ ↦ throw_error (name ++ codes " must be a string")
]

unfoldable pub get_bool : Fields → Bytes → Bool → Result Bool
get_bool fields name default_value = elim (if_contains name fields) [
  | none ↦ ok default_value
  | some (boolean value) ↦ ok value
  | some _ ↦ throw_error (name ++ codes " must be a boolean")
]

unfoldable pub port_in_range : Bytes → ℕ → Result ℕ
port_in_range name port =
    if port == 0 || ltb 65535 port
    then throw_error (name ++ codes " is outside the valid range")
    else ok port

unfoldable pub port_of : Bytes → Json → Result ℕ
unfolding port_in_range
port_of name (uint64 n) = port_in_range name n
port_of name (int64 n) = port_in_range name (uint64_of_int64 n)
port_of name _ = throw_error (name ++ codes " must be an integer")

unfoldable pub get_port : Fields → Bytes → ℕ → Result ℕ
unfolding port_of
get_port fields name default_value = elim (if_contains name fields) [
  | none ↦ ok default_value
  | some value ↦ port_of name value
]

unfoldable pub parse_log_level : Bytes → Result LogLevel
parse_log_level level =
    if bytes_eq level (codes "Trace")
    then ok trace
    else if bytes_eq level (codes "Debug")
    then ok debug
    else if bytes_eq level (codes "Info")
    then ok info
    else if bytes_eq level (codes "Warning")
    then ok warning
    else if bytes_eq level (codes "Error")
    then ok error
    else throw_error (codes "Unsupported logging.level: " ++ level)

-- The assignments of Load, in their order.
unfoldable pub read_members : Fields → Fields → Fields → Fields → Result MailServerConfiguration
unfolding get_string get_port get_bool parse_log_level
read_members database server smtp logging = do
  storage_path ← get_string database (codes "storage_path") []
  migrations_path ← get_string database (codes "migrations_path") []
  server_host ← get_string server (codes "host") []
  server_port ← get_port server (codes "port") 8080
  smtp_host ← get_string smtp (codes "host") []
  smtp_port ← get_port smtp (codes "port") 2525
  file_path ← get_string logging (codes "file_path") []
  print_in_console ← get_bool logging (codes "print_in_console") false
  level_name ← get_string logging (codes "level") (codes "Info")
  level ← parse_log_level level_name
  pure (record {
    database = record { storage_path = storage_path; migrations_path = migrations_path };
    server = record { host = server_host; port = server_port };
    smtp = record { host = smtp_host; port = smtp_port };
    logger = record { file_path = file_path; print_in_console = print_in_console; level = level };
  })

unfoldable pub read_root : Fields → Result MailServerConfiguration
unfolding get_object read_members
read_root root = do
  database ← get_object root (codes "database")
  server ← get_object root (codes "server")
  smtp ← get_object root (codes "smtp")
  logging ← get_object root (codes "logging")
  read_members database server smtp logging

-- `file` is what the path holds, where it can be opened.
unfoldable pub load : JsonText → Bytes → Option Bytes → Result MailServerConfiguration
unfolding read_root
load json path none =
    throw_error (codes "Unable to read mail server configuration '" ++ (path ++ codes "'"))
load json path (some file) = elim (json.parse file) [
  | parse_failed message ↦
      throw_error
        (codes "Unable to parse mail server configuration '" ++ (path ++ (codes "': " ++ message)))
  | parsed (object root) ↦ read_root root
  | parsed _ ↦ throw_error (codes "Mail server configuration must be a JSON object")
]

unfoldable pub validate : MailServerConfiguration → Result (Unit {0})
validate c =
    if is_empty c.database.storage_path
    then throw_error (codes "database.storage_path must not be empty")
    else if is_empty c.database.migrations_path
    then throw_error (codes "database.migrations_path must not be empty")
    else if is_empty c.server.host
    then throw_error (codes "server.host must not be empty")
    else if is_empty c.smtp.host
    then throw_error (codes "smtp.host must not be empty")
    else if is_empty c.logger.file_path
    then throw_error (codes "logging.file_path must not be empty")
    else ok tt

-- The constructor of MailServerConfigurator.
unfoldable pub configurator : JsonText → Bytes → Option Bytes → Result MailServerConfiguration
unfolding load validate
configurator json path file = do
  configuration ← load json path file
  checked ← validate configuration
  pure configuration

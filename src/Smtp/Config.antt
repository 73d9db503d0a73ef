-- ===== src/Smtp/Config.antt =====
-- apps/smtp-server/include/smtp/ServerConfig.hpp and apps/smtp-server/src/smtp/Configuration.cpp.
-- The property tree that Boost reads from the JSON file is a parameter: what each path holds.
pub mod Usable
use mail_server_client.Base.{
  ℕ, ◌^◌, ◌%◌, Bool, false, ◌&&◌, ◌||◌, Option, none, some, [], Bytes, codes, is_empty, ltb, ◌==◌,
  if◌then◌else◌,
}

pub record DbConfig : Type 0 where
  pub storage_path : Bytes
  pub migrations_path : Bytes

pub record TlsConfig : Type 0 where
  pub enabled : Bool
  pub certificate_path : Bytes
  pub private_key_path : Bytes

pub record DeliveryConfig : Type 0 where
  pub batch_size : ℕ
  pub poll_interval_milliseconds : ℕ

pub record ServerConfig : Type 0 where
  pub host : Bytes
  pub port : ℕ
  pub server_name : Bytes
  pub max_connections : ℕ
  pub max_message_size_bytes : ℕ
  pub require_authentication : Bool
  pub allow_plain_authentication_without_tls : Bool
  pub tls : TlsConfig
  pub delivery : DeliveryConfig

-- The initial values of the members.
abbrev pub default_db : DbConfig
default_db = record {
  storage_path = codes "mail-storage";
  migrations_path = codes "libs/storage/migrations";
}

abbrev pub default_server : ServerConfig
default_server = record {
  host = codes "0.0.0.0";
  port = 25;
  server_name = codes "localhost";
  max_connections = 1024;
  max_message_size_bytes = 10485760;
  require_authentication = false;
  allow_plain_authentication_without_tls = false;
  tls = record { enabled = false; certificate_path = []; private_key_path = [] };
  delivery = record { batch_size = 32; poll_interval_milliseconds = 100 };
}

-- tree.get<T>(path, fallback) for each type that is read: a value that is there and converts
-- (`some`), or a path that is missing or does not convert (`none`), which leaves the fallback.
pub record Tree : Type 0 where
  pub text : Bytes → Option Bytes
  pub number : Bytes → Option ℕ
  pub flag : Bytes → Option Bool

abbrev pub read_value {ℓ} : {A : Type ℓ} → Option A → A → A
read_value none destination = destination
read_value (some value) destination = value

pub data ConfigError : Type 0 where
  unreadable port_out_of_range empty_storage_path empty_migrations_path empty_host : ConfigError
  empty_server_name zero_port zero_max_connections zero_max_message_size : ConfigError
  zero_batch_size zero_poll_interval tls_files_missing : ConfigError

pub record Configuration : Type 0 where
  pub database : DbConfig
  pub server : ServerConfig

pub data Loaded {ℓ} (A : Type ℓ) : Type ℓ where
  ok : A → Loaded A
  err : ConfigError → Loaded A

abbrev text_at : Tree → Bytes → Bytes → Bytes
text_at tree path destination = read_value (tree.text path) destination

abbrev pub number_at : Tree → Bytes → ℕ → ℕ
number_at tree path destination = read_value (tree.number path) destination

abbrev flag_at : Tree → Bytes → Bool → Bool
flag_at tree path destination = read_value (tree.flag path) destination

abbrev read_db : Tree → DbConfig
read_db tree = record {
  storage_path = text_at tree (codes "database.storage_path") default_db.storage_path;
  migrations_path = text_at tree (codes "database.migrations_path") default_db.migrations_path;
}

abbrev read_tls : Tree → TlsConfig
read_tls tree = record {
  enabled = flag_at tree (codes "tls.enabled") default_server.tls.enabled;
  certificate_path =
      text_at tree (codes "tls.certificate_path") default_server.tls.certificate_path;
  private_key_path =
      text_at tree (codes "tls.private_key_path") default_server.tls.private_key_path;
}

abbrev read_delivery : Tree → DeliveryConfig
read_delivery tree = record {
  batch_size = number_at tree (codes "delivery.batch_size") default_server.delivery.batch_size;
  poll_interval_milliseconds =
      number_at tree (codes "delivery.poll_interval_ms")
        default_server.delivery.poll_interval_milliseconds;
}

-- What `Load` has read before the port.
abbrev read_server : Tree → ServerConfig
read_server tree = record {
  host = text_at tree (codes "server.host") default_server.host;
  port = default_server.port;
  server_name = text_at tree (codes "server.server_name") default_server.server_name;
  max_connections = number_at tree (codes "server.max_connections") default_server.max_connections;
  max_message_size_bytes =
      number_at tree (codes "server.max_message_size_bytes") default_server.max_message_size_bytes;
  require_authentication =
      flag_at tree (codes "server.require_authentication") default_server.require_authentication;
  allow_plain_authentication_without_tls =
      flag_at tree (codes "server.allow_plain_authentication_without_tls")
        default_server.allow_plain_authentication_without_tls;
  tls = read_tls tree;
  delivery = read_delivery tree;
}

-- What `Load` leaves in the members when it returns.
unfoldable pub loaded : Tree → Configuration
loaded tree = record {
  database = read_db tree;
  server = record (read_server tree) {
    port = number_at tree (codes "server.port") default_server.port % 2 ^ 16;
  };
}

unfoldable pub load : Tree → Loaded Configuration
unfolding loaded
load tree =
    if ltb 65535 (number_at tree (codes "server.port") default_server.port)
    then err port_out_of_range
    else ok (loaded tree)

unfoldable pub validate : Configuration → Loaded Configuration
validate c =
    if is_empty c.database.storage_path
    then err empty_storage_path
    else if is_empty c.database.migrations_path
    then err empty_migrations_path
    else if is_empty c.server.host
    then err empty_host
    else if is_empty c.server.server_name
    then err empty_server_name
    else if c.server.port == 0
    then err zero_port
    else if c.server.max_connections == 0
    then err zero_max_connections
    else if c.server.max_message_size_bytes == 0
    then err zero_max_message_size
    else if c.server.delivery.batch_size == 0
    then err zero_batch_size
    else if c.server.delivery.poll_interval_milliseconds == 0
    then err zero_poll_interval
    else if c.server.tls.enabled
        && (is_empty c.server.tls.certificate_path || is_empty c.server.tls.private_key_path)
    then err tls_files_missing
    else ok c

-- The constructor: Load, then Validate. `none` is a file that read_json refuses.
unfoldable pub configuration : Option Tree → Loaded Configuration
unfolding load validate
configuration none = err unreadable
configuration (some tree) = elim (load tree) [ err e ↦ err e | ok c ↦ validate c ]

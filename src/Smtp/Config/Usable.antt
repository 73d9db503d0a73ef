-- ===== src/Smtp/Config/Usable.antt =====
-- Which configurations the server starts with: what `Load` reads and `Validate` asks for.
use mail_server_client.Base.{
  ◌≡◌, ◌≤◌, ◌*◌, ◌↔◌, refl, sym, ◌∙◌, [], true, false, Option, none, some, codes, is_empty, ltb,
  arith, Bool-cases, inl, inr,
}
use mathlib.Core.Path.{subst}
use mail_server_client.Smtp.Config.{
  read_value, number_at, loaded, default_server, Tree, Configuration, ok, load, validate,
  configuration,
}

-- A configuration that the server can run with.
pub record IsUsable (c : Configuration) : Type 0 where
  pub storage_path : is_empty c.database.storage_path ≡ false
  pub migrations_path : is_empty c.database.migrations_path ≡ false
  pub host : is_empty c.server.host ≡ false
  pub server_name : is_empty c.server.server_name ≡ false
  pub port : (1 ≤ c.server.port) × (c.server.port ≤ 65535)
  pub max_connections : 1 ≤ c.server.max_connections
  pub max_message_size : 1 ≤ c.server.max_message_size_bytes
  pub batch_size : 1 ≤ c.server.delivery.batch_size
  pub poll_interval : 1 ≤ c.server.delivery.poll_interval_milliseconds
  pub tls_files :
      c.server.tls.enabled ≡ true
      → (is_empty c.server.tls.certificate_path ≡ false)
        × (is_empty c.server.tls.private_key_path ≡ false)

validate-IsUsable : (b c : Configuration) → validate b ≡ ok c → b.server.port ≤ 65535 → IsUsable c
unfolding validate
validate-IsUsable b c h p = ground arith

-- What is there, or else what was to hold without it.
pub or_else {ℓ} : {A : Type ℓ} → Option A → A → A
or_else none fallback = fallback
or_else (some value) fallback = value

read_value-or_else {ℓ} :
    {A : Type ℓ} (value : Option A) (fallback : A)
    → read_value value fallback ≡ or_else value fallback
unfolding or_else
read_value-or_else none fallback = refl
read_value-or_else (some value) fallback = refl

-- Each member is what the file has at its path, or else the default.
pub record Follows (tree : Tree) (c : Configuration) : Type 0 where
  pub storage_path :
      c.database.storage_path
      ≡ or_else (tree.text (codes "database.storage_path")) (codes "mail-storage")
  pub migrations_path :
      c.database.migrations_path
      ≡ or_else (tree.text (codes "database.migrations_path")) (codes "libs/storage/migrations")
  pub host : c.server.host ≡ or_else (tree.text (codes "server.host")) (codes "0.0.0.0")
  pub port : c.server.port ≡ or_else (tree.number (codes "server.port")) 25
  pub server_name :
      c.server.server_name ≡ or_else (tree.text (codes "server.server_name")) (codes "localhost")
  pub max_connections :
      c.server.max_connections ≡ or_else (tree.number (codes "server.max_connections")) 1024
  pub max_message_size_bytes :
      c.server.max_message_size_bytes
      ≡ or_else (tree.number (codes "server.max_message_size_bytes")) (10 * 1024 * 1024)
  pub require_authentication :
      c.server.require_authentication
      ≡ or_else (tree.flag (codes "server.require_authentication")) false
  pub allow_plain :
      c.server.allow_plain_authentication_without_tls
      ≡ or_else (tree.flag (codes "server.allow_plain_authentication_without_tls")) false
  pub tls_enabled : c.server.tls.enabled ≡ or_else (tree.flag (codes "tls.enabled")) false
  pub certificate_path :
      c.server.tls.certificate_path ≡ or_else (tree.text (codes "tls.certificate_path")) []
  pub private_key_path :
      c.server.tls.private_key_path ≡ or_else (tree.text (codes "tls.private_key_path")) []
  pub batch_size :
      c.server.delivery.batch_size ≡ or_else (tree.number (codes "delivery.batch_size")) 32
  pub poll_interval :
      c.server.delivery.poll_interval_milliseconds
      ≡ or_else (tree.number (codes "delivery.poll_interval_ms")) 100

loaded-Follows :
    (tree : Tree)
    → number_at tree (codes "server.port") default_server.port ≤ 65535
    → Follows tree (loaded tree)
unfolding loaded
loaded-Follows tree h = record {
  storage_path = read_value-or_else _ _;
  migrations_path = read_value-or_else _ _;
  host = read_value-or_else _ _;
  port = omega (arith, h) ∙ read_value-or_else (tree.number (codes "server.port")) 25;
  server_name = read_value-or_else _ _;
  max_connections = read_value-or_else _ _;
  max_message_size_bytes = read_value-or_else _ _;
  require_authentication = read_value-or_else _ _;
  allow_plain = read_value-or_else _ _;
  tls_enabled = read_value-or_else _ _;
  certificate_path = read_value-or_else _ _;
  private_key_path = read_value-or_else _ _;
  batch_size = read_value-or_else _ _;
  poll_interval = read_value-or_else _ _;
}

-- There is one configuration that follows a file.
Follows-same : (tree : Tree) (b c : Configuration) → Follows tree b → Follows tree c → b ≡ c
Follows-same tree b c f g = λ i. record {
  database = record {
    storage_path = (f.storage_path ∙ sym g.storage_path) i;
    migrations_path = (f.migrations_path ∙ sym g.migrations_path) i;
  };
  server = record {
    host = (f.host ∙ sym g.host) i;
    port = (f.port ∙ sym g.port) i;
    server_name = (f.server_name ∙ sym g.server_name) i;
    max_connections = (f.max_connections ∙ sym g.max_connections) i;
    max_message_size_bytes = (f.max_message_size_bytes ∙ sym g.max_message_size_bytes) i;
    require_authentication = (f.require_authentication ∙ sym g.require_authentication) i;
    allow_plain_authentication_without_tls = (f.allow_plain ∙ sym g.allow_plain) i;
    tls = record {
      enabled = (f.tls_enabled ∙ sym g.tls_enabled) i;
      certificate_path = (f.certificate_path ∙ sym g.certificate_path) i;
      private_key_path = (f.private_key_path ∙ sym g.private_key_path) i;
    };
    delivery = record {
      batch_size = (f.batch_size ∙ sym g.batch_size) i;
      poll_interval_milliseconds = (f.poll_interval ∙ sym g.poll_interval) i;
    };
  };
}

pub record Accepted (tree : Tree) (c : Configuration) : Type 0 where
  pub follows : Follows tree c
  pub usable : IsUsable c

validate-same : (b c : Configuration) → validate b ≡ ok c → b ≡ c
unfolding validate
validate-same b c h = ground arith

IsUsable-validate : (c : Configuration) → IsUsable c → validate c ≡ ok c
unfolding validate
IsUsable-validate c u = ground arith

loaded-Accepted :
    (tree : Tree) (c : Configuration) → configuration (some tree) ≡ ok c → Accepted tree c
unfolding configuration load loaded
loaded-Accepted tree c h =
    elim (Bool-cases (ltb 65535 (number_at tree (codes "server.port") default_server.port))) [
      | inl e ↦ let g = rw (e, configuration) at h in cc
      | inr e ↦
          let g = rw (e, configuration) at h in
          let follows = loaded-Follows tree (ground arith) in
          record {
            follows = subst (Follows tree) (validate-same (loaded tree) c g) follows;
            usable = validate-IsUsable (loaded tree) c g (omega arith);
          }
    ]

Accepted-loaded :
    (tree : Tree) (c : Configuration) → Accepted tree c → configuration (some tree) ≡ ok c
unfolding configuration load
Accepted-loaded tree c a =
    let read = read_value-or_else (tree.number (codes "server.port")) 25 in
    let small : number_at tree (codes "server.port") default_server.port ≤ 65535 =
      omega (arith, read, a.follows.port, a.usable.port) in
    let same = Follows-same tree c (loaded tree) a.follows (loaded-Follows tree small) in
    let below : ltb 65535 (number_at tree (codes "server.port") default_server.port) ≡ false =
      ground arith in
    let read_in : load tree ≡ ok (loaded tree) = rw (below, load) refl in
    rw (read_in, configuration) (subst (λ b. validate b ≡ ok c) same (IsUsable-validate c a.usable))

-- From a file that can be read, the server starts with a configuration exactly when each member of it is
-- what the file has, or else the default, and it can run with them: no path or name is empty, the port
-- is between 1 and 65535, no limit is 0, and with TLS both files are named.
pub configuration-Accepted :
    (tree : Tree) (c : Configuration) → (configuration (some tree) ≡ ok c) ↔ Accepted tree c
configuration-Accepted tree c = (loaded-Accepted tree c, Accepted-loaded tree c)

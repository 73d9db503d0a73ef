-- ===== src/Http/World.antt =====
-- What the handlers act on, and what they take from other libraries. `MailServerLogger::Log` of
-- apps/mail-server/src/services/MailServerLogger.cpp stands here too.
use mail_server_client.Base.{ℕ, List, [], ◌∷◌, ◌++◌, Bytes, codes, ltb, if◌then◌else◌}
use mail_server_client.Storage.Database.{Db, Query, Result, ok, err, std_exception, other_exception}
use mail_server_client.Client.Wire.{Wire, Peer}
use mail_server_client.Http.Json.{JsonText}
use mail_server_client.Http.Config.{
  LogLevel, trace, debug, info, warning, error, MailServerConfiguration,
}

-- CryptoPP: Argon2id of a password and a salt with the parameters of the code, the codec of hex, and
-- the n-th block of sixteen bytes that the random pool gives.
pub record Crypto : Type 0 where
  pub derive_key : Bytes → Bytes → Bytes
  pub to_hex : Bytes → Bytes
  pub from_hex : Bytes → Bytes
  pub random_block : ℕ → Bytes

-- What ServiceRegistry::Initialize sets up once, with the libraries.
pub record Services (P : Type 0) : Type 0 where
  pub json : JsonText
  pub crypto : Crypto
  pub configuration : MailServerConfiguration
  pub peer : Peer P

-- `blocks` counts the random blocks taken; `file` and `console` are what was logged.
pub record World (P : Type 0) : Type 0 where
  pub db : Db
  pub wire : Wire P
  pub blocks : ℕ
  pub file : List (LogLevel × Bytes)
  pub console : List Bytes

abbrev pub Action : Type 0 → Type 0 → Type 0
Action P A = World P → Result A × World P

abbrev pub caught : {A : Type 0} → (Bytes → A) → Result A → Result A
caught f (ok a) = ok a
caught f (err (std_exception message)) = ok (f message)
caught f (err other_exception) = err other_exception

module _ {P : Type 0} where
  abbrev pub on_ok : {A B : Type 0} → Result A → (A → Action P B) → Action P B
  on_ok (ok a) f w = f a w
  on_ok (err e) f w = (err e, w)

  infixl 5 ◌>>=◌ ◌>>◌
  unfoldable pub ◌>>=◌ : {A B : Type 0} → Action P A → (A → Action P B) → Action P B
  ◌>>=◌ m f w = on_ok (m w).0 f (m w).1

  abbrev pub ◌>>◌ : {A B : Type 0} → Action P A → Action P B → Action P B
  m >> n = m >>= λ _. n

  -- What does not act, and may throw.
  unfoldable pub give : {A : Type 0} → Result A → Action P A
  give r w = (r, w)

  abbrev pub pure : {A : Type 0} → A → Action P A
  pure a = give (ok a)

  -- A call of the storage.
  unfoldable pub query : {A : Type 0} → Query A → Action P A
  query q w = ((q w.db).0, record w { db = (q w.db).1 })

  -- try { … } catch (std::exception const& exception) { return … }
  unfoldable pub try_catch : {A : Type 0} → Action P A → (Bytes → A) → Action P A
  try_catch m f w = (caught f (m w).0, (m w).1)

unfoldable pub level_rank : LogLevel → ℕ
level_rank trace = 0
level_rank debug = 1
level_rank info = 2
level_rank warning = 3
level_rank error = 4

unfoldable pub level_to_string : LogLevel → Bytes
level_to_string trace = codes "TRACE"
level_to_string debug = codes "DEBUG"
level_to_string info = codes "INFO"
level_to_string warning = codes "WARN"
level_to_string error = codes "ERROR"

-- MailServerLogger::Log
unfoldable pub log : {P : Type 0} → Services P → LogLevel → Bytes → Action P (Unit {0})
unfolding level_rank level_to_string
log s level message w =
    let settings = s.configuration.logger in
    if ltb (level_rank level) (level_rank settings.level) then (ok tt, w) else (
      ok tt,
      record w {
        file = w.file ++ (level, message) ∷ [];
        console =
            if settings.print_in_console
            then w.console ++ (codes "[" ++ (level_to_string level ++ (codes "] " ++ message))) ∷ []
            else w.console;
      },
    )

-- ===== src/Storage/Database.antt =====
-- The connection of libs/mail-storage/src/Database.cpp and Statement.cpp. A statement of SQL is a
-- function on the tables. Whether SQLite carries one out (the disk, a lock) is not the program's:
-- `faults` says for each statement to come whether it fails, and with which exception.
pub mod Laws
use mail_server_client.Base.{
  ℕ, ◌≡◌, refl, Option, none, some, List, [], ◌∷◌, Bytes, codes, ◌==◌, if◌then◌else◌, Bool, true,
  false,
}
use mail_server_client.Storage.Records.{Actor, Message, User}

-- What a C++ handler can tell apart: a std::exception with its text, and anything else.
pub data Exception : Type 0 where
  std_exception : Bytes → Exception
  other_exception : Exception

pub data Result {ℓ} (A : Type ℓ) : Type ℓ where
  ok : A → Result A
  err : Exception → Result A

-- `last_message` and `last_actor` are the counters of AUTOINCREMENT.
pub record Tables : Type 0 where
  pub messages : List Message
  pub actors : List Actor
  pub users : List User
  pub last_message : ℕ
  pub last_actor : ℕ
  pub last_user : ℕ

pub record Db : Type 0 where
  pub tables : Tables
  pub saved : Option Tables
  pub faults : List (Option Exception)
  pub clock : Bytes

abbrev pub Query : Type 0 → Type 0
Query A = Db → Result A × Db

abbrev pub next_fault : List (Option Exception) → Option Exception
next_fault [] = none
next_fault (f ∷ fs) = f

abbrev pub later_faults : List (Option Exception) → List (Option Exception)
later_faults [] = []
later_faults (f ∷ fs) = fs

-- What follows a query with this result.
abbrev pub after : {A B : Type 0} → Result A → (A → Query B) → Query B
after (ok a) f db = f a db
after (err e) f db = (err e, db)

infixl 5 ◌>>=◌ ◌>>◌
abbrev pub ◌>>=◌ : {A B : Type 0} → Query A → (A → Query B) → Query B
◌>>=◌ m f db = after (m db).0 f (m db).1

abbrev pub ◌>>◌ : {A B : Type 0} → Query A → Query B → Query B
m >> n = m >>= λ _. n

abbrev pub pure : {A : Type 0} → A → Query A
pure a db = (ok a, db)

-- A constraint of the schema that a statement breaks.
abbrev pub constraint_failed : Exception
constraint_failed = std_exception (codes "Failed to execute SQLite statement: constraint failed")

-- One statement: it fails and leaves the tables alone, or does its work whole.
unfoldable pub statement : {A : Type 0} → (Tables → Result (A × Tables)) → Query A
statement body db =
    let rest = record db { faults = later_faults db.faults } in
    elim (next_fault db.faults) [
      | some e ↦ (err e, rest)
      | none ↦ elim (body db.tables) [
        | err e ↦ (err e, rest)
        | ok (a, t) ↦ (ok a, record rest { tables = t })
      ]
    ]

-- Execute("BEGIN IMMEDIATE;"), Execute("COMMIT;") and Execute("ROLLBACK;")
unfoldable pub begin_immediate : Query (Unit {0})
begin_immediate db =
    let rest = record db { faults = later_faults db.faults } in
    elim (next_fault db.faults) [
      | some e ↦ (err e, rest)
      | none ↦ elim db.saved [
        | some t ↦
            (err (std_exception (codes "SQLite execute failed: transaction is active")), rest)
        | none ↦ (ok tt, record rest { saved = some db.tables })
      ]
    ]

unfoldable pub commit : Query (Unit {0})
commit db =
    let rest = record db { faults = later_faults db.faults } in
    elim (next_fault db.faults) [
      | some e ↦ (err e, rest)
      | none ↦ elim db.saved [
        | none ↦
            (err (std_exception (codes "SQLite execute failed: no transaction is active")), rest)
        | some t ↦ (ok tt, record rest { saved = none })
      ]
    ]

unfoldable pub rollback : Query (Unit {0})
rollback db =
    let rest = record db { faults = later_faults db.faults } in
    elim (next_fault db.faults) [
      | some e ↦ (err e, rest)
      | none ↦ elim db.saved [
        | none ↦
            (err (std_exception (codes "SQLite execute failed: no transaction is active")), rest)
        | some t ↦ (ok tt, record rest { tables = t; saved = none })
      ]
    ]

-- BindText passes c_str() with length -1: SQLite reads up to the first NUL.
unfoldable pub bind_text : Bytes → Bytes
bind_text [] = []
bind_text (x ∷ xs) = if x == 0 then [] else x ∷ bind_text xs

-- ===== src/Storage/Migrations.antt =====
-- libs/mail-storage/src/MigrationRunner.cpp. The schema and the rows that the scripts change are any
-- type `S`; what SQLite makes of a script is a parameter, which gives its result and, where a statement
-- of the script fails, what the statements in front of it have done. No script touches
-- schema_migrations or the transaction.
pub mod Files
pub mod Contents
pub mod Order
pub mod Steps
pub mod Atomic
pub mod Again
mod Tests
use mail_server_client.Base.{
  ℕ, Bool, true, false, Option, none, some, List, [], ◌∷◌, ◌++◌, Bytes, codes, ◌==◌, if◌then◌else◌,
}
use mail_server_client.Storage.Database.{
  Exception, std_exception, Result, ok, err, next_fault, later_faults, bind_text,
}
use mail_server_client.Storage.Rows.{exists_where}
use mail_server_client.Storage.Migrations.Files.{Migration, Directory, load_migrations}

-- `applied` is the table schema_migrations, where it is there: versions and names.
pub record Store (S : Type 0) : Type 0 where
  pub schema : S
  pub applied : Option (List (ℕ × Bytes))

pub record Connection (S : Type 0) : Type 0 where
  pub store : Store S
  pub saved : Option (Store S)
  pub faults : List (Option Exception)

-- What SQLite makes of a script, and what the file system gives for a path.
pub record Platform (S : Type 0) : Type 0 where
  pub run_sql : Bytes → S → Result (Unit {0}) × S
  pub read_file : Bytes → Option Bytes

abbrev pub Step : Type 0 → Type 0 → Type 0
Step S A = Connection S → Result A × Connection S

abbrev pub existing : Option (List (ℕ × Bytes)) → List (ℕ × Bytes)
existing none = []
existing (some rows) = rows

abbrev pub has_version : ℕ → List (ℕ × Bytes) → Bool
has_version version rows = exists_where (λ (r : ℕ × Bytes). r.0 == version) rows

abbrev pub no_table : Exception
no_table = std_exception (codes "Failed to prepare SQLite statement: no such table")

abbrev pub look_up : ℕ → Option (List (ℕ × Bytes)) → Result Bool
look_up version none = err no_table
look_up version (some rows) = ok (has_version version rows)

abbrev pub insert :
    ℕ → Bytes → Option (List (ℕ × Bytes)) → Result (Unit {0}) × Option (List (ℕ × Bytes))
insert version name none = (err no_table, none)
insert version name (some rows) =
    if has_version version rows
    then (
      err (std_exception (codes "Failed to execute SQLite statement: UNIQUE constraint failed")),
      some rows,
    )
    else (ok tt, some (rows ++ (version, name) ∷ []))

abbrev pub no_transaction : Exception
no_transaction = std_exception (codes "SQLite execute failed: no transaction is active")

module _ {S : Type 0} where
  abbrev pub on_ok : {A B : Type 0} → Result A → (A → Step S B) → Step S B
  on_ok (ok a) f c = f a c
  on_ok (err e) f c = (err e, c)

  infixl 5 ◌>>=◌ ◌>>◌
  unfoldable pub ◌>>=◌ : {A B : Type 0} → Step S A → (A → Step S B) → Step S B
  ◌>>=◌ m f c = on_ok (m c).0 f (m c).1

  abbrev pub ◌>>◌ : {A B : Type 0} → Step S A → Step S B → Step S B
  m >> n = m >>= λ _. n

  unfoldable pub give : {A : Type 0} → Result A → Step S A
  give r c = (r, c)

  -- One call of SQLite: it fails at once, or does what it does.
  unfoldable pub call : {A : Type 0} → (Connection S → Result A × Connection S) → Step S A
  call f c =
      let rest = record c { faults = later_faults c.faults } in
      elim (next_fault c.faults) [ some e ↦ (err e, rest) | none ↦ f rest ]

  abbrev pub on_store :
      {A : Type 0} → (Store S → Result A × Store S) → Connection S → Result A × Connection S
  on_store f c = ((f c.store).0, record c { store = (f c.store).1 })

  abbrev pub create_table : Store S → Result (Unit {0}) × Store S
  create_table t = (ok tt, record t { applied = some (existing t.applied) })

  unfoldable pub ensure_migrations_table : Step S (Unit {0})
  unfolding call
  ensure_migrations_table = call (on_store create_table)

  abbrev pub read_version : ℕ → Store S → Result Bool × Store S
  read_version version t = (look_up version t.applied, t)

  unfoldable pub is_migration_applied : ℕ → Step S Bool
  unfolding call
  is_migration_applied version = call (on_store (read_version version))

  abbrev pub insert_row : Migration → Store S → Result (Unit {0}) × Store S
  insert_row m t = (
    (insert m.version (bind_text m.name) t.applied).0,
    record t { applied = (insert m.version (bind_text m.name) t.applied).1 },
  )

  unfoldable pub record_migration : Migration → Step S (Unit {0})
  unfolding call
  record_migration m = call (on_store (insert_row m))

  unfoldable pub begin_immediate : Step S (Unit {0})
  unfolding call
  begin_immediate = call λ c. elim c.saved [
    | some t ↦ (err (std_exception (codes "SQLite execute failed: transaction is active")), c)
    | none ↦ (ok tt, record c { saved = some c.store })
  ]

  unfoldable pub commit : Step S (Unit {0})
  unfolding call
  commit = call λ c. elim c.saved [
    | none ↦ (err no_transaction, c)
    | some t ↦ (ok tt, record c { saved = none })
  ]

  unfoldable pub rollback : Step S (Unit {0})
  unfolding call
  rollback = call λ c. elim c.saved [
    | none ↦ (err no_transaction, c)
    | some t ↦ (ok tt, record c { store = t; saved = none })
  ]

  abbrev pub roll_back_on : {A : Type 0} → Result A → Step S A
  roll_back_on (ok a) c = (ok a, c)
  roll_back_on (err e) c = (err e, (rollback c).1)

  -- try { … } catch (...) { try { ROLLBACK } catch (...) {} throw; }
  unfoldable pub or_rollback : {A : Type 0} → Step S A → Step S A
  unfolding rollback
  or_rollback m c = roll_back_on (m c).0 (m c).1

module _ {S : Type 0} (p : Platform S) where
  unfoldable pub read_migration : Bytes → Result Bytes
  read_migration path = elim (p.read_file path) [
    | none ↦ err (std_exception (codes "Failed to read migration file: " ++ path))
    | some sql ↦ ok sql
  ]

  abbrev pub run_script : Bytes → Store S → Result (Unit {0}) × Store S
  run_script sql t = ((p.run_sql sql t.schema).0, record t { schema = (p.run_sql sql t.schema).1 })

  unfoldable pub execute : Bytes → Step S (Unit {0})
  unfolding call
  execute sql = call (on_store (run_script sql))

  -- if (!IsMigrationApplied(…)) { … }
  unfoldable pub migrate_unless : Bool → Migration → Bytes → Step S (Unit {0})
  unfolding execute record_migration
  migrate_unless applied m sql =
      if applied then give (ok tt) else (execute sql >> record_migration m)

  unfoldable pub apply_migration : Migration → Step S (Unit {0})
  unfolding read_migration begin_immediate or_rollback is_migration_applied migrate_unless commit
  apply_migration m = do
    sql ← give (read_migration m.path)
    begin_immediate
    or_rollback (do applied ← is_migration_applied m.version; migrate_unless applied m sql; commit)

  unfoldable pub apply_all : List Migration → Step S (Unit {0})
  unfolding apply_migration
  apply_all [] = give (ok tt)
  apply_all (m ∷ ms) = apply_migration m >> apply_all ms

  unfoldable pub run : Directory → Step S (Unit {0})
  unfolding ensure_migrations_table apply_all
  run directory = do
    ensure_migrations_table
    migrations ← give (load_migrations directory)
    apply_all migrations

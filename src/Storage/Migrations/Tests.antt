-- ===== src/Storage/Migrations/Tests.antt =====
-- The theorems on the migrations, for a schema that is the scripts that ran.
use mail_server_client.Base.{
  ◌≡◌, ◌⊎◌, refl, true, false, none, some, List, [], ◌∷◌, ◌++◌, Bytes, codes, bytes_eq, find_byte,
}
use mail_server_client.Storage.Database.{ok, bind_text}
use mail_server_client.Storage.Rows.{insert_by, sort_by, text_le, exists_where}
use mail_server_client.Storage.Migrations.Files.{
  Migration, Entry, Directory, decimal, version_of, parse_version, last_dot, extension, is_script,
  collect, migration_le, check_duplicates, load_migrations,
}
use mail_server_client.Storage.Migrations.{
  Connection, Platform, ◌>>=◌, give, call, ensure_migrations_table, is_migration_applied,
  record_migration, begin_immediate, commit, rollback, or_rollback, read_migration, execute,
  migrate_unless, apply_migration, apply_all, run,
}
use mail_server_client.Storage.Migrations.Order.{IsPlan, load_migrations-IsPlan}
use mail_server_client.Storage.Migrations.Steps.{committed}
use mail_server_client.Storage.Migrations.Atomic.{Migrated, apply_migration-AllOrNothing}
use mail_server_client.Storage.Migrations.Again.{run-again}

abbrev scripts : Platform (List Bytes)
scripts = record { run_sql = λ sql s. (ok tt, s ++ sql ∷ []); read_file = λ path. some path }

abbrev entry : Bytes → Entry
entry name = record { name = name; path = name; is_regular_file = true }

abbrev migrations : Directory
migrations = record {
  path = codes "migrations";
  is_directory = true;
  entries =
      entry (codes "002_mail.sql") ∷ entry (codes "notes.txt") ∷ entry (codes "001_start.sql") ∷ [];
  fails = false;
}

abbrev first_migration : Migration
first_migration = record { version = 1; name = codes "001_start.sql"; path = codes "001_start.sql" }

abbrev second_migration : Migration
second_migration = record { version = 2; name = codes "002_mail.sql"; path = codes "002_mail.sql" }

abbrev fresh : Connection (List Bytes)
fresh = record { store = record { schema = []; applied = none }; saved = none; faults = [] }

is_loaded : load_migrations migrations ≡ ok (first_migration ∷ second_migration ∷ [])
unfolding load_migrations collect is_script extension last_dot parse_version version_of decimal
    migration_le check_duplicates sort_by insert_by text_le bytes_eq find_byte
is_loaded = refl

load_migrations-IsPlan_example : IsPlan migrations (first_migration ∷ second_migration ∷ [])
load_migrations-IsPlan_example =
    load_migrations-IsPlan migrations (first_migration ∷ second_migration ∷ []) is_loaded

abbrev with_table : Connection (List Bytes)
with_table = record fresh { store = record { schema = []; applied = some [] } }

apply_migration-AllOrNothing_example :
    (committed (apply_migration scripts first_migration with_table).1 ≡ with_table.store)
    ⊎ Migrated scripts first_migration with_table.store
        (committed (apply_migration scripts first_migration with_table).1)
apply_migration-AllOrNothing_example =
    apply_migration-AllOrNothing scripts first_migration with_table refl

abbrev migrated : Connection (List Bytes)
migrated = record {
  store = record {
    schema = codes "001_start.sql" ∷ codes "002_mail.sql" ∷ [];
    applied = some ((1, codes "001_start.sql") ∷ (2, codes "002_mail.sql") ∷ []);
  };
  saved = none;
  faults = [];
}

has_run : run scripts migrations fresh ≡ (ok tt, migrated)
unfolding run ensure_migrations_table apply_all apply_migration read_migration begin_immediate
    or_rollback is_migration_applied migrate_unless execute record_migration commit rollback call
    give ◌>>=◌ load_migrations collect is_script extension last_dot parse_version version_of decimal
    migration_le check_duplicates sort_by insert_by text_le bytes_eq find_byte exists_where
    bind_text
has_run = refl

run-again_example : run scripts migrations migrated ≡ (ok tt, migrated)
run-again_example = run-again scripts migrations fresh migrated refl has_run refl

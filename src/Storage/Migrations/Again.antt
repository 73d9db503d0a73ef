-- ===== src/Storage/Migrations/Again.antt =====
-- Running the migrations a second time.
use mail_server_client.Base.{
  ℕ, ◌≡◌, refl, sym, ap, ◌∙◌, true, Option, none, some, List, [], ◌∷◌, ◌++◌, Bytes, All, arith,
}
use mathlib.Core.Path.{subst}
use mail_server_client.Storage.Database.{Exception, Result, ok, err, bind_text}
use mail_server_client.Storage.Rows.{exists_where}
use mail_server_client.Storage.Migrations.Files.{Migration, Directory, load_migrations}
use mail_server_client.Storage.Migrations.{
  Store, Connection, Platform, ◌>>=◌, give, call, create_table, has_version, existing,
  ensure_migrations_table, is_migration_applied, begin_immediate, commit, roll_back_on, or_rollback,
  migrate_unless, read_migration, apply_migration, apply_all, run,
}
use mail_server_client.Storage.Migrations.Steps.{on_store_ok, begin_ok, Split-of}
use mail_server_client.Storage.Migrations.Atomic.{Migrated, already, newly, body, body_ok}

has_version-append :
    (version : ℕ) (rows : List (ℕ × Bytes)) (r : ℕ × Bytes)
    → has_version version rows ≡ true
    → has_version version (rows ++ r ∷ []) ≡ true
unfolding exists_where
has_version-append version [] r h = cc
has_version-append version (x ∷ rows) r h =
    let rest = has_version-append version rows r in ground (arith, rest)

has_version-last :
    (version : ℕ) (rows : List (ℕ × Bytes)) (name : Bytes)
    → has_version version (rows ++ (version, name) ∷ []) ≡ true
unfolding exists_where
has_version-last version [] name = ground arith
has_version-last version (x ∷ rows) name =
    let rest = has_version-last version rows name in ground (arith, rest)

module _ {S : Type 0} (p : Platform S) where
  -- The version stands in the table.
  record Listed (version : ℕ) (t : Store S) : Type 0 where
    rows : List (ℕ × Bytes)
    table : t.applied ≡ some rows
    has : has_version version rows ≡ true

  Migrated-keeps :
      (m : Migration) (t u : Store S) (version : ℕ)
      → Migrated p m t u
      → Listed version t
      → Listed version u
  Migrated-keeps m t u version (already rows e h) l = l
  Migrated-keeps m t u version (newly rows sql schema e r q) l =
      let same : l.rows ≡ rows = cc (l.table, e) in
      record {
        rows = rows ++ (m.version, bind_text m.name) ∷ [];
        table = refl;
        has =
            has_version-append version rows _
              (subst (λ rs. has_version version rs ≡ true) same l.has);
      }

  Migrated-Listed : (m : Migration) (t u : Store S) → Migrated p m t u → Listed m.version u
  Migrated-Listed m t u (already rows e h) = record { rows = rows; table = e; has = h }
  Migrated-Listed m t u (newly rows sql schema e r q) = record {
    rows = rows ++ (m.version, bind_text m.name) ∷ [];
    table = refl;
    has = has_version-last m.version rows (bind_text m.name);
  }

  given :
      {A : Type 0} (r : Result A) (c d : Connection S) (a : A)
      → give r c ≡ (ok a, d)
      → (r ≡ ok a) × (d ≡ c)
  unfolding give
  given r c d a h = (cc, cc)

  or_rollback_ok :
      (m : Migration) (sql : Bytes) (c d : Connection S) (r : Result (Unit {0})) (e : Connection S)
      → body p m sql c ≡ (r, e)
      → roll_back_on r e ≡ (ok tt, d)
      → body p m sql c ≡ (ok tt, d)
  or_rollback_ok m sql c d (ok u) e h g = h ∙ g
  or_rollback_ok m sql c d (err x) e h g = cc

  -- What a migration that succeeds leaves.
  record Settled (m : Migration) (c d : Connection S) : Type 0 where
    closed : d.saved ≡ none
    moved : Migrated p m c.store d.store
    sql : Bytes
    read : read_migration p m.path ≡ ok sql

  apply_ok :
      (m : Migration) (c d : Connection S) → apply_migration p m c ≡ (ok tt, d) → Settled m c d
  unfolding apply_migration give or_rollback
  apply_ok m c d h =
      let x = Split-of _ _ c d tt h in
      let read : read_migration p m.path ≡ ok x.value = ap (λ t. t.0) x.first in
      let same : x.between ≡ c = ap (λ t. t.1) (sym x.first) in
      let y = Split-of _ _ x.between d tt x.second in
      let (opened, kept) = begin_ok x.between y.between y.first in
      let b = or_rollback_ok m x.value y.between d _ _ refl y.second in
      let (closed, moved) = body_ok p m x.value y.between d read b in
      record {
        closed = closed;
        moved =
            subst (λ t. Migrated p m t d.store) (kept ∙ ap (λ (v : Connection S). v.store) same)
              moved;
        sql = x.value;
        read = read;
      }

  -- A migration that a second run only looks up.
  record Done (t : Store S) (m : Migration) : Type 0 where
    listed : Listed m.version t
    sql : Bytes
    read : read_migration p m.path ≡ ok sql

  apply_all_keeps :
      (ms : List Migration) (c d : Connection S) (version : ℕ)
      → apply_all p ms c ≡ (ok tt, d)
      → Listed version c.store
      → Listed version d.store
  unfolding apply_all give
  apply_all_keeps [] c d version h l =
      subst (λ (v : Connection S). Listed version v.store) (ap (λ t. t.1) h) l
  apply_all_keeps (m ∷ ms) c d version h l =
      let x = Split-of _ _ c d tt h in
      let s = apply_ok m c x.between x.first in
      apply_all_keeps ms x.between d version x.second
        (Migrated-keeps m c.store x.between.store version s.moved l)

  apply_all-Done :
      (ms : List Migration) (c d : Connection S)
      → apply_all p ms c ≡ (ok tt, d)
      → All (Done d.store) ms
  unfolding apply_all
  apply_all-Done [] c d h = tt
  apply_all-Done (m ∷ ms) c d h =
      let x = Split-of _ _ c d tt h in
      let s = apply_ok m c x.between x.first in
      let l = Migrated-Listed m c.store x.between.store s.moved in
      (
        record {
          listed = apply_all_keeps ms x.between d m.version x.second l;
          sql = s.sql;
          read = s.read;
        },
        apply_all-Done ms x.between d x.second,
      )

  apply_all_closed :
      (ms : List Migration) (c d : Connection S)
      → c.saved ≡ none
      → apply_all p ms c ≡ (ok tt, d)
      → d.saved ≡ none
  unfolding apply_all give
  apply_all_closed [] c d n h = ap (λ (t : Result (Unit {0}) × Connection S). t.1.saved) (sym h) ∙ n
  apply_all_closed (m ∷ ms) c d n h =
      let x = Split-of _ _ c d tt h in
      apply_all_closed ms x.between d (apply_ok m c x.between x.first).closed x.second

  -- Outside a transaction, with nothing due to fail.
  abbrev quiet : Store S → Connection S
  quiet t = record { store = t; saved = none; faults = [] }

  apply_again :
      (m : Migration) (t : Store S) → Done t m → apply_migration p m (quiet t) ≡ (ok tt, quiet t)
  unfolding apply_migration ◌>>=◌ give begin_immediate or_rollback is_migration_applied
      migrate_unless commit call
  apply_again m t x = rw (x.read, x.listed.table, x.listed.has, apply_migration) refl

  apply_all_again :
      (ms : List Migration) (t : Store S)
      → All (Done t) ms
      → apply_all p ms (quiet t) ≡ (ok tt, quiet t)
  unfolding apply_all ◌>>=◌ give
  apply_all_again [] t h = refl
  apply_all_again (m ∷ ms) t h = rw (apply_again m t h.0, ◌>>=◌) (apply_all_again ms t h.1)

  record HasTable (t : Store S) : Type 0 where
    rows : List (ℕ × Bytes)
    table : t.applied ≡ some rows

  Migrated-HasTable : (m : Migration) (t u : Store S) → Migrated p m t u → HasTable t → HasTable u
  Migrated-HasTable m t u (already rows e h) l = l
  Migrated-HasTable m t u (newly rows sql schema e r q) l = record {
    rows = rows ++ (m.version, bind_text m.name) ∷ [];
    table = refl;
  }

  apply_all-HasTable :
      (ms : List Migration) (c d : Connection S)
      → apply_all p ms c ≡ (ok tt, d)
      → HasTable c.store
      → HasTable d.store
  unfolding apply_all give
  apply_all-HasTable [] c d h l = subst (λ (v : Connection S). HasTable v.store) (ap (λ t. t.1) h) l
  apply_all-HasTable (m ∷ ms) c d h l =
      let x = Split-of _ _ c d tt h in
      let s = apply_ok m c x.between x.first in
      apply_all-HasTable ms x.between d x.second
        (Migrated-HasTable m c.store x.between.store s.moved l)

  run-quiet :
      (directory : Directory) (ms : List Migration) (t : Store S)
      → load_migrations directory ≡ ok ms
      → HasTable t
      → All (Done t) ms
      → run p directory (quiet t) ≡ (ok tt, quiet t)
  unfolding run ensure_migrations_table call ◌>>=◌ give
  run-quiet directory ms t load table done =
      let same : record t { applied = some (existing t.applied) } ≡ t =
        ap (λ a. record t { applied = some (existing a) }) table.table
        ∙ sym (ap (λ a. record t { applied = a }) table.table) in
      rw (load, run)
        (subst (λ v. apply_all p ms (quiet v) ≡ (ok tt, quiet t)) (sym same)
          (apply_all_again ms t done))

  quiet_of : (d : Connection S) → d.saved ≡ none → d.faults ≡ [] → d ≡ quiet d.store
  quiet_of d n f =
      ap (λ (x : Option (Store S)). record d { saved = x }) n
      ∙ ap (λ (x : List (Option Exception)). record d { saved = none; faults = x }) f

  -- Where a run of the migrations has succeeded, with no transaction open in front of it, a second run
  -- on what it left, with nothing due to fail, succeeds and changes nothing: no script runs again.
  pub run-again :
      (directory : Directory) (c d : Connection S)
      → c.saved ≡ none
      → run p directory c ≡ (ok tt, d)
      → d.faults ≡ []
      → run p directory d ≡ (ok tt, d)
  unfolding run ensure_migrations_table
  run-again directory c d n h f =
      let x = Split-of _ _ c d tt h in
      let e = on_store_ok (create_table {S = S}) c x.between tt x.first in
      let y = Split-of _ _ x.between d tt x.second in
      let (load, same) = given (load_migrations directory) x.between y.between y.value y.first in
      let rest = ap (apply_all p y.value) (sym same) ∙ y.second in
      let closed = apply_all_closed y.value x.between d (e.saved ∙ n) rest in
      let table : HasTable x.between.store = record {
        rows = existing c.store.applied;
        table = ap (λ (v : Store S). v.applied) (sym e.store);
      } in
      let q = quiet_of d closed f in
      let again =
        run-quiet directory y.value d.store load (apply_all-HasTable y.value x.between d rest table)
          (apply_all-Done y.value x.between d rest) in
      subst (λ v. run p directory v ≡ (ok tt, v)) (sym q) again

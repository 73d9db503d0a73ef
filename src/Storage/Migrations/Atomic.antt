-- ===== src/Storage/Migrations/Atomic.antt =====
-- A migration is applied whole or not at all.
use mail_server_client.Base.{
  ℕ, ◌≡◌, refl, sym, ap, ◌∙◌, ◌⊎◌, inl, inr, Bool, true, false, Option, none, some, List, [], ◌∷◌,
  ◌++◌, Bytes, Bool-cases,
}
use mathlib.Core.Path.{subst}
use mail_server_client.Storage.Database.{Result, ok, err, bind_text}
use mail_server_client.Storage.Migrations.Files.{Migration}
use mail_server_client.Storage.Migrations.{
  Store, Connection, Platform, Step, on_ok, ◌>>=◌, ◌>>◌, give, look_up, insert, insert_row,
  run_script, read_version, has_version, is_migration_applied, record_migration, begin_immediate,
  commit, roll_back_on, or_rollback, execute, migrate_unless, read_migration, apply_migration,
}
use mail_server_client.Storage.Migrations.Steps.{
  committed, on_store_ok, on_store-KeepsOpen, give-KeepsOpen, bind-KeepsOpen, bind-FailsOpen,
  KeepsOpen, FailsOpen, commit-FailsOpen, commit_ok, begin_ok, begin_failed, committed-rollback,
  Split-of,
}

module _ {S : Type 0} (p : Platform S) where
  -- The table lists the version already and nothing is different, or the script has run to its end
  -- and the version is listed behind the others.
  pub data Migrated (m : Migration) (t : Store S) : Store S → Type 0 where
    already :
        (rows : List (ℕ × Bytes))
        → t.applied ≡ some rows
        → has_version m.version rows ≡ true
        → Migrated m t t
    newly :
        (rows : List (ℕ × Bytes)) (sql : Bytes) (schema : S)
        → t.applied ≡ some rows
        → read_migration p m.path ≡ ok sql
        → p.run_sql sql t.schema ≡ (ok tt, schema)
        → Migrated m t (record {
          schema = schema;
          applied = some (rows ++ (m.version, bind_text m.name) ∷ []);
        })

  looked_up :
      (version : ℕ) (o : Option (List (ℕ × Bytes))) (b : Bool)
      → look_up version o ≡ ok b
      → (rows : List (ℕ × Bytes)) × (o ≡ some rows) × (has_version version rows ≡ b)
  looked_up version none b h = cc
  looked_up version (some rows) b h = (rows, refl, cc)

  inserted :
      (version : ℕ) (name : Bytes) (rows : List (ℕ × Bytes))
      → (insert version name (some rows)).0 ≡ ok tt
      → (insert version name (some rows)).1 ≡ some (rows ++ (version, name) ∷ [])
  inserted version name rows h = elim (Bool-cases (has_version version rows)) [
    | inl e ↦ let g = rw e at h in cc
    | inr e ↦ rw e refl
  ]

  abbrev pub body : Migration → Bytes → Step S (Unit {0})
  body m sql =
      is_migration_applied m.version >>= λ applied. migrate_unless p applied m sql >> commit

  migrate-KeepsOpen :
      (m : Migration) (sql : Bytes) (applied : Bool) → KeepsOpen (migrate_unless p applied m sql)
  unfolding migrate_unless execute record_migration
  migrate-KeepsOpen m sql true = give-KeepsOpen (ok tt)
  migrate-KeepsOpen m sql false =
      bind-KeepsOpen (execute p sql) (λ u. record_migration m) (on_store-KeepsOpen _)
        (λ u. on_store-KeepsOpen _)

  body-FailsOpen : (m : Migration) (sql : Bytes) → FailsOpen (body m sql)
  unfolding is_migration_applied migrate_unless execute record_migration
  body-FailsOpen m sql = bind-FailsOpen _ _ (on_store-KeepsOpen _) λ applied.
      bind-FailsOpen (migrate_unless p applied m sql) _ (migrate-KeepsOpen m sql applied)
        λ u. commit-FailsOpen

  stored :
      (m : Migration) (rows : List (ℕ × Bytes)) (t u : Store S) (schema : S)
      → t.schema ≡ schema
      → t.applied ≡ some rows
      → (insert m.version (bind_text m.name) (some rows)).0 ≡ ok tt
      → (insert_row m t).1 ≡ u
      → record { schema = schema; applied = some (rows ++ (m.version, bind_text m.name) ∷ []) } ≡ u
  stored m rows t u schema a b full h =
      let same : (insert_row m t).1 ≡ record {
        schema = schema;
        applied = some (rows ++ (m.version, bind_text m.name) ∷ []);
      } =
        rw (b, a, inserted m.version (bind_text m.name) rows full) refl in
      sym same ∙ h

  migrate_ok :
      (m : Migration) (sql : Bytes) (applied : Bool) (rows : List (ℕ × Bytes)) (c d : Connection S)
      → read_migration p m.path ≡ ok sql
      → c.store.applied ≡ some rows
      → has_version m.version rows ≡ applied
      → migrate_unless p applied m sql c ≡ (ok tt, d)
      → Migrated m c.store d.store
  unfolding migrate_unless execute record_migration give
  migrate_ok m sql true rows c d read t has h =
      let same : c.store ≡ d.store = ap (λ (x : Result _ × Connection S). x.1.store) h in
      subst (Migrated m c.store) same (already rows t has)
  migrate_ok m sql false rows c d read t has h =
      let x = Split-of _ _ c d tt h in
      let e = on_store_ok (run_script p sql) c x.between x.value x.first in
      let r = on_store_ok (insert_row m) x.between d tt x.second in
      let same : x.between.store.applied ≡ some rows =
        ap (λ (v : Store S). v.applied) (sym e.store) ∙ t in
      let full : (insert m.version (bind_text m.name) (some rows)).0 ≡ ok tt =
        rw same at r.result in
      let store : record {
        schema = (p.run_sql sql c.store.schema).1;
        applied = some (rows ++ (m.version, bind_text m.name) ∷ []);
      }
          ≡ d.store =
        stored m rows x.between.store d.store _ (ap (λ (v : Store S). v.schema) (sym e.store)) same
          full r.store in
      subst (Migrated m c.store) store (
        newly rows sql _ t read
          (ap (λ (v : Result (Unit {0})). (v, (p.run_sql sql c.store.schema).1)) e.result))

  pub body_ok :
      (m : Migration) (sql : Bytes) (c d : Connection S)
      → read_migration p m.path ≡ ok sql
      → body m sql c ≡ (ok tt, d)
      → (d.saved ≡ none) × Migrated m c.store d.store
  unfolding is_migration_applied
  body_ok m sql c d read h =
      let x = Split-of _ _ c d tt h in
      let e = on_store_ok (read_version m.version) c x.between x.value x.first in
      let (rows, t, has) = looked_up m.version c.store.applied x.value e.result in
      let y = Split-of _ _ x.between d tt x.second in
      let (closed, kept) = commit_ok y.between d y.second in
      let same : x.between.store ≡ c.store = sym e.store in
      let moved =
        migrate_ok m sql x.value rows x.between y.between read
          (ap (λ (v : Store S). v.applied) same ∙ t) has y.first in
      (
        closed,
        subst (λ v. Migrated m v d.store) same
            (subst (Migrated m x.between.store) (sym kept) moved),
      )

  abbrev AllOrNothing : Migration → Store S → Store S → Type 0
  AllOrNothing m t u = (u ≡ t) ⊎ Migrated m t u

  rolled_back :
      (m : Migration) (sql : Bytes) (c : Connection S) (t : Store S) (r : Result (Unit {0}))
      (d : Connection S)
      → read_migration p m.path ≡ ok sql
      → c.saved ≡ some t
      → c.store ≡ t
      → body m sql c ≡ (r, d)
      → AllOrNothing m t (committed (roll_back_on r d).1)
  rolled_back m sql c t (ok u) d read opened same h =
      let (closed, moved) = body_ok m sql c d read h in
      inr (rw closed (subst (λ v. Migrated m v d.store) same moved))
  rolled_back m sql c t (err e) d read opened same h =
      let kept : (body m sql c).1.saved ≡ c.saved =
        (body-FailsOpen m sql).at c e (ap (λ x. x.0) h) in
      let there : d.saved ≡ some t =
        ap (λ (x : Result (Unit {0}) × Connection S). x.1.saved) (sym h) ∙ kept ∙ opened in
      inl (committed-rollback d t there)

  begun :
      (m : Migration) (sql : Bytes) (c : Connection S) (r : Result (Unit {0})) (b : Connection S)
      → read_migration p m.path ≡ ok sql
      → c.saved ≡ none
      → begin_immediate c ≡ (r, b)
      → AllOrNothing m c.store (committed (on_ok r (λ u. or_rollback (body m sql)) b).1)
  unfolding or_rollback
  begun m sql c (ok u) b read none_open h =
      let (opened, same) = begin_ok c b h in
      rolled_back m sql b c.store (body m sql b).0 (body m sql b).1 read opened same refl
  begun m sql c (err e) b read none_open h =
      let f = begin_failed c e none_open (ap (λ x. x.0) h) in
      inl (ap (λ (x : Result (Unit {0}) × Connection S). committed x.1) (sym h) ∙ f)

  read_first :
      (m : Migration) (c : Connection S) (r : Result Bytes)
      → read_migration p m.path ≡ r
      → c.saved ≡ none
      → AllOrNothing m c.store
          (committed ((give r >>= λ sql. begin_immediate >> or_rollback (body m sql)) c).1)
  unfolding ◌>>=◌ give
  read_first m c (ok sql) read none_open =
      begun m sql c (begin_immediate c).0 (begin_immediate c).1 read none_open refl
  read_first m c (err e) read none_open = inl (rw none_open refl)

  -- Behind one migration, whichever of its statements fails and whatever the script does before it
  -- fails, the committed database is as it was before, or the version was listed already, or the script has run to its end
  -- on the schema from before and the version is listed with it. No transaction was open before.
  pub apply_migration-AllOrNothing :
      (m : Migration) (c : Connection S)
      → c.saved ≡ none
      → (committed (apply_migration p m c).1 ≡ c.store)
        ⊎ Migrated m c.store (committed (apply_migration p m c).1)
  unfolding apply_migration
  apply_migration-AllOrNothing m c none_open =
      read_first m c (read_migration p m.path) refl none_open

-- ===== src/Storage/Database/Laws.antt =====
-- What a query that succeeds has done, and what no query touches.
use mail_server_client.Base.{
  ◌≡◌, refl, sym, ap, ◌∙◌, Option, none, some, arith, Option-cases, inl, inr, List, [], ◌∷◌, Bytes,
  Lacks,
}
use mail_server_client.Storage.Database.{
  Exception, Result, ok, err, Tables, Db, Query, next_fault, later_faults, ◌>>=◌, ◌>>◌, pure,
  statement, begin_immediate, commit, rollback, after, bind_text,
}

-- The tables as the other connections, or a restart, would find them.
abbrev pub committed : Db → Tables
committed db = elim db.saved [ none ↦ db.tables | some t ↦ t ]

module _ {A B : Type 0} (f : A → Query B) where
  after_ok :
      (r : Result A) (db : Db) (b : B) (db' : Db)
      → (after r f db) ≡ (ok b, db')
      → (a : A) × (r ≡ ok a) × (f a db ≡ (ok b, db'))
  after_ok (ok a) db b db' h = (a, refl, h)
  after_ok (err e) db b db' h = cc

  -- Both parts of a sequence that succeeds have succeeded.
  pub bind-ok :
      (m : Query A) (db : Db) (b : B) (db' : Db)
      → (m >>= f) db ≡ (ok b, db')
      → (a : A) × ((m db).0 ≡ ok a) × (f a (m db).1 ≡ (ok b, db'))
  bind-ok m db b db' h = after_ok (m db).0 (m db).1 b db' h

-- What a statement that succeeds leaves.
pub record Done {A : Type 0} (body : Tables → Result (A × Tables)) (db : Db) (a : A) (db' : Db)
    : Type 0 where
  pub worked : body db.tables ≡ ok (a, db'.tables)
  pub same_saved : db'.saved ≡ db.saved
  pub same_clock : db'.clock ≡ db.clock

module _ {A : Type 0} (body : Tables → Result (A × Tables)) where
  Done-of :
      (db : Db) (r : Result (A × Tables)) (a : A) (db' : Db)
      → body db.tables ≡ r
      → (let rest : Db = record db { faults = later_faults db.faults } in
          let k : Result A × Db = elim r [
            | err e ↦ (err e, rest)
            | ok (x, t) ↦ (ok x, record rest { tables = t })
          ] in
          k)
        ≡ (ok a, db')
      → Done body db a db'
  Done-of db (ok (x, t)) a db' e h = record {
    worked = e ∙ ground arith;
    same_saved = ground arith;
    same_clock = ground arith;
  }
  Done-of db (err x) a db' e h = cc

  pub statement-ok :
      (db : Db) (a : A) (db' : Db) → statement body db ≡ (ok a, db') → Done body db a db'
  unfolding statement
  statement-ok db a db' h = elim (Option-cases (next_fault db.faults)) [
    | inl e ↦ Done-of db (body db.tables) a db' refl (rw (e, statement) at h)
    | inr (x, e) ↦ let g = rw (e, statement) at h in cc
  ]

-- The query leaves an open transaction open, and opens none.
pub record KeepsSaved {A : Type 0} (m : Query A) : Type 0 where
  pub at : (db : Db) → (m db).1.saved ≡ db.saved

-- The same, where the query throws.
pub record FailsSafe {A : Type 0} (m : Query A) : Type 0 where
  pub at : (db : Db) (e : Exception) → (m db).0 ≡ err e → (m db).1.saved ≡ db.saved

module _ {A : Type 0} where
  kept_by :
      (db : Db) (r : Result (A × Tables))
      → (let rest : Db = record db { faults = later_faults db.faults } in
          let k : Result A × Db = elim r [
            | err e ↦ (err e, rest)
            | ok (x, t) ↦ (ok x, record rest { tables = t })
          ] in
          k).1.saved
        ≡ db.saved
  kept_by db (ok (x, t)) = refl
  kept_by db (err x) = refl

  pub statement-KeepsSaved : (body : Tables → Result (A × Tables)) → KeepsSaved (statement body)
  unfolding statement
  statement-KeepsSaved body = record {
    at = λ db. elim (Option-cases (next_fault db.faults)) [
      | inl e ↦ rw (e, statement) (kept_by db (body db.tables))
      | inr (x, e) ↦ rw (e, statement) refl
    ];
  }

  pub pure-KeepsSaved : (a : A) → KeepsSaved (pure a)
  pure-KeepsSaved a = record { at = λ db. refl }

module _ {A B : Type 0} (m : Query A) (f : A → Query B) where
  keeps_after :
      (r : Result A) (db : Db) → ((a : A) → KeepsSaved (f a)) → (after r f db).1.saved ≡ db.saved
  keeps_after (ok a) db h = (h a).at db
  keeps_after (err e) db h = refl

  pub bind-KeepsSaved : KeepsSaved m → ((a : A) → KeepsSaved (f a)) → KeepsSaved (m >>= f)
  bind-KeepsSaved k h = record { at = λ db. keeps_after (m db).0 (m db).1 h ∙ k.at db }

  fails_after :
      (r : Result A) (db : Db) (x : Exception)
      → ((a : A) → FailsSafe (f a))
      → (after r f db).0 ≡ err x
      → (after r f db).1.saved ≡ db.saved
  fails_after (ok a) db x h e = (h a).at db x e
  fails_after (err y) db x h e = refl

  pub bind-FailsSafe : KeepsSaved m → ((a : A) → FailsSafe (f a)) → FailsSafe (m >>= f)
  bind-FailsSafe k h = record { at = λ db x e. fails_after (m db).0 (m db).1 x h e ∙ k.at db }

pub commit-pure-FailsSafe : {A : Type 0} (a : A) → FailsSafe (commit >> pure a)
unfolding commit
commit-pure-FailsSafe a = record { at = λ db e h. ground arith }

-- A failed rollback leaves what was saved, and one that works restores it.
pub committed-rollback : (db : Db) (t : Tables) → db.saved ≡ some t → committed (rollback db).1 ≡ t
unfolding rollback
committed-rollback db t e = ground arith

-- BEGIN that succeeds found no transaction, and saves the tables.
pub record Begun (db db' : Db) : Type 0 where
  pub was_free : db.saved ≡ none
  pub now_saved : db'.saved ≡ some db.tables
  pub same_tables : db'.tables ≡ db.tables
  pub same_clock : db'.clock ≡ db.clock

pub begin_immediate-ok :
    (db : Db) → (begin_immediate db).0 ≡ ok tt → Begun db (begin_immediate db).1
unfolding begin_immediate
begin_immediate-ok db h = ground arith

pub begin_immediate-err :
    (db : Db) (e : Exception)
    → (begin_immediate db).0 ≡ err e
    → (committed (begin_immediate db).1 ≡ committed db) × ((begin_immediate db).1.saved ≡ db.saved)
unfolding begin_immediate
begin_immediate-err db e h = ground arith

pub commit-ok :
    (db : Db)
    → (commit db).0 ≡ ok tt
    → ((commit db).1.tables ≡ db.tables) × ((commit db).1.saved ≡ none)
unfolding commit
commit-ok db h = ground arith

-- A call whose first part is known.
pub at_ok : {A : Type 0} (x : Result A × Db) (r : Result A) → x.0 ≡ r → x ≡ (r, x.1)
at_ok x r h = λ i. (h i, x.1)

-- A statement that SQLite carries out does its work.
pub statement-clear :
    {A : Type 0} (body : Tables → Result (A × Tables)) (db : Db) (a : A) (t : Tables)
    → db.faults ≡ []
    → body db.tables ≡ ok (a, t)
    → statement body db ≡ (ok a, record db { faults = []; tables = t })
unfolding statement
statement-clear body db a t f e = ground arith

pub begin_immediate-clear :
    (db : Db)
    → db.faults ≡ []
    → db.saved ≡ none
    → begin_immediate db ≡ (ok tt, record db { faults = []; saved = some db.tables })
unfolding begin_immediate
begin_immediate-clear db f s = ground arith

pub commit-clear :
    (db : Db) (t : Tables)
    → db.faults ≡ []
    → db.saved ≡ some t
    → commit db ≡ (ok tt, record db { faults = []; saved = none })
unfolding commit
commit-clear db t f s = ground arith

module _ {ℓ} {A : Type 0} (P : Tables → Type ℓ) (body : Tables → Result (A × Tables)) where
  cases_of :
      (db : Db) (r : Result (A × Tables))
      → body db.tables ≡ r
      → P db.tables
      → ((a : A) (t : Tables) → body db.tables ≡ ok (a, t) → P t)
      → P
          (let rest : Db = record db { faults = later_faults db.faults } in
            let k : Result A × Db = elim r [
              | err e ↦ (err e, rest)
              | ok (x, t) ↦ (ok x, record rest { tables = t })
            ] in
            k).1.tables
  cases_of db (ok (a, t)) e before done = done a t e
  cases_of db (err x) e before done = before

  -- What a statement can leave: the tables that it found, or what its work makes of them.
  pub statement_cases :
      (db : Db)
      → P db.tables
      → ((a : A) (t : Tables) → body db.tables ≡ ok (a, t) → P t)
      → P (statement body db).1.tables
  unfolding statement
  statement_cases db before done = elim (Option-cases (next_fault db.faults)) [
    | inr (x, e) ↦ rw (e, statement) before
    | inl e ↦ rw (e, statement) (cases_of db (body db.tables) refl before done)
  ]

-- A statement of a connection on which nothing is due to fail.
pub write_run :
    {A : Type 0} (body : Tables → Result (A × Tables)) (db : Db) (a : A) (t : Tables)
    → db.faults ≡ []
    → body db.tables ≡ ok (a, t)
    → statement body db ≡ (ok a, record db { tables = t })
unfolding statement
write_run body db a t h e =
    let clear : (record db { faults = later_faults db.faults; tables = t })
        ≡ record db { tables = t } =
      ap (λ (fs : List (Option Exception)). record db { faults = fs; tables = t })
        (ap later_faults h ∙ sym h) in
    let no : next_fault db.faults ≡ none = ap next_fault h in
    rw (no, e, statement) (ap (λ (d : Db). (ok a, d)) clear)

pub read_run :
    {A : Type 0} (f : Tables → A) (db : Db)
    → db.faults ≡ []
    → statement (λ t. ok (f t, t)) db ≡ (ok (f db.tables), db)
read_run f db h = write_run (λ t. ok (f t, t)) db (f db.tables) db.tables h refl

-- A text without NUL is bound whole.
pub bind_text-Lacks : (xs : Bytes) → Lacks 0 xs → bind_text xs ≡ xs
unfolding bind_text
bind_text-Lacks [] h = refl
bind_text-Lacks (x ∷ xs) h = ground (arith, bind_text-Lacks xs h.1)

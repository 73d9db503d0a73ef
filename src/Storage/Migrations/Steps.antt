-- ===== src/Storage/Migrations/Steps.antt =====
-- What each statement of a migration does, where it succeeds and where it does not.
use mail_server_client.Base.{◌≡◌, refl, sym, ap, ◌∙◌, none, some, Option-cases, inl, inr, arith}
use mail_server_client.Storage.Database.{Exception, Result, ok, err, next_fault, later_faults}
use mail_server_client.Storage.Migrations.{
  Store, Connection, Step, on_ok, ◌>>=◌, give, call, on_store, begin_immediate, commit, rollback,
}

module _ {S : Type 0} where
  -- What the database is for any other connection, or behind a crash.
  abbrev pub committed : Connection S → Store S
  committed c = elim c.saved [ none ↦ c.store | some t ↦ t ]

  call_ok :
      {A : Type 0} (f : Connection S → Result A × Connection S) (c d : Connection S) (a : A)
      → call f c ≡ (ok a, d)
      → f (record c { faults = later_faults c.faults }) ≡ (ok a, d)
  unfolding call
  call_ok f c d a h = elim (Option-cases (next_fault c.faults)) [
    | inl e ↦ rw (e, call) at h
    | inr (x, e) ↦ let g = rw (e, call) at h in cc
  ]

  -- A statement on the store that succeeds.
  pub record Ran {A : Type 0} (f : Store S → Result A × Store S) (c d : Connection S) (a : A)
      : Type 0 where
    pub result : (f c.store).0 ≡ ok a
    pub store : (f c.store).1 ≡ d.store
    pub saved : d.saved ≡ c.saved

  pub on_store_ok :
      {A : Type 0} (f : Store S → Result A × Store S) (c d : Connection S) (a : A)
      → call (on_store f) c ≡ (ok a, d)
      → Ran f c d a
  on_store_ok f c d a h =
      let g = call_ok (on_store f) c d a h in
      record {
        result = ap (λ t. t.0) g;
        store = ap (λ (t : Result _ × Connection S). t.1.store) g;
        saved = sym (ap (λ (t : Result _ × Connection S). t.1.saved) g);
      }

  pub on_store_saved :
      {A : Type 0} (f : Store S → Result A × Store S) (c : Connection S)
      → (call (on_store f) c).1.saved ≡ c.saved
  unfolding call
  on_store_saved f c = elim (Option-cases (next_fault c.faults)) [
    | inl e ↦ rw (e, call) refl
    | inr (x, e) ↦ rw (e, call) refl
  ]

  -- Where the step fails it leaves an open transaction as it was.
  pub record FailsOpen {A : Type 0} (m : Step S A) : Type 0 where
    pub at : (c : Connection S) (e : Exception) → (m c).0 ≡ err e → (m c).1.saved ≡ c.saved

  -- The step leaves an open transaction as it was, whatever becomes of it.
  pub record KeepsOpen {A : Type 0} (m : Step S A) : Type 0 where
    pub at : (c : Connection S) → (m c).1.saved ≡ c.saved

  pub on_store-KeepsOpen :
      {A : Type 0} (f : Store S → Result A × Store S) → KeepsOpen (call (on_store f))
  on_store-KeepsOpen f = record { at = on_store_saved f }

  pub give-KeepsOpen : {A : Type 0} (r : Result A) → KeepsOpen (give r)
  unfolding give
  give-KeepsOpen r = record { at = λ c. refl }

  module _ {A B : Type 0} (m : Step S A) (f : A → Step S B) where
    keeps_after :
        (r : Result A) (c : Connection S)
        → ((a : A) → KeepsOpen (f a))
        → (on_ok r f c).1.saved ≡ c.saved
    keeps_after (ok a) c k = (k a).at c
    keeps_after (err e) c k = refl

    pub bind-KeepsOpen : KeepsOpen m → ((a : A) → KeepsOpen (f a)) → KeepsOpen (m >>= f)
    unfolding ◌>>=◌
    bind-KeepsOpen h k = record { at = λ c. keeps_after (m c).0 (m c).1 k ∙ h.at c }

    fails_after :
        (r : Result A) (c : Connection S) (e : Exception)
        → ((a : A) → FailsOpen (f a))
        → (on_ok r f c).0 ≡ err e
        → (on_ok r f c).1.saved ≡ c.saved
    fails_after (ok a) c e k h = (k a).at c e h
    fails_after (err x) c e k h = refl

    pub bind-FailsOpen : KeepsOpen m → ((a : A) → FailsOpen (f a)) → FailsOpen (m >>= f)
    unfolding ◌>>=◌
    bind-FailsOpen h k = record { at = λ c e g. fails_after (m c).0 (m c).1 e k g ∙ h.at c }

  pub commit-FailsOpen : FailsOpen (commit {S = S})
  unfolding commit call
  commit-FailsOpen = record { at = λ c e h. ground arith }

  pub commit_ok :
      (c d : Connection S) → commit c ≡ (ok tt, d) → (d.saved ≡ none) × (d.store ≡ c.store)
  unfolding commit call
  commit_ok c d h = (ground arith, ground arith)

  pub begin_ok :
      (c d : Connection S)
      → begin_immediate c ≡ (ok tt, d)
      → (d.saved ≡ some c.store) × (d.store ≡ c.store)
  unfolding begin_immediate call
  begin_ok c d h = (ground arith, ground arith)

  pub begin_failed :
      (c : Connection S) (e : Exception)
      → c.saved ≡ none
      → (begin_immediate c).0 ≡ err e
      → committed (begin_immediate c).1 ≡ c.store
  unfolding begin_immediate call
  begin_failed c e h g = ground arith

  pub committed-rollback :
      (c : Connection S) (t : Store S) → c.saved ≡ some t → committed (rollback c).1 ≡ t
  unfolding rollback call
  committed-rollback c t h = ground arith

  -- A sequence that succeeds has succeeded at each step.
  pub record Split {A B : Type 0} (m : Step S A) (f : A → Step S B) (c d : Connection S) (b : B)
      : Type 0 where
    pub value : A
    pub between : Connection S
    pub first : m c ≡ (ok value, between)
    pub second : f value between ≡ (ok b, d)

  Split-on :
      {A B : Type 0} (m : Step S A) (f : A → Step S B) (c d : Connection S) (b : B) (r : Result A)
      (u : Connection S)
      → m c ≡ (r, u)
      → on_ok r f u ≡ (ok b, d)
      → Split m f c d b
  Split-on m f c d b (ok a) u e h = record { value = a; between = u; first = e; second = h }
  Split-on m f c d b (err x) u e h = cc

  pub Split-of :
      {A B : Type 0} (m : Step S A) (f : A → Step S B) (c d : Connection S) (b : B)
      → (m >>= f) c ≡ (ok b, d)
      → Split m f c d b
  unfolding ◌>>=◌
  Split-of m f c d b h = Split-on m f c d b (m c).0 (m c).1 refl h

-- ===== src/Http/Runs.antt =====
-- Sequences of actions, where it is known what each of them gives.
use mail_server_client.Base.{◌≡◌, refl, sym, ap, ◌∙◌, Bytes, arith}
use mail_server_client.Storage.Database.{Db, Query, Result, ok, err}
use mail_server_client.Http.Config.{LogLevel}
use mail_server_client.Http.World.{
  Services, World, Action, on_ok, ◌>>=◌, give, query, try_catch, log,
}

module _ {P : Type 0} where
  pub run_bind :
      {A B : Type 0} (m : Action P A) (f : A → Action P B) (a : A) (w v : World P)
      → m w ≡ (ok a, v)
      → (m >>= f) w ≡ f a v
  unfolding ◌>>=◌
  run_bind m f a w v h = rw (h, ◌>>=◌) refl

  pub run_give :
      {A B : Type 0} (r : Result A) (f : A → Action P B) (a : A) (w : World P)
      → r ≡ ok a
      → (give r >>= f) w ≡ f a w
  unfolding ◌>>=◌ give
  run_give r f a w h = rw (h, ◌>>=◌) refl

  log_ok :
      (s : Services P) (level : LogLevel) (text : Bytes) (w : World P)
      → log s level text w ≡ (ok tt, (log s level text w).1)
  unfolding log
  log_ok s level text w = ground arith

  log_db :
      (s : Services P) (level : LogLevel) (text : Bytes) (w : World P)
      → (log s level text w).1.db ≡ w.db
  unfolding log
  log_db s level text w = ground arith

  pub record Logged (s : Services P) (level : LogLevel) (text : Bytes) (w : World P) : Type 0 where
    pub later : World P
    pub runs : log s level text w ≡ (ok tt, later)
    pub same_db : later.db ≡ w.db

  pub log_run :
      (s : Services P) (level : LogLevel) (text : Bytes) (w : World P) → Logged s level text w
  log_run s level text w = record {
    later = (log s level text w).1;
    runs = log_ok s level text w;
    same_db = log_db s level text w;
  }

  pub caught_run :
      {A : Type 0} (m : Action P A) (f : Bytes → A) (a : A) (w v : World P)
      → m w ≡ (ok a, v)
      → try_catch m f w ≡ (ok a, v)
  unfolding try_catch
  caught_run m f a w v h = rw (h, try_catch) refl

  pub run_query :
      {A B : Type 0} (q : Query A) (f : A → Action P B) (a : A) (w : World P) (d : Db)
      → q w.db ≡ (ok a, d)
      → (query q >>= f) w ≡ f a (record w { db = d })
  unfolding query ◌>>=◌
  run_query q f a w d h = rw (h, ◌>>=◌, query) refl

  -- A sequence that gives a result has had one at each step.
  pub record Split {A B : Type 0} (m : Action P A) (f : A → Action P B) (w : World P) (b : B)
      (v : World P) : Type 0 where
    pub value : A
    pub between : World P
    pub first : m w ≡ (ok value, between)
    pub second : f value between ≡ (ok b, v)

  Split-on :
      {A B : Type 0} (m : Action P A) (f : A → Action P B) (w v : World P) (b : B) (r : Result A)
      (u : World P)
      → m w ≡ (r, u)
      → on_ok r f u ≡ (ok b, v)
      → Split m f w b v
  Split-on m f w v b (ok a) u e h = record { value = a; between = u; first = e; second = h }
  Split-on m f w v b (err x) u e h = cc

  pub Split-of :
      {A B : Type 0} (m : Action P A) (f : A → Action P B) (w v : World P) (b : B)
      → (m >>= f) w ≡ (ok b, v)
      → Split m f w b v
  unfolding ◌>>=◌
  Split-of m f w v b h = Split-on m f w v b (m w).0 (m w).1 refl h

  -- A reading leaves the world alone.
  pub given :
      {A : Type 0} (r : Result A) (w u : World P) (a : A)
      → give r w ≡ (ok a, u)
      → (r ≡ ok a) × (u ≡ w)
  unfolding give
  given r w u a h = (cc, cc)

  pub after_give :
      {A B : Type 0} {C : Type 0} (r : Result A) (f : A → Action P B) (w v : World P) (b : B)
      → (give r >>= f) w ≡ (ok b, v)
      → ((a : A) → r ≡ ok a → f a w ≡ (ok b, v) → C)
      → C
  after_give r f w v b h k =
      let p = Split-of (give r) f w v b h in
      let (read, still) = given r w p.between p.value p.first in
      k p.value read (ap (f p.value) (sym still) ∙ p.second)

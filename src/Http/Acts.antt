-- ===== src/Http/Acts.antt =====
-- What an action does to the tables, composed from what its parts do.
use mail_server_client.Base.{◌≡◌, refl, Bool, true, false, Bytes, if◌then◌else◌, arith}
use mail_server_client.Storage.Database.{Db, Tables, Query, Result, ok, err, after, statement}
use mail_server_client.Storage.Database.Laws.{statement_cases}
use mail_server_client.Http.Config.{LogLevel}
use mail_server_client.Http.World.{
  Services, World, Action, on_ok, ◌>>=◌, give, query, try_catch, log,
}

-- What the tables may become.
pub record Preorder : Type 1 where
  pub rel : Tables → Tables → Type 0
  pub same : (t : Tables) → rel t t
  pub join : (t u v : Tables) → rel t u → rel u v → rel t v

module _ (O : Preorder) where
  pub record Does {A : Type 0} (m : Query A) : Type 0 where
    pub at : (db : Db) → O.rel db.tables (m db).1.tables

  pub record Acts {P A : Type 0} (m : Action P A) : Type 0 where
    pub at : (w : World P) → O.rel w.db.tables (m w).1.db.tables

  -- A statement that only reads.
  pub read-Does : {A : Type 0} (f : Tables → A) → Does (statement λ t. ok (f t, t))
  read-Does f = record {
    at = λ db.
        statement_cases (λ t. O.rel db.tables t) (λ t. ok (f t, t)) db (O.same db.tables)
          λ a t e. let u : db.tables ≡ t = cc in rw (← u) (O.same db.tables);
  }

  module _ {A B : Type 0} (m : Query A) (f : A → Query B) where
    Does-after :
        (t : Tables) (r : Result A) (db : Db)
        → O.rel t db.tables
        → ((a : A) → Does (f a))
        → O.rel t (after r f db).1.tables
    Does-after t (ok a) db h k = O.join _ _ _ h ((k a).at db)
    Does-after t (err e) db h k = h

    pub bind-Does : Does m → ((a : A) → Does (f a)) → Does (λ db. after (m db).0 f (m db).1)
    bind-Does h k = record { at = λ db. Does-after db.tables (m db).0 (m db).1 (h.at db) k }

  pub pure-Does : {A : Type 0} (r : Result A) → Does (λ db. (r, db))
  pure-Does r = record { at = λ db. O.same db.tables }

  module _ {P : Type 0} where
    pub give-Acts : {A : Type 0} (r : Result A) → Acts (give {P = P} r)
    unfolding give
    give-Acts r = record { at = λ w. O.same w.db.tables }

    module _ {A B : Type 0} (m : Action P A) (f : A → Action P B) where
      Acts-after :
          (t : Tables) (r : Result A) (w : World P)
          → O.rel t w.db.tables
          → ((a : A) → Acts (f a))
          → O.rel t (on_ok r f w).1.db.tables
      Acts-after t (ok a) w h k = O.join _ _ _ h ((k a).at w)
      Acts-after t (err e) w h k = h

      pub bind-Acts : Acts m → ((a : A) → Acts (f a)) → Acts (m >>= f)
      unfolding ◌>>=◌
      bind-Acts h k = record { at = λ w. Acts-after w.db.tables (m w).0 (m w).1 (h.at w) k }

    -- What follows a reading may know what was read.
    pub give-bind-Acts :
        {A B : Type 0} (r : Result A) (f : A → Action P B)
        → ((a : A) → r ≡ ok a → Acts (f a))
        → Acts (give r >>= f)
    unfolding ◌>>=◌ give
    give-bind-Acts (ok a) f h = record { at = (h a refl).at }
    give-bind-Acts (err e) f h = record { at = λ w. O.same w.db.tables }

    pub query-Acts : {A : Type 0} (q : Query A) → Does q → Acts (query {P = P} q)
    unfolding query
    query-Acts q h = record { at = λ w. h.at w.db }

    pub try_catch-Acts :
        {A : Type 0} (m : Action P A) (f : Bytes → A) → Acts m → Acts (try_catch m f)
    unfolding try_catch
    try_catch-Acts m f h = record { at = h.at }

    log_keeps :
        (s : Services P) (level : LogLevel) (text : Bytes) (w : World P)
        → (log s level text w).1.db ≡ w.db
    unfolding log
    log_keeps s level text w = ground arith

    pub log-Acts : (s : Services P) (level : LogLevel) (text : Bytes) → Acts (log s level text)
    log-Acts s level text = record { at = λ w. rw (log_keeps s level text w) (O.same w.db.tables) }

    -- What does not touch the tables at all.
    pub still-Acts : {A : Type 0} (m : Action P A) → ((w : World P) → (m w).1.db ≡ w.db) → Acts m
    still-Acts m h = record { at = λ w. rw (h w) (O.same w.db.tables) }

    pub if-Acts :
        {A : Type 0} (b : Bool) (m n : Action P A) → Acts m → Acts n → Acts (if b then m else n)
    if-Acts true m n h k = h
    if-Acts false m n h k = k

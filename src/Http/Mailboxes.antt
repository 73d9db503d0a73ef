-- ===== src/Http/Mailboxes.antt =====
-- What a request to the mail server may change in the mailboxes.
pub mod Requests
pub mod Dispatch
use mail_server_client.Base.{
  ℕ, ℤ, pos, negsuc, ◌≡◌, refl, Bool, true, false, ◌&&◌, Option, none, some, List, [], ◌∷◌, Bytes,
  bytes_eq, Bool-cases, inl, inr, arith,
}
use mail_server_client.Storage.Records.{Actor, Message}
use mail_server_client.Storage.Database.{Db, Tables, Query, statement, bind_text, ok, err}
use mail_server_client.Storage.Rows.{RowByRow, RowByRow-refl, RowByRow-trans, update_where-RowByRow}
use mail_server_client.Storage.Actors.{is_actor_of, change_actors, update_actors}
use mail_server_client.Storage.Actors.Mailbox.{
  is_null, mailbox_where, starred_set, archived_set, deleted_set, set_starred, set_archived,
  mark_deleted,
}
use mail_server_client.Storage.Database.Laws.{statement_cases}
use mail_server_client.Http.Message.{Request}
use mail_server_client.Http.MailStorage.{by_id, star_mail, archive_mail, delete_mail}
use mail_server_client.Http.Acts.{Does, Preorder, read-Does}

-- The entry has the address that the request names in X-User-Email.
unfoldable pub belongs : Request → Actor → Bool
belongs request a = elim request.user_email [
  | none ↦ false
  | some email ↦ bytes_eq a.actor_email (bind_text email)
]

-- Nothing but the three flags of an entry changes, and these only while it is not deleted and belongs
-- to the address of the request.
pub record FlagStep (request : Request) (a b : Actor) : Type 0 where
  pub flags_only : b ≡ record a {
    starred_at = b.starred_at;
    archived_at = b.archived_at;
    deleted_at = b.deleted_at;
  }
  pub own_only : belongs request a ≡ false → b ≡ a
  pub live_only : is_null a.deleted_at ≡ false → b ≡ a

pub record Within (request : Request) (t t' : Tables) : Type 0 where
  pub same_messages : t'.messages ≡ t.messages
  pub rows : RowByRow (FlagStep request) t.actors t'.actors

module _ (request : Request) where
  FlagStep-refl : (a : Actor) → FlagStep request a a
  FlagStep-refl a = record { flags_only = refl; own_only = λ h. refl; live_only = λ h. refl }

  FlagStep-trans :
      (a b c : Actor) → FlagStep request a b → FlagStep request b c → FlagStep request a c
  FlagStep-trans a b c x y = record {
    flags_only = cc (x.flags_only, y.flags_only);
    own_only = λ h.
        let e = x.own_only h in let f : belongs request b ≡ false = rw e h in cc (e, y.own_only f);
    live_only = λ h.
        let e = x.live_only h in
        let f : is_null b.deleted_at ≡ false = rw e h in cc (e, y.live_only f);
  }

  pub Within-refl : (t : Tables) → Within request t t
  Within-refl t = record {
    same_messages = refl;
    rows = RowByRow-refl (FlagStep request) FlagStep-refl t.actors;
  }

  pub Within-trans : (t u v : Tables) → Within request t u → Within request u v → Within request t v
  Within-trans t u v x y = record {
    same_messages = cc (x.same_messages, y.same_messages);
    rows = RowByRow-trans (FlagStep request) FlagStep-trans _ _ _ x.rows y.rows;
  }

  abbrev pub within_order : Preorder
  within_order = record { rel = Within request; same = Within-refl; join = Within-trans }

  module _ (email : Bytes) (named : request.user_email ≡ some email) where
    -- The change of one entry, as far as its guard is `mailbox_where`.
    FlagStep-where :
        (id : ℕ) (f : Actor → Actor)
        → ((a : Actor)
            → f a ≡ record a {
              starred_at = (f a).starred_at;
              archived_at = (f a).archived_at;
              deleted_at = (f a).deleted_at;
            })
        → (a : Actor) → mailbox_where id (bind_text email) a ≡ true
        → FlagStep request a (f a)
    unfolding mailbox_where belongs
    FlagStep-where id f flags a h = record {
      flags_only = flags a;
      own_only = λ k. let g = rw named at k in ground arith;
      live_only = λ k. ground arith;
    }

    change_actors-Does :
        (id : ℕ) (f : Actor → Actor)
        → ((a : Actor)
            → f a ≡ record a {
              starred_at = (f a).starred_at;
              archived_at = (f a).archived_at;
              deleted_at = (f a).deleted_at;
            })
        → (db : Db)
        → Within request db.tables
            (statement (change_actors (mailbox_where id (bind_text email)) f) db).1.tables
    unfolding change_actors update_actors
    change_actors-Does id f flags db =
        statement_cases (Within request db.tables) _ db (Within-refl db.tables) λ a t e.
          let u : update_actors (mailbox_where id (bind_text email)) f db.tables ≡ t = cc in
          rw (← u) (record {
            same_messages = refl;
            rows =
                update_where-RowByRow (FlagStep request) FlagStep-refl _ f
                  (FlagStep-where id f flags) db.tables.actors;
          })

    by_id-Does :
        (q : ℕ → Query Bool) (id : ℤ)
        → ((n : ℕ) → Does within_order (q n))
        → Does within_order (by_id q id)
    unfolding by_id
    by_id-Does q (pos n) h = h n
    by_id-Does q (negsuc n) h = read-Does within_order (λ t. false)

    pub star_mail-Does : (id : ℤ) (starred : Bool) → Does within_order (star_mail id email starred)
    unfolding star_mail set_starred starred_set
    star_mail-Does id starred = by_id-Does _ id λ n. record {
      at = λ db. change_actors-Does n (starred_set starred db.clock) (λ a. refl) db;
    }

    pub archive_mail-Does :
        (id : ℤ) (archived : Bool) → Does within_order (archive_mail id email archived)
    unfolding archive_mail set_archived archived_set
    archive_mail-Does id archived = by_id-Does _ id λ n. record {
      at = λ db. change_actors-Does n (archived_set archived db.clock) (λ a. refl) db;
    }

    pub delete_mail-Does : (id : ℤ) → Does within_order (delete_mail id email)
    unfolding delete_mail mark_deleted deleted_set
    delete_mail-Does id =
        by_id-Does _ id
          λ n. record { at = λ db. change_actors-Does n (deleted_set db.clock) (λ a. refl) db }

-- ===== src/Smtp/Store/Returns.antt =====
-- StoreMessage returns when SQLite carries its statements out.
use mail_server_client.Base.{
  ℕ, suc, ◌≡◌, refl, ◌∙◌, Bool, true, none, some, List, [], ◌∷◌, ◌++◌, Bytes, arith, ◌==◌,
}
use mail_server_client.Storage.Records.{Message, DeliveryStatus, MessageStatus, from, to}
use mail_server_client.Storage.Database.{Query, Result, ok, err, Db, Tables, bind_text}
use mail_server_client.Storage.Database.Laws.{statement-clear, begin_immediate-clear, commit-clear}
use mail_server_client.Storage.Rows.{exists_where}
use mail_server_client.Storage.Messages.{create_message, insert_message}
use mail_server_client.Storage.Actors.{
  create_actor, insert_actor, default_status, status_allowed, has_message,
}
use mail_server_client.Smtp.Store.{create_recipients, store_rows, or_rollback, store_message}
use mail_server_client.Smtp.Store.Rows.{with_actor, with_row}

exists_where-snoc :
    {A : Type 0} (p : A → Bool) (xs : List A) (x : A)
    → p x ≡ true
    → exists_where p (xs ++ x ∷ []) ≡ true
unfolding exists_where
exists_where-snoc p [] x h = ground arith
exists_where-snoc p (y ∷ ys) x h = ground (arith, exists_where-snoc p ys x h)

-- A query has returned, with no fault to come, the same open transaction and the same messages.
record Ran {A : Type 0} (m : Query A) (db : Db) (a : A) : Type 0 where
  result : (m db).0 ≡ ok a
  clear : (m db).1.faults ≡ []
  same_saved : (m db).1.saved ≡ db.saved

create_actor-clear :
    (id : ℕ) (email : Bytes) (db : Db)
    → db.faults ≡ []
    → has_message id db.tables ≡ true
    → create_actor id email to (some DeliveryStatus.queued) db ≡ (
      ok (suc db.tables.last_actor),
      record db {
        faults = [];
        tables = with_actor id (bind_text email) to (some DeliveryStatus.queued) db.tables;
      },
    )
unfolding create_actor insert_actor status_allowed default_status
create_actor-clear id email db f m = statement-clear _ db _ _ f (rw m refl)

create_sender-clear :
    (id : ℕ) (email : Bytes) (db : Db)
    → db.faults ≡ []
    → has_message id db.tables ≡ true
    → create_actor id email from none db ≡ (
      ok (suc db.tables.last_actor),
      record db { faults = []; tables = with_actor id (bind_text email) from none db.tables },
    )
unfolding create_actor insert_actor status_allowed default_status
create_sender-clear id email db f m = statement-clear _ db _ _ f (rw m refl)

create_recipients-Ran :
    (id : ℕ) (recipients : List Bytes) (db : Db)
    → db.faults ≡ []
    → has_message id db.tables ≡ true
    → Ran (create_recipients id recipients) db tt
unfolding create_recipients
create_recipients-Ran id [] db f m = record { result = refl; clear = f; same_saved = refl }
create_recipients-Ran id (r ∷ rest) db f m =
    let next : Db = record db {
      faults = [];
      tables = with_actor id (bind_text r) to (some DeliveryStatus.queued) db.tables;
    } in
    let later = create_recipients-Ran id rest next refl m in
    let e = create_actor-clear id r db f m in
    record {
      result = rw e later.result;
      clear = rw e later.clear;
      same_saved = rw e later.same_saved;
    }

create_message-clear :
    (body : Bytes) (db : Db)
    → db.faults ≡ []
    → create_message none body none MessageStatus.queued db ≡ (
      ok (suc db.tables.last_message),
      record db { faults = []; tables = with_row (bind_text body) db.clock db.tables },
    )
unfolding create_message insert_message
create_message-clear body db f = statement-clear _ db _ _ f refl

store_rows-returns :
    (sender : Bytes) (recipients : List Bytes) (body : Bytes) (db : Db) (t : Tables)
    → db.faults ≡ []
    → db.saved ≡ some t
    → (store_rows sender recipients body db).0 ≡ ok (suc db.tables.last_message)
unfolding store_rows
store_rows-returns sender recipients body db t f s =
    let id = suc db.tables.last_message in
    let d₁ : Db = record db {
      faults = [];
      tables = with_row (bind_text body) db.clock db.tables;
    } in
    let d₂ : Db = record d₁ { tables = with_actor id (bind_text sender) from none d₁.tables } in
    let found : has_message id d₁.tables ≡ true =
      exists_where-snoc (λ (m : Message). m.id == id) db.tables.messages _ (ground arith) in
    let rs = create_recipients-Ran id recipients d₂ refl found in
    rw (create_message-clear body db f, create_sender-clear id sender d₁ refl found, rs.result)
      (rw (commit-clear (create_recipients id recipients d₂).1 t rs.clear (rs.same_saved ∙ s)) refl)

or_rollback-ok : (r : Result ℕ × Db) (n : ℕ) → r.0 ≡ ok n → (or_rollback r).0 ≡ ok n
unfolding or_rollback
or_rollback-ok (ok a, db) n h = h
or_rollback-ok (err e, db) n h = cc

-- With no transaction open, and if no statement fails, StoreMessage returns the next message id.
pub store_message-returns :
    (sender : Bytes) (recipients : List Bytes) (body : Bytes) (db : Db)
    → db.faults ≡ []
    → db.saved ≡ none
    → (store_message sender recipients body db).0 ≡ ok (suc db.tables.last_message)
unfolding store_message
store_message-returns sender recipients body db f s = rw (begin_immediate-clear db f s) (
    or_rollback-ok _ _ (
      store_rows-returns sender recipients body (record db { faults = []; saved = some db.tables })
        db.tables refl refl))

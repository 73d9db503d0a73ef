-- ===== src/Smtp/Store/Rows.antt =====
-- The rows that StoreMessage leaves when it returns.
use mail_server_client.Base.{
  ℕ, suc, ◌+◌, ◌≡◌, refl, sym, ap, ◌∙◌, ◌&&◌, Option, none, some, List, [], ◌∷◌, ◌++◌, append_assoc,
  append-nil, Bytes, length, arith, Bool-cases, inl, inr,
}
use mail_server_client.Storage.Records.{Actor, DeliveryStatus, MessageStatus, ActorType, from, to}
use mail_server_client.Storage.Database.{
  Result, ok, err, Db, Tables, begin_immediate, commit, bind_text,
}
use mail_server_client.Storage.Database.Laws.{
  statement-ok, bind-ok, begin_immediate-ok, commit-ok, at_ok,
}
use mail_server_client.Storage.Messages.{create_message, insert_message}
use mail_server_client.Storage.Actors.{
  create_actor, insert_actor, new_actor, default_status, status_allowed, has_message,
}
use mail_server_client.Smtp.Store.{create_recipients, store_rows, or_rollback, store_message}

-- The rows of the recipients, in their order, numbered behind `last`.
pub recipient_rows : ℕ → ℕ → List Bytes → List Actor
recipient_rows last message_id [] = []
recipient_rows last message_id (r ∷ rest) =
    new_actor (suc last) message_id (bind_text r) to (some DeliveryStatus.queued)
    ∷ recipient_rows (suc last) message_id rest

-- The tables with one more message: queued, from the sender, to every recipient.
pub with_message : Bytes → List Bytes → Bytes → Bytes → Tables → Tables
with_message sender recipients body now t = record t {
  messages =
      t.messages
      ++ record {
        id = suc t.last_message;
        subject = none;
        body = bind_text body;
        reply_to_message_id = none;
        created_at = now;
        message_status = MessageStatus.queued;
      }
        ∷ [];
  actors =
      t.actors
      ++ new_actor (suc t.last_actor) (suc t.last_message) (bind_text sender) from none
        ∷ recipient_rows (suc t.last_actor) (suc t.last_message) recipients;
  last_message = suc t.last_message;
  last_actor = suc t.last_actor + length recipients;
}

-- What a query has written.
record Wrote (db db' : Db) (t : Tables) : Type 0 where
  tables : db'.tables ≡ t
  same_saved : db'.saved ≡ db.saved
  same_clock : db'.clock ≡ db.clock

abbrev pub with_actor : ℕ → Bytes → ActorType → Option DeliveryStatus → Tables → Tables
with_actor message_id email type status t = record t {
  actors = t.actors ++ new_actor (suc t.last_actor) message_id email type status ∷ [];
  last_actor = suc t.last_actor;
}

insert_actor-tables :
    (message_id : ℕ) (email : Bytes) (type : ActorType) (status : Option DeliveryStatus)
    (t : Tables) (n : ℕ) (t' : Tables)
    → insert_actor message_id email type status t ≡ ok (n, t')
    → t' ≡ with_actor message_id email type status t
unfolding insert_actor
insert_actor-tables message_id email type status t n t' h =
    elim (Bool-cases (has_message message_id t && status_allowed type status)) [
      | inl g ↦ let e = rw g at h in cc
      | inr g ↦ let e = rw g at h in cc
    ]

create_actor-Wrote :
    (message_id : ℕ) (email : Bytes) (type : ActorType) (status : Option DeliveryStatus) (db : Db)
    (n : ℕ) (db' : Db)
    → create_actor message_id email type status db ≡ (ok n, db')
    → Wrote db db'
        (with_actor message_id (bind_text email) type (default_status type status) db.tables)
unfolding create_actor
create_actor-Wrote message_id email type status db n db' h =
    let d = statement-ok _ db n db' h in
    record {
      tables = insert_actor-tables _ _ _ _ _ _ _ d.worked;
      same_saved = d.same_saved;
      same_clock = d.same_clock;
    }

abbrev pub with_recipients : ℕ → List Bytes → Tables → Tables
with_recipients message_id recipients t = record t {
  actors = t.actors ++ recipient_rows t.last_actor message_id recipients;
  last_actor = t.last_actor + length recipients;
}

joined :
    (message_id : ℕ) (r : Bytes) (rest : List Bytes) (t : Tables)
    → with_recipients message_id rest
        (with_actor message_id (bind_text r) to (some DeliveryStatus.queued) t)
      ≡ with_recipients message_id (r ∷ rest) t
unfolding recipient_rows
joined message_id r rest t = ground (
  arith,
  append_assoc t.actors
      (new_actor (suc t.last_actor) message_id (bind_text r) to (some DeliveryStatus.queued) ∷ [])
      (recipient_rows (suc t.last_actor) message_id rest),
)

create_recipients-Wrote :
    (message_id : ℕ) (recipients : List Bytes) (db : Db) (db' : Db)
    → create_recipients message_id recipients db ≡ (ok tt, db')
    → Wrote db db' (with_recipients message_id recipients db.tables)
unfolding create_recipients recipient_rows default_status
create_recipients-Wrote message_id [] db db' h =
    let e : db ≡ db' = ap (λ (x : Result (Unit {0}) × Db). x.1) h in
    rw (← e) (record {
      tables = ground (arith, append-nil db.tables.actors);
      same_saved = refl;
      same_clock = refl;
    })
create_recipients-Wrote message_id (r ∷ rest) db db' h =
    let here = create_actor message_id r to (some DeliveryStatus.queued) in
    let (n, first, others) = bind-ok _ here db tt db' h in
    let w = create_actor-Wrote message_id r to _ db n _ (at_ok (here db) (ok n) first) in
    let v = create_recipients-Wrote message_id rest _ db' others in
    record {
      tables = v.tables ∙ rw w.tables (joined message_id r rest db.tables);
      same_saved = v.same_saved ∙ w.same_saved;
      same_clock = v.same_clock ∙ w.same_clock;
    }

abbrev pub with_row : Bytes → Bytes → Tables → Tables
with_row body now t = record t {
  messages =
      t.messages
      ++ record {
        id = suc t.last_message;
        subject = none;
        body = body;
        reply_to_message_id = none;
        created_at = now;
        message_status = MessageStatus.queued;
      }
        ∷ [];
  last_message = suc t.last_message;
}

insert_message-tables :
    (body now : Bytes) (t : Tables) (n : ℕ) (t' : Tables)
    → insert_message none body none MessageStatus.queued now t ≡ ok (n, t')
    → (n ≡ suc t.last_message) × (t' ≡ with_row body now t)
unfolding insert_message
insert_message-tables body now t n t' h = (cc, cc)

create_message-Wrote :
    (body : Bytes) (db : Db) (n : ℕ) (db' : Db)
    → create_message none body none MessageStatus.queued db ≡ (ok n, db')
    → (n ≡ suc db.tables.last_message) × Wrote db db' (with_row (bind_text body) db.clock db.tables)
unfolding create_message
create_message-Wrote body db n db' h =
    let d = statement-ok _ db n db' h in
    let (id, t) = insert_message-tables _ _ _ _ _ d.worked in
    (id, record { tables = t; same_saved = d.same_saved; same_clock = d.same_clock })

module _ (sender : Bytes) (recipients : List Bytes) (body : Bytes) where
  composed :
      (now : Bytes) (t : Tables)
      → with_recipients (suc t.last_message) recipients (
          with_actor
            (suc t.last_message)
            (bind_text sender)
            from
            none
            (with_row (bind_text body) now t))
        ≡ with_message sender recipients body now t
  unfolding with_message
  composed now t = ground (
    arith,
    append_assoc t.actors
        (new_actor (suc t.last_actor) (suc t.last_message) (bind_text sender) from none ∷ [])
        (recipient_rows (suc t.last_actor) (suc t.last_message) recipients),
  )

  store_rows-Wrote :
      (db : Db) (n : ℕ) (db' : Db)
      → store_rows sender recipients body db ≡ (ok n, db')
      → (n ≡ suc db.tables.last_message)
        × (db'.tables ≡ with_message sender recipients body db.clock db.tables)
        × (db'.saved ≡ none)
  unfolding store_rows default_status
  store_rows-Wrote db n db' h =
      let m = create_message none body none MessageStatus.queued in
      let (id, made, h₁) = bind-ok _ m db n db' h in
      let (number, w₁) = create_message-Wrote body db id _ (at_ok (m db) (ok id) made) in
      let a = create_actor id sender from none in
      let (k, named, h₂) = bind-ok _ a (m db).1 n db' h₁ in
      let w₂ =
        create_actor-Wrote id sender from none (m db).1 k _ (at_ok (a (m db).1) (ok k) named) in
      let rs = create_recipients id recipients in
      let (u, listed, h₃) = bind-ok _ rs (a (m db).1).1 n db' h₂ in
      let w₃ =
        create_recipients-Wrote id recipients (a (m db).1).1 _
          (at_ok (rs (a (m db).1).1) (ok u) listed) in
      let (v, done, h₄) = bind-ok _ commit (rs (a (m db).1).1).1 n db' h₃ in
      let c = commit-ok (rs (a (m db).1).1).1 done in
      let result : id ≡ n = cc h₄ in
      let left : (commit (rs (a (m db).1).1).1).1 ≡ db' = ap (λ (x : Result ℕ × Db). x.1) h₄ in
      (
        sym result ∙ number,
        sym (ap (λ (d : Db). d.tables) left)
            ∙ c.0
            ∙ w₃.tables
            ∙ rw (w₂.tables, w₁.tables, number) (composed db.clock db.tables),
        sym (ap (λ (d : Db). d.saved) left) ∙ c.1,
      )

  or_rollback-ok :
      (r : Result ℕ × Db) (n : ℕ) (db' : Db) → or_rollback r ≡ (ok n, db') → r ≡ (ok n, db')
  unfolding or_rollback
  or_rollback-ok (ok a, db) n db' h = h
  or_rollback-ok (err e, db) n db' h = cc

  -- If StoreMessage returns, the tables have gained one queued message, its sender and every
  -- recipient in order, and nothing else of them has changed; no transaction is open, and the result
  -- is the id of the message.
  pub store_message-rows :
      (db : Db) (n : ℕ) (db' : Db)
      → store_message sender recipients body db ≡ (ok n, db')
      → (n ≡ suc db.tables.last_message)
        × (db'.tables ≡ with_message sender recipients body db.clock db.tables)
        × (db'.saved ≡ none)
  unfolding store_message
  store_message-rows db n db' h =
      let (u, began, rest) = bind-ok _ begin_immediate db n db' h in
      let b = begin_immediate-ok db began in
      let (id, rows, free) = store_rows-Wrote _ n db' (or_rollback-ok _ n db' rest) in
      (
        id ∙ ap (λ (t : Tables). suc t.last_message) b.same_tables,
        rows ∙ rw (b.same_tables, b.same_clock) refl,
        free,
      )

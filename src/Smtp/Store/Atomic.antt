-- ===== src/Smtp/Store/Atomic.antt =====
-- A message is stored whole or not at all.
use mail_server_client.Base.{
  ℕ, ◌≡◌, refl, sym, ◌∙◌, Option, none, some, List, [], ◌∷◌, Bytes, arith,
}
use mail_server_client.Storage.Records.{DeliveryStatus, MessageStatus, ActorType, from, to}
use mail_server_client.Storage.Database.{
  Result, ok, err, Exception, Db, Tables, after, begin_immediate,
}
use mail_server_client.Storage.Database.Laws.{
  committed, KeepsSaved, FailsSafe, statement-KeepsSaved, pure-KeepsSaved, bind-KeepsSaved,
  bind-FailsSafe, commit-pure-FailsSafe, committed-rollback, begin_immediate-ok,
  begin_immediate-err,
}
use mail_server_client.Storage.Messages.{create_message}
use mail_server_client.Storage.Actors.{create_actor}
use mail_server_client.Smtp.Store.{create_recipients, store_rows, or_rollback, store_message}

create_message-KeepsSaved :
    (subject : Option Bytes) (body : Bytes) (reply : Option ℕ) (status : MessageStatus)
    → KeepsSaved (create_message subject body reply status)
unfolding create_message
create_message-KeepsSaved subject body reply status = record {
  at = λ db. (statement-KeepsSaved _).at db;
}

create_actor-KeepsSaved :
    (id : ℕ) (email : Bytes) (type : ActorType) (status : Option DeliveryStatus)
    → KeepsSaved (create_actor id email type status)
unfolding create_actor
create_actor-KeepsSaved id email type status = statement-KeepsSaved _

create_recipients-KeepsSaved :
    (id : ℕ) (recipients : List Bytes) → KeepsSaved (create_recipients id recipients)
unfolding create_recipients
create_recipients-KeepsSaved id [] = pure-KeepsSaved tt
create_recipients-KeepsSaved id (r ∷ rest) =
    bind-KeepsSaved _ _ (create_actor-KeepsSaved id r to (some DeliveryStatus.queued))
      (λ _. create_recipients-KeepsSaved id rest)

store_rows-FailsSafe :
    (sender : Bytes) (recipients : List Bytes) (body : Bytes)
    → FailsSafe (store_rows sender recipients body)
unfolding store_rows
store_rows-FailsSafe sender recipients body =
    bind-FailsSafe _ _ (create_message-KeepsSaved none body none MessageStatus.queued) λ id.
      bind-FailsSafe _ _ (create_actor-KeepsSaved id sender from none) λ _.
        bind-FailsSafe _ _ (create_recipients-KeepsSaved id recipients)
          λ _. commit-pure-FailsSafe id

or_rollback-committed :
    {A : Type 0} (r : Result A × Db) (e : Exception) (t : Tables)
    → (r.0 ≡ err e → r.1.saved ≡ some t)
    → (or_rollback r).0 ≡ err e
    → committed (or_rollback r).1 ≡ t
unfolding or_rollback
or_rollback-committed (ok a, db) e t h k = cc
or_rollback-committed (err x, db) e t h k = committed-rollback db t (h k)

committed-free : (db : Db) → db.saved ≡ none → committed db ≡ db.tables
committed-free db e = ground arith

module _ (sender : Bytes) (recipients : List Bytes) (body : Bytes) where
  store_from-committed :
      (db : Db) (e : Exception) (r : Result (Unit {0}))
      → (begin_immediate db).0 ≡ r
      → (after r
          (λ _ d. or_rollback (store_rows sender recipients body d))
          (begin_immediate db).1).0
        ≡ err e
      → committed
          (after r
            (λ _ d. or_rollback (store_rows sender recipients body d))
            (begin_immediate db).1).1
        ≡ committed db
  store_from-committed db e (err x) b h = (begin_immediate-err db x b).0
  store_from-committed db e (ok u) b h =
      let begun = begin_immediate-ok db b in
      or_rollback-committed (store_rows sender recipients body (begin_immediate db).1) e db.tables
        (λ k.
          (store_rows-FailsSafe sender recipients body).at (begin_immediate db).1 e k
          ∙ begun.now_saved)
        h
      ∙ sym (committed-free db begun.was_free)

  -- If StoreMessage throws, the committed tables are those from before the call, whichever of its
  -- statements fail, and also if the rollback fails too.
  pub store_message_atomic :
      (db : Db) (e : Exception)
      → (store_message sender recipients body db).0 ≡ err e
      → committed (store_message sender recipients body db).1 ≡ committed db
  unfolding store_message
  store_message_atomic db e h = store_from-committed db e (begin_immediate db).0 refl h

-- ===== src/Smtp/Dispatcher/Delivery.antt =====
-- What a delivery does to the recipient that it is about.
use mail_server_client.Base.{
  ℕ, ◌≡◌, refl, ◌∙◌, Option, Bool, true, false, List, [], ◌∷◌, Bytes, All, arith, Bool-cases, inl,
  inr,
}
use mail_server_client.Storage.Records.{Actor, User, DeliveryStatus}
use mail_server_client.Storage.Database.{
  Db, Result, ok, err, Tables, statement, ◌>>◌, after, later_faults, bind_text,
}
use mail_server_client.Storage.Database.Laws.{statement-clear}
use mail_server_client.Storage.Rows.{update_where, exists_where}
use mail_server_client.Storage.Actors.{
  is_delivering, delivering_where, delivered_set, terminal_set, change_actors, update_actors,
  mark_delivered, mark_terminal, mark_failed,
}
use mail_server_client.Storage.Messages.{
  change_messages, update_messages, finalize_where, finalize_set, finalize_delivery,
}
use mail_server_client.Storage.Users.{find_by_email}
use mail_server_client.Smtp.State.{World}
use mail_server_client.Smtp.Dispatcher.{
  fail_recipient, is_local, mark_by_user, try_deliver, failure_text, after_delivery, deliver,
}

-- No row of this id is being delivered.
abbrev pub NoneDelivering : ℕ → List Actor → Type 0
NoneDelivering id = All (λ a. delivering_where id a ≡ false)

update_where-gone :
    (p : Actor → Bool) (f : Actor → Actor)
    → ((a : Actor) → p (f a) ≡ false)
    → (xs : List Actor) → All (λ a. p a ≡ false) (update_where p f xs)
unfolding update_where
update_where-gone p f h [] = tt
update_where-gone p f h (x ∷ xs) = elim (Bool-cases (p x)) [
  | inl e ↦ (rw e (h x), update_where-gone p f h xs)
  | inr e ↦ (rw e e, update_where-gone p f h xs)
]

delivered_set-gone :
    (id : ℕ) (now : Bytes) (a : Actor) → delivering_where id (delivered_set now a) ≡ false
unfolding delivering_where delivered_set is_delivering
delivered_set-gone id now a = ground arith

failed_set-gone :
    (id : ℕ) (text : Bytes) (a : Actor)
    → delivering_where id (terminal_set DeliveryStatus.failed text a) ≡ false
unfolding delivering_where terminal_set is_delivering
failed_set-gone id text a = ground arith

-- A query that has worked, and has left no such row.
record Served (id : ℕ) (x : Result Bool × Db) : Type 0 where
  changed : Bool
  worked : x.0 ≡ ok changed
  gone : NoneDelivering id x.1.tables.actors
  clear : x.1.faults ≡ []

change_actors-Served :
    (id : ℕ) (f : Actor → Actor) (db : Db)
    → ((a : Actor) → delivering_where id (f a) ≡ false)
    → db.faults ≡ []
    → Served id (statement (change_actors (delivering_where id) f) db)
unfolding change_actors update_actors
change_actors-Served id f db h c =
    rw (statement-clear (change_actors (delivering_where id) f) db _ _ c refl) (record {
      changed = exists_where (delivering_where id) db.tables.actors;
      worked = refl;
      gone = update_where-gone (delivering_where id) f h db.tables.actors;
      clear = refl;
    })

mark_delivered-Served : (id : ℕ) (db : Db) → db.faults ≡ [] → Served id (mark_delivered id db)
unfolding mark_delivered
mark_delivered-Served id db c =
    change_actors-Served id (delivered_set db.clock) db (delivered_set-gone id db.clock) c

mark_failed-Served :
    (id : ℕ) (text : Bytes) (db : Db) → db.faults ≡ [] → Served id (mark_failed id text db)
unfolding mark_failed mark_terminal
mark_failed-Served id text db c =
    change_actors-Served id (terminal_set DeliveryStatus.failed (bind_text text)) db
      (failed_set-gone id (bind_text text)) c

mark_by_user-Served :
    (id : ℕ) (local : Bool) (db : Db) → db.faults ≡ [] → Served id (mark_by_user id local db)
unfolding mark_by_user
mark_by_user-Served id true db c = mark_delivered-Served id db c
mark_by_user-Served id false db c = mark_failed-Served id _ db c

finalize_delivery-Served :
    (id message_id : ℕ) (db : Db)
    → NoneDelivering id db.tables.actors
    → db.faults ≡ []
    → Served id (finalize_delivery message_id db)
unfolding finalize_delivery change_messages update_messages
finalize_delivery-Served id message_id db g c =
    rw
      (statement-clear
        (λ (t : Tables).
          change_messages (finalize_where message_id t) (finalize_set message_id t) t)
        db _ _ c refl)
      (record {
        changed = exists_where (finalize_where message_id db.tables) db.tables.messages;
        worked = refl;
        gone = g;
        clear = refl;
      })

then_finalize-Served :
    (id message_id : ℕ) (x : Result Bool × Db)
    → Served id x
    → Served id (after x.0 (λ _. finalize_delivery message_id) x.1)
then_finalize-Served id message_id x s =
    rw s.worked (finalize_delivery-Served id message_id x.1 s.gone s.clear)

fail_recipient-Served :
    (r : Actor) (text : Bytes) (db : Db) → db.faults ≡ [] → Served r.id (fail_recipient r text db)
unfolding fail_recipient
fail_recipient-Served r text db c =
    then_finalize-Served r.id r.message_id (mark_failed r.id text db)
      (mark_failed-Served r.id text db c)

delivered-gone :
    (r : Actor) (w : World) (x : Result Bool × Db)
    → Served r.id x
    → NoneDelivering r.id (after_delivery r w x).db.tables.actors
unfolding after_delivery
delivered-gone r w (ok done, db) s = s.gone
delivered-gone r w (err e, db) s = let g : err e ≡ ok s.changed = s.worked in cc

found-gone :
    (r : Actor) (w : World) (x : Result (Option User)) (db : Db)
    → db.faults ≡ []
    → NoneDelivering r.id
        (after_delivery r w (
          after x
            (λ user. mark_by_user r.id (is_local user) >> finalize_delivery r.message_id)
            db)).db.tables.actors
unfolding after_delivery
found-gone r w (ok user) db c = delivered-gone r w _ (
    then_finalize-Served r.id r.message_id (mark_by_user r.id (is_local user) db)
      (mark_by_user-Served r.id (is_local user) db c))
found-gone r w (err e) db c = (fail_recipient-Served r (failure_text e) db c).gone

find_by_email-faults :
    (email : Bytes) (db : Db) → (find_by_email email db).1.faults ≡ later_faults db.faults
unfolding find_by_email statement
find_by_email-faults email db = ground arith

-- A delivery leaves its recipient served: if no statement fails, and also if the search for the user
-- fails, for any reason, and none after it, no row with the id of the recipient is still being
-- delivered.
pub deliver-NoneDelivering :
    (r : Actor) (w : World)
    → later_faults w.db.faults ≡ []
    → NoneDelivering r.id (deliver r w).db.tables.actors
unfolding deliver try_deliver
deliver-NoneDelivering r w c =
    found-gone r w (find_by_email r.actor_email w.db).0 (find_by_email r.actor_email w.db).1
      (find_by_email-faults r.actor_email w.db ∙ c)

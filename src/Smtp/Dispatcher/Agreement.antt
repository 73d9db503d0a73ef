-- ===== src/Smtp/Dispatcher/Agreement.antt =====
-- Polls and deliveries keep the status of each message in agreement with those of its recipients.
use mail_server_client.Base.{
  ℕ, ◌≡◌, Option, none, some, Bool, true, false, List, [], ◌∷◌, Bytes, ltb, if_elim,
}
use mail_server_client.Storage.Records.{Actor}
use mail_server_client.Storage.Database.{
  Db, Result, ok, err, Exception, std_exception, other_exception,
}
use mail_server_client.Storage.Database.Laws.{statement_cases}
use mail_server_client.Storage.Actors.{claim_ready_recipients, mark_delivered, mark_failed}
use mail_server_client.Storage.Actors.History.{
  claim_ready_recipients-Moved, mark_delivered-Moved, mark_failed-Moved,
}
use mail_server_client.Storage.Messages.Settled.{
  Settled, KeepsSettled, Moved-KeepsSettled, pure-KeepsSettled, bind-KeepsSettled,
  finalize_delivery-KeepsSettled, mark_sending-KeepsSettled,
}
use mail_server_client.Storage.Users.{find_by_email}
use mail_server_client.Smtp.Config.{DeliveryConfig}
use mail_server_client.Smtp.State.{World}
use mail_server_client.Smtp.Dispatcher.{
  claim_limit, mark_sending, claim_batch, fail_recipient, Handed, go_on, refuse, hand_out,
  hand_out_claimed, poll, is_local, mark_by_user, try_deliver, failure_text, after_delivery,
  deliver,
}

all_sending-KeepsSettled : (rs : List Actor) → KeepsSettled (mark_sending rs)
unfolding mark_sending
all_sending-KeepsSettled [] = pure-KeepsSettled tt
all_sending-KeepsSettled (r ∷ rest) =
    bind-KeepsSettled _ _ (mark_sending-KeepsSettled r.message_id)
      (λ _. all_sending-KeepsSettled rest)

claim_batch-KeepsSettled : (limit : ℕ) → KeepsSettled (claim_batch limit)
unfolding claim_batch
claim_batch-KeepsSettled limit =
    bind-KeepsSettled _ _
      (Moved-KeepsSettled (claim_ready_recipients limit)
        (λ db. claim_ready_recipients-Moved db limit))
      (λ rs. bind-KeepsSettled _ _ (all_sending-KeepsSettled rs) (λ _. pure-KeepsSettled rs))

mark_failed-KeepsSettled : (id : ℕ) (text : Bytes) → KeepsSettled (mark_failed id text)
mark_failed-KeepsSettled id text =
    Moved-KeepsSettled (mark_failed id text) (λ db. mark_failed-Moved db id text)

fail_recipient-KeepsSettled : (r : Actor) (text : Bytes) → KeepsSettled (fail_recipient r text)
unfolding fail_recipient
fail_recipient-KeepsSettled r text =
    bind-KeepsSettled _ _ (mark_failed-KeepsSettled r.id text)
      (λ _. finalize_delivery-KeepsSettled r.message_id)

find_by_email-KeepsSettled : (email : Bytes) → KeepsSettled (find_by_email email)
unfolding find_by_email
find_by_email-KeepsSettled email = record {
  at = λ db h. statement_cases Settled _ db h (λ a t e. let u : db.tables ≡ t = cc in rw (← u) h);
}

mark_by_user-KeepsSettled : (id : ℕ) (local : Bool) → KeepsSettled (mark_by_user id local)
unfolding mark_by_user
mark_by_user-KeepsSettled id true =
    Moved-KeepsSettled (mark_delivered id) (λ db. mark_delivered-Moved db id)
mark_by_user-KeepsSettled id false = mark_failed-KeepsSettled id _

try_deliver-KeepsSettled : (r : Actor) → KeepsSettled (try_deliver r)
unfolding try_deliver
try_deliver-KeepsSettled r =
    bind-KeepsSettled _ _ (find_by_email-KeepsSettled r.actor_email) (λ user.
      bind-KeepsSettled _ _ (mark_by_user-KeepsSettled r.id (is_local user))
        (λ _. finalize_delivery-KeepsSettled r.message_id))

after_delivery-Settled :
    (r : Actor) (w : World) (x : Result Bool) (db : Db)
    → Settled db.tables
    → Settled (after_delivery r w (x, db)).db.tables
unfolding after_delivery
after_delivery-Settled r w (ok done) db h = h
after_delivery-Settled r w (err e) db h = (fail_recipient-KeepsSettled r (failure_text e)).at db h

-- A delivery, whether or not the database fails, at whichever of its statements, keeps the agreement:
-- a message that is sent has reached a recipient, one that has failed has reached none, and no
-- recipient of either is still to be served.
pub deliver-Settled :
    (r : Actor) (w : World) → Settled w.db.tables → Settled (deliver r w).db.tables
unfolding deliver
deliver-Settled r w h =
    after_delivery-Settled r w (try_deliver r w.db).0 (try_deliver r w.db).1
      ((try_deliver-KeepsSettled r).at w.db h)

go_on-Settled :
    (rest : Db → Handed) (x : Result Bool) (db : Db)
    → ((d : Db) → Settled d.tables → Settled (rest d).db.tables)
    → Settled db.tables
    → Settled (go_on rest (x, db)).db.tables
unfolding go_on
go_on-Settled rest (ok done) db k h = k db h
go_on-Settled rest (err e) db k h = h

refuse-Settled :
    (e : Exception) (r : Actor) (rest : Db → Handed) (db : Db)
    → ((d : Db) → Settled d.tables → Settled (rest d).db.tables)
    → Settled db.tables
    → Settled (refuse e r rest db).db.tables
unfolding refuse
refuse-Settled (std_exception text) r rest db k h =
    go_on-Settled rest _ _ k ((fail_recipient-KeepsSettled r text).at db h)
refuse-Settled other_exception r rest db k h = h

offer-Settled :
    (answer : Option Exception) (r : Actor) (rest : Db → Handed) (db : Db)
    → ((d : Db) → Settled d.tables → Settled (rest d).db.tables)
    → Settled db.tables
    → Settled
        (let x : Handed = elim answer [
          | none ↦ record (rest db) { enqueued = r ∷ (rest db).enqueued }
          | some e ↦ refuse e r rest db
        ] in
          x).db.tables
offer-Settled none r rest db k h = k db h
offer-Settled (some e) r rest db k h = refuse-Settled e r rest db k h

hand_out-Settled :
    (enqueue : Actor → Option Exception) (rs : List Actor) (db : Db)
    → Settled db.tables
    → Settled (hand_out enqueue rs db).db.tables
unfolding hand_out
hand_out-Settled enqueue [] db h = h
hand_out-Settled enqueue (r ∷ rs) db h =
    offer-Settled (enqueue r) r (hand_out enqueue rs) db (hand_out-Settled enqueue rs) h

claimed-Settled :
    (enqueue : Actor → Option Exception) (x : Result (List Actor)) (db : Db)
    → Settled db.tables
    → Settled (hand_out_claimed enqueue (x, db)).db.tables
unfolding hand_out_claimed
claimed-Settled enqueue (ok rs) db h = hand_out-Settled enqueue rs db h
claimed-Settled enqueue (err e) db h = h

-- A poll keeps the agreement between the messages and their recipients, whichever tasks the thread
-- pool refuses, with whatever exception, and whichever statements fail.
pub poll-Settled :
    (config : DeliveryConfig) (enqueue : Actor → Option Exception) (now next_poll : ℕ) (db : Db)
    → Settled db.tables
    → Settled (poll config enqueue now next_poll db).1.db.tables
unfolding poll
poll-Settled config enqueue now next_poll db h =
    if_elim (λ (x : ℕ × Handed). Settled x.1.db.tables) (ltb now next_poll) _ _ (λ _. h)
      (λ _.
        claimed-Settled enqueue (claim_batch (claim_limit config.batch_size) db).0
          (claim_batch (claim_limit config.batch_size) db).1
          ((claim_batch-KeepsSettled (claim_limit config.batch_size)).at db h))

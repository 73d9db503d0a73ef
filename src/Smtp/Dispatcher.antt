-- ===== src/Smtp/Dispatcher.antt =====
-- `QueueDispatcher`, apps/smtp-server/src/smtp/QueueDispatcher.cpp. Each block under the storage mutex
-- is a query of its own. The time, and whether the thread pool takes a task, are inputs.
pub mod Agreement
pub mod Delivery
use mail_server_client.Base.{
  ℕ, ◌+◌, ◌-◌, ◌^◌, Option, none, some, Bool, false, List, [], ◌∷◌, ◌++◌, Bytes, codes, ltb,
  if◌then◌else◌,
}
use mail_server_client.Storage.Records.{Actor, User, MessageStatus, sending}
use mail_server_client.Storage.Database.{
  Db, Query, Result, ok, err, Exception, std_exception, other_exception, pure, ◌>>=◌, ◌>>◌,
}
use mail_server_client.Storage.Actors.{claim_ready_recipients, mark_delivered, mark_failed}
use mail_server_client.Storage.Messages.{update_status, finalize_delivery}
use mail_server_client.Storage.Users.{find_by_email, is_active}
use mail_server_client.Smtp.Config.{DeliveryConfig}
use mail_server_client.Smtp.State.{World}

-- std::numeric_limits<int>::max()
abbrev pub maximum_int : ℕ
maximum_int = 2 ^ 31 - 1

unfoldable pub claim_limit : ℕ → ℕ
claim_limit batch_size = if ltb maximum_int batch_size then maximum_int else batch_size

unfoldable pub mark_sending : List Actor → Query (Unit {0})
mark_sending [] = pure tt
mark_sending (r ∷ rest) =
    update_status r.message_id MessageStatus.queued sending >> mark_sending rest

-- The claim, and the status of the messages it is about.
unfoldable pub claim_batch : ℕ → Query (List Actor)
unfolding mark_sending
claim_batch limit = do
  recipients ← claim_ready_recipients limit
  mark_sending recipients
  pure recipients

unfoldable pub fail_recipient : Actor → Bytes → Query Bool
fail_recipient r text = mark_failed r.id text >> finalize_delivery r.message_id

-- What the loop over the recipients leaves: the tasks that the pool took, the exception that left
-- the loop, if one did, and the database.
pub record Handed : Type 0 where
  pub enqueued : List Actor
  pub thrown : Option Exception
  pub db : Db

unfoldable pub go_on : (Db → Handed) → Result Bool × Db → Handed
go_on rest (ok done, db) = rest db
go_on rest (err e, db) = record { enqueued = []; thrown = some e; db = db }

-- catch (const std::exception& error)
unfoldable pub refuse : Exception → Actor → (Db → Handed) → Db → Handed
unfolding go_on fail_recipient
refuse (std_exception text) r rest db = go_on rest (fail_recipient r text db)
refuse other_exception r rest db = record { enqueued = []; thrown = some other_exception; db = db }

unfoldable pub hand_out : (Actor → Option Exception) → List Actor → Db → Handed
unfolding refuse
hand_out enqueue [] db = record { enqueued = []; thrown = none; db = db }
hand_out enqueue (r ∷ recipients) db =
    let rest = hand_out enqueue recipients in
    elim (enqueue r) [
      | none ↦ record (rest db) { enqueued = r ∷ (rest db).enqueued }
      | some e ↦ refuse e r rest db
    ]

unfoldable pub hand_out_claimed : (Actor → Option Exception) → Result (List Actor) × Db → Handed
unfolding hand_out
hand_out_claimed enqueue (ok recipients, db) = hand_out enqueue recipients db
hand_out_claimed enqueue (err e, db) = record { enqueued = []; thrown = some e; db = db }

-- With the time of the next poll.
unfoldable pub poll : DeliveryConfig → (Actor → Option Exception) → ℕ → ℕ → Db → ℕ × Handed
unfolding claim_limit claim_batch hand_out_claimed
poll config enqueue now next_poll db =
    if ltb now next_poll then (next_poll, record { enqueued = []; thrown = none; db = db }) else (
      now + config.poll_interval_milliseconds,
      hand_out_claimed enqueue (claim_batch (claim_limit config.batch_size) db),
    )

-- user && user->status == Active
unfoldable pub is_local : Option User → Bool
is_local none = false
is_local (some u) = is_active u.status

unfoldable pub mark_by_user : ℕ → Bool → Query Bool
mark_by_user id local =
    if local
    then mark_delivered id
    else mark_failed id (codes "Recipient is not an active local user")

-- The body of the outer `try`.
unfoldable pub try_deliver : Actor → Query Bool
unfolding is_local mark_by_user
try_deliver r = do
  user ← find_by_email r.actor_email
  mark_by_user r.id (is_local user)
  finalize_delivery r.message_id

unfoldable pub failure_text : Exception → Bytes
failure_text (std_exception text) = text
failure_text other_exception = codes "Unhandled local delivery error"

-- The catch branches: an exception of the second attempt is dropped.
unfoldable pub after_delivery : Actor → World → Result Bool × Db → World
unfolding failure_text fail_recipient
after_delivery r w (ok done, db) = record w { db = db }
after_delivery r w (err e, db) = record w {
  db = (fail_recipient r (failure_text e) db).1;
  log = w.log ++ failure_text e ∷ [];
}

unfoldable pub deliver : Actor → World → World
unfolding try_deliver after_delivery
deliver r w = after_delivery r w (try_deliver r w.db)

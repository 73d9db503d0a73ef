-- ===== src/Storage/Actors.antt =====
-- libs/mail-storage/src/MailMessageActorRepository.cpp: the statements on mail_message_actors.
pub mod Mailbox
pub mod Steps
pub mod History
pub mod Claims
use mail_server_client.Base.{
  ℕ, suc, ◌+◌, Bool, true, false, not, ◌&&◌, ◌||◌, Option, none, some, List, [], ◌∷◌, ◌++◌, map,
  Bytes, codes, bytes_eq, take, ltb, ◌==◌, if◌then◌else◌,
}
use mail_server_client.Storage.Records.{
  Actor, ActorType, DeliveryStatus, Message, from, to, cc, bcc, pending, queued, delivering,
  delivered, temporary_failed, bounced,
}
use mail_server_client.Storage.Database.{
  Db, Tables, Query, Result, ok, err, Exception, pure, ◌>>=◌, statement, constraint_failed,
  bind_text,
}
use mail_server_client.Storage.Rows.{
  select, update_where, exists_where, first_row, sort_by, text_le, in_ids,
}

-- actor_type IN ('TO', 'CC', 'BCC')
unfoldable pub is_recipient : ActorType → Bool
is_recipient from = false
is_recipient to = true
is_recipient cc = true
is_recipient bcc = true

-- delivery_status = 'delivering'; NULL is not
unfoldable pub is_delivering : Option DeliveryStatus → Bool
is_delivering (some delivering) = true
is_delivering _ = false

-- delivery_status IN ('pending', 'temporary_failed')
unfoldable pub is_held : Option DeliveryStatus → Bool
is_held (some pending) = true
is_held (some temporary_failed) = true
is_held _ = false

-- the CHECK of the schema on actor_type and delivery_status
unfoldable pub status_allowed : ActorType → Option DeliveryStatus → Bool
status_allowed from none = true
status_allowed from (some s) = false
status_allowed _ none = false
status_allowed _ (some s) = true

-- A recipient with no status given is pending.
unfoldable pub default_status : ActorType → Option DeliveryStatus → Option DeliveryStatus
default_status from status = status
default_status _ none = some pending
default_status _ (some s) = some s

abbrev pub has_message : ℕ → Tables → Bool
has_message message_id t = exists_where (λ (m : Message). m.id == message_id) t.messages

unfoldable pub new_actor : ℕ → ℕ → Bytes → ActorType → Option DeliveryStatus → Actor
new_actor id message_id email type status = record {
  id = id;
  message_id = message_id;
  actor_email = email;
  actor_type = type;
  delivery_status = status;
  attempt_count = 0;
  next_attempt_at = none;
  last_error = none;
  delivered_at = none;
  read_at = none;
  starred_at = none;
  archived_at = none;
  deleted_at = none;
}

-- INSERT: the foreign key and the CHECK stand, and AUTOINCREMENT gives the next id.
unfoldable pub insert_actor :
    ℕ → Bytes → ActorType → Option DeliveryStatus → Tables → Result (ℕ × Tables)
unfolding new_actor
insert_actor message_id email type status t =
    if has_message message_id t && status_allowed type status
    then ok (
      suc t.last_actor,
      record t {
        actors = t.actors ++ new_actor (suc t.last_actor) message_id email type status ∷ [];
        last_actor = suc t.last_actor;
      },
    )
    else err constraint_failed

unfoldable pub create_actor : ℕ → Bytes → ActorType → Option DeliveryStatus → Query ℕ
unfolding insert_actor
create_actor message_id actor_email actor_type delivery_status = statement (
    insert_actor message_id (bind_text actor_email) actor_type
      (default_status actor_type delivery_status))

unfoldable pub find_by_id : ℕ → Query (Option Actor)
find_by_id actor_id =
    statement λ t. ok (first_row (select (λ (a : Actor). a.id == actor_id) t.actors), t)

-- The rows stand in the order of their ids.
unfoldable pub find_by_message_id : ℕ → Query (List Actor)
find_by_message_id message_id =
    statement λ t. ok (select (λ (a : Actor). a.message_id == message_id) t.actors, t)

type_rank : ActorType → ℕ
type_rank from = 0
type_rank to = 1
type_rank cc = 2
type_rank bcc = 3

abbrev pub is_actor_of : ℕ → Bytes → Actor → Bool
is_actor_of message_id email a = a.message_id == message_id && bytes_eq a.actor_email email

unfoldable pub find_by_message_id_and_actor_email : ℕ → Bytes → Query (Option Actor)
unfolding type_rank
find_by_message_id_and_actor_email message_id actor_email =
    let email = bind_text actor_email in
    let rank_le = λ (a b : Actor).
      ltb (type_rank a.actor_type) (type_rank b.actor_type)
      || type_rank a.actor_type == type_rank b.actor_type && not (ltb b.id a.id) in
    statement
      λ t. ok (first_row (sort_by rank_le (select (is_actor_of message_id email) t.actors)), t)

-- An UPDATE of this table; the result is ChangedRowCount() > 0.
unfoldable pub update_actors : (Actor → Bool) → (Actor → Actor) → Tables → Tables
update_actors p f t = record t { actors = update_where p f t.actors }

unfoldable pub change_actors : (Actor → Bool) → (Actor → Actor) → Tables → Result (Bool × Tables)
unfolding update_actors
change_actors p f t = ok (exists_where p t.actors, update_actors p f t)

unfoldable pub queue_where : ℕ → Actor → Bool
queue_where actor_id a = a.id == actor_id && is_recipient a.actor_type && is_held a.delivery_status

unfoldable pub queue_set : Actor → Actor
queue_set a = record a { delivery_status = some queued; next_attempt_at = none; last_error = none }

unfoldable pub queue_actor : ℕ → Query Bool
unfolding change_actors queue_where queue_set
queue_actor actor_id = statement (change_actors (queue_where actor_id) queue_set)

-- next_attempt_at IS NULL OR next_attempt_at <= CURRENT_TIMESTAMP
unfoldable pub is_due : Bytes → Option Bytes → Bool
is_due now none = true
is_due now (some t) = text_le t now

unfoldable pub is_ready_status : Bytes → Option DeliveryStatus → Option Bytes → Bool
unfolding is_due
is_ready_status now (some queued) next = true
is_ready_status now (some temporary_failed) next = is_due now next
is_ready_status now _ next = false

unfoldable pub is_ready : Bytes → Actor → Bool
unfolding is_ready_status
is_ready now a =
    is_recipient a.actor_type && is_ready_status now a.delivery_status a.next_attempt_at

-- COALESCE(next_attempt_at, '1970-01-01 00:00:00')
unfoldable pub attempt_key : Option Bytes → Bytes
attempt_key none = codes "1970-01-01 00:00:00"
attempt_key (some t) = t

abbrev pub attempt_le : Actor → Actor → Bool
attempt_le a b =
    not (text_le (attempt_key b.next_attempt_at) (attempt_key a.next_attempt_at))
    || bytes_eq (attempt_key a.next_attempt_at) (attempt_key b.next_attempt_at)
      && not (ltb b.id a.id)

unfoldable pub ready_ids : ℕ → Bytes → List Actor → List ℕ
ready_ids limit now actors =
    map (λ (a : Actor). a.id) (take limit (sort_by attempt_le (select (is_ready now) actors)))

unfoldable pub claim_where : List ℕ → Bytes → Actor → Bool
claim_where ids now a = in_ids a.id ids && is_ready now a

unfoldable pub claim_set : Actor → Actor
claim_set a = record a {
  delivery_status = some delivering;
  attempt_count = a.attempt_count + 1;
  next_attempt_at = none;
}

-- RETURNING gives the rows as the UPDATE leaves them.
unfoldable pub claim_rows : ℕ → Bytes → Tables → Result (List Actor × Tables)
unfolding ready_ids claim_where claim_set update_actors
claim_rows limit now t =
    let p = claim_where (ready_ids limit now t.actors) now in
    ok (map claim_set (select p t.actors), update_actors p claim_set t)

-- A limit below zero is as one of zero.
unfoldable pub claim_ready_recipients : ℕ → Query (List Actor)
unfolding claim_rows
claim_ready_recipients limit db =
    if limit == 0 then (ok [], db) else statement (claim_rows limit db.clock) db

-- WHERE id = ? AND actor_type IN (…) AND delivery_status = 'delivering'
unfoldable pub delivering_where : ℕ → Actor → Bool
delivering_where actor_id a =
    a.id == actor_id && is_recipient a.actor_type && is_delivering a.delivery_status

unfoldable pub delivered_set : Bytes → Actor → Actor
delivered_set now a = record a {
  delivery_status = some delivered;
  next_attempt_at = none;
  last_error = none;
  delivered_at = some now;
}

unfoldable pub mark_delivered : ℕ → Query Bool
unfolding change_actors delivering_where delivered_set
mark_delivered actor_id db =
    statement (change_actors (delivering_where actor_id) (delivered_set db.clock)) db

unfoldable pub temporary_failed_set : Bytes → Bytes → Actor → Actor
temporary_failed_set next_attempt_at last_error a = record a {
  delivery_status = some temporary_failed;
  next_attempt_at = some next_attempt_at;
  last_error = some last_error;
  delivered_at = none;
}

unfoldable pub mark_temporary_failed : ℕ → Bytes → Bytes → Query Bool
unfolding change_actors delivering_where temporary_failed_set
mark_temporary_failed actor_id next_attempt_at last_error = statement (
    change_actors (delivering_where actor_id)
      (temporary_failed_set (bind_text next_attempt_at) (bind_text last_error)))

unfoldable pub terminal_set : DeliveryStatus → Bytes → Actor → Actor
terminal_set status last_error a = record a {
  delivery_status = some status;
  next_attempt_at = none;
  last_error = some last_error;
  delivered_at = none;
}

unfoldable pub mark_terminal : ℕ → DeliveryStatus → Bytes → Query Bool
unfolding change_actors delivering_where terminal_set
mark_terminal actor_id status last_error =
    statement
      (change_actors (delivering_where actor_id) (terminal_set status (bind_text last_error)))

unfoldable pub mark_bounced : ℕ → Bytes → Query Bool
unfolding mark_terminal
mark_bounced actor_id last_error = mark_terminal actor_id bounced last_error

unfoldable pub mark_failed : ℕ → Bytes → Query Bool
unfolding mark_terminal
mark_failed actor_id last_error = mark_terminal actor_id DeliveryStatus.failed last_error

-- ===== src/Storage/Messages.antt =====
-- libs/mail-storage/src/MailMessageRepository.cpp: the statements on mail_messages.
pub mod Settled
use mail_server_client.Base.{
  ℕ, suc, Bool, true, false, not, ◌&&◌, ◌||◌, Option, none, some, List, [], ◌∷◌, ◌++◌, Bytes, take,
  ltb, bytes_eq, ◌==◌, if◌then◌else◌,
}
use mail_server_client.Storage.Records.{
  Actor, DeliveryStatus, Message, MessageStatus, pending, delivering, delivered, temporary_failed,
  draft, sending, sent,
}
use mail_server_client.Storage.Database.{
  Tables, Query, Result, ok, err, statement, constraint_failed, bind_text,
}
use mail_server_client.Storage.Rows.{
  select, update_where, exists_where, first_row, sort_by, text_le,
}
use mail_server_client.Storage.Actors.{is_recipient, has_message}

abbrev pub bind_optional : Option Bytes → Option Bytes
bind_optional none = none
bind_optional (some t) = some (bind_text t)

-- the foreign key on reply_to_message_id, which may be NULL
abbrev reply_allowed : Option ℕ → Tables → Bool
reply_allowed none t = true
reply_allowed (some id) t = has_message id t

unfoldable pub insert_message :
    Option Bytes → Bytes → Option ℕ → MessageStatus → Bytes → Tables → Result (ℕ × Tables)
insert_message subject body reply_to status now t =
    let id = suc t.last_message in
    if reply_allowed reply_to t
    then ok (
      id,
      record t {
        messages =
            t.messages
            ++ record {
              id = id;
              subject = subject;
              body = body;
              reply_to_message_id = reply_to;
              created_at = now;
              message_status = status;
            }
              ∷ [];
        last_message = id;
      },
    )
    else err constraint_failed

unfoldable pub create_message : Option Bytes → Bytes → Option ℕ → MessageStatus → Query ℕ
unfolding insert_message
create_message subject body reply_to_message_id status db =
    statement
      (insert_message (bind_optional subject) (bind_text body) reply_to_message_id status db.clock)
      db

unfoldable pub find_message : ℕ → Query (Option Message)
find_message message_id =
    statement λ t. ok (first_row (select (λ (m : Message). m.id == message_id) t.messages), t)

-- created_at DESC, id DESC
abbrev pub newer_first : Message → Message → Bool
newer_first a b =
    not (text_le a.created_at b.created_at)
    || bytes_eq a.created_at b.created_at && not (ltb a.id b.id)

unfoldable pub find_all : Query (List Message)
find_all = statement λ t. ok (sort_by newer_first t.messages, t)

unfoldable pub status_is : MessageStatus → MessageStatus → Bool
status_is draft draft = true
status_is MessageStatus.queued MessageStatus.queued = true
status_is sending sending = true
status_is sent sent = true
status_is MessageStatus.failed MessageStatus.failed = true
status_is _ _ = false

-- created_at ASC, id ASC
abbrev older_first : Message → Message → Bool
older_first a b =
    not (text_le b.created_at a.created_at)
    || bytes_eq a.created_at b.created_at && not (ltb b.id a.id)

-- A limit below zero is as one of zero.
unfoldable pub find_by_status : MessageStatus → ℕ → Query (List Message)
find_by_status status limit db =
    if limit == 0
    then (ok [], db)
    else statement
        (λ t. ok (
          take limit (
              sort_by older_first
                (select (λ (m : Message). status_is m.message_status status) t.messages)),
          t,
        ))
        db

unfoldable pub update_messages : (Message → Bool) → (Message → Message) → Tables → Tables
update_messages p f t = record t { messages = update_where p f t.messages }

unfoldable pub change_messages :
    (Message → Bool) → (Message → Message) → Tables → Result (Bool × Tables)
unfolding update_messages
change_messages p f t = ok (exists_where p t.messages, update_messages p f t)

unfoldable pub update_status : ℕ → MessageStatus → MessageStatus → Query Bool
unfolding change_messages status_is
update_status message_id expected_status new_status = statement (
    change_messages (λ m. m.id == message_id && status_is m.message_status expected_status)
      (λ m. record m { message_status = new_status }))

abbrev detach : ℕ → Message → Message
detach id m = elim m.reply_to_message_id [
  | none ↦ m
  | some reply ↦ if reply == id then record m { reply_to_message_id = none } else m
]

-- The schema deletes the actors of the message (ON DELETE CASCADE) and clears the replies to it
-- (ON DELETE SET NULL).
unfoldable pub remove_message : ℕ → Tables → Result (Bool × Tables)
remove_message message_id t =
    if has_message message_id t
    then ok (
      true,
      record t {
        messages =
            update_where (λ (m : Message). true) (detach message_id)
              (select (λ (m : Message). not (m.id == message_id)) t.messages);
        actors = select (λ (a : Actor). not (a.message_id == message_id)) t.actors;
      },
    )
    else ok (false, t)

unfoldable pub delete_message : ℕ → Query Bool
unfolding remove_message
delete_message message_id = statement (remove_message message_id)

-- delivery_status IN ('pending', 'queued', 'delivering', 'temporary_failed')
unfoldable pub is_open : Option DeliveryStatus → Bool
is_open (some pending) = true
is_open (some DeliveryStatus.queued) = true
is_open (some delivering) = true
is_open (some temporary_failed) = true
is_open _ = false

unfoldable pub is_delivered : Option DeliveryStatus → Bool
is_delivered (some delivered) = true
is_delivered _ = false

abbrev pub any_delivered : ℕ → Tables → Bool
any_delivered message_id t =
    exists_where
      (λ (a : Actor).
        a.message_id == message_id && is_recipient a.actor_type && is_delivered a.delivery_status)
      t.actors

abbrev pub any_open : ℕ → Tables → Bool
any_open message_id t =
    exists_where
      (λ (a : Actor).
        a.message_id == message_id && is_recipient a.actor_type && is_open a.delivery_status)
      t.actors

-- message_status IN ('queued', 'sending')
unfoldable pub is_unfinished : MessageStatus → Bool
is_unfinished MessageStatus.queued = true
is_unfinished sending = true
is_unfinished _ = false

unfoldable pub finalize_where : ℕ → Tables → Message → Bool
finalize_where message_id t m =
    m.id == message_id && is_unfinished m.message_status && not (any_open message_id t)

unfoldable pub finalize_set : ℕ → Tables → Message → Message
finalize_set message_id t m = record m {
  message_status = if any_delivered message_id t then sent else MessageStatus.failed;
}

unfoldable pub finalize_delivery : ℕ → Query Bool
unfolding change_messages finalize_where finalize_set
finalize_delivery message_id =
    statement λ t. change_messages (finalize_where message_id t) (finalize_set message_id t) t

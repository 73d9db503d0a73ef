-- ===== src/Http/MailStorage.antt =====
-- apps/mail-server/src/services/MailStorage.cpp. Each call takes the mutex for as long as it runs, so
-- that calls do not interleave.
pub mod Deleted
use mail_server_client.Base.{
  ℕ, ℤ, pos, negsuc, Bool, true, false, not, ◌&&◌, Option, none, some, List, [], ◌∷◌, Bytes, codes,
  bytes_eq, if◌then◌else◌,
}
use mail_server_client.Storage.Records.{
  Actor, ActorType, from, Message, draft, User, message_status_to_string,
}
use mail_server_client.Storage.Database.{Query, ok, ◌>>=◌, pure, statement}
use mail_server_client.Storage.Users.{create_user, find_user_by_id}
use mail_server_client.Storage.Actors.{is_recipient, find_by_message_id}
use mail_server_client.Storage.Actors.Mailbox.{set_starred, set_archived, mark_deleted, is_null}
use mail_server_client.Storage.Messages.{find_all, status_is}
use mail_server_client.Http.Json.{Json, int64, text, boolean, array, object, elements_of, fields_of}

unfoldable pub is_from : ActorType → Bool
is_from from = true
is_from _ = false

-- The entry that is not deleted and has this address, the first by id.
unfoldable pub current_actor : Bytes → List Actor → Option Actor
current_actor user_email [] = none
current_actor user_email (a ∷ actors) =
    if bytes_eq a.actor_email user_email && is_null a.deleted_at
    then some a
    else current_actor user_email actors

unfoldable pub sender_email : List Actor → Bytes → Bytes
unfolding is_from
sender_email [] found = found
sender_email (a ∷ actors) found =
    sender_email actors (if is_from a.actor_type then a.actor_email else found)

unfoldable pub recipients_of : List Actor → List Json
recipients_of [] = []
recipients_of (a ∷ actors) =
    let rest = recipients_of actors in
    if is_recipient a.actor_type then text a.actor_email ∷ rest else rest

-- value_or("")
abbrev pub or_empty : Option Bytes → Bytes
or_empty none = []
or_empty (some t) = t

unfoldable pub serialize_message : Message → Actor → List Actor → Json
unfolding is_from sender_email recipients_of
serialize_message message current actors =
    let is_sender = is_from current.actor_type in
    let is_draft = status_is message.message_status draft in
    let is_archive = not (is_null current.archived_at) in
    object (
      fields_of (
        (codes "id", int64 (pos message.id))
        ∷ (codes "from", text (sender_email actors []))
        ∷ (codes "to", array (elements_of (recipients_of actors)))
        ∷ (codes "subject", text (or_empty message.subject))
        ∷ (codes "body", text message.body)
        ∷ (codes "created_at", text message.created_at)
        ∷ (codes "is_inbox", boolean (not is_sender && (not is_draft && not is_archive)))
        ∷ (codes "is_sent", boolean (is_sender && (not is_draft && not is_archive)))
        ∷ (codes "is_draft", boolean is_draft)
        ∷ (codes "is_starred", boolean (not (is_null current.starred_at)))
        ∷ (codes "is_archive", boolean is_archive)
        ∷ (codes "is_read", boolean (not (is_null current.read_at)))
        ∷ (codes "read_at", text (or_empty current.read_at))
        ∷ (codes "starred_at", text (or_empty current.starred_at))
        ∷ (codes "archived_at", text (or_empty current.archived_at))
        ∷ (codes "status", text (message_status_to_string message.message_status))
        ∷ []))

abbrev pub push_current : Message → List Actor → Option Actor → List Json → List Json
push_current message actors none mails = mails
push_current message actors (some current) mails = serialize_message message current actors ∷ mails

-- The loop of FindMailsForUser.
unfoldable pub mails_of : Bytes → List Message → Query (List Json)
unfolding current_actor serialize_message
mails_of user_email [] = pure []
mails_of user_email (message ∷ messages) = do
  actors ← find_by_message_id message.id
  mails ← mails_of user_email messages
  pure (push_current message actors (current_actor user_email actors) mails)

unfoldable pub find_mails_for_user : Bytes → Query (List Json)
unfolding mails_of
find_mails_for_user user_email = find_all >>= mails_of user_email

abbrev pub user_object : ℕ → Bytes → Bytes → Json
user_object id username email = object (
    fields_of (
      (codes "id", int64 (pos id))
      ∷ (codes "username", text username)
      ∷ (codes "email", text email)
      ∷ []))

abbrev pub user_or : Option User → ℕ → Bytes → Bytes → Json
user_or none id username email = user_object id username email
user_or (some user) id username email = user_object id user.username user.email

-- MailStorage::CreateUser
unfoldable pub create_storage_user : Bytes → Bytes → Bytes → Query Json
create_storage_user username email password_hash = do
  user_id ← create_user username email password_hash
  user ← find_user_by_id user_id
  pure (user_or user user_id username email)

-- Row ids are positive: a statement for an id below zero finds no row.
unfoldable pub by_id : (ℕ → Query Bool) → ℤ → Query Bool
by_id q (pos id) = q id
by_id q (negsuc n) = statement λ t. ok (false, t)

-- MailStorage::SetStarred, SetArchived and DeleteMail
unfoldable pub star_mail : ℤ → Bytes → Bool → Query Bool
unfolding by_id
star_mail message_id actor_email starred =
    by_id (λ id. set_starred id actor_email starred) message_id

unfoldable pub archive_mail : ℤ → Bytes → Bool → Query Bool
unfolding by_id
archive_mail message_id actor_email archived =
    by_id (λ id. set_archived id actor_email archived) message_id

unfoldable pub delete_mail : ℤ → Bytes → Query Bool
unfolding by_id
delete_mail message_id actor_email = by_id (λ id. mark_deleted id actor_email) message_id

-- ===== src/Storage/Actors/Mailbox.antt =====
-- libs/mail-storage/src/MailMessageActorRepository.cpp: the flags of a mailbox entry.
use mail_server_client.Base.{ℕ, Bool, true, false, ◌&&◌, Option, none, some, Bytes, if◌then◌else◌}
use mail_server_client.Storage.Records.{Actor}
use mail_server_client.Storage.Database.{Query, statement, bind_text}
use mail_server_client.Storage.Actors.{change_actors, is_actor_of}

unfoldable pub is_null : Option Bytes → Bool
is_null none = true
is_null (some t) = false

-- COALESCE(column, CURRENT_TIMESTAMP)
abbrev pub or_now : Option Bytes → Bytes → Option Bytes
or_now none now = some now
or_now (some t) now = some t

-- WHERE message_id = ?2 AND actor_email = ?3 AND deleted_at IS NULL
unfoldable pub mailbox_where : ℕ → Bytes → Actor → Bool
mailbox_where message_id email a = is_actor_of message_id email a && is_null a.deleted_at

unfoldable pub starred_set : Bool → Bytes → Actor → Actor
starred_set starred now a = record a {
  starred_at = if starred then or_now a.starred_at now else none;
}

unfoldable pub set_starred : ℕ → Bytes → Bool → Query Bool
unfolding change_actors mailbox_where starred_set
set_starred message_id actor_email starred db =
    statement
      (change_actors (mailbox_where message_id (bind_text actor_email))
        (starred_set starred db.clock))
      db

unfoldable pub archived_set : Bool → Bytes → Actor → Actor
archived_set archived now a = record a {
  archived_at = if archived then or_now a.archived_at now else none;
}

unfoldable pub set_archived : ℕ → Bytes → Bool → Query Bool
unfolding change_actors mailbox_where archived_set
set_archived message_id actor_email archived db =
    statement
      (change_actors (mailbox_where message_id (bind_text actor_email))
        (archived_set archived db.clock))
      db

unfoldable pub deleted_set : Bytes → Actor → Actor
deleted_set now a = record a { deleted_at = or_now a.deleted_at now }

unfoldable pub mark_deleted : ℕ → Bytes → Query Bool
unfolding change_actors mailbox_where deleted_set
mark_deleted message_id actor_email db =
    statement
      (change_actors (mailbox_where message_id (bind_text actor_email)) (deleted_set db.clock)) db

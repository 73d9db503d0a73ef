-- ===== src/Storage/Records.antt =====
-- libs/mail-storage/include/mail_storage/*Record.h, and the texts by which the repositories write
-- the enumerations. An id is a row id; a time is the text that SQLite writes for it.
use mail_server_client.Base.{
  ℕ, ◌≡◌, refl, Option, none, some, Bytes, codes, bytes_eq, if◌then◌else◌,
}

pub data ActorType : Type 0 where
  from to cc bcc : ActorType

pub data DeliveryStatus : Type 0 where
  pending queued delivering delivered temporary_failed bounced failed : DeliveryStatus

pub record Actor : Type 0 where
  pub id : ℕ
  pub message_id : ℕ
  pub actor_email : Bytes
  pub actor_type : ActorType
  pub delivery_status : Option DeliveryStatus
  pub attempt_count : ℕ
  pub next_attempt_at : Option Bytes
  pub last_error : Option Bytes
  pub delivered_at : Option Bytes
  pub read_at : Option Bytes
  pub starred_at : Option Bytes
  pub archived_at : Option Bytes
  pub deleted_at : Option Bytes

pub data MessageStatus : Type 0 where
  draft queued sending sent failed : MessageStatus

pub record Message : Type 0 where
  pub id : ℕ
  pub subject : Option Bytes
  pub body : Bytes
  pub reply_to_message_id : Option ℕ
  pub created_at : Bytes
  pub message_status : MessageStatus

pub data UserStatus : Type 0 where
  active disabled : UserStatus

pub record User : Type 0 where
  pub id : ℕ
  pub username : Bytes
  pub email : Bytes
  pub password_hash : Bytes
  pub status : UserStatus
  pub created_at : Bytes

pub actor_type_to_string : ActorType → Bytes
actor_type_to_string from = codes "FROM"
actor_type_to_string to = codes "TO"
actor_type_to_string cc = codes "CC"
actor_type_to_string bcc = codes "BCC"

-- `none` is the exception for any other text.
pub actor_type_from_string : Bytes → Option ActorType
actor_type_from_string s =
    if bytes_eq s (codes "FROM")
    then some from
    else if bytes_eq s (codes "TO")
    then some to
    else if bytes_eq s (codes "CC")
    then some cc
    else if bytes_eq s (codes "BCC")
    then some bcc
    else none

pub delivery_status_to_string : DeliveryStatus → Bytes
delivery_status_to_string pending = codes "pending"
delivery_status_to_string DeliveryStatus.queued = codes "queued"
delivery_status_to_string delivering = codes "delivering"
delivery_status_to_string delivered = codes "delivered"
delivery_status_to_string temporary_failed = codes "temporary_failed"
delivery_status_to_string bounced = codes "bounced"
delivery_status_to_string DeliveryStatus.failed = codes "failed"

pub delivery_status_from_string : Bytes → Option DeliveryStatus
delivery_status_from_string s =
    if bytes_eq s (codes "pending")
    then some pending
    else if bytes_eq s (codes "queued")
    then some DeliveryStatus.queued
    else if bytes_eq s (codes "delivering")
    then some delivering
    else if bytes_eq s (codes "delivered")
    then some delivered
    else if bytes_eq s (codes "temporary_failed")
    then some temporary_failed
    else if bytes_eq s (codes "bounced")
    then some bounced
    else if bytes_eq s (codes "failed")
    then some DeliveryStatus.failed
    else none

pub message_status_to_string : MessageStatus → Bytes
message_status_to_string draft = codes "draft"
message_status_to_string MessageStatus.queued = codes "queued"
message_status_to_string sending = codes "sending"
message_status_to_string sent = codes "sent"
message_status_to_string MessageStatus.failed = codes "failed"

pub message_status_from_string : Bytes → Option MessageStatus
message_status_from_string s =
    if bytes_eq s (codes "draft")
    then some draft
    else if bytes_eq s (codes "queued")
    then some MessageStatus.queued
    else if bytes_eq s (codes "sending")
    then some sending
    else if bytes_eq s (codes "sent")
    then some sent
    else if bytes_eq s (codes "failed")
    then some MessageStatus.failed
    else none

pub user_status_to_string : UserStatus → Bytes
user_status_to_string active = codes "active"
user_status_to_string disabled = codes "disabled"

pub user_status_from_string : Bytes → Option UserStatus
user_status_from_string s =
    if bytes_eq s (codes "active")
    then some active
    else if bytes_eq s (codes "disabled")
    then some disabled
    else none

actor_type_from_string-to_string :
    (t : ActorType) → actor_type_from_string (actor_type_to_string t) ≡ some t
unfolding actor_type_from_string actor_type_to_string bytes_eq
actor_type_from_string-to_string from = refl
actor_type_from_string-to_string _ = refl

delivery_status_from_string-to_string :
    (s : DeliveryStatus) → delivery_status_from_string (delivery_status_to_string s) ≡ some s
unfolding delivery_status_from_string delivery_status_to_string bytes_eq
delivery_status_from_string-to_string pending = refl
delivery_status_from_string-to_string _ = refl

message_status_from_string-to_string :
    (s : MessageStatus) → message_status_from_string (message_status_to_string s) ≡ some s
unfolding message_status_from_string message_status_to_string bytes_eq
message_status_from_string-to_string draft = refl
message_status_from_string-to_string _ = refl

user_status_from_string-to_string :
    (s : UserStatus) → user_status_from_string (user_status_to_string s) ≡ some s
unfolding user_status_from_string user_status_to_string bytes_eq
user_status_from_string-to_string active = refl
user_status_from_string-to_string disabled = refl

-- What the repositories write for each of the four enumerations is read back as the same value.
pub status_round_trips :
    (t : ActorType) (d : DeliveryStatus) (m : MessageStatus) (u : UserStatus)
    → (actor_type_from_string (actor_type_to_string t) ≡ some t)
      × (delivery_status_from_string (delivery_status_to_string d) ≡ some d)
      × (message_status_from_string (message_status_to_string m) ≡ some m)
      × (user_status_from_string (user_status_to_string u) ≡ some u)
status_round_trips t d m u = (
  actor_type_from_string-to_string t,
  delivery_status_from_string-to_string d,
  message_status_from_string-to_string m,
  user_status_from_string-to_string u,
)

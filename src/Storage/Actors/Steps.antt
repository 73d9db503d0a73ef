-- ===== src/Storage/Actors/Steps.antt =====
-- How the statements move the delivery status of a recipient.
use mail_server_client.Base.{ℕ, ◌≡◌, refl, true, Option, some, List, Bytes, arith}
use mail_server_client.Storage.Records.{
  Actor, DeliveryStatus, pending, queued, delivering, delivered, temporary_failed, bounced,
}
use mail_server_client.Storage.Actors.{
  is_delivering, is_held, is_ready_status, is_ready, queue_where, queue_set, claim_where, claim_set,
  delivering_where, delivered_set, temporary_failed_set, terminal_set,
}

-- The moves of a delivery status.
pub data StatusStep : Option DeliveryStatus → Option DeliveryStatus → Type 0 where
  same : (s : Option DeliveryStatus) → StatusStep s s
  release : StatusStep (some pending) (some queued)
  requeue : StatusStep (some temporary_failed) (some queued)
  claim : StatusStep (some queued) (some delivering)
  reclaim : StatusStep (some temporary_failed) (some delivering)
  deliver : StatusStep (some delivering) (some delivered)
  postpone : StatusStep (some delivering) (some temporary_failed)
  bounce : StatusStep (some delivering) (some bounced)
  fail : StatusStep (some delivering) (some DeliveryStatus.failed)

-- A row keeps what it is about, and its status moves as above.
pub record ActorStep (a b : Actor) : Type 0 where
  pub same_id : b.id ≡ a.id
  pub same_message : b.message_id ≡ a.message_id
  pub same_email : b.actor_email ≡ a.actor_email
  pub same_type : b.actor_type ≡ a.actor_type
  pub status : StatusStep a.delivery_status b.delivery_status

pub ActorStep-refl : (a : Actor) → ActorStep a a
ActorStep-refl a = record {
  same_id = refl;
  same_message = refl;
  same_email = refl;
  same_type = refl;
  status = same a.delivery_status;
}

from-delivering :
    (s t : Option DeliveryStatus)
    → StatusStep (some delivering) t
    → is_delivering s ≡ true
    → StatusStep s t
unfolding is_delivering
from-delivering (some delivering) t st h = st
from-delivering _ t st h = cc

held-queued : (s : Option DeliveryStatus) → is_held s ≡ true → StatusStep s (some queued)
unfolding is_held
held-queued (some pending) h = release
held-queued (some temporary_failed) h = requeue
held-queued _ h = cc

ready-delivering :
    (now : Bytes) (s : Option DeliveryStatus) (next : Option Bytes)
    → is_ready_status now s next ≡ true
    → StatusStep s (some delivering)
unfolding is_ready_status
ready-delivering now (some queued) next h = claim
ready-delivering now (some temporary_failed) next h = reclaim
ready-delivering now _ next h = cc

pub queue_set-ActorStep : (id : ℕ) (a : Actor) → queue_where id a ≡ true → ActorStep a (queue_set a)
unfolding queue_where queue_set
queue_set-ActorStep id a h = record {
  same_id = refl;
  same_message = refl;
  same_email = refl;
  same_type = refl;
  status = held-queued a.delivery_status (ground arith);
}

pub claim_set-ActorStep :
    (ids : List ℕ) (now : Bytes) (a : Actor)
    → claim_where ids now a ≡ true
    → ActorStep a (claim_set a)
unfolding claim_where claim_set is_ready
claim_set-ActorStep ids now a h = record {
  same_id = refl;
  same_message = refl;
  same_email = refl;
  same_type = refl;
  status = ready-delivering now a.delivery_status a.next_attempt_at (ground arith);
}

module _ (id : ℕ) (a : Actor) (h : delivering_where id a ≡ true) where
  was_delivering : is_delivering a.delivery_status ≡ true
  unfolding delivering_where
  was_delivering = ground arith

  pub delivered_set-ActorStep : (now : Bytes) → ActorStep a (delivered_set now a)
  unfolding delivered_set
  delivered_set-ActorStep now = record {
    same_id = refl;
    same_message = refl;
    same_email = refl;
    same_type = refl;
    status = from-delivering a.delivery_status _ deliver was_delivering;
  }

  pub temporary_failed_set-ActorStep :
      (next last_error : Bytes) → ActorStep a (temporary_failed_set next last_error a)
  unfolding temporary_failed_set
  temporary_failed_set-ActorStep next last_error = record {
    same_id = refl;
    same_message = refl;
    same_email = refl;
    same_type = refl;
    status = from-delivering a.delivery_status _ postpone was_delivering;
  }

  pub terminal_set-ActorStep :
      (status : DeliveryStatus) (last_error : Bytes)
      → StatusStep (some delivering) (some status)
      → ActorStep a (terminal_set status last_error a)
  unfolding terminal_set
  terminal_set-ActorStep status last_error st = record {
    same_id = refl;
    same_message = refl;
    same_email = refl;
    same_type = refl;
    status = from-delivering a.delivery_status _ st was_delivering;
  }

-- ===== src/Storage/Tests.antt =====
-- The theorems on the storage, at concrete inputs.
use mail_server_client.Base.{List, All, refl, false, ◌≡◌, none, some, [], ◌∷◌, codes}
use mail_server_client.Storage.Records.{Actor, DeliveryStatus, to, bcc, bounced}
use mail_server_client.Storage.Database.{Db, statement}
use mail_server_client.Storage.Rows.{RowByRow, select, in_ids, sort_by}
use mail_server_client.Storage.Actors.{
  new_actor, claim_set, claim_ready_recipients, is_ready, is_recipient,
}
use mail_server_client.Storage.Actors.Claims.{is_claimable_again, claim_ready_recipients-exclusive}
use mail_server_client.Storage.Actors.History.{
  claim_some, deliver_one, apply_updates, FinalStays, apply_updates-FinalStays,
}

abbrev delivery_db : Db
delivery_db = record {
  tables = record {
    messages = [];
    actors =
        new_actor 1 1 (codes "a@x") to (some DeliveryStatus.queued)
        ∷ new_actor 2 1 (codes "b@x") bcc (some bounced)
        ∷ [];
    users = [];
    last_message = 1;
    last_actor = 2;
    last_user = 0;
  };
  saved = none;
  faults = [];
  clock = codes "2026-01-01 00:00:00";
}

apply_updates-FinalStays_example :
    RowByRow FinalStays delivery_db.tables.actors
      (apply_updates (claim_some 10 ∷ deliver_one 1 ∷ deliver_one 2 ∷ []) delivery_db).tables.actors
apply_updates-FinalStays_example =
    apply_updates-FinalStays (claim_some 10 ∷ deliver_one 1 ∷ deliver_one 2 ∷ []) delivery_db

abbrev claimed : List Actor
claimed = claim_set (new_actor 1 1 (codes "a@x") to (some DeliveryStatus.queued)) ∷ []

abbrev claimed_db : Db
claimed_db = (claim_ready_recipients 10 delivery_db).1

claim_ready_recipients-exclusive_example :
    All (λ b. is_claimable_again claimed delivery_db.clock b ≡ false) claimed_db.tables.actors
unfolding claim_ready_recipients statement select in_ids sort_by is_ready is_recipient new_actor
claim_ready_recipients-exclusive_example =
    claim_ready_recipients-exclusive 10 delivery_db claimed claimed_db refl

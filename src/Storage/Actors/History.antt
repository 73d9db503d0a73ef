-- ===== src/Storage/Actors/History.antt =====
-- The statements of the delivery queue, in any order and with any faults.
use mail_server_client.Storage.Database.Laws.{statement_cases}
use mail_server_client.Base.{
  ℕ, ◌≡◌, refl, ap, ◌∙◌, Bool, true, false, Option, some, List, [], ◌∷◌, Bytes, ◌==◌, if_elim,
}
use mail_server_client.Storage.Records.{Actor, DeliveryStatus, delivered, bounced}
use mail_server_client.Storage.Database.{Db, Tables, Result, statement, bind_text}
use mail_server_client.Storage.Rows.{
  RowByRow, RowByRow-refl, update_where-RowByRow, RowByRow-map, RowByRow-trans,
}
use mail_server_client.Storage.Actors.{
  queue_actor, change_actors, update_actors, claim_where, claim_set, claim_rows, ready_ids,
  claim_ready_recipients, mark_delivered, mark_temporary_failed, mark_bounced, mark_failed,
}
use mail_server_client.Storage.Actors.Steps.{
  ActorStep, ActorStep-refl, StatusStep, bounce, fail, queue_set-ActorStep, claim_set-ActorStep,
  delivered_set-ActorStep, temporary_failed_set-ActorStep, terminal_set-ActorStep,
}

-- The messages stand, and each row of the actors has kept its place or moved.
pub record Moved (t u : Tables) : Type 0 where
  pub same_messages : u.messages ≡ t.messages
  pub rows : RowByRow ActorStep t.actors u.actors

Moved-refl : (t : Tables) → Moved t t
Moved-refl t = record {
  same_messages = refl;
  rows = RowByRow-refl ActorStep ActorStep-refl t.actors;
}

update_actors-Moved :
    (p : Actor → Bool) (f : Actor → Actor)
    → ((a : Actor) → p a ≡ true → ActorStep a (f a))
    → (t : Tables) → Moved t (update_actors p f t)
unfolding update_actors
update_actors-Moved p f step t = record {
  same_messages = refl;
  rows = update_where-RowByRow ActorStep ActorStep-refl p f step t.actors;
}

module _ (db : Db) where
  change_actors-Moved :
      (p : Actor → Bool) (f : Actor → Actor)
      → ((a : Actor) → p a ≡ true → ActorStep a (f a))
      → Moved db.tables (statement (change_actors p f) db).1.tables
  unfolding change_actors
  change_actors-Moved p f step =
      statement_cases (Moved db.tables) (change_actors p f) db (Moved-refl db.tables) λ a t e.
        let u : update_actors p f db.tables ≡ t = cc in
        rw (← u) (update_actors-Moved p f step db.tables)

  pub queue_actor-Moved : (id : ℕ) → Moved db.tables (queue_actor id db).1.tables
  unfolding queue_actor
  queue_actor-Moved id = change_actors-Moved _ _ (queue_set-ActorStep id)

  pub mark_delivered-Moved : (id : ℕ) → Moved db.tables (mark_delivered id db).1.tables
  unfolding mark_delivered
  mark_delivered-Moved id = change_actors-Moved _ _ (λ a h. delivered_set-ActorStep id a h db.clock)

  pub mark_temporary_failed-Moved :
      (id : ℕ) (next last_error : Bytes)
      → Moved db.tables (mark_temporary_failed id next last_error db).1.tables
  unfolding mark_temporary_failed
  mark_temporary_failed-Moved id next last_error =
      change_actors-Moved _ _
        (λ a h. temporary_failed_set-ActorStep id a h (bind_text next) (bind_text last_error))

  pub mark_bounced-Moved :
      (id : ℕ) (last_error : Bytes) → Moved db.tables (mark_bounced id last_error db).1.tables
  unfolding mark_bounced
  mark_bounced-Moved id last_error =
      change_actors-Moved _ _
        (λ a h. terminal_set-ActorStep id a h bounced (bind_text last_error) bounce)

  pub mark_failed-Moved :
      (id : ℕ) (last_error : Bytes) → Moved db.tables (mark_failed id last_error db).1.tables
  unfolding mark_failed
  mark_failed-Moved id last_error =
      change_actors-Moved _ _
        (λ a h. terminal_set-ActorStep id a h DeliveryStatus.failed (bind_text last_error) fail)

  pub claim_ready_recipients-Moved :
      (limit : ℕ) → Moved db.tables (claim_ready_recipients limit db).1.tables
  unfolding claim_ready_recipients claim_rows
  claim_ready_recipients-Moved limit =
      if_elim (λ (x : Result (List Actor) × Db). Moved db.tables x.1.tables) (limit == 0) _ _
        (λ _. Moved-refl db.tables)
        (λ _.
          statement_cases (Moved db.tables) (claim_rows limit db.clock) db (Moved-refl db.tables)
            λ a t e.
              let p = claim_where (ready_ids limit db.clock db.tables.actors) db.clock in
              let u : update_actors p claim_set db.tables ≡ t = cc in
              rw (← u) (
                update_actors-Moved p claim_set
                  (claim_set-ActorStep (ready_ids limit db.clock db.tables.actors) db.clock)
                  db.tables))

-- The statements that move recipients.
pub data Update : Type 0 where
  queue_one claim_some deliver_one : ℕ → Update
  postpone_one : ℕ → Bytes → Bytes → Update
  bounce_one fail_one : ℕ → Bytes → Update

pub apply_update : Update → Db → Db
apply_update (queue_one id) db = (queue_actor id db).1
apply_update (claim_some limit) db = (claim_ready_recipients limit db).1
apply_update (deliver_one id) db = (mark_delivered id db).1
apply_update (postpone_one id next last_error) db = (mark_temporary_failed id next last_error db).1
apply_update (bounce_one id last_error) db = (mark_bounced id last_error db).1
apply_update (fail_one id last_error) db = (mark_failed id last_error db).1

pub apply_updates : List Update → Db → Db
unfolding apply_update
apply_updates [] db = db
apply_updates (u ∷ us) db = apply_updates us (apply_update u db)

-- Every statement of the delivery queue, whether or not it fails, keeps each row's recipient and
-- moves its delivery status along one of the arrows of `StatusStep`, or leaves it.
pub apply_update-Moved : (u : Update) (db : Db) → Moved db.tables (apply_update u db).tables
unfolding apply_update
apply_update-Moved (queue_one id) db = queue_actor-Moved db id
apply_update-Moved (claim_some limit) db = claim_ready_recipients-Moved db limit
apply_update-Moved (deliver_one id) db = mark_delivered-Moved db id
apply_update-Moved (postpone_one id next e) db = mark_temporary_failed-Moved db id next e
apply_update-Moved (bounce_one id e) db = mark_bounced-Moved db id e
apply_update-Moved (fail_one id e) db = mark_failed-Moved db id e

-- delivered, bounced and failed
pub is_final : Option DeliveryStatus → Bool
is_final (some delivered) = true
is_final (some bounced) = true
is_final (some DeliveryStatus.failed) = true
is_final _ = false

-- A row that was final has the status that it had.
pub FinalStays : Actor → Actor → Type 0
FinalStays a b = is_final a.delivery_status ≡ true → b.delivery_status ≡ a.delivery_status

StatusStep-final : {s t : Option DeliveryStatus} → StatusStep s t → is_final s ≡ true → t ≡ s
unfolding is_final
StatusStep-final (StatusStep.same s) h = refl
StatusStep-final _ h = cc

FinalStays-trans : (a b c : Actor) → FinalStays a b → FinalStays b c → FinalStays a c
unfolding FinalStays
FinalStays-trans a b c f g h = g (ap is_final (f h) ∙ h) ∙ f h

-- Through any sequence of the six statements that move recipients (queue, claim, delivered, temporary
-- failure, bounced, failed) and any faults, a recipient that was delivered, bounced or failed stays so.
pub apply_updates-FinalStays :
    (us : List Update) (db : Db)
    → RowByRow FinalStays db.tables.actors (apply_updates us db).tables.actors
unfolding apply_updates FinalStays
apply_updates-FinalStays [] db = RowByRow-refl FinalStays (λ a h. refl) db.tables.actors
apply_updates-FinalStays (u ∷ us) db =
    RowByRow-trans FinalStays FinalStays-trans _ _ _
      (RowByRow-map ActorStep FinalStays (λ a b s h. StatusStep-final s.status h) _ _
        (apply_update-Moved u db).rows)
      (apply_updates-FinalStays us (apply_update u db))

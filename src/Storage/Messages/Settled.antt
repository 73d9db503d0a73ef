-- ===== src/Storage/Messages/Settled.antt =====
-- The status of a message and those of its recipients, through the statements of the delivery queue.
use mail_server_client.Base.{
  ℕ, ◌≡◌, refl, ◌∙◌, All-map, Bool, true, false, ◌&&◌, ◌||◌, Option, List, [], ◌∷◌, ◌==◌, arith,
  All, Bool-cases, inl, inr,
}
use mail_server_client.Storage.Records.{
  Actor, Message, MessageStatus, sending, sent, DeliveryStatus,
}
use mail_server_client.Storage.Database.{Db, Query, Tables, Result, ok, err, ◌>>=◌, pure, after}
use mail_server_client.Storage.Database.Laws.{statement_cases}
use mail_server_client.Storage.Rows.{exists_where, update_where, RowByRow, RowByRow-refl}
use mail_server_client.Storage.Actors.{is_recipient}
use mail_server_client.Storage.Actors.Steps.{StatusStep, ActorStep, ActorStep-refl}
use mail_server_client.Storage.Actors.History.{Moved}
use mail_server_client.Storage.Messages.{
  is_open, is_delivered, any_open, any_delivered, finalize_where, finalize_set, finalize_delivery,
  update_status, change_messages, update_messages, status_is,
}

-- A message that is sent has a recipient who got it, one that has failed has none, and neither has a
-- recipient whose delivery is open.
pub record Agrees (t : Tables) (m : Message) : Type 0 where
  pub sent_to_some :
      m.message_status ≡ sent → (any_open m.id t ≡ false) × (any_delivered m.id t ≡ true)
  pub failed_for_all :
      m.message_status ≡ MessageStatus.failed
      → (any_open m.id t ≡ false) × (any_delivered m.id t ≡ false)

abbrev pub Settled : Tables → Type 0
Settled t = All (Agrees t) t.messages

-- Where the delivery to a recipient is not open, no statement of the queue moves it.
closed_step :
    (g : Bool) {s t : Option DeliveryStatus}
    → StatusStep s t
    → (g && is_open s) ≡ false
    → ((g && is_open t) ≡ false) × ((g && is_delivered t) ≡ (g && is_delivered s))
unfolding is_open is_delivered
closed_step g (StatusStep.same s) h = (h, refl)
closed_step g _ h = ground arith

or_parts : (b c : Bool) → (b || c) ≡ false → (b ≡ false) × (c ≡ false)
or_parts b c h = ground arith

closed_rows :
    (id : ℕ) (xs ys : List Actor)
    → RowByRow ActorStep xs ys
    → exists_where
        (λ (a : Actor).
          a.message_id == id && is_recipient a.actor_type && is_open a.delivery_status)
        xs
      ≡ false
    → (exists_where
          (λ (a : Actor).
            a.message_id == id && is_recipient a.actor_type && is_open a.delivery_status)
          ys
        ≡ false)
      × (exists_where
            (λ (a : Actor).
              a.message_id == id && is_recipient a.actor_type && is_delivered a.delivery_status)
            ys
          ≡ exists_where
              (λ (a : Actor).
                a.message_id == id && is_recipient a.actor_type && is_delivered a.delivery_status)
              xs)
unfolding exists_where
closed_rows id [] [] r h = (refl, refl)
closed_rows id [] (y ∷ ys) r h = absurd r
closed_rows id (x ∷ xs) [] r h = absurd r
closed_rows id (x ∷ xs) (y ∷ ys) (s, r) h =
    let (first, others) = or_parts _ _ h in
    let (o, d) = closed_rows id xs ys r others in
    let c = closed_step (x.message_id == id && is_recipient x.actor_type) s.status first in
    rw (s.same_message, s.same_type) (ground (arith, c, o, d))

rows-Agrees :
    (t u : Tables) (m : Message) → RowByRow ActorStep t.actors u.actors → Agrees t m → Agrees u m
rows-Agrees t u m r a = record {
  sent_to_some = λ e.
      let (none_open, got) = a.sent_to_some e in
      let (still, same) = closed_rows m.id t.actors u.actors r none_open in (still, same ∙ got);
  failed_for_all = λ e.
      let (none_open, got) = a.failed_for_all e in
      let (still, same) = closed_rows m.id t.actors u.actors r none_open in (still, same ∙ got);
}

All-of-same : {A : Type 0} (P : A → Type 0) (xs ys : List A) → ys ≡ xs → All P xs → All P ys
All-of-same P xs ys e h = rw e h

Moved-Settled : (t u : Tables) → Moved t u → Settled t → Settled u
Moved-Settled t u v h =
    All-of-same (Agrees u) t.messages u.messages v.same_messages
      (All-map (Agrees t) (Agrees u) (λ m. rows-Agrees t u m v.rows) t.messages h)

update_where-All :
    {A : Type 0} (P : A → Type 0) (p : A → Bool) (f : A → A)
    → ((x : A) → p x ≡ true → P x → P (f x))
    → (xs : List A) → All P xs
    → All P (update_where p f xs)
unfolding update_where
update_where-All P p f h [] a = tt
update_where-All P p f h (x ∷ xs) a = elim (Bool-cases (p x)) [
  | inl e ↦ (rw e (h x e a.0), update_where-All P p f h xs a.1)
  | inr e ↦ (rw e a.0, update_where-All P p f h xs a.1)
]

update_messages-Settled :
    (p : Message → Bool) (f : Message → Message) (t : Tables)
    → ((m : Message) → p m ≡ true → Agrees t m → Agrees t (f m))
    → Settled t
    → Settled (update_messages p f t)
unfolding update_messages
update_messages-Settled p f t k h =
    All-map (Agrees t) (Agrees (update_messages p f t))
      (λ m. rows-Agrees t _ m (RowByRow-refl ActorStep ActorStep-refl t.actors)) _
      (update_where-All (Agrees t) p f k t.messages h)

finalize_set-Agrees :
    (id : ℕ) (t : Tables) (m : Message)
    → finalize_where id t m ≡ true
    → Agrees t (finalize_set id t m)
unfolding finalize_where finalize_set
finalize_set-Agrees id t m h =
    let n : m.id ≡ id = ground arith in
    let closed : any_open id t ≡ false = ground arith in
    elim (Bool-cases (any_delivered id t)) [
      | inl e ↦ record {
        sent_to_some = λ s. rw n (closed, e);
        failed_for_all = λ s. let g : sent ≡ MessageStatus.failed = rw e at s in cc;
      }
      | inr e ↦ record {
        sent_to_some = λ s. let g : MessageStatus.failed ≡ sent = rw e at s in cc;
        failed_for_all = λ s. rw n (closed, e);
      }
    ]

-- A query that keeps the agreement, whether or not SQLite carries out its statements.
pub record KeepsSettled {A : Type 0} (m : Query A) : Type 0 where
  pub at : (db : Db) → Settled db.tables → Settled (m db).1.tables

pub Moved-KeepsSettled :
    {A : Type 0} (m : Query A) → ((db : Db) → Moved db.tables (m db).1.tables) → KeepsSettled m
Moved-KeepsSettled m v = record { at = λ db h. Moved-Settled _ _ (v db) h }

pub pure-KeepsSettled : {A : Type 0} (a : A) → KeepsSettled (pure a)
pure-KeepsSettled a = record { at = λ db h. h }

module _ {A B : Type 0} (m : Query A) (f : A → Query B) where
  Settled-after :
      (r : Result A) (db : Db)
      → ((a : A) → KeepsSettled (f a))
      → Settled db.tables
      → Settled (after r f db).1.tables
  Settled-after (ok a) db k h = (k a).at db h
  Settled-after (err e) db k h = h

  pub bind-KeepsSettled : KeepsSettled m → ((a : A) → KeepsSettled (f a)) → KeepsSettled (m >>= f)
  bind-KeepsSettled k g = record { at = λ db h. Settled-after (m db).0 (m db).1 g (k.at db h) }

pub finalize_delivery-KeepsSettled : (id : ℕ) → KeepsSettled (finalize_delivery id)
unfolding finalize_delivery change_messages
finalize_delivery-KeepsSettled id = record {
  at = λ db h. statement_cases Settled _ db h λ a t e.
      let u : update_messages (finalize_where id db.tables) (finalize_set id db.tables) db.tables
          ≡ t =
        cc in
      rw (← u)
        (update_messages-Settled _ _ db.tables (λ m p g. finalize_set-Agrees id db.tables m p) h);
}

pub mark_sending-KeepsSettled :
    (id : ℕ) → KeepsSettled (update_status id MessageStatus.queued sending)
unfolding update_status change_messages
mark_sending-KeepsSettled id = record {
  at = λ db h. statement_cases Settled _ db h λ a t e.
      let u : update_messages (λ m. m.id == id && status_is m.message_status MessageStatus.queued)
            (λ m. record m { message_status = sending }) db.tables
          ≡ t =
        cc in
      rw (← u) (
        update_messages-Settled _ _ db.tables
          (λ m p g. record { sent_to_some = λ s. cc; failed_for_all = λ s. cc }) h);
}

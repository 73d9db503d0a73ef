-- ===== src/Smtp/Session/Order.antt =====
-- The server loop pushes events and hands out tasks while a worker of the thread pool runs one: every
-- interleaving of the two, as a sequence of steps. The loop writes the queue and the worker the
-- state, so a task is one step, at its end.
use mail_server_client.Base.{
  ℕ, ◌≡◌, refl, sym, ◌∙◌, Bool, true, false, not, ◌&&◌, Option, none, some, List, [], ◌∷◌, ◌++◌,
  append_assoc, append-nil, is_empty, arith, guarded,
}
use mail_server_client.Smtp.State.{Event, Context, World}
use mail_server_client.Smtp.Protocol.Invariant.{Inv, initial_state-Inv}
use mail_server_client.Smtp.Protocol.Keeps.{handle_event-Inv}
use mail_server_client.Smtp.Session.{
  Session, new_session, push_event, extract_from, try_extract_next_task, is_ready_for_removal,
  process_event,
}

-- A session with the task that runs, and the events pushed and handled so far, oldest first.
pub record Running : Type 0 where
  pub session : Session
  pub task : Option Event
  pub pushed : List Event
  pub handled : List Event

abbrev pub created : ℕ → Running
created id = record { session = new_session id; task = none; pushed = []; handled = [] }

pub data Step (ctx : Context) : Running → Running → Type 0 where
  push :
      (y : Running) (e : Event)
      → Step ctx y (record y { session = push_event e y.session; pushed = y.pushed ++ e ∷ [] })
  start :
      (y : Running) (e : Event) (s : Session)
      → try_extract_next_task y.session ≡ some (e, s)
      → Step ctx y (record y { session = s; task = some e })
  finish :
      (y : Running) (e : Event) (w : World)
      → y.task ≡ some e
      → Step ctx y (record y {
        session = (process_event ctx e y.session w).0;
        task = none;
        handled = y.handled ++ e ∷ [];
      })

pub data Reach (ctx : Context) (y : Running) : Running → Type 0 where
  here : Reach ctx y y
  next : {z u : Running} → Reach ctx y z → Step ctx z u → Reach ctx y u

abbrev pub in_task : Option Event → List Event
in_task none = []
in_task (some e) = e ∷ []

abbrev pub runs : Option Event → Bool
runs none = false
runs (some e) = true

pub record IsOrdered (y : Running) : Type 0 where
  pub busy : y.session.is_processing ≡ runs y.task
  pub order : y.pushed ≡ y.handled ++ (in_task y.task ++ y.session.events)

-- What a task that is handed out leaves in the session.
record Extracted (s t : Session) (e : Event) : Type 0 where
  was_free : s.is_processing ≡ false
  first : s.events ≡ e ∷ t.events
  now_busy : t.is_processing ≡ true
  same_state : t.state ≡ s.state

extract_from-Extracted :
    (events : List Event) (s t : Session) (e : Event)
    → s.events ≡ events
    → s.is_processing ≡ false
    → extract_from events s ≡ some (e, t)
    → Extracted s t e
unfolding extract_from
extract_from-Extracted [] s t e p q h = cc
extract_from-Extracted (x ∷ rest) s t e p q h = record {
  was_free = q;
  first = ground arith;
  now_busy = ground arith;
  same_state = ground arith;
}

try_extract-Extracted :
    (s t : Session) (e : Event) → try_extract_next_task s ≡ some (e, t) → Extracted s t e
unfolding try_extract_next_task
try_extract-Extracted s t e h =
    let (b, g) = guarded s.is_processing (extract_from s.events s) (e, t) h in
    extract_from-Extracted s.events s t e refl b g

idle-in_task : (task : Option Event) → runs task ≡ false → in_task task ≡ []
idle-in_task none h = refl
idle-in_task (some e) h = cc

Step-IsOrdered : (ctx : Context) {y z : Running} → Step ctx y z → IsOrdered y → IsOrdered z
unfolding push_event process_event
Step-IsOrdered ctx (push y e) o = record { busy = o.busy; order = rw o.order (simp append_assoc) }
Step-IsOrdered ctx (start y e s h) o =
    let x = try_extract-Extracted y.session s e h in
    record {
      busy = x.now_busy;
      order = o.order ∙ rw (idle-in_task y.task (sym o.busy ∙ x.was_free), x.first) refl;
    }
Step-IsOrdered ctx (finish y e w h) o = record {
  busy = refl;
  order = o.order ∙ rw h (sym (append_assoc y.handled (e ∷ []) y.session.events));
}

created-IsOrdered : (id : ℕ) → IsOrdered (created id)
unfolding new_session
created-IsOrdered id = record { busy = refl; order = refl }

-- In every interleaving at most one event of a session is being handled, and the events come to the
-- handler one by one in the order in which they were pushed: none is lost, doubled or overtaken.
pub Reach-IsOrdered :
    (ctx : Context) (id : ℕ) {y : Running} → Reach ctx (created id) y → IsOrdered y
Reach-IsOrdered ctx id here = created-IsOrdered id
Reach-IsOrdered ctx id (next r step) = Step-IsOrdered ctx step (Reach-IsOrdered ctx id r)

ready_parts : (a b c : Bool) → (a && not b && c) ≡ true → (a ≡ true) × (b ≡ false) × (c ≡ true)
ready_parts a b c h = ground arith

is_empty-nil {ℓ} : {A : Type ℓ} (xs : List A) → is_empty xs ≡ true → xs ≡ []
is_empty-nil [] h = refl
is_empty-nil (x ∷ xs) h = cc

-- A session that the server may remove is closed, has no task that runs, and has handled every event
-- that was pushed.
pub removal_loses_nothing :
    (ctx : Context) (id : ℕ) {y : Running}
    → Reach ctx (created id) y
    → is_ready_for_removal y.session ≡ true
    → (y.session.is_closed ≡ true) × (runs y.task ≡ false) × (y.handled ≡ y.pushed)
unfolding is_ready_for_removal
removal_loses_nothing ctx id {y} r h =
    let o = Reach-IsOrdered ctx id r in
    let (closed, free, none_left) =
      ready_parts y.session.is_closed y.session.is_processing (is_empty y.session.events) h in
    let idle = sym o.busy ∙ free in
    (
      closed,
      idle,
      sym (
          o.order
          ∙ rw (idle-in_task y.task idle, is_empty-nil y.session.events none_left)
              (append-nil y.handled)),
    )

Step-Inv :
    (ctx : Context) {y z : Running}
    → Step ctx y z
    → Inv ctx y.session.state
    → Inv ctx z.session.state
unfolding push_event process_event
Step-Inv ctx (push y e) v = v
Step-Inv ctx (start y e s h) v = rw (try_extract-Extracted y.session s e h).same_state v
Step-Inv ctx (finish y e w h) v = handle_event-Inv ctx y.session.state w e v

-- In every interleaving of the server loop and a worker, and whatever the database does, the state of
-- the session satisfies the invariant of the protocol, from its creation on.
pub Reach-Inv :
    (ctx : Context) (id : ℕ) {y : Running} → Reach ctx (created id) y → Inv ctx y.session.state
unfolding new_session
Reach-Inv ctx id here = initial_state-Inv ctx id
Reach-Inv ctx id (next r step) = Step-Inv ctx step (Reach-Inv ctx id r)

-- ===== src/Smtp/Server.antt =====
-- `SmtpServer`, apps/smtp-server/src/smtp/Server.cpp. The unordered map of sessions is the list of its
-- pairs, in the order in which they came; the thread pool takes every task of a session.
pub mod Table
pub mod Routing
pub mod Bounds
use mail_server_client.Base.{
  ℕ, Bool, true, false, not, Option, none, some, List, [], ◌∷◌, ◌++◌, Bytes, codes, length, ltb,
  ◌==◌, if◌then◌else◌,
}
use mail_server_client.Storage.Records.{Actor}
use mail_server_client.Storage.Database.{Db, Exception}
use mail_server_client.Smtp.Config.{ServerConfig}
use mail_server_client.Smtp.State.{Event, World, close, call}
use mail_server_client.Smtp.Session.{
  Session, new_session, push_event, try_extract_next_task, is_ready_for_removal, is_disconnected,
}
use mail_server_client.Smtp.Dispatcher.{Handed, poll}

abbrev pub Sessions : Type 0
Sessions = List (ℕ × Session)

-- sessions_.find
unfoldable pub find_session : ℕ → Sessions → Option Session
find_session id [] = none
find_session id ((key, s) ∷ rest) = if key == id then some s else find_session id rest

-- Every session, changed in its place.
unfoldable pub each : (ℕ → Session → Session) → Sessions → Sessions
each f [] = []
each f ((key, s) ∷ rest) = (key, f key s) ∷ each f rest

-- existing->second->PushEvent(event)
unfoldable pub push_if : Event → ℕ → Session → Session
unfolding push_event
push_if event key s = if key == event.connection_id then push_event event s else s

abbrev pub refuse_connection : ℕ → World → World
refuse_connection id w =
    call (close id) (record w { log = w.log ++ codes "SMTP connection limit reached" ∷ [] })

-- RouteEvent for a connection without a session
unfoldable pub route_new : ServerConfig → Event → Sessions → World → Sessions × World
unfolding is_disconnected call new_session push_event
route_new config event sessions w =
    if is_disconnected event.type
    then (sessions, w)
    else if not (ltb (length sessions) config.max_connections)
    then (sessions, refuse_connection event.connection_id w)
    else (
      sessions ++ (event.connection_id, push_event event (new_session event.connection_id)) ∷ [],
      w,
    )

unfoldable pub route_event : ServerConfig → Event → Sessions → World → Sessions × World
unfolding find_session each push_if route_new
route_event config event sessions w = elim (find_session event.connection_id sessions) [
  | some s ↦ (each (push_if event) sessions, w)
  | none ↦ route_new config event sessions w
]

unfoldable pub route_events : ServerConfig → List Event → Sessions → World → Sessions × World
unfolding route_event
route_events config [] sessions w = (sessions, w)
route_events config (event ∷ events) sessions w =
    let (routed, w') = route_event config event sessions w in route_events config events routed w'

-- The session behind TryExtractNextTask, and its task.
unfoldable pub scheduled : ℕ → Session → Session
unfolding try_extract_next_task
scheduled key s = elim (try_extract_next_task s) [ none ↦ s | some (event, t) ↦ t ]

unfoldable pub ready_tasks : Sessions → List (ℕ × Event)
unfolding try_extract_next_task
ready_tasks [] = []
ready_tasks ((key, s) ∷ rest) =
    let tasks = ready_tasks rest in
    elim (try_extract_next_task s) [ none ↦ tasks | some (event, t) ↦ (key, event) ∷ tasks ]

unfoldable pub remove_closed_sessions : Sessions → Sessions
unfolding is_ready_for_removal
remove_closed_sessions [] = []
remove_closed_sessions ((key, s) ∷ rest) =
    let kept = remove_closed_sessions rest in
    if is_ready_for_removal s then kept else (key, s) ∷ kept

-- What an iteration leaves: the sessions, the tasks handed out for them and for deliveries, and the
-- exception that left the poll, with which the iteration ends there.
pub record Iteration : Type 0 where
  pub sessions : Sessions
  pub world : World
  pub next_poll : ℕ
  pub tasks : List (ℕ × Event)
  pub deliveries : List Actor
  pub thrown : Option Exception

unfoldable pub after_poll : Sessions → World → ℕ → Handed → Iteration
unfolding each scheduled ready_tasks remove_closed_sessions
after_poll sessions w next_poll h =
    let w' = record w { db = h.db } in
    elim h.thrown [
      | some e ↦ record {
        sessions = sessions;
        world = w';
        next_poll = next_poll;
        tasks = [];
        deliveries = h.enqueued;
        thrown = some e;
      }
      | none ↦ record {
        sessions = remove_closed_sessions (each scheduled sessions);
        world = w';
        next_poll = next_poll;
        tasks = ready_tasks sessions;
        deliveries = h.enqueued;
        thrown = none;
      }
    ]

-- RunOnce, with the events that PollEvents gives, the thread pool's answers, and the time.
unfoldable pub run_once :
    ServerConfig → (Actor → Option Exception) → List Event → ℕ → ℕ → Sessions → World → Iteration
unfolding route_events after_poll
run_once config enqueue events now next_poll sessions w =
    let (routed, w') = route_events config events sessions w in
    let (later, h) = poll config.delivery enqueue now next_poll w'.db in
    after_poll routed w' later h

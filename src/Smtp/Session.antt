-- ===== src/Smtp/Session.antt =====
-- `SmtpSession`, apps/smtp-server/src/smtp/Session.cpp: the queue of events of one connection, of
-- which one at a time is a task of the thread pool.
pub mod Order
use mail_server_client.Base.{
  ℕ, Bool, true, false, not, ◌&&◌, ◌||◌, Option, none, some, List, [], ◌∷◌, ◌++◌, Bytes, codes,
  is_empty, if◌then◌else◌,
}
use mail_server_client.Storage.Database.{Exception, std_exception, other_exception}
use mail_server_client.Smtp.State.{
  Event, EventType, connected, message_received, tls_succeeded, tls_failed, disconnected,
  SessionState, Phase, closing, closed, initial_state, Context, World, Outcome, close, resume, call,
}
use mail_server_client.Smtp.Handler.{handle_event}
use mail_server_client.Smtp.Handler.Transaction.{is_ending}

pub record Session : Type 0 where
  pub state : SessionState
  pub events : List Event
  pub is_processing : Bool
  pub is_closed : Bool

unfoldable pub new_session : ℕ → Session
new_session connection_id = record {
  state = initial_state connection_id;
  events = [];
  is_processing = false;
  is_closed = false;
}

unfoldable pub push_event : Event → Session → Session
push_event event s = record s { events = s.events ++ event ∷ [] }

-- The event whose task is handed out, if there is one.
unfoldable pub extract_from : List Event → Session → Option (Event × Session)
extract_from [] s = none
extract_from (event ∷ rest) s = some (event, record s { events = rest; is_processing = true })

unfoldable pub try_extract_next_task : Session → Option (Event × Session)
unfolding extract_from
try_extract_next_task s = if s.is_processing then none else extract_from s.events s

unfoldable pub is_ready_for_removal : Session → Bool
is_ready_for_removal s = s.is_closed && not s.is_processing && is_empty s.events

unfoldable pub is_disconnected : EventType → Bool
is_disconnected disconnected = true
is_disconnected _ = false

unfoldable pub is_closed_phase : Phase → Bool
is_closed_phase closed = true
is_closed_phase _ = false

-- exception.what(), or the text for an exception of another type
unfoldable pub what : Exception → Bytes
what (std_exception text) = text
what other_exception = codes "Unhandled SMTP session error"

-- catch: the error is logged and the connection is closed
unfoldable pub after_throw : ℕ → Option Exception → World → World
unfolding call what
after_throw connection_id none w = w
after_throw connection_id (some e) w =
    call (close connection_id) (record w { log = w.log ++ what e ∷ [] })

unfoldable pub finish_event : Event → Session → Outcome → Session × World
unfolding is_disconnected is_closed_phase is_ending after_throw call
finish_event event s o =
    let w = after_throw s.state.connection_id o.thrown o.world in
    let done = is_disconnected event.type in
    (
      record s {
        state = o.state;
        is_closed = s.is_closed || done || is_closed_phase o.state.phase;
        is_processing = false;
      },
      if not done && not (is_ending o.state.phase)
          then call (resume s.state.connection_id) w
          else w,
    )

-- ProcessEvent
unfoldable pub process_event : Context → Event → Session → World → Session × World
unfolding finish_event
process_event ctx event s w = finish_event event s (handle_event ctx event s.state w)

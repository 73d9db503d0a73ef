-- ===== src/Smtp/Tests/Sessions.antt =====
-- Sessions: their lines, their events, and a whole transaction.
use mail_server_client.Base.{
  ◌≡◌, refl, true, false, none, some, [], ◌∷◌, codes, All, is_space, arith, map,
}
use mail_server_client.Smtp.Text.Trim.{IsTrimmed}
use mail_server_client.Smtp.State.{
  Event, SessionState, initial_state, disconnected, receiving_message, mail_transaction,
  ready_for_mail, returned,
}
use mail_server_client.Smtp.Handler.{handle_event}
use mail_server_client.Smtp.Handler.Greeting.{is_receiving}
use mail_server_client.Smtp.Protocol.Invariant.{Inv, initial_state-Inv}
use mail_server_client.Smtp.Protocol.Keeps.{handle_event-Inv}
use mail_server_client.Smtp.Protocol.Conversation.{run_lines}
use mail_server_client.Smtp.Protocol.Body.{stuff, text_of, with_text, run_lines-stuff}
use mail_server_client.Smtp.Protocol.Envelope.{IsWaiting, IsPath}
use mail_server_client.Smtp.Protocol.Transfer.{transfer, Stored, transfer-Stored}
use mail_server_client.Smtp.Session.{
  Session, new_session, push_event, try_extract_next_task, extract_from, is_ready_for_removal,
  process_event,
}
use mail_server_client.Smtp.Session.Order.{
  Running, created, push, start, finish, Reach, here, next, runs, IsOrdered, Reach-IsOrdered,
  removal_loses_nothing, Reach-Inv,
}
use mail_server_client.Smtp.Tests.Fixtures.{alice, bob, lines, context, world, line_event}

abbrev greeted : SessionState
greeted = record (initial_state 7) { phase = ready_for_mail; client_name = codes "client" }

abbrev naming : SessionState
naming = record greeted { phase = mail_transaction; sender = alice }

abbrev writing : SessionState
writing = record naming { phase = receiving_message; recipients = bob ∷ [] }

alice-IsPath : IsPath alice
alice-IsPath = record { named = refl; no_space = ground arith }

bob-IsPath : IsPath bob
bob-IsPath = record { named = refl; no_space = ground arith }

greeted-IsWaiting : IsWaiting greeted
unfolding is_receiving
greeted-IsWaiting = record { stage = refl; phase = refl }

lines-IsTrimmed : All IsTrimmed lines
unfolding is_space
lines-IsTrimmed = (
  record { front = refl; back = refl },
  (
    record { front = tt; back = tt },
    (record { front = refl; back = refl }, (record { front = refl; back = refl }, tt)),
  ),
)

transfer-Stored_example :
    Stored alice
      (bob ∷ alice ∷ [])
      lines
      world.db
      (run_lines context (transfer alice (bob ∷ alice ∷ []) lines) greeted world)
unfolding text_of
transfer-Stored_example =
    transfer-Stored context greeted alice (bob ∷ alice ∷ []) lines world
      (record {
        waiting = greeted-IsWaiting;
        allowed = refl;
        sender_path = alice-IsPath;
        recipient_paths = (bob-IsPath, (alice-IsPath, tt));
        some_recipient = refl;
        trimmed = lines-IsTrimmed;
        fits = omega arith;
      })
      refl refl

handle_event-Inv_example :
    Inv context (handle_event context (line_event (codes "EHLO x")) (initial_state 7) world).state
handle_event-Inv_example =
    handle_event-Inv context (initial_state 7) world (line_event (codes "EHLO x"))
      (initial_state-Inv context 7)

run_lines-stuff_example :
    run_lines context (map stuff lines) writing world
    ≡ returned (with_text (text_of lines) writing) world
unfolding text_of
run_lines-stuff_example =
    run_lines-stuff context lines writing world (record { phase = refl; stage = refl })
      lines-IsTrimmed (omega arith)

-- The client goes away, and that event is handled.
abbrev gone : Event
gone = record { type = disconnected; connection_id = 7; payload = [] }

abbrev taken : Session
taken = record (new_session 7) { is_processing = true }

abbrev pushed_one : Running
pushed_one = record (created 7) { session = push_event gone (new_session 7); pushed = gone ∷ [] }

abbrev started_one : Running
started_one = record pushed_one { session = taken; task = some gone }

abbrev finished_one : Running
finished_one = record started_one {
  session = (process_event context gone taken world).0;
  task = none;
  handled = gone ∷ [];
}

finished_one-Reach : Reach context (created 7) finished_one
unfolding try_extract_next_task extract_from push_event new_session
finished_one-Reach =
    next (next (next here (push (created 7) gone)) (start pushed_one gone taken refl))
      (finish started_one gone world refl)

Reach-IsOrdered_example : IsOrdered finished_one
Reach-IsOrdered_example = Reach-IsOrdered context 7 finished_one-Reach

Reach-Inv_example : Inv context finished_one.session.state
Reach-Inv_example = Reach-Inv context 7 finished_one-Reach

removal_loses_nothing_example :
    (finished_one.session.is_closed ≡ true) × (runs none ≡ false) × (gone ∷ [] ≡ gone ∷ [])
unfolding is_ready_for_removal process_event handle_event new_session
removal_loses_nothing_example = removal_loses_nothing context 7 finished_one-Reach refl

-- ===== src/Smtp/Tests/Queue.antt =====
-- The delivery queue and the loop of the server.
use mail_server_client.Base.{
  ◌≡◌, refl, none, some, [], ◌∷◌, ◌++◌, codes, arith, Option, ◌==◌, if◌then◌else◌,
}
use mail_server_client.Storage.Records.{
  Actor, Message, User, to, delivering, sending, active, DeliveryStatus, MessageStatus,
}
use mail_server_client.Storage.Database.{Exception, std_exception, Db}
use mail_server_client.Storage.Actors.{new_actor}
use mail_server_client.Storage.Messages.Settled.{Settled}
use mail_server_client.Smtp.Config.{default_server}
use mail_server_client.Smtp.State.{World}
use mail_server_client.Smtp.Dispatcher.{deliver, poll}
use mail_server_client.Smtp.Dispatcher.Agreement.{deliver-Settled, poll-Settled}
use mail_server_client.Smtp.Dispatcher.Delivery.{NoneDelivering, deliver-NoneDelivering}
use mail_server_client.Smtp.Server.{Sessions, find_session, route_event, run_once}
use mail_server_client.Smtp.Server.Routing.{route_event-existing}
use mail_server_client.Smtp.Session.{new_session}
use mail_server_client.Smtp.Server.Bounds.{WellKept, run_once-WellKept}
use mail_server_client.Smtp.Tests.Fixtures.{
  db, bob, empty_tables, locked, world, connection, line_event,
}

abbrev letter : Message
letter = record {
  id = 1;
  subject = none;
  body = codes "hi";
  reply_to_message_id = none;
  created_at = db.clock;
  message_status = sending;
}

abbrev recipient : Actor
recipient = new_actor 1 1 bob to (some delivering)

abbrev local_user : User
local_user = record {
  id = 1;
  username = codes "bob";
  email = bob;
  password_hash = [];
  status = active;
  created_at = db.clock;
}

-- The search for the user fails.
abbrev sending_world : World
sending_world = record world {
  db = record db {
    tables = record empty_tables {
      messages = letter ∷ [];
      actors = recipient ∷ [];
      users = local_user ∷ [];
      last_message = 1;
      last_actor = 1;
      last_user = 1;
    };
    faults = some locked ∷ [];
  };
}

abbrev pool_stops : Actor → Option Exception
pool_stops r = some (std_exception (codes "ThreadPool is stopping"))

sending_world-Settled : Settled sending_world.db.tables
sending_world-Settled = (record { sent_to_some = λ e. cc; failed_for_all = λ e. cc }, tt)

deliver-Settled_example : Settled (deliver recipient sending_world).db.tables
deliver-Settled_example = deliver-Settled recipient sending_world sending_world-Settled

-- A recipient that is due is claimed, and the pool refuses its delivery.
abbrev waiting_db : Db
waiting_db = record db {
  tables = record empty_tables {
    messages = record letter { message_status = MessageStatus.queued } ∷ [];
    actors = new_actor 1 1 bob to (some DeliveryStatus.queued) ∷ [];
    last_message = 1;
    last_actor = 1;
  };
}

waiting_db-Settled : Settled waiting_db.tables
waiting_db-Settled = (record { sent_to_some = λ e. cc; failed_for_all = λ e. cc }, tt)

poll-Settled_example :
    Settled (poll default_server.delivery pool_stops 500 400 waiting_db).1.db.tables
poll-Settled_example =
    poll-Settled default_server.delivery pool_stops 500 400 waiting_db waiting_db-Settled

deliver-NoneDelivering_example : NoneDelivering 1 (deliver recipient sending_world).db.tables.actors
unfolding new_actor
deliver-NoneDelivering_example = deliver-NoneDelivering recipient sending_world refl

run_once-WellKept_example :
    WellKept default_server
      (run_once default_server pool_stops
        (connection ∷ line_event (codes "QUIT") ∷ [])
        500
        400
        []
        sending_world).sessions
run_once-WellKept_example =
    run_once-WellKept default_server pool_stops (connection ∷ line_event (codes "QUIT") ∷ []) 500
      400 [] sending_world (record { bounded = omega arith; distinct = tt; owned = tt })

abbrev one_session : Sessions
one_session = (7, new_session 7) ∷ []

route_event-existing_example :
    find_session 7 (route_event default_server connection one_session sending_world).0 ≡ (
      if 7 == 7
      then some (record (new_session 7) { events = (new_session 7).events ++ connection ∷ [] })
      else find_session 7 one_session)
unfolding find_session
route_event-existing_example =
    route_event-existing default_server connection one_session sending_world (new_session 7) refl 7

-- ===== src/Smtp/Tests/Fixtures.antt =====
-- The data of the tests.
use mail_server_client.Base.{none, some, List, [], ◌∷◌, Bytes, codes, bytes_eq, if◌then◌else◌}
use mail_server_client.Storage.Database.{Db, Tables, Exception, std_exception}
use mail_server_client.Smtp.AuthService.{UserTable, authenticate}
use mail_server_client.Smtp.Config.{Tree, Configuration, default_db, default_server}
use mail_server_client.Smtp.State.{AuthRequest, Context, World, Event, message_received, connected}

abbrev pub alice : Bytes
alice = codes "alice@example.org"

abbrev pub bob : Bytes
bob = codes "bob@example.net"

abbrev pub lines : List Bytes
lines = codes "Subject: lunch" ∷ [] ∷ codes ".hidden" ∷ codes "At noon." ∷ []

abbrev pub users : UserTable
users = (codes "alice", codes "secret") ∷ []

abbrev pub request : AuthRequest
request = record { mechanism = codes "PLAIN"; username = codes "alice"; secret = codes "secret" }

abbrev pub context : Context
context = record { config = default_server; authenticate = authenticate users }

abbrev pub empty_tables : Tables
empty_tables = record {
  messages = [];
  actors = [];
  users = [];
  last_message = 0;
  last_actor = 0;
  last_user = 0;
}

abbrev pub locked : Exception
locked = std_exception (codes "database is locked")

abbrev pub db : Db
db = record {
  tables = empty_tables;
  saved = none;
  faults = [];
  clock = codes "2026-01-01 00:00:00";
}

-- The second actor is refused, and so is the rollback behind it.
abbrev pub failing_db : Db
failing_db = record db { faults = none ∷ none ∷ none ∷ some locked ∷ some locked ∷ [] }

abbrev pub world : World
world = record { db = db; calls = []; log = [] }

abbrev pub connection : Event
connection = record { type = connected; connection_id = 7; payload = [] }

abbrev pub line_event : Bytes → Event
line_event text = record { type = message_received; connection_id = 7; payload = text }

-- A file that only gives the port.
abbrev pub tree : Tree
tree = record {
  text = λ path. none;
  number = λ path. if bytes_eq path (codes "server.port") then some 2525 else none;
  flag = λ path. none;
}

abbrev pub tree_configuration : Configuration
tree_configuration = record {
  database = default_db;
  server = record default_server { port = 2525 };
}

-- ===== src/Smtp/State.antt =====
-- The session's data: apps/smtp-server/include/smtp/Event.hpp, Session.hpp and AuthService.hpp, and
-- what a handler can do to the world around it: the database, the sockets manager and the log.
use mail_server_client.Base.{
  ℕ, Bool, false, Option, none, List, [], ◌∷◌, ◌++◌, Bytes, codes, to_string,
}
use mail_server_client.Storage.Database.{Db, Exception}
use mail_server_client.Smtp.Config.{ServerConfig}

pub data EventType : Type 0 where
  connected message_received tls_succeeded tls_failed disconnected : EventType

pub record Event : Type 0 where
  pub type : EventType
  pub connection_id : ℕ
  pub payload : Bytes

pub data Phase : Type 0 where
  waiting_for_greeting ready_for_mail mail_transaction receiving_message closing closed : Phase

pub data AuthStage : Type 0 where
  no_stage plain_response login_username login_password : AuthStage

pub record SessionState : Type 0 where
  pub connection_id : ℕ
  pub phase : Phase
  pub tls_active : Bool
  pub tls_handshake_pending : Bool
  pub authenticated : Bool
  pub auth_stage : AuthStage
  pub client_name : Bytes
  pub authenticated_identity : Bytes
  pub pending_auth_username : Bytes
  pub sender : Bytes
  pub recipients : List Bytes
  pub message_buffer : Bytes

abbrev pub initial_state : ℕ → SessionState
initial_state connection_id = record {
  connection_id = connection_id;
  phase = waiting_for_greeting;
  tls_active = false;
  tls_handshake_pending = false;
  authenticated = false;
  auth_stage = no_stage;
  client_name = [];
  authenticated_identity = [];
  pending_auth_username = [];
  sender = [];
  recipients = [];
  message_buffer = [];
}

pub record AuthRequest : Type 0 where
  pub mechanism : Bytes
  pub username : Bytes
  pub secret : Bytes

pub record AuthResult : Type 0 where
  pub accepted : Bool
  pub identity : Bytes

-- The calls on ISocketsManager that a session makes.
pub data SocketCall : Type 0 where
  send : ℕ → Bytes → SocketCall
  close start_tls resume : ℕ → SocketCall

-- What the handlers read: the configuration, and IAuthService.
pub record Context : Type 0 where
  pub config : ServerConfig
  pub authenticate : AuthRequest → AuthResult

-- `calls` and `log` are the calls made so far, oldest first.
pub record World : Type 0 where
  pub db : Db
  pub calls : List SocketCall
  pub log : List Bytes

-- A handler leaves a state and a world, and may have thrown.
pub record Outcome : Type 0 where
  pub state : SessionState
  pub world : World
  pub thrown : Option Exception

abbrev pub returned : SessionState → World → Outcome
returned s w = record { state = s; world = w; thrown = none }

unfoldable pub call : SocketCall → World → World
call c w = record w { calls = w.calls ++ c ∷ [] }

abbrev pub crlf : Bytes
crlf = 13 ∷ 10 ∷ []

-- SendReply
unfoldable pub send_reply : ℕ → ℕ → Bytes → World → World
unfolding call
send_reply connection_id status_code message w =
    call (send connection_id (to_string status_code ++ (codes " " ++ (message ++ crlf)))) w

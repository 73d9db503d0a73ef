-- ===== src/Smtp/Handler/Auth.antt =====
-- AUTH, and the lines that answer its challenges.
use mail_server_client.Base.{
  Bool, not, ◌||◌, none, some, [], ◌∷◌, Bytes, codes, bytes_eq, is_empty, is_space, if◌then◌else◌,
}
use mail_server_client.Smtp.Text.{to_upper, trim_front}
use mail_server_client.Smtp.Base64.{decode_base64, parse_plain_auth}
use mail_server_client.Smtp.State.{
  SessionState, Context, World, Outcome, AuthRequest, AuthResult, no_stage, plain_response,
  login_username, login_password, returned, send_reply,
}

unfoldable pub is_auth_allowed : Context → SessionState → Bool
is_auth_allowed ctx s = s.tls_active || ctx.config.allow_plain_authentication_without_tls

unfoldable pub mark_authenticated : AuthResult → SessionState → SessionState
mark_authenticated result s = record s {
  authenticated = result.accepted;
  authenticated_identity = result.identity;
  auth_stage = no_stage;
  pending_auth_username = [];
}

unfoldable pub auth_reply : SessionState → World → World
unfolding send_reply
auth_reply s w =
    send_reply s.connection_id (if s.authenticated then 235 else 535)
      (if s.authenticated then codes "Authentication successful" else codes "Authentication failed")
      w

-- MarkAuthenticated(state, Authenticate(…)) and the reply that tells the result
unfoldable pub finish_auth : Context → Bytes → Bytes → Bytes → SessionState → World → Outcome
unfolding mark_authenticated auth_reply
finish_auth ctx mechanism username secret s w =
    let request : AuthRequest = record {
      mechanism = mechanism;
      username = username;
      secret = secret;
    } in
    let s' = mark_authenticated (ctx.authenticate request) s in returned s' (auth_reply s' w)

-- authStage == PlainResponse
unfoldable pub receive_plain : Context → Bytes → SessionState → World → Outcome
unfolding finish_auth send_reply
receive_plain ctx line s w = elim (parse_plain_auth line) [
  | none ↦
      returned (record s { auth_stage = no_stage })
        (send_reply s.connection_id 501 (codes "Invalid authentication response") w)
  | some (username, secret) ↦ finish_auth ctx (codes "PLAIN") username secret s w
]

unfoldable pub ask_password : Bytes → SessionState → World → Outcome
unfolding send_reply
ask_password username s w =
    returned (record s { pending_auth_username = username; auth_stage = login_password })
      (send_reply s.connection_id 334 (codes "UGFzc3dvcmQ6") w)

-- authStage == LoginUsername
unfoldable pub receive_username : Bytes → SessionState → World → Outcome
unfolding ask_password send_reply
receive_username line s w =
    let refused =
      returned (record s { auth_stage = no_stage })
        (send_reply s.connection_id 501 (codes "Invalid username") w) in
    elim (decode_base64 line) [
      | none ↦ refused
      | some username ↦ if is_empty username then refused else ask_password username s w
    ]

-- authStage == LoginPassword
unfoldable pub receive_password : Context → Bytes → SessionState → World → Outcome
unfolding finish_auth send_reply
receive_password ctx line s w = elim (decode_base64 line) [
  | none ↦
      returned (record s { auth_stage = no_stage; pending_auth_username = [] })
        (send_reply s.connection_id 501 (codes "Invalid password") w)
  | some secret ↦ finish_auth ctx (codes "LOGIN") s.pending_auth_username secret s w
]

-- stream >> word: skip spaces, then read up to the next one; with what is left of the stream
unfoldable pub read_word : Bytes → Bytes × Bytes
read_word [] = ([], [])
read_word (x ∷ xs) = if is_space x then ([], x ∷ xs) else (x ∷ (read_word xs).0, (read_word xs).1)

unfoldable pub next_word : Bytes → Bytes × Bytes
unfolding read_word
next_word stream = read_word (trim_front stream)

-- AUTH PLAIN
unfoldable pub auth_plain : Context → Bytes → SessionState → World → Outcome
unfolding finish_auth send_reply
auth_plain ctx initial s w =
    if is_empty initial
    then returned (record s { auth_stage = plain_response }) (send_reply s.connection_id 334 [] w)
    else elim (parse_plain_auth initial) [
      | none ↦
          returned s (send_reply s.connection_id 501 (codes "Invalid authentication response") w)
      | some (username, secret) ↦ finish_auth ctx (codes "PLAIN") username secret s w
    ]

-- AUTH LOGIN
unfoldable pub auth_login : Bytes → SessionState → World → Outcome
unfolding ask_password send_reply
auth_login initial s w =
    let refused = returned s (send_reply s.connection_id 501 (codes "Invalid username") w) in
    if is_empty initial
    then returned (record s { auth_stage = login_username })
        (send_reply s.connection_id 334 (codes "VXNlcm5hbWU6") w)
    else elim (decode_base64 initial) [
      | none ↦ refused
      | some username ↦ if is_empty username then refused else ask_password username s w
    ]

unfoldable pub auth_mechanism : Context → Bytes → Bytes → SessionState → World → Outcome
unfolding auth_plain auth_login send_reply
auth_mechanism ctx mechanism initial s w =
    if bytes_eq mechanism (codes "PLAIN")
    then auth_plain ctx initial s w
    else if bytes_eq mechanism (codes "LOGIN")
    then auth_login initial s w
    else returned s
        (send_reply s.connection_id 504 (codes "Unsupported authentication mechanism") w)

unfoldable pub handle_auth : Context → Bytes → SessionState → World → Outcome
unfolding is_auth_allowed next_word auth_mechanism send_reply
handle_auth ctx argument s w =
    let (mechanism, rest) = next_word argument in
    let (initial, _) = next_word rest in
    if s.authenticated
    then returned s (send_reply s.connection_id 503 (codes "Already authenticated") w)
    else if not (is_auth_allowed ctx s)
    then returned s (
        send_reply s.connection_id 538
          (codes "Encryption required for requested authentication mechanism") w)
    else auth_mechanism ctx (to_upper mechanism) initial s w

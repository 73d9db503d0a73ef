-- ===== src/Smtp/Protocol/Auth.antt =====
-- AUTH and the answers to its challenges keep the invariant.
use mail_server_client.Base.{
  ◌≡◌, true, false, not, [], ◌∷◌, Bytes, is_empty, arith, if_elim, Option-cases, inl, inr, bytes_eq,
  codes,
}
use mail_server_client.Smtp.Base64.{decode_base64, parse_plain_auth}
use mail_server_client.Smtp.State.{
  SessionState, AuthStage, Context, World, Outcome, no_stage, plain_response, login_username,
}
use mail_server_client.Smtp.Handler.Auth.{
  is_auth_allowed, finish_auth, receive_plain, receive_username, receive_password, ask_password,
  auth_plain, auth_login, auth_mechanism, handle_auth,
}
use mail_server_client.Smtp.Handler.Greeting.{is_receiving}
use mail_server_client.Smtp.Protocol.Invariant.{Inv, is_idle}

module _ (ctx : Context) (s : SessionState) (w : World) where
  -- AUTH.
  finish_auth-Inv :
      (mechanism username secret : Bytes)
      → is_auth_allowed ctx s ≡ true
      → s.authenticated ≡ false
      → Inv ctx s
      → Inv ctx (finish_auth ctx mechanism username secret s w).state
  unfolding finish_auth is_auth_allowed is_receiving
  finish_auth-Inv mechanism username secret allowed fresh h = ground arith

  ask_password-Inv :
      (username : Bytes)
      → is_auth_allowed ctx s ≡ true
      → s.authenticated ≡ false
      → is_receiving s.phase ≡ false
      → Inv ctx s
      → Inv ctx (ask_password username s w).state
  unfolding ask_password is_auth_allowed is_receiving
  ask_password-Inv username allowed fresh r h = ground arith

  -- An AUTH that ends without a result.
  end_stage-Inv : Inv ctx s → Inv ctx (record s { auth_stage = no_stage })
  unfolding is_auth_allowed
  end_stage-Inv h = ground arith

  end_login-Inv :
      Inv ctx s → Inv ctx (record s { auth_stage = no_stage; pending_auth_username = [] })
  unfolding is_auth_allowed
  end_login-Inv h = ground arith

  -- A challenge that is sent.
  begin_stage-Inv :
      (stage : AuthStage)
      → is_auth_allowed ctx s ≡ true
      → s.authenticated ≡ false
      → is_receiving s.phase ≡ false
      → Inv ctx s
      → Inv ctx (record s { auth_stage = stage })
  unfolding is_auth_allowed
  begin_stage-Inv stage allowed fresh r h = ground arith

  pub receive_plain-Inv :
      (line : Bytes)
      → is_idle s.auth_stage ≡ false
      → Inv ctx s
      → Inv ctx (receive_plain ctx line s w).state
  unfolding receive_plain
  receive_plain-Inv line busy h = elim (Option-cases (parse_plain_auth line)) [
    | inl e ↦ rw (e, receive_plain) (end_stage-Inv h)
    | inr (c, e) ↦
        rw (e, receive_plain)
          (finish_auth-Inv (codes "PLAIN") c.0 c.1 (h.auth_allowed busy) (h.auth_once busy) h)
  ]

  pub receive_username-Inv :
      (line : Bytes)
      → is_idle s.auth_stage ≡ false
      → is_receiving s.phase ≡ false
      → Inv ctx s
      → Inv ctx (receive_username line s w).state
  unfolding receive_username
  receive_username-Inv line busy r h = elim (Option-cases (decode_base64 line)) [
    | inl e ↦ rw (e, receive_username) (end_stage-Inv h)
    | inr (u, e) ↦
        rw (e, receive_username)
          (if_elim (λ (o : Outcome). Inv ctx o.state) (is_empty u) _ _ (λ _. end_stage-Inv h)
            (λ _. ask_password-Inv u (h.auth_allowed busy) (h.auth_once busy) r h))
  ]

  pub receive_password-Inv :
      (line : Bytes)
      → is_idle s.auth_stage ≡ false
      → Inv ctx s
      → Inv ctx (receive_password ctx line s w).state
  unfolding receive_password
  receive_password-Inv line busy h = elim (Option-cases (decode_base64 line)) [
    | inl e ↦ rw (e, receive_password) (end_login-Inv h)
    | inr (secret, e) ↦
        rw (e, receive_password)
          (finish_auth-Inv (codes "LOGIN") s.pending_auth_username secret (h.auth_allowed busy)
            (h.auth_once busy) h)
  ]

  module _ (allowed : is_auth_allowed ctx s ≡ true) (fresh : s.authenticated ≡ false)
      (r : is_receiving s.phase ≡ false) (h : Inv ctx s) where
    auth_plain-Inv : (initial : Bytes) → Inv ctx (auth_plain ctx initial s w).state
    unfolding auth_plain
    auth_plain-Inv [] = begin_stage-Inv plain_response allowed fresh r h
    auth_plain-Inv (x ∷ xs) = elim (Option-cases (parse_plain_auth (x ∷ xs))) [
      | inl e ↦ rw (e, auth_plain) h
      | inr (c, e) ↦ rw (e, auth_plain) (finish_auth-Inv (codes "PLAIN") c.0 c.1 allowed fresh h)
    ]

    auth_login-Inv : (initial : Bytes) → Inv ctx (auth_login initial s w).state
    unfolding auth_login
    auth_login-Inv [] = begin_stage-Inv login_username allowed fresh r h
    auth_login-Inv (x ∷ xs) = elim (Option-cases (decode_base64 (x ∷ xs))) [
      | inl e ↦ rw (e, auth_login) h
      | inr (u, e) ↦
          rw (e, auth_login)
            (if_elim (λ (o : Outcome). Inv ctx o.state) (is_empty u) _ _ (λ _. h)
              (λ _. ask_password-Inv u allowed fresh r h))
    ]

    auth_mechanism-Inv :
        (mechanism initial : Bytes) → Inv ctx (auth_mechanism ctx mechanism initial s w).state
    unfolding auth_mechanism
    auth_mechanism-Inv mechanism initial =
        if_elim (λ (o : Outcome). Inv ctx o.state) (bytes_eq mechanism (codes "PLAIN")) _ _
          (λ _. auth_plain-Inv initial)
          (λ _.
            if_elim (λ (o : Outcome). Inv ctx o.state) (bytes_eq mechanism (codes "LOGIN")) _ _
              (λ _. auth_login-Inv initial) (λ _. h))

  pub handle_auth-Inv :
      (argument : Bytes)
      → is_receiving s.phase ≡ false
      → Inv ctx s
      → Inv ctx (handle_auth ctx argument s w).state
  unfolding handle_auth
  handle_auth-Inv argument r h =
      if_elim (λ (o : Outcome). Inv ctx o.state) s.authenticated _ _ (λ _. h)
        (λ fresh.
          if_elim (λ (o : Outcome). Inv ctx o.state) (not (is_auth_allowed ctx s)) _ _ (λ _. h)
            (λ e. auth_mechanism-Inv (ground arith) fresh r h _ _))

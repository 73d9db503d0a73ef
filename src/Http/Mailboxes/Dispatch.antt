-- ===== src/Http/Mailboxes/Dispatch.antt =====
-- The routes on accounts and on the sending of mail, and the dispatch over all routes.
use mail_server_client.Base.{
  ℕ, ◌≡◌, refl, true, false, Option, none, some, List, [], ◌∷◌, Bytes, codes, Bool-cases, if_elim,
  inl, inr, All, arith,
}
use mail_server_client.Storage.Records.{User}
use mail_server_client.Storage.Database.{Tables, ok}
use mail_server_client.Storage.Database.Laws.{statement_cases}
use mail_server_client.Storage.Users.{insert_user, create_user, find_user_by_id, find_by_email}
use mail_server_client.Client.Mail.{Mail, SmtpResult}
use mail_server_client.Http.Json.{Fields}
use mail_server_client.Http.Message.{Verb, get, post, Request}
use mail_server_client.Http.World.{Services, World}
use mail_server_client.Http.MailStorage.{create_storage_user, user_or}
use mail_server_client.Http.Router.{
  Handler, Route, is_route, add, find_route, respond_with, dispatch, extract_path,
}
use mail_server_client.Http.Handlers.Mailbox.{
  delete_mail_handler, star_handler, unstar_handler, archive_handler, unarchive_handler,
  get_mails_handler,
}
use mail_server_client.Http.Handlers.Accounts.{
  hash_password, register_handler, finish_login, login_handler, hello_handler,
}
use mail_server_client.Http.Handlers.Sending.{deliver, answer_delivery, submit, send_mail_handler}
use mail_server_client.Http.Handlers.{make_router}
use mail_server_client.Http.Acts.{
  read-Does, bind-Does, pure-Does, give-Acts, bind-Acts, query-Acts, try_catch-Acts, log-Acts,
  still-Acts, if-Acts,
}
use mail_server_client.Http.Mailboxes.{Within, within_order}
use mail_server_client.Http.Mailboxes.{Within-refl}
use mail_server_client.Http.Mailboxes.Requests.{
  Safe, Reads, answer-Safe, with_object-Safe, starred-Safe, archived-Safe, delete-Safe,
  get_mails-Safe,
}

module _ {P : Type 0} (s : Services P) (request : Request) where
  insert_user_keeps :
      (username email password_hash now : Bytes) (t : Tables) (id : ℕ) (u : Tables)
      → insert_user username email password_hash now t ≡ ok (id, u)
      → Within request t u
  unfolding insert_user
  insert_user_keeps username email password_hash now t id u h =
      let a : u.actors ≡ t.actors = ground arith in
      record { same_messages = ground arith; rows = rw a (Within-refl request t).rows }

  create_storage_user-Does :
      (username email password_hash : Bytes)
      → Reads s request (create_storage_user username email password_hash)
  unfolding create_storage_user create_user find_user_by_id
  create_storage_user-Does username email password_hash =
      bind-Does (within_order request) (create_user username email password_hash) _
        record {
          at = λ db.
              statement_cases (Within request db.tables) _ db (Within-refl request db.tables)
                λ id t e. insert_user_keeps _ _ _ _ db.tables id t e;
        }
        λ id.
          bind-Does (within_order request) (find_user_by_id id) _
            (read-Does (within_order request) _)
            λ user. pure-Does (within_order request) (ok (user_or user id username email))

  register-Safe : Safe s request (register_handler s request)
  unfolding register_handler hash_password
  register-Safe = try_catch-Acts (within_order request) _ _ (
      bind-Acts (within_order request) _ _ (give-Acts (within_order request) _) λ fields.
        bind-Acts (within_order request) _ _ (give-Acts (within_order request) _) λ username.
          bind-Acts (within_order request) _ _ (give-Acts (within_order request) _) λ email.
            bind-Acts (within_order request) _ _ (give-Acts (within_order request) _) λ password.
              bind-Acts (within_order request) (hash_password s password) _
                (still-Acts (within_order request) (hash_password s password) λ w. refl)
                λ password_hash.
                  bind-Acts (within_order request) _ _
                    (query-Acts (within_order request) _
                      (create_storage_user-Does username email password_hash))
                    λ user.
                      bind-Acts (within_order request) _ _ (log-Acts (within_order request) s _ _)
                        λ u. answer-Safe s request _)

  find_by_email-Reads : (email : Bytes) → Reads s request (find_by_email email)
  unfolding find_by_email
  find_by_email-Reads email = read-Does (within_order request) _

  finish_login-Safe :
      (email password : Bytes) (user : Option User)
      → Safe s request (finish_login s request email password user)
  unfolding finish_login
  finish_login-Safe email password none = answer-Safe s request _
  finish_login-Safe email password (some user) =
      if-Acts (within_order request) _ _ _ (answer-Safe s request _) (
        bind-Acts (within_order request) _ _ (log-Acts (within_order request) s _ _)
          λ u. answer-Safe s request _)

  login-Safe : Safe s request (login_handler s request)
  unfolding login_handler
  login-Safe = try_catch-Acts (within_order request) _ _ (
      bind-Acts (within_order request) _ _ (give-Acts (within_order request) _) λ fields.
        bind-Acts (within_order request) _ _ (give-Acts (within_order request) _) λ email.
          bind-Acts (within_order request) _ _ (give-Acts (within_order request) _) λ password.
            bind-Acts (within_order request) _ _
              (query-Acts (within_order request) _ (find_by_email-Reads email))
              (finish_login-Safe email password))

  hello-Safe : Safe s request (hello_handler s request)
  unfolding hello_handler
  hello-Safe = with_object-Safe s request _ λ fields. answer-Safe s request _

  deliver-Safe : (mail : Mail) → Safe s request (deliver s mail)
  unfolding deliver
  deliver-Safe mail = still-Acts (within_order request) (deliver s mail) λ w. refl

  answer_delivery-Safe :
      (sender : Bytes) (result : SmtpResult)
      → Safe s request (answer_delivery s request sender result)
  unfolding answer_delivery
  answer_delivery-Safe sender result =
      if-Acts (within_order request) _ _ _
        (bind-Acts (within_order request) _ _ (log-Acts (within_order request) s _ _)
          λ u. answer-Safe s request _)
        (bind-Acts (within_order request) _ _ (log-Acts (within_order request) s _ _)
          λ u. answer-Safe s request _)

  submit-Safe : (fields : Fields) → Safe s request (submit s request fields)
  unfolding submit
  submit-Safe fields =
      bind-Acts (within_order request) _ _ (give-Acts (within_order request) _) λ sender.
        bind-Acts (within_order request) _ _ (give-Acts (within_order request) _) λ recipients.
          bind-Acts (within_order request) _ _ (give-Acts (within_order request) _) λ subject.
            bind-Acts (within_order request) _ _ (give-Acts (within_order request) _) λ body.
              bind-Acts (within_order request) _ _ (give-Acts (within_order request) _) λ mail.
                bind-Acts (within_order request) _ _ (deliver-Safe mail)
                  λ result. answer_delivery-Safe sender result

  send-Safe : Safe s request (send_mail_handler s request)
  unfolding send_mail_handler
  send-Safe =
      with_object-Safe s request _
        λ fields. try_catch-Acts (within_order request) _ _ (submit-Safe fields)

  -- The handler of the route keeps to the mailbox of the request.
  abbrev SafeRoute : Route P → Type 0
  SafeRoute r = Safe s request (r.handler request)

  record SafeRoutes (routes : List (Route P)) : Type 0 where
    each : All SafeRoute routes

  add-Safe :
      (method : Verb) (path : Bytes) (handler : Handler P) (routes : List (Route P))
      → Safe s request (handler request)
      → SafeRoutes routes
      → SafeRoutes (add method path handler routes)
  unfolding add
  add-Safe method path handler [] h k = record { each = (h, tt) }
  add-Safe method path handler (r ∷ rs) h k =
      if_elim SafeRoutes (is_route method path r) _ _ (λ e. record { each = (h, k.each.1) })
        λ e.
          let rest = add-Safe method path handler rs h (record { each = k.each.1 }) in
          record { each = (k.each.0, rest.each) }

  make_router-Safe : SafeRoutes (make_router s)
  unfolding make_router star_handler unstar_handler archive_handler unarchive_handler
  make_router-Safe =
      let r0 =
        add-Safe get (codes "/mails") (get_mails_handler s) [] (get_mails-Safe s request)
          (record { each = tt }) in
      let r1 = add-Safe post (codes "/hello") (hello_handler s) _ hello-Safe r0 in
      let r2 = add-Safe post (codes "/login") (login_handler s) _ login-Safe r1 in
      let r3 = add-Safe post (codes "/register") (register_handler s) _ register-Safe r2 in
      let r4 = add-Safe post (codes "/send-mail") (send_mail_handler s) _ send-Safe r3 in
      let r5 =
        add-Safe post (codes "/mails/star") (star_handler s) _ (starred-Safe s request true) r4 in
      let r6 =
        add-Safe post (codes "/mails/unstar") (unstar_handler s) _ (starred-Safe s request false)
          r5 in
      let r7 =
        add-Safe post (codes "/mails/archive") (archive_handler s) _ (archived-Safe s request true)
          r6 in
      let r8 =
        add-Safe post (codes "/mails/unarchive") (unarchive_handler s) _
          (archived-Safe s request false) r7 in
      add-Safe post (codes "/mails/delete") (delete_mail_handler s) _ (delete-Safe s request) r8

  find_route-Safe :
      (method : Verb) (path : Bytes) (routes : List (Route P)) (handler : Handler P)
      → All SafeRoute routes
      → find_route method path routes ≡ some handler
      → Safe s request (handler request)
  unfolding find_route
  find_route-Safe method path [] handler k h = cc
  find_route-Safe method path (r ∷ rs) handler k h = elim (Bool-cases (is_route method path r)) [
    | inl e ↦
        let g : some r.handler ≡ some handler = rw e at h in
        let same : r.handler ≡ handler = cc in rw (← same) k.0
    | inr e ↦ find_route-Safe method path rs handler k.1 (rw e at h)
  ]

  found-Safe :
      (o : Option (Handler P))
      → ((handler : Handler P) → o ≡ some handler → Safe s request (handler request))
      → Safe s request (respond_with s o request)
  unfolding respond_with
  found-Safe none h = answer-Safe s request _
  found-Safe (some handler) h = try_catch-Acts (within_order request) _ _ (h handler refl)

  dispatch-Safe :
      (routes : List (Route P)) → All SafeRoute routes → Safe s request (dispatch s routes request)
  unfolding dispatch
  dispatch-Safe routes k =
      found-Safe (find_route request.method (extract_path request.target) routes)
        (λ handler. find_route-Safe _ _ routes handler k)

  -- Whatever the request, its method and its route: the messages stay as they are, and of every
  -- mailbox entry nothing changes but the flags starred, archived and deleted, and these only where
  -- the entry is not deleted and has the address of the request's X-User-Email.
  pub dispatch-Within :
      (w : World P) → Within request w.db.tables (dispatch s (make_router s) request w).1.db.tables
  dispatch-Within w = (dispatch-Safe (make_router s) make_router-Safe.each).at w

-- ===== src/Http/Mailboxes/Requests.antt =====
-- The routes of the mail server on a mailbox.
use mail_server_client.Base.{
  ℤ, ◌≡◌, Bool, none, some, List, [], ◌∷◌, Bytes, codes, is_empty, if◌then◌else◌, Bool-cases,
  Option-cases, inl, inr,
}
use mail_server_client.Storage.Records.{Message}
use mail_server_client.Storage.Database.{Query, ok}
use mail_server_client.Storage.Actors.{find_by_message_id}
use mail_server_client.Storage.Messages.{find_all}
use mail_server_client.Http.Json.{Json, Fields, Parsed, parsed, parse_failed, object}
use mail_server_client.Http.Message.{Request, Response, make_error}
use mail_server_client.Http.World.{Services, Action, pure}
use mail_server_client.Http.MailStorage.{mails_of, find_mails_for_user, current_actor, push_current}
use mail_server_client.Http.Handlers.Reading.{read_required_user_email, with_object, on_parsed}
use mail_server_client.Http.Handlers.Mailbox.{
  change_entry, set_starred_handler, set_archived_handler, delete_mail_handler, fetch_mails,
  get_mails_handler,
}
use mail_server_client.Http.Acts.{
  Does, Acts, read-Does, bind-Does, pure-Does, give-Acts, bind-Acts, give-bind-Acts, query-Acts,
  try_catch-Acts, log-Acts, if-Acts,
}
use mail_server_client.Http.Mailboxes.{
  within_order, star_mail-Does, archive_mail-Does, delete_mail-Does,
}

user_email_named :
    (request : Request) (email : Bytes)
    → read_required_user_email request ≡ ok email
    → request.user_email ≡ some email
unfolding read_required_user_email
user_email_named request email h = elim (Option-cases request.user_email) [
  | inl e ↦ let g = rw e at h in cc
  | inr (x, e) ↦ elim (Bool-cases (is_empty x)) [
    | inl b ↦ let g = rw (e, b) at h in cc
    | inr b ↦ let g = rw (e, b) at h in cc
  ]
]

module _ {P : Type 0} (s : Services P) (request : Request) where
  abbrev pub Safe : {A : Type 0} → Action P A → Type 0
  Safe m = Acts (within_order request) m

  abbrev pub Reads : {A : Type 0} → Query A → Type 0
  Reads q = Does (within_order request) q

  pub answer-Safe : {A : Type 0} (a : A) → Safe (pure a)
  answer-Safe a = give-Acts (within_order request) (ok a)

  on_parsed-Safe :
      (f : Fields → Action P Response)
      → ((fields : Fields) → Safe (f fields))
      → (p : Parsed) → Safe (on_parsed s request f p)
  unfolding on_parsed
  on_parsed-Safe f h (parse_failed m) = answer-Safe _
  on_parsed-Safe f h (parsed (object fields)) = h fields
  on_parsed-Safe f h (parsed _) = answer-Safe _

  pub with_object-Safe :
      (f : Fields → Action P Response)
      → ((fields : Fields) → Safe (f fields))
      → Safe (with_object s request f)
  unfolding with_object
  with_object-Safe f h = on_parsed-Safe f h (s.json.parse request.body)

  change_entry-Safe :
      (change : ℤ → Bytes → Query Bool) (message : ℤ → Bytes) (answer : ℤ → Json)
      → ((email : Bytes) (id : ℤ) → request.user_email ≡ some email → Reads (change id email))
      → (fields : Fields) → Safe (change_entry s change message answer request fields)
  unfolding change_entry
  change_entry-Safe change message answer h fields = try_catch-Acts (within_order request) _ _ (
      give-bind-Acts (within_order request) _ _ λ id e.
        give-bind-Acts (within_order request) _ _ λ email g.
          bind-Acts (within_order request) _ _
            (query-Acts (within_order request) _ (h email id (user_email_named request email g)))
            λ changed.
              if-Acts (within_order request) changed _ _
                (bind-Acts (within_order request) _ _ (log-Acts (within_order request) s _ _)
                  (λ u. answer-Safe _))
                (answer-Safe _))

  pub starred-Safe : (starred : Bool) → Safe (set_starred_handler s request starred)
  unfolding set_starred_handler
  starred-Safe starred =
      with_object-Safe _
        (change_entry-Safe _ _ _ λ email id e. star_mail-Does request email e id starred)

  pub archived-Safe : (archived : Bool) → Safe (set_archived_handler s request archived)
  unfolding set_archived_handler
  archived-Safe archived =
      with_object-Safe _
        (change_entry-Safe _ _ _ λ email id e. archive_mail-Does request email e id archived)

  pub delete-Safe : Safe (delete_mail_handler s request)
  unfolding delete_mail_handler
  delete-Safe =
      with_object-Safe _ (change_entry-Safe _ _ _ λ email id e. delete_mail-Does request email e id)

  mails_of-Reads : (email : Bytes) (messages : List Message) → Reads (mails_of email messages)
  unfolding mails_of find_by_message_id
  mails_of-Reads email [] = pure-Does (within_order request) (ok [])
  mails_of-Reads email (m ∷ ms) =
      bind-Does (within_order request) (find_by_message_id m.id) _
        (read-Does (within_order request) _)
        λ actors.
          bind-Does (within_order request) (mails_of email ms) _ (mails_of-Reads email ms) λ mails.
            pure-Does (within_order request)
              (ok (push_current m actors (current_actor email actors) mails))

  find_mails-Reads : (email : Bytes) → Reads (find_mails_for_user email)
  unfolding find_mails_for_user find_all
  find_mails-Reads email =
      bind-Does (within_order request) find_all (mails_of email)
        (read-Does (within_order request) _) (mails_of-Reads email)

  pub get_mails-Safe : Safe (get_mails_handler s request)
  unfolding get_mails_handler fetch_mails
  get_mails-Safe =
      elim request.user_email
        as (λ x. Safe (elim x [
          | none ↦ pure (make_error s.json request 400 (codes "X-User-Email header is required"))
          | some user_email ↦
              if is_empty user_email
              then pure (make_error s.json request 400 (codes "X-User-Email header is required"))
              else fetch_mails s request user_email
        ])) [
          | none ↦ answer-Safe _
          | some email ↦ if-Acts (within_order request) (is_empty email) _ _ (answer-Safe _) (
              bind-Acts (within_order request) _ _ (log-Acts (within_order request) s _ _) λ u.
                bind-Acts (within_order request) _ _
                  (query-Acts (within_order request) _ (find_mails-Reads email))
                  λ mails. answer-Safe _)
        ]

-- ===== src/Http/Handlers/Mailbox.antt =====
-- StarHandler.cpp, ArchiveHandler.cpp, DeleteMailHandler.cpp and GetMailsHandler.cpp of
-- apps/mail-server/src/handlers.
use mail_server_client.Base.{
  ℤ, int_to_string, Bool, true, false, none, some, [], ◌∷◌, ◌++◌, Bytes, codes, is_empty,
  if◌then◌else◌,
}
use mail_server_client.Storage.Database.{Query}
use mail_server_client.Http.Json.{
  Json, Fields, int64, boolean, text, array, object, elements_of, fields_of,
}
use mail_server_client.Http.Config.{debug, info}
use mail_server_client.Http.Message.{Request, Response, make_json_response, make_error}
use mail_server_client.Http.World.{Services, Action, ◌>>=◌, ◌>>◌, pure, give, query, try_catch, log}
use mail_server_client.Http.MailStorage.{star_mail, archive_mail, delete_mail, find_mails_for_user}
use mail_server_client.Http.Handlers.Reading.{
  read_required_int64, read_required_user_email, with_object,
}

module _ {P : Type 0} (s : Services P) where
  -- What the three handlers behind a mailbox change share: the id and the address are read, the
  -- change is made, and where no entry was changed the answer is 404.
  unfoldable pub change_entry :
      (ℤ → Bytes → Query Bool) → (ℤ → Bytes) → (ℤ → Json) → Request → Fields → Action P Response
  change_entry change message answer request fields =
      try_catch
        (do
          message_id ← give (read_required_int64 fields (codes "id"))
          user_email ← give (read_required_user_email request)
          changed ← query (change message_id user_email)
          if changed
              then (log s info (message message_id)
                  >> pure (make_json_response s.json request 200 (answer message_id)))
              else pure (make_error s.json request 404 (codes "Message not found for user")))
        (λ text. make_error s.json request 400 text)

  unfoldable pub set_starred_handler : Request → Bool → Action P Response
  unfolding with_object change_entry
  set_starred_handler request starred = with_object s request (
      change_entry (λ id email. star_mail id email starred)
        (λ id.
          codes "Message "
          ++ (int_to_string id ++ (if starred then codes " starred" else codes " unstarred")))
        (λ id. object (
          fields_of (
            (codes "id", int64 id)
            ∷ (codes "starred", boolean starred)
            ∷ (codes "status", text (codes "ok"))
            ∷ [])))
        request)

  unfoldable pub set_archived_handler : Request → Bool → Action P Response
  unfolding with_object change_entry
  set_archived_handler request archived = with_object s request (
      change_entry (λ id email. archive_mail id email archived)
        (λ id.
          codes "Message "
          ++ (int_to_string id ++ (if archived then codes " archived" else codes " unarchived")))
        (λ id. object (
          fields_of (
            (codes "id", int64 id)
            ∷ (codes "archived", boolean archived)
            ∷ (codes "status", text (codes "ok"))
            ∷ [])))
        request)

  unfoldable pub delete_mail_handler : Request → Action P Response
  unfolding with_object change_entry
  delete_mail_handler request = with_object s request (
      change_entry delete_mail (λ id. codes "Message " ++ (int_to_string id ++ codes " deleted"))
        (λ id.
          object
            (fields_of ((codes "id", int64 id) ∷ (codes "status", text (codes "deleted")) ∷ [])))
        request)

  unfoldable pub star_handler : Request → Action P Response
  unfolding set_starred_handler
  star_handler request = set_starred_handler request true

  unfoldable pub unstar_handler : Request → Action P Response
  unfolding set_starred_handler
  unstar_handler request = set_starred_handler request false

  unfoldable pub archive_handler : Request → Action P Response
  unfolding set_archived_handler
  archive_handler request = set_archived_handler request true

  unfoldable pub unarchive_handler : Request → Action P Response
  unfolding set_archived_handler
  unarchive_handler request = set_archived_handler request false

  unfoldable pub fetch_mails : Request → Bytes → Action P Response
  fetch_mails request user_email = do
    log s debug (codes "Fetching mails for " ++ user_email)
    mails ← query (find_mails_for_user user_email)
    pure (
        make_json_response s.json request 200
          (object (fields_of ((codes "mails", array (elements_of mails)) ∷ []))))

  unfoldable pub get_mails_handler : Request → Action P Response
  unfolding fetch_mails
  get_mails_handler request =
      let refused = make_error s.json request 400 (codes "X-User-Email header is required") in
      elim request.user_email [
        | none ↦ pure refused
        | some user_email ↦
            if is_empty user_email then pure refused else fetch_mails request user_email
      ]

-- ===== src/Http/MailStorage/Deleted.antt =====
-- What a listing shows once a message was deleted from a mailbox.
use mail_server_client.Base.{
  ℕ, pos, ◌≡◌, refl, ◌∙◌, ap, true, false, not, ◌&&◌, Option, none, some, List, [], ◌∷◌, Bytes,
  bytes_eq, ◌==◌, Bool-cases, inl, inr, arith,
}
use mail_server_client.Storage.Records.{Actor, Message}
use mail_server_client.Storage.Database.{Db, ok, bind_text}
use mail_server_client.Storage.Database.Laws.{statement-ok, read_run}
use mail_server_client.Storage.Rows.{select, update_where, sort_by}
use mail_server_client.Storage.Actors.{find_by_message_id, change_actors, update_actors}
use mail_server_client.Storage.Actors.Mailbox.{
  is_null, mailbox_where, deleted_set, mark_deleted, or_now,
}
use mail_server_client.Storage.Messages.{find_all, newer_first}
use mail_server_client.Http.Json.{Json}
use mail_server_client.Http.MailStorage.{
  current_actor, push_current, mails_of, find_mails_for_user, by_id, delete_mail,
}

or_now_there : (o : Option Bytes) (now : Bytes) → is_null (or_now o now) ≡ false
unfolding is_null
or_now_there none now = refl
or_now_there (some t) now = refl

current_actor-skip :
    (email : Bytes) (a : Actor) (rows : List Actor)
    → (bytes_eq a.actor_email email && is_null a.deleted_at) ≡ false
    → current_actor email rows ≡ none
    → current_actor email (a ∷ rows) ≡ none
unfolding current_actor
current_actor-skip email a rows h k = rw h k

-- No entry of the message is current for the address any more.
current_actor-deleted :
    (id : ℕ) (email now : Bytes) (rows : List Actor)
    → current_actor email (
        select
          (λ (a : Actor). a.message_id == id)
          (update_where (mailbox_where id email) (deleted_set now) rows))
      ≡ none
unfolding select update_where mailbox_where deleted_set current_actor
current_actor-deleted id email now [] = refl
current_actor-deleted id email now (a ∷ rows) =
    let rest = current_actor-deleted id email now rows in
    ground (arith, rest, or_now_there a.deleted_at now)

-- The entries of the other messages are as they were.
select-other :
    (id other : ℕ) (email now : Bytes) (rows : List Actor)
    → (other == id) ≡ false
    → select
        (λ (a : Actor). a.message_id == other)
        (update_where (mailbox_where id email) (deleted_set now) rows)
      ≡ select (λ (a : Actor). a.message_id == other) rows
unfolding select update_where mailbox_where deleted_set
select-other id other email now [] h = refl
select-other id other email now (a ∷ rows) h =
    let rest = select-other id other email now rows h in ground (arith, rest)

after_deletion :
    (id : ℕ) (email : Bytes) (db db' : Db)
    → mark_deleted id email db ≡ (ok true, db')
    → db'.tables
      ≡ update_actors (mailbox_where id (bind_text email)) (deleted_set db.clock) db.tables
unfolding mark_deleted change_actors
after_deletion id email db db' h =
    let done = statement-ok _ db true db' h in let g = done.worked in cc

-- The mails that an address is shown of these messages, in their order.
pub listing : Bytes → List Actor → List Message → List Json
listing email rows [] = []
listing email rows (m ∷ ms) =
    let actors = select (λ (a : Actor). a.message_id == m.id) rows in
    push_current m actors (current_actor email actors) (listing email rows ms)

abbrev pub others : ℕ → List Message → List Message
others id ms = select (λ (m : Message). not (m.id == id)) ms

listing-others :
    (id : ℕ) (email now : Bytes) (rows : List Actor) (ms : List Message)
    → listing email (update_where (mailbox_where id email) (deleted_set now) rows) ms
      ≡ listing email rows (others id ms)
unfolding listing select
listing-others id email now rows [] = refl
listing-others id email now rows (m ∷ ms) =
    let rest = listing-others id email now rows ms in
    elim (Bool-cases (m.id == id)) [
      | inl e ↦
          let same : m.id ≡ id = ground arith in
          rw (e, same, current_actor-deleted id email now rows) rest
      | inr e ↦ rw (e, select-other id m.id email now rows e, rest) refl
    ]

mails_of_run :
    (email : Bytes) (ms : List Message) (db : Db)
    → db.faults ≡ []
    → mails_of email ms db ≡ (ok (listing email db.tables.actors ms), db)
unfolding mails_of listing find_by_message_id
mails_of_run email [] db h = refl
mails_of_run email (m ∷ ms) db h =
    rw
      (
        read_run (λ t. select (λ (a : Actor). a.message_id == m.id) t.actors) db h,
        mails_of_run email ms db h,
      )
      refl

-- What a listing gives, as one function of the tables.
find_mails_for_user_run :
    (email : Bytes) (db : Db)
    → db.faults ≡ []
    → (find_mails_for_user email db).0
      ≡ ok (listing email db.tables.actors (sort_by newer_first db.tables.messages))
unfolding find_mails_for_user find_all
find_mails_for_user_run email db f =
    rw
      (
        read_run (λ t. sort_by newer_first t.messages) db f,
        mails_of_run email (sort_by newer_first db.tables.messages) db f,
      )
      refl

-- Where the deletion of a message from the mailbox of an address reports that it did so, and nothing is
-- due to fail in the listing behind it, the listing is the one from before without that message: its
-- messages in their order, each with what its other entries say. The address holds no NUL.
pub find_mails_for_user-deleted :
    (id : ℕ) (email : Bytes) (db db' : Db)
    → bind_text email ≡ email
    → delete_mail (pos id) email db ≡ (ok true, db')
    → db'.faults ≡ []
    → (find_mails_for_user email db').0
      ≡ ok (listing email db.tables.actors (others id (sort_by newer_first db.tables.messages)))
unfolding delete_mail by_id find_mails_for_user find_all update_actors
find_mails_for_user-deleted id email db db' n h f =
    let t = after_deletion id email db db' h in
    let g : listing email db'.tables.actors (sort_by newer_first db'.tables.messages)
        ≡ listing email db.tables.actors (others id (sort_by newer_first db.tables.messages)) =
      rw (t, n) (listing-others id email db.clock db.tables.actors _) in
    find_mails_for_user_run email db' f ∙ ap ok g

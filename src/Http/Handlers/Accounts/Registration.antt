-- ===== src/Http/Handlers/Accounts/Registration.antt =====
-- A registration and the login behind it.
use mail_server_client.Base.{
  ℕ, suc, ◌≡◌, refl, ap, ◌∙◌, true, false, ◌||◌, Option, none, some, List, [], ◌∷◌, ◌++◌, Bytes,
  codes, bytes_eq, bytes_eq_refl, arith, ◌==◌,
}
use mail_server_client.Storage.Records.{User, active}
use mail_server_client.Storage.Database.{Db, Tables, Result, ok, err, bind_text}
use mail_server_client.Storage.Database.Laws.{read_run, write_run}
use mail_server_client.Storage.Rows.{select, exists_where, first_row}
use mail_server_client.Storage.Users.{
  insert_user, create_user, find_user_by_id, find_by_email, is_active,
}
use mail_server_client.Http.Json.{Json, Fields}
use mail_server_client.Http.Config.{info}
use mail_server_client.Http.Message.{Request, Response, make_json_response}
use mail_server_client.Http.World.{Services, World, ◌>>=◌, pure, give, caught, try_catch, log}
use mail_server_client.Http.Runs.{run_bind, run_give, run_query, caught_run, log_run}
use mail_server_client.Http.MailStorage.{create_storage_user, user_object, user_or}
use mail_server_client.Http.Handlers.Reading.{read_json_object, read_filled_string}
use mail_server_client.Http.Handlers.Accounts.{
  hash_with, verify_password, hash_password, user_response, register_handler, finish_login,
  login_handler,
}
use mail_server_client.Http.Handlers.Accounts.Password.{
  HexLaws, verify_password-hash, hash_with-bind_text,
}

-- What a request for an account says.
pub record ReadsAs {P : Type 0} (s : Services P) (request : Request) (email password : Bytes)
    : Type 0 where
  pub fields : Fields
  pub document : read_json_object s.json request ≡ ok fields
  pub with_email : read_filled_string fields (codes "email") ≡ ok email
  pub with_password : read_filled_string fields (codes "password") ≡ ok password

-- No user of the table has the name or the address.
abbrev pub IsFree : Bytes → Bytes → Tables → Type 0
IsFree username email t =
    exists_where
      (λ (u : User). bytes_eq u.username (bind_text username) || bytes_eq u.email (bind_text email))
      t.users
    ≡ false

select-new :
    (email username : Bytes) (users : List User) (u : User)
    → exists_where (λ (v : User). bytes_eq v.username username || bytes_eq v.email email) users
      ≡ false
    → bytes_eq u.email email ≡ true
    → first_row (select (λ (v : User). bytes_eq v.email email) (users ++ u ∷ [])) ≡ some u
unfolding select exists_where first_row
select-new email username [] u h k = rw k refl
select-new email username (v ∷ vs) u h k =
    let rest = select-new email username vs u (ground arith) k in
    let no : bytes_eq v.email email ≡ false = ground arith in rw (no, select) rest

-- The user that CREATE makes.
pub new_user : Bytes → Bytes → Bytes → Db → User
new_user username email password_hash db = record {
  id = suc db.tables.last_user;
  username = bind_text username;
  email = bind_text email;
  password_hash = bind_text password_hash;
  status = active;
  created_at = db.clock;
}

record Created (username email password_hash : Bytes) (db : Db) : Type 0 where
  answer : Json
  later : Db
  runs : create_storage_user username email password_hash db ≡ (ok answer, later)
  users : later.tables.users ≡ db.tables.users ++ new_user username email password_hash db ∷ []
  no_faults : later.faults ≡ []

create_run :
    (username email password_hash : Bytes) (db : Db)
    → db.faults ≡ []
    → IsFree username email db.tables
    → Created username email password_hash db
unfolding create_storage_user create_user find_user_by_id insert_user new_user
create_run username email password_hash db f free =
    let t : Tables = record db.tables {
      users = db.tables.users ++ new_user username email password_hash db ∷ [];
      last_user = suc db.tables.last_user;
    } in
    let later = record db { tables = t } in
    let id = suc db.tables.last_user in
    let user = first_row (select (λ (u : User). u.id == id) t.users) in
    let w =
      write_run
        (insert_user (bind_text username) (bind_text email) (bind_text password_hash) db.clock) db
        id t f (rw (free, insert_user) refl) in
    let r = read_run (λ t. first_row (select (λ (u : User). u.id == id) t.users)) later f in
    record {
      answer = user_or user id username email;
      later = later;
      runs = rw (w, r) refl;
      users = refl;
      no_faults = f;
    }

-- The status line that the client reads, where there is an answer.
pub status_of : Result Response → Option ℕ
status_of (ok response) = some response.status
status_of (err e) = none

module _ {P : Type 0} where
  module _ (s : Services P) (request : Request) (email password : Bytes)
      (x : ReadsAs s request email password) where
    finish_run :
        (u : User) (w : World P)
        → is_active u.status ≡ true
        → verify_password s.crypto password u.password_hash ≡ true
        → (finish_login s request email password (some u) w).0
          ≡ ok (
              make_json_response s.json request 200
                (user_response s (user_object u.id u.username u.email)))
    unfolding finish_login give ◌>>=◌ make_json_response
    finish_run u w is_act verified =
        let l = log_run s info (codes "Logged in user " ++ email) w in
        rw (is_act, verified, l.runs, ◌>>=◌) refl

    -- A login against the user that the table has for the address.
    login_run :
        (u : User) (w : World P)
        → w.db.faults ≡ []
        → first_row (select (λ (v : User). bytes_eq v.email (bind_text email)) w.db.tables.users)
          ≡ some u
        → is_active u.status ≡ true
        → verify_password s.crypto password u.password_hash ≡ true
        → (login_handler s request w).0
          ≡ ok (
              make_json_response s.json request 200
                (user_response s (user_object u.id u.username u.email)))
    unfolding login_handler find_by_email try_catch
    login_run u w f row is_act verified =
        let found : find_by_email email w.db ≡ (ok (some u), w.db) =
          read_run
            (λ t. first_row (select (λ (v : User). bytes_eq v.email (bind_text email)) t.users))
            w.db f
          ∙ ap (λ o. (ok o, w.db)) row in
        let answer = finish_run u w is_act verified in
        ap (caught _) (
          ap (λ r. r.0)
            (run_give (read_json_object s.json request) _ x.fields w x.document
              ∙ run_give (read_filled_string x.fields (codes "email")) _ email w x.with_email
              ∙ run_give (read_filled_string x.fields (codes "password")) _ password w
                  x.with_password
              ∙ run_query (find_by_email email) _ (some u) w w.db found)
          ∙ answer)

  module _ (s : Services P) (request : Request) (username email password : Bytes)
      (x : ReadsAs s request email password)
      (named : read_filled_string x.fields (codes "username") ≡ ok username) (w : World P)
      (f : w.db.faults ≡ []) (free : IsFree username email w.db.tables) where
    abbrev hash : Bytes
    hash = hash_with s.crypto (s.crypto.random_block w.blocks) password

    record Registered : Type 0 where
      status : status_of (register_handler s request w).0 ≡ some 201
      users :
          (register_handler s request w).1.db.tables.users
          ≡ w.db.tables.users ++ new_user username email hash w.db ∷ []
      no_faults : (register_handler s request w).1.db.faults ≡ []

    register_run : Registered
    unfolding register_handler hash_password status_of give make_json_response
    register_run =
        let taken : World P = record w { blocks = suc w.blocks } in
        let c = create_run username email hash w.db f free in
        let l =
          log_run s info (codes "Registered user " ++ email) (record taken { db = c.later }) in
        let later = record taken { db = c.later } in
        let answer = make_json_response s.json request 201 (user_response s c.answer) in
        let body =
          run_give (read_json_object s.json request) _ x.fields w x.document
          ∙ run_give (read_filled_string x.fields (codes "username")) _ username w named
          ∙ run_give (read_filled_string x.fields (codes "email")) _ email w x.with_email
          ∙ run_give (read_filled_string x.fields (codes "password")) _ password w x.with_password
          ∙ run_bind (hash_password s password) _ hash w taken refl
          ∙ run_query (create_storage_user username email hash) _ c.answer taken c.later c.runs
          ∙ run_bind (log s info (codes "Registered user " ++ email)) (λ u. pure answer) tt later
              l.later l.runs in
        let all : register_handler s request w ≡ (ok answer, l.later) =
          caught_run _ _ answer w l.later body in
        record {
          status = rw all refl;
          users = rw (all, l.same_db) c.users;
          no_faults = rw (all, l.same_db) c.no_faults;
        }

-- A registration with a free name and a free address, on a connection on which nothing is due to fail,
-- is answered with 201, and the login behind it with the same address and password with 200 and the
-- object of the new user: its id, name and address as they were stored. The hex codec is assumed to
-- give digits only and to be undone by the decoder.
pub register-login :
    {P : Type 0} (s : Services P) (registration login : Request) (username email password : Bytes)
    (x : ReadsAs s registration email password) (y : ReadsAs s login email password) (w : World P)
    → HexLaws s.crypto
    → read_filled_string x.fields (codes "username") ≡ ok username
    → w.db.faults ≡ []
    → IsFree username email w.db.tables
    → (status_of (register_handler s registration w).0 ≡ some 201)
      × ((login_handler s login (register_handler s registration w).1).0
          ≡ ok (
              make_json_response s.json login 200 (
                user_response s (
                  user_object (suc w.db.tables.last_user) (bind_text username) (bind_text email)))))
unfolding new_user is_active
register-login s registration login username email password x y w laws named f free =
    let r = register_run s registration username email password x named w f free in
    let salt = s.crypto.random_block w.blocks in
    let h = hash_with s.crypto salt password in
    let u = new_user username email h w.db in
    let row : first_row (
          select (λ (v : User). bytes_eq v.email (bind_text email))
            (register_handler s registration w).1.db.tables.users)
        ≡ some u =
      rw r.users (
        select-new (bind_text email) (bind_text username) w.db.tables.users u free
          (bytes_eq_refl _)) in
    let verified : verify_password s.crypto password u.password_hash ≡ true =
      rw (hash_with-bind_text s.crypto laws password salt)
        ((verify_password-hash s.crypto laws password salt password).1 refl) in
    (
      r.status,
      login_run s login email password y u (register_handler s registration w).1 r.no_faults row
          refl verified,
    )

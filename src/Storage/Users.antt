-- ===== src/Storage/Users.antt =====
-- libs/mail-storage/src/UserRepository.cpp: the statements on users.
use mail_server_client.Base.{
  ℕ, suc, Bool, true, false, ◌||◌, Option, List, [], ◌∷◌, ◌++◌, Bytes, length, ltb, bytes_eq, ◌==◌,
  if◌then◌else◌,
}
use mail_server_client.Storage.Records.{User, UserStatus, active, disabled}
use mail_server_client.Storage.Database.{
  Tables, Query, Result, ok, err, statement, constraint_failed, bind_text,
}
use mail_server_client.Storage.Rows.{select, update_where, exists_where, first_row}

-- the columns username and email are UNIQUE
unfoldable pub insert_user : Bytes → Bytes → Bytes → Bytes → Tables → Result (ℕ × Tables)
insert_user username email password_hash now t =
    let id = suc t.last_user in
    if exists_where (λ (u : User). bytes_eq u.username username || bytes_eq u.email email) t.users
    then err constraint_failed
    else ok (
      id,
      record t {
        users =
            t.users
            ++ record {
              id = id;
              username = username;
              email = email;
              password_hash = password_hash;
              status = active;
              created_at = now;
            }
              ∷ [];
        last_user = id;
      },
    )

unfoldable pub create_user : Bytes → Bytes → Bytes → Query ℕ
unfolding insert_user
create_user username email password_hash db =
    statement
      (insert_user (bind_text username) (bind_text email) (bind_text password_hash) db.clock) db

-- The first user whom the test accepts.
abbrev pub find_user : (User → Bool) → Query (Option User)
find_user p = statement λ t. ok (first_row (select p t.users), t)

unfoldable pub find_user_by_id : ℕ → Query (Option User)
find_user_by_id user_id = find_user λ u. u.id == user_id

unfoldable pub find_by_email : Bytes → Query (Option User)
find_by_email email = find_user λ u. bytes_eq u.email (bind_text email)

unfoldable pub find_by_username : Bytes → Query (Option User)
find_by_username username = find_user λ u. bytes_eq u.username (bind_text username)

unfoldable pub is_active : UserStatus → Bool
is_active active = true
is_active disabled = false

unfoldable pub find_active_user : Query (Option User)
find_active_user = find_user λ u. is_active u.status

unfoldable pub update_user_status : ℕ → UserStatus → Query Bool
update_user_status user_id status = statement λ t. ok (
  exists_where (λ (u : User). u.id == user_id) t.users,
  record t {
    users =
        update_where (λ (u : User). u.id == user_id) (λ u. record u { status = status }) t.users;
  },
)

-- SELECT COUNT(*) FROM users
unfoldable pub has_users : Query Bool
has_users = statement λ t. ok (ltb 0 (length t.users), t)

unfoldable pub find_all_users : Query (List User)
find_all_users = statement λ t. ok (t.users, t)

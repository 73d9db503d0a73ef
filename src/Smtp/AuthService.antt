-- ===== src/Smtp/AuthService.antt =====
-- apps/smtp-server/src/smtp/AuthService.cpp. The table of users is the pairs of the unordered map;
-- its mutex makes each call one step.
use mail_server_client.Base.{
  ◌≡◌, refl, true, false, Option, none, some, List, [], ◌∷◌, Bytes, bytes_eq, bytes_eq_sound,
  bytes_eq_iff, arith, if◌then◌else◌, inl, inr, Option-cases,
}
use mail_server_client.Smtp.State.{AuthRequest, AuthResult}

abbrev pub UserTable : Type 0
UserTable = List (Bytes × Bytes)

unfoldable pub find_user : Bytes → UserTable → Option Bytes
find_user username [] = none
find_user username ((name, secret) ∷ users) =
    if bytes_eq name username then some secret else find_user username users

-- AddUser: users_[username] = secret
unfoldable pub add_user : Bytes → Bytes → UserTable → UserTable
add_user username secret [] = (username, secret) ∷ []
add_user username secret ((name, old) ∷ users) =
    if bytes_eq name username
    then (name, secret) ∷ users
    else (name, old) ∷ add_user username secret users

abbrev pub refused : AuthResult
refused = record { accepted = false; identity = [] }

unfoldable pub check_secret : AuthRequest → Option Bytes → AuthResult
check_secret request none = refused
check_secret request (some secret) =
    if bytes_eq secret request.secret
    then record { accepted = true; identity = request.username }
    else refused

unfoldable pub authenticate : UserTable → AuthRequest → AuthResult
unfolding check_secret find_user
authenticate users request = check_secret request (find_user request.username users)

pub find_user-add_user :
    (username secret other : Bytes) (users : UserTable)
    → find_user other (add_user username secret users)
      ≡ (if bytes_eq username other then some secret else find_user other users)
unfolding find_user add_user
find_user-add_user username secret other [] = refl
find_user-add_user username secret other ((name, old) ∷ users) = ground (
  arith,
  find_user-add_user username secret other users,
  bytes_eq_iff name username,
  bytes_eq_iff name other,
  bytes_eq_iff username other,
)

-- After AddUser a request of that user is accepted, under that name, when it gives the secret, and is
-- otherwise refused without a name; a request of any other user has the answer that it had before.
pub authenticate-add_user :
    (username secret : Bytes) (users : UserTable) (request : AuthRequest)
    → authenticate (add_user username secret users) request ≡ (
        if bytes_eq username request.username
        then if bytes_eq secret request.secret
          then record { accepted = true; identity = username }
          else record { accepted = false; identity = [] }
        else authenticate users request)
unfolding authenticate check_secret
authenticate-add_user username secret users request =
    rw (find_user-add_user username secret request.username users)
      (ground (arith, bytes_eq_sound username request.username))

-- A name is accepted only with the secret that the table holds for it, and the identity is the name.
pub authenticate-accepted :
    (users : UserTable) (request : AuthRequest)
    → (authenticate users request).accepted ≡ true
    → (find_user request.username users ≡ some request.secret)
      × ((authenticate users request).identity ≡ request.username)
unfolding authenticate
authenticate-accepted users request h = elim (Option-cases (find_user request.username users)) [
  | inl e ↦ let g = rw (e, check_secret) at h in cc
  | inr (secret, e) ↦
      let g = rw (e, check_secret) at h in
      ground (arith, e, g, bytes_eq_sound secret request.secret)
]

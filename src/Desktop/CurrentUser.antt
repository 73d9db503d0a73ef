-- ===== src/Desktop/CurrentUser.antt =====
-- apps/mail-client/models/users/CurrentUser.cpp, as compiled off Windows. The files are Qt's: which
-- paths there are, whether a copy to a path succeeds, and where the data of the application stand.
-- Signals are recorded.
use mail_server_client.Base.{
  ℕ, Bool, true, false, not, ◌&&◌, ◌||◌, List, [], ◌∷◌, ◌++◌, Bytes, codes, bytes_eq, drop, take,
  length, is_empty, if◌then◌else◌,
}

pub data Signal : Type 0 where
  profile_changed authorization_changed account_added : Signal
  data_changed active_account_changed : ℕ → Signal

pub record Profile : Type 0 where
  pub is_authorized : Bool
  pub username : Bytes
  pub email : Bytes
  pub avatar_path : Bytes

pub record Files : Type 0 where
  pub exists : Bytes → Bool
  pub copies : Bytes → Bytes → Bool
  pub app_data : Bytes

abbrev pub signed_out : Profile
signed_out = record { is_authorized = false; username = []; email = []; avatar_path = [] }

-- startsWith
unfoldable pub has_prefix : Bytes → Bytes → Bool
has_prefix prefix path = bytes_eq (take (length prefix) path) prefix

unfoldable pub clean_path : Bytes → Bytes
unfolding has_prefix
clean_path path = if has_prefix (codes "file:///") path then drop 8 path else path

unfoldable pub update_avatar_path : Files → Bytes → Profile → Profile × List Signal
unfolding clean_path
update_avatar_path files new_path p =
    let path = clean_path new_path in
    let target = files.app_data ++ codes "/current_user_avatar.png" in
    if is_empty path || not (files.exists path) then (p, []) else (
      record p { avatar_path = if files.copies path target then target else path },
      profile_changed ∷ [],
    )

unfoldable pub authorize : Files → Bytes → Bytes → Bytes → Profile → Profile × List Signal
unfolding update_avatar_path
authorize files username email avatar_path p =
    let named = record p { username = username; email = email; is_authorized = true } in
    let updated = update_avatar_path files avatar_path named in
    if bytes_eq p.username username
      && (bytes_eq p.email email && (bytes_eq p.avatar_path avatar_path && p.is_authorized))
    then (p, [])
    else if not (is_empty avatar_path)
    then (updated.0, updated.1 ++ authorization_changed ∷ [])
    else (record named { avatar_path = [] }, profile_changed ∷ authorization_changed ∷ [])

unfoldable pub logout : Profile → Profile × List Signal
logout p =
    if not p.is_authorized
    then (p, [])
    else (signed_out, profile_changed ∷ authorization_changed ∷ [])

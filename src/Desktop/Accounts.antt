-- ===== src/Desktop/Accounts.antt =====
-- apps/mail-client/models/users/AccountListModel.cpp over UserRepository.
pub mod Active
use mail_server_client.Base.{
  ℕ, zero, suc, ℤ, pos, negsuc, ◌+◌, Bool, true, false, Option, none, some, List, [], ◌∷◌, ◌++◌,
  Bytes, codes, is_empty, length, ltb, map, ◌==◌, if◌then◌else◌,
}
use mail_server_client.Storage.Records.{User, UserStatus, active, disabled}
use mail_server_client.Storage.Database.{Db, Query, Result, ok, err, ◌>>=◌, pure}
use mail_server_client.Storage.Users.{find_by_email, update_user_status, find_all_users, is_active}
use mail_server_client.Desktop.CurrentUser.{
  Profile, Files, Signal, account_added, data_changed, active_account_changed, authorize,
}

pub record Account : Type 0 where
  pub account_name : Bytes
  pub account_email : Bytes
  pub avatar_url : Bytes
  pub avatar_color : Bytes
  pub avatar_initial : Bytes
  pub is_active : Bool

pub record Model : Type 0 where
  pub accounts : List Account
  pub db : Db
  pub profile : Profile
  pub signals : List Signal

pub data Role : Type 0 where
  account_name_role account_email_role avatar_url_role avatar_color_role avatar_initial_role
        is_active_role other_role :
      Role

pub data Value : Type 0 where
  text : Bytes → Value
  truth : Bool → Value
  no_value : Value

-- What QVariant makes of a value, where it is not one already, is Qt's.
pub record Conversions : Type 0 where
  pub to_text : Value → Bytes
  pub to_bool : Value → Bool
  -- account_name.at(0).toUpper()
  pub initial : Bytes → Bytes

unfoldable pub nth : ℕ → List Account → Option Account
nth n [] = none
nth zero (a ∷ bs) = some a
nth (suc n) (a ∷ bs) = nth n bs

unfoldable pub change_nth : ℕ → (Account → Account) → List Account → List Account
change_nth n f [] = []
change_nth zero f (a ∷ bs) = f a ∷ bs
change_nth (suc n) f (a ∷ bs) = a ∷ change_nth n f bs

-- data, at a valid index
abbrev pub value_at : Role → Account → Value
value_at account_name_role a = text a.account_name
value_at account_email_role a = text a.account_email
value_at avatar_url_role a = text a.avatar_url
value_at avatar_color_role a = text a.avatar_color
value_at avatar_initial_role a = text a.avatar_initial
value_at is_active_role a = truth a.is_active
value_at other_role a = no_value

unfoldable pub data_at : ℤ → Role → Model → Value
unfolding nth
data_at (pos row) role m = elim (nth row m.accounts) [ none ↦ no_value | some a ↦ value_at role a ]
data_at (negsuc n) role m = no_value

abbrev pub set_value : Conversions → Value → Role → Account → Account
set_value q v account_name_role a = record a { account_name = q.to_text v }
set_value q v account_email_role a = record a { account_email = q.to_text v }
set_value q v avatar_url_role a = record a { avatar_url = q.to_text v }
set_value q v avatar_color_role a = record a { avatar_color = q.to_text v }
set_value q v avatar_initial_role a = record a { avatar_initial = q.to_text v }
set_value q v is_active_role a = record a { is_active = q.to_bool v }
set_value q v other_role a = a

abbrev pub is_known : Role → Bool
is_known other_role = false
is_known _ = true

unfoldable pub set_data : Conversions → ℤ → Value → Role → Model → Bool × Model
unfolding change_nth
set_data q (negsuc n) v role m = (false, m)
set_data q (pos row) v role m =
    if ltb row (length m.accounts)
    then if is_known role
      then (
        true,
        record m {
          accounts = change_nth row (set_value q v role) m.accounts;
          signals = m.signals ++ data_changed row ∷ [];
        },
      )
      else (false, m)
    else (false, m)

unfoldable pub add_data : Account → Model → Model
add_data a m = record m {
  accounts = m.accounts ++ a ∷ [];
  signals = m.signals ++ account_added ∷ [];
}

unfoldable pub remove_nth : ℕ → List Account → List Account
remove_nth n [] = []
remove_nth zero (a ∷ bs) = bs
remove_nth (suc n) (a ∷ bs) = a ∷ remove_nth n bs

unfoldable pub remove_account : ℤ → Model → Bool × Model
unfolding remove_nth
remove_account (negsuc n) m = (false, m)
remove_account (pos row) m =
    if ltb row (length m.accounts)
    then (true, record m { accounts = remove_nth row m.accounts })
    else (false, m)

abbrev pub same_bool : Bool → Bool → Bool
same_bool true b = b
same_bool false true = false
same_bool false false = true

abbrev pub status_for : Bool → UserStatus
status_for true = active
status_for false = disabled

abbrev pub store_for : Bool → Option User → Query (Unit {0})
store_for should_be_active none = pure tt
store_for should_be_active (some user) =
    update_user_status user.id (status_for should_be_active) >>= λ changed. pure tt

-- repo.FindByEmail and repo.UpdateStatus
unfoldable pub store_status : Bytes → Bool → Query (Unit {0})
store_status email should_be_active = find_by_email email >>= store_for should_be_active

-- What an account that changes does to the model beside the list.
unfoldable pub announce : Files → ℕ → Account → Model → Model
unfolding authorize
announce files i a m =
    let signed = authorize files a.account_name a.account_email a.avatar_url m.profile in
    if a.is_active
    then record m { profile = signed.0; signals = m.signals ++ (signed.1 ++ data_changed i ∷ []) }
    else record m { signals = m.signals ++ data_changed i ∷ [] }

pub record Activated : Type 0 where
  pub result : Result (Unit {0})
  pub accounts : List Account
  pub model : Model

abbrev pub behind : Account → Activated → Activated
behind a r = record r { accounts = a ∷ r.accounts }

abbrev pub stored : Result (Unit {0}) → Account → List Account → Activated → Model → Activated
stored (ok u) a bs rest m = behind a rest
stored (err e) a bs rest m = record { result = err e; accounts = a ∷ bs; model = m }

-- The loop of SetActiveAccount from index `i` on; the accounts in front of it are the caller's.
unfoldable pub activate : Files → ℕ → ℕ → List Account → Model → Activated
unfolding store_status announce
activate files row i [] m = record { result = ok tt; accounts = []; model = m }
activate files row i (a ∷ bs) m =
    let should_be_active = i == row in
    let changed = record a { is_active = should_be_active } in
    let query = store_status a.account_email should_be_active m.db in
    let after = record m { db = query.1 } in
    let kept = activate files row (suc i) bs m in
    let rest = activate files row (suc i) bs (announce files i changed after) in
    if same_bool a.is_active should_be_active
    then behind a kept
    else stored query.0 changed bs rest after

-- What an exception leaves is kept with it.
abbrev pub answered : ℕ → Activated → Result (Unit {0}) → Result Bool × Model
answered row r (ok u) =
    let left = record r.model { accounts = r.accounts } in
    (ok true, record left { signals = left.signals ++ active_account_changed row ∷ [] })
answered row r (err e) = (err e, record r.model { accounts = r.accounts })

unfoldable pub set_active_account : Files → ℤ → Model → Result Bool × Model
unfolding activate
set_active_account files (negsuc n) m = (ok false, m)
set_active_account files (pos row) m =
    let r = activate files row 0 m.accounts m in
    if ltb row (length m.accounts) then answered row r r.result else (ok false, m)

-- ActiveAccountRow; `none` is -1
unfoldable pub active_row_from : ℕ → List Account → Option ℕ
active_row_from i [] = none
active_row_from i (a ∷ bs) = if a.is_active then some i else active_row_from (suc i) bs

unfoldable pub active_account_row : Model → Option ℕ
unfolding active_row_from
active_account_row m = active_row_from 0 m.accounts

unfoldable pub add_account :
    Files → Bytes → Bytes → Bytes → Bytes → Bytes → Bool → Model → Result Bool × Model
unfolding add_data set_active_account
add_account files name email avatar_url avatar_color avatar_initial is_active m =
    let item : Account = record {
      account_name = name;
      account_email = email;
      avatar_url = avatar_url;
      avatar_color = avatar_color;
      avatar_initial = avatar_initial;
      is_active = false;
    } in
    let added = add_data item m in
    if is_active then set_active_account files (pos (length m.accounts)) added else (ok true, added)

unfoldable pub account_of : Conversions → User → Account
account_of q user = record {
  account_name = user.username;
  account_email = user.email;
  avatar_url = [];
  avatar_color = codes "#3b82f6";
  avatar_initial = if is_empty user.username then codes "?" else q.initial user.username;
  is_active = false;
}

-- saved_active_row behind the loop: the last user that is active
unfoldable pub saved_active_row : ℕ → Option ℕ → List User → Option ℕ
unfolding is_active
saved_active_row i found [] = found
saved_active_row i found (user ∷ users) =
    saved_active_row (suc i) (if is_active user.status then some i else found) users

abbrev pub row_or_first : Option ℕ → ℤ
row_or_first none = pos 0
row_or_first (some row) = pos row

abbrev pub loaded : Conversions → Files → Result (List User) → Model → Result Bool × Model
loaded q files (err e) m = (err e, m)
loaded q files (ok []) m = (ok true, m)
loaded q files (ok (user ∷ users)) m =
    set_active_account files (row_or_first (saved_active_row 0 none (user ∷ users)))
      (record m { accounts = map (account_of q) (user ∷ users) })

unfoldable pub load_from_database : Conversions → Files → Model → Result Bool × Model
unfolding account_of saved_active_row set_active_account
load_from_database q files m =
    let read = find_all_users m.db in
    loaded q files read.0 (record m { accounts = []; db = read.1 })

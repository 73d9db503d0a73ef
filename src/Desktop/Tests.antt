-- ===== src/Desktop/Tests.antt =====
-- The theorems on the models of the mail client, at nine mails and two accounts.
mod Caches
use mail_server_client.Base.{
  ℕ, pos, ◌<◌, ◌/◌, ◌≡◌, ◌↔◌, refl, Bool, true, false, none, some, List, [], ◌∷◌, Bytes, codes,
  bytes_eq, arith,
}
use mail_server_client.Storage.Records.{User, UserStatus, active, disabled}
use mail_server_client.Storage.Database.{Db, ok, statement, bind_text}
use mail_server_client.Storage.Users.{find_by_email, update_user_status}
use mail_server_client.Storage.Rows.{first_row, select, update_where}
use mail_server_client.Desktop.Pages.{
  new_pages, filter_accepts_row, page_count_of, next_page, recalc_values,
}
use mail_server_client.Desktop.Pages.Bounds.{
  Move, to_next, to_rows, move, moves, Inv, moves-Inv, moves-row,
}
use mail_server_client.Desktop.CurrentUser.{
  Files, signed_out, authorize, update_avatar_path, clean_path, has_prefix,
}
use mail_server_client.Desktop.Accounts.{
  Account, Model, store_status, announce, activate, set_active_account,
}
use mail_server_client.Desktop.Accounts.Active.{Active, set_active_account-Active}

abbrev turns : List Move
turns = to_rows (some 9) ∷ to_next ∷ to_next ∷ []

moves-Inv_example : Inv (moves turns new_pages)
moves-Inv_example = moves-Inv turns

nine : (moves turns new_pages).emails_count ≡ 9
unfolding moves move recalc_values next_page page_count_of
nine = refl

moves-row_example :
    (8 / 8 < (moves turns new_pages).page_count)
    × ((filter_accepts_row (moves turns new_pages) 8 ≡ true)
        ↔ ((moves turns new_pages).current_page ≡ 8 / 8))
moves-row_example = moves-row turns 8 (omega (arith, nine))

abbrev user : ℕ → Bytes → UserStatus → User
user id email status = record {
  id = id;
  username = codes "a";
  email = email;
  password_hash = [];
  created_at = [];
  status = status;
}

abbrev users_db : Db
users_db = record {
  tables = record {
    messages = [];
    actors = [];
    users = user 1 (codes "a@b") active ∷ user 2 (codes "c@d") disabled ∷ [];
    last_message = 0;
    last_actor = 0;
    last_user = 2;
  };
  saved = none;
  faults = [];
  clock = [];
}

abbrev account : Bytes → Bool → Account
account email is_active = record {
  account_name = codes "a";
  account_email = email;
  avatar_url = [];
  avatar_color = [];
  avatar_initial = [];
  is_active = is_active;
}

abbrev files : Files
files = record { exists = λ path. false; copies = λ path target. false; app_data = [] }

abbrev model : Model
model = record {
  accounts = account (codes "a@b") true ∷ account (codes "c@d") false ∷ [];
  db = users_db;
  profile = signed_out;
  signals = [];
}

activated :
    set_active_account files (pos 1) model ≡ (ok true, (set_active_account files (pos 1) model).1)
unfolding set_active_account activate store_status announce authorize find_by_email
    update_user_status update_avatar_path clean_path has_prefix bytes_eq bind_text statement
    first_row select update_where
activated = refl

set_active_account-Active_example : Active 1 model (set_active_account files (pos 1) model).1
set_active_account-Active_example = set_active_account-Active files 1 model _ activated

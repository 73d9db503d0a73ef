-- ===== src/Desktop/Accounts/Active.antt =====
-- Which account is active.
use mail_server_client.Base.{
  ℕ, suc, pos, ◌+◌, ◌<◌, ◌≤◌, ◌≡◌, refl, sym, ap, ◌∙◌, Bool, true, false, some, List, [], ◌∷◌,
  length, ltb, ◌==◌, Bool-cases, inl, inr, arith,
}
use mail_server_client.Storage.Database.{Result, ok, err}
use mail_server_client.Desktop.CurrentUser.{Files}
use mail_server_client.Desktop.Accounts.{
  Account, Model, Activated, stored, answered, same_bool, store_status, announce, activate,
  set_active_account, active_row_from, active_account_row,
}

-- The accounts from index `i` on, with the one of the row active and no other.
pub marked : ℕ → ℕ → List Account → List Account
marked row i [] = []
marked row i (a ∷ bs) = record a { is_active = i == row } ∷ marked row (suc i) bs

same_bool-eq : (b c : Bool) → same_bool b c ≡ true → b ≡ c
same_bool-eq true true h = refl
same_bool-eq true false h = cc
same_bool-eq false true h = cc
same_bool-eq false false h = refl

stored_ok :
    (r : Result (Unit {0})) (a : Account) (bs : List Account) (rest : Activated) (m : Model)
    → (stored r a bs rest m).result ≡ ok tt
    → (rest.result ≡ ok tt) × ((stored r a bs rest m).accounts ≡ a ∷ rest.accounts)
stored_ok (ok u) a bs rest m h = (h, refl)
stored_ok (err e) a bs rest m h = cc

-- A loop that comes to its end has marked the accounts.
activate-marked :
    (files : Files) (row i : ℕ) (bs : List Account) (m : Model)
    → (activate files row i bs m).result ≡ ok tt
    → (activate files row i bs m).accounts ≡ marked row i bs
unfolding activate marked
activate-marked files row i [] m h = refl
activate-marked files row i (a ∷ bs) m h = elim (Bool-cases (same_bool a.is_active (i == row))) [
  | inl e ↦
      let same = same_bool-eq a.is_active (i == row) e in
      let rest = activate-marked files row (suc i) bs m (rw (e, activate) at h) in
      let first : a ≡ record a { is_active = i == row } =
        ap (λ b. record a { is_active = b }) same in
      rw (e, activate)
        (ap (λ x. x ∷ (activate files row (suc i) bs m).accounts) first
          ∙ ap (λ l. record a { is_active = i == row } ∷ l) rest)
  | inr e ↦
      let changed = record a { is_active = i == row } in
      let query = store_status a.account_email (i == row) m.db in
      let after = record m { db = query.1 } in
      let later = activate files row (suc i) bs (announce files i changed after) in
      let g : (stored query.0 changed bs later after).result ≡ ok tt = rw (e, activate) at h in
      let (ended, all) = stored_ok query.0 changed bs later after g in
      rw (e, activate) (all ∙ ap (λ l. changed ∷ l) (activate-marked files row (suc i) bs _ ended))
]

-- The row that is marked is the one that is found.
active_row_from-marked :
    (row i : ℕ) (bs : List Account)
    → i ≤ row
    → row < i + length bs
    → active_row_from i (marked row i bs) ≡ some row
unfolding active_row_from marked
active_row_from-marked row i [] h k = absurd (omega (arith, h, k))
active_row_from-marked row i (a ∷ bs) h k = elim (Bool-cases (i == row)) [
  | inl e ↦ let same : i ≡ row = ground arith in rw (e, active_row_from) (ap some same)
  | inr e ↦
      let less : suc i ≤ row = ground arith in
      rw (e, active_row_from) (active_row_from-marked row (suc i) bs less (omega (arith, k)))
]

-- What a call that has activated a row leaves.
pub record Active (row : ℕ) (m m' : Model) : Type 0 where
  pub accounts : m'.accounts ≡ marked row 0 m.accounts
  pub found : active_account_row m' ≡ some row

answered-ok :
    (row : ℕ) (r : Activated) (q : Result (Unit {0})) (m' : Model)
    → answered row r q ≡ (ok true, m')
    → (q ≡ ok tt) × (m'.accounts ≡ r.accounts)
answered-ok row r (ok u) m' h = (refl, sym (ap (λ x. x.1.accounts) h))
answered-ok row r (err e) m' h = let g = ap (λ x. x.0) h in cc

ended :
    (files : Files) (row : ℕ) (m m' : Model)
    → set_active_account files (pos row) m ≡ (ok true, m')
    → (row < length m.accounts)
      × ((activate files row 0 m.accounts m).result ≡ ok tt)
      × (m'.accounts ≡ (activate files row 0 m.accounts m).accounts)
unfolding set_active_account
ended files row m m' h = elim (Bool-cases (ltb row (length m.accounts))) [
  | inl e ↦
      let r = activate files row 0 m.accounts m in
      let g : answered row r r.result ≡ (ok true, m') = rw (e) at h in
      let (done, same) = answered-ok row r r.result m' g in (ground arith, done, same)
  | inr e ↦
      let g : (ok false, m) ≡ (ok true, m') = rw (e) at h in
      let k : ok false ≡ ok true = ap (λ (x : Result Bool × Model). x.0) g in cc
]

-- Where the activation of a row reports success, that account is active and no other is, the accounts
-- are otherwise as before, and the row is the one that ActiveAccountRow finds.
pub set_active_account-Active :
    (files : Files) (row : ℕ) (m m' : Model)
    → set_active_account files (pos row) m ≡ (ok true, m')
    → Active row m m'
unfolding active_account_row
set_active_account-Active files row m m' h =
    let (less, done, same) = ended files row m m' h in
    let accounts = same ∙ activate-marked files row 0 m.accounts m done in
    record {
      accounts = accounts;
      found =
          ap (active_row_from 0) accounts
          ∙ active_row_from-marked row 0 m.accounts (omega arith) (omega (arith, less));
    }

-- ===== src/Storage/Migrations/Contents.antt =====
-- MigrationRunner.cpp: what each migration of a plan has from its file.
use mathlib.Core.List.{Perm}
use mathlib.Core.List.Perm
use mathlib.Core.Path.{subst}
use native.Mathlib.Numerals.{unary_clauses}
use mail_server_client.Base.{
  ℕ, suc, ◌≤◌, ◌+◌, ◌-◌, ◌*◌, ◌^◌, ◌≡◌, refl, sym, ap, ◌∙◌, Bool, true, false, not, ◌&&◌, ◌||◌,
  List, [], ◌∷◌, ◌++◌, Bytes, length, ltb, leb, ◌==◌, Bool-cases, Option-cases, inl, inr, All,
  if_elim, if◌then◌else◌, arith, bytes_eq, find_byte, find_byte-IsSplit, take, drop, codes,
  is_empty, Option, none, some, bytes_eq_sound,
}
use mail_server_client.Storage.Database.{Result, ok, err}
use mail_server_client.Storage.Rows.{insert_by, sort_by, select}
use mail_server_client.Storage.Migrations.Files.{
  Migration, Entry, Directory, version_of, parse_version, is_script, push, collect, all_digits,
  decimal, last_dot, extension,
}

pub IsDigit : ℕ → Type 0
IsDigit c = (b'0' ≤ c) × (c ≤ b'9')

-- The number that decimal digits write.
pub place_value : Bytes → ℕ
place_value [] = 0
place_value (c ∷ cs) = (c - b'0') * 10 ^ length cs + place_value cs

-- The name is digits that write the version, an underscore, and more.
pub record Names (name : Bytes) (version : ℕ) : Type 0 where
  pub digits : Bytes
  pub behind : Bytes
  pub whole : name ≡ digits ++ b'_' ∷ behind
  pub are_digits : All IsDigit digits
  pub value : version ≡ place_value digits

pub ends_in : Bytes → Bytes → Bool
ends_in suffix [] = is_empty suffix
ends_in suffix (c ∷ cs) = bytes_eq (c ∷ cs) suffix || ends_in suffix cs

-- A regular file whose name is something and `.sql`.
pub is_sql_file : Entry → Bool
is_sql_file e = e.is_regular_file && ends_in (codes ".sql") (drop 1 e.name)

-- The migration is the one of the file.
pub record Stands (m : Migration) (e : Entry) : Type 0 where
  pub name : m.name ≡ e.name
  pub path : m.path ≡ e.path
  pub version : Names e.name m.version

-- One after the other, the migrations are those of the files.
pub StandFor : List Migration → List Entry → Type 0
StandFor [] [] = Unit
StandFor [] (e ∷ es) = ⊥
StandFor (m ∷ ms) [] = ⊥
StandFor (m ∷ ms) (e ∷ es) = Stands m e × StandFor ms es

all_digits-IsDigit : (cs : Bytes) → all_digits cs ≡ true → All IsDigit cs
unfolding IsDigit
all_digits-IsDigit [] h = tt
all_digits-IsDigit (c ∷ cs) h =
    let rest = all_digits-IsDigit cs in ((ground arith, ground arith), rest (ground arith))

distributed : (n x p v : ℕ) → (n * 10 + x) * p + v ≡ n * (p * 10) + (x * p + v)
distributed n x p v = omega arith

decimal-place_value : (n : ℕ) (cs : Bytes) → decimal n cs ≡ n * 10 ^ length cs + place_value cs
unfolding decimal place_value
decimal-place_value n [] = omega arith
decimal-place_value n (c ∷ cs) =
    decimal-place_value (n * 10 + (c - b'0')) cs
    ∙ simp unary_clauses (distributed n (c - b'0') (10 ^ length cs) (place_value cs))

version_of-same : (filename : Bytes) (n v : ℕ) → version_of filename n ≡ ok v → n ≡ v
unfolding version_of
version_of-same filename n v h = elim (Bool-cases (ltb (2 ^ 63 - 1) n)) [
  | inl e ↦ let g = rw (e, version_of) at h in cc
  | inr e ↦ elim (Bool-cases (n == 0 || ltb 2147483647 n)) [
    | inl b ↦ let g = rw (e, b, version_of) at h in cc
    | inr b ↦ let g : ok n ≡ ok v = rw (e, b, version_of) at h in cc
  ]
]

pub parse_version-Names :
    (filename : Bytes) (v : ℕ) → parse_version filename ≡ ok v → Names filename v
unfolding parse_version
parse_version-Names filename v h = elim (Option-cases (find_byte b'_' filename)) [
  | inl e ↦ let g = rw (e, parse_version) at h in cc
  | inr (i, e) ↦
      let bad =
        i == 0
        || (leb (length filename) (i + 5)
            || not (bytes_eq (drop (length filename - 4) filename) (codes ".sql"))) in
      elim (Bool-cases bad) [
        | inl b ↦ let g = rw (e, b, parse_version) at h in cc
        | inr b ↦ elim (Bool-cases (all_digits (take i filename))) [
          | inr d ↦ let g = rw (e, b, d, parse_version) at h in cc
          | inl d ↦
              let digits = take i filename in
              let same =
                version_of-same filename (decimal 0 digits) v (rw (e, b, d, parse_version) at h) in
              record {
                digits = digits;
                behind = drop (suc i) filename;
                whole = (find_byte-IsSplit b'_' filename i e).joined;
                are_digits = all_digits-IsDigit digits d;
                value = let read = decimal-place_value 0 digits in omega (arith, same, read);
              }
        ]
      ]
]

ends_so : Option Bytes → Bool
ends_so none = false
ends_so (some rest) = bytes_eq rest (codes ".sql")

dot_behind :
    (c : ℕ) (cs rest : Bytes) → last_dot cs ≡ some rest → bytes_eq (c ∷ cs) (codes ".sql") ≡ false
unfolding last_dot bytes_eq
dot_behind c cs rest h = elim (Bool-cases (bytes_eq (c ∷ cs) (codes ".sql"))) [
  | inr e ↦ e
  | inl e ↦
      let same : cs ≡ codes "sql" = ap (drop 1) (bytes_eq_sound (c ∷ cs) (codes ".sql") e) in
      let g = sym h ∙ ap last_dot same in cc
]

other_start : (c : ℕ) (cs : Bytes) → c == b'.' ≡ false → bytes_eq (c ∷ cs) (codes ".sql") ≡ false
unfolding bytes_eq
other_start c cs h = rw (h) refl

or-nothing : (b : Bool) → b || false ≡ b
or-nothing true = refl
or-nothing false = refl

ends_in-last_dot : (cs : Bytes) → ends_in (codes ".sql") cs ≡ ends_so (last_dot cs)
unfolding ends_in last_dot ends_so
ends_in-last_dot [] = refl
ends_in-last_dot (c ∷ cs) = elim (Option-cases (last_dot cs)) [
  | inr (rest, e) ↦ rw (dot_behind c cs rest e, e) (ends_in-last_dot cs ∙ ap ends_so e)
  | inl e ↦ elim (Bool-cases (c == b'.')) [
    | inl d ↦ rw (e, d, ends_in-last_dot cs ∙ ap ends_so e) (or-nothing _)
    | inr d ↦ rw (other_start c cs d, e, d) (ends_in-last_dot cs ∙ ap ends_so e)
  ]
]

extension-ends :
    (name : Bytes) → bytes_eq (extension name) (codes ".sql") ≡ ends_in (codes ".sql") (drop 1 name)
unfolding extension bytes_eq ends_in ends_so
extension-ends [] = refl
extension-ends (c ∷ cs) = elim (Option-cases (last_dot cs)) [
  | inl e ↦ rw (e, extension) (sym (ends_in-last_dot cs ∙ ap ends_so e))
  | inr (rest, e) ↦ rw (e, extension) (sym (ends_in-last_dot cs ∙ ap ends_so e))
]

is_script_iff : (e : Entry) → is_script e ≡ is_sql_file e
unfolding is_script is_sql_file
is_script_iff e = ap (λ b. e.is_regular_file && b) (extension-ends e.name)

pub scripts_are_sql_files : (es : List Entry) → select is_script es ≡ select is_sql_file es
unfolding select
scripts_are_sql_files [] = refl
scripts_are_sql_files (e ∷ es) =
    rw (is_script_iff e)
      (ap (λ rest. if is_sql_file e then e ∷ rest else rest) (scripts_are_sql_files es))

push-StandFor :
    (e : Entry) (v : Result ℕ) (r : Result (List Migration)) (ms : List Migration) (es : List Entry)
    → ((n : ℕ) → v ≡ ok n → Names e.name n)
    → ((ns : List Migration) → r ≡ ok ns → StandFor ns es)
    → push e v r ≡ ok ms
    → StandFor ms (e ∷ es)
unfolding StandFor
push-StandFor e (err x) r ms es h k g = cc
push-StandFor e (ok n) (err x) ms es h k g = cc
push-StandFor e (ok n) (ok ns) ms es h k g =
    let same : record { version = n; name = e.name; path = e.path } ∷ ns ≡ ms = cc in
    subst (λ l. StandFor l (e ∷ es)) same
      (record { name = refl; path = refl; version = h n refl }, k ns refl)

pub collect-StandFor :
    (d : Directory) (es : List Entry) (ms : List Migration)
    → collect d es ≡ ok ms
    → StandFor ms (select is_script es)
unfolding collect select StandFor
collect-StandFor d [] ms h = elim (Bool-cases d.fails) [
  | inl e ↦ let g = rw e at h in cc
  | inr e ↦
      let g : ok [] ≡ ok ms = rw e at h in
      let same : [] ≡ ms = cc in subst (λ (l : List Migration). StandFor l []) same tt
]
collect-StandFor d (e ∷ es) ms h =
    let rest = collect-StandFor d es in
    elim (Bool-cases (is_script e)) [
      | inl b ↦
          rw (b, select)
            (push-StandFor e (parse_version e.name) (collect d es) ms (select is_script es)
              (parse_version-Names e.name) rest (rw (b, collect) at h))
      | inr b ↦ rw (b, select) (rest ms (rw (b, collect) at h))
    ]

module _ {A : Type 0} (le : A → A → Bool) where
  insert_by-perm : (x : A) (xs : List A) → Perm (insert_by le x xs) (x ∷ xs)
  unfolding insert_by
  insert_by-perm x [] = Perm.rfl
  insert_by-perm x (y ∷ ys) =
      if_elim (λ l. Perm l (x ∷ y ∷ ys)) (le x y) _ _ (λ e. Perm.rfl)
        (λ e. Perm.trans (Perm.cons y (insert_by-perm x ys)) (Perm.swap x y ys))

  -- ORDER BY and std::sort keep the elements.
  pub sort_by-perm : (xs : List A) → Perm (sort_by le xs) xs
  unfolding sort_by
  sort_by-perm [] = Perm.rfl
  sort_by-perm (x ∷ xs) =
      Perm.trans (insert_by-perm x (sort_by le xs)) (Perm.cons x (sort_by-perm xs))

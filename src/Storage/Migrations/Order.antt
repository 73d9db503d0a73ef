-- ===== src/Storage/Migrations/Order.antt =====
-- What a plan of migrations that was loaded is like.
use mail_server_client.Base.{
  ℕ, ◌≤◌, ◌<◌, ◌+◌, ◌-◌, ◌^◌, ◌≡◌, refl, true, false, not, ◌||◌, List, [], ◌∷◌, Bytes, length, ltb,
  leb, ◌==◌, Bool-cases, Option-cases, inl, inr, All, if_elim, arith, bytes_eq, find_byte, take,
  drop, codes,
}
use mathlib.Core.List.{Perm}
use mathlib.Core.Path.{subst}
use mail_server_client.Storage.Database.{Result, ok, err}
use mail_server_client.Storage.Rows.{insert_by, sort_by, select}
use mail_server_client.Storage.Migrations.Files.{
  Migration, Entry, Directory, version_of, parse_version, is_script, push, collect, migration_le,
  check_duplicates, checked, sorted_and_checked, load_migrations, all_digits, decimal,
}
use mail_server_client.Storage.Migrations.Contents.{
  StandFor, is_sql_file, scripts_are_sql_files, collect-StandFor, sort_by-perm,
}

pub IsVersion : ℕ → Type 0
IsVersion n = (1 ≤ n) × (n ≤ 2147483647)

-- Versions that go up from `lo`, and ones that go up strictly.
pub FromUp : ℕ → List Migration → Type 0
FromUp lo [] = Unit
FromUp lo (m ∷ ms) = (lo ≤ m.version) × FromUp m.version ms

pub StrictlyUp : ℕ → List Migration → Type 0
StrictlyUp lo [] = Unit
StrictlyUp lo (m ∷ ms) = (lo < m.version) × StrictlyUp m.version ms

version_of-IsVersion : (filename : Bytes) (n v : ℕ) → version_of filename n ≡ ok v → IsVersion v
unfolding version_of IsVersion
version_of-IsVersion filename n v h = elim (Bool-cases (ltb (2 ^ 63 - 1) n)) [
  | inl e ↦ let g = rw (e, version_of) at h in cc
  | inr e ↦ elim (Bool-cases (n == 0 || ltb 2147483647 n)) [
    | inl b ↦ let g = rw (e, b, version_of) at h in cc
    | inr b ↦
        let g : ok n ≡ ok v = rw (e, b, version_of) at h in
        let same : n ≡ v = cc in (ground arith, ground arith)
  ]
]

parse_version-IsVersion : (filename : Bytes) (v : ℕ) → parse_version filename ≡ ok v → IsVersion v
unfolding parse_version
parse_version-IsVersion filename v h = elim (Option-cases (find_byte b'_' filename)) [
  | inl e ↦ let g = rw (e, parse_version) at h in cc
  | inr (i, e) ↦
      let bad =
        i == 0
        || (leb (length filename) (i + 5)
            || not (bytes_eq (drop (length filename - 4) filename) (codes ".sql"))) in
      elim (Bool-cases bad) [
        | inl b ↦ let g = rw (e, b, parse_version) at h in cc
        | inr b ↦ elim (Bool-cases (all_digits (take i filename))) [
          | inr d ↦ let g = rw (e, b, d, parse_version) at h in cc
          | inl d ↦
              version_of-IsVersion filename (decimal 0 (take i filename)) v
                (rw (e, b, d, parse_version) at h)
        ]
      ]
]

abbrev Versioned : List Migration → Type 0
Versioned ms = All (λ (m : Migration). IsVersion m.version) ms

push-Versioned :
    (e : Entry) (v : Result ℕ) (r : Result (List Migration)) (ms : List Migration)
    → ((n : ℕ) → v ≡ ok n → IsVersion n)
    → ((ns : List Migration) → r ≡ ok ns → Versioned ns)
    → push e v r ≡ ok ms
    → Versioned ms
push-Versioned e (err x) r ms h k g = cc
push-Versioned e (ok n) (err x) ms h k g = cc
push-Versioned e (ok n) (ok ns) ms h k g =
    let same : record { version = n; name = e.name; path = e.path } ∷ ns ≡ ms = cc in
    subst Versioned same (h n refl, k ns refl)

collect-Versioned :
    (d : Directory) (es : List Entry) (ms : List Migration) → collect d es ≡ ok ms → Versioned ms
unfolding collect
collect-Versioned d [] ms h = elim (Bool-cases d.fails) [
  | inl e ↦ let g = rw e at h in cc
  | inr e ↦ let g : ok [] ≡ ok ms = rw e at h in let same : [] ≡ ms = cc in subst Versioned same tt
]
collect-Versioned d (e ∷ es) ms h =
    let rest = collect-Versioned d es in
    elim (Bool-cases (is_script e)) [
      | inl b ↦
          push-Versioned e (parse_version e.name) (collect d es) ms (parse_version-IsVersion e.name)
            rest (rw (b, collect) at h)
      | inr b ↦ rest ms (rw (b, collect) at h)
    ]

migration_le-up : (a b : Migration) → migration_le a b ≡ true → a.version ≤ b.version
unfolding migration_le
migration_le-up a b h = ground arith

migration_le-down : (a b : Migration) → migration_le a b ≡ false → b.version ≤ a.version
unfolding migration_le
migration_le-down a b h = ground arith

insert_by-FromUp :
    (lo : ℕ) (x : Migration) (ms : List Migration)
    → lo ≤ x.version
    → FromUp lo ms
    → FromUp lo (insert_by migration_le x ms)
unfolding insert_by FromUp
insert_by-FromUp lo x [] h k = (h, tt)
insert_by-FromUp lo x (m ∷ ms) h k = elim (Bool-cases (migration_le x m)) [
  | inl e ↦ rw (e, insert_by) (h, (migration_le-up x m e, k.1))
  | inr e ↦ rw (e, insert_by) (k.0, insert_by-FromUp m.version x ms (migration_le-down x m e) k.1)
]

sort_by-FromUp : (ms : List Migration) → Versioned ms → FromUp 1 (sort_by migration_le ms)
unfolding sort_by FromUp IsVersion
sort_by-FromUp [] h = tt
sort_by-FromUp (m ∷ ms) h = insert_by-FromUp 1 m _ h.0.0 (sort_by-FromUp ms h.1)

insert_by-All :
    (P : Migration → Type 0) (x : Migration) (ms : List Migration)
    → P x
    → All P ms
    → All P (insert_by migration_le x ms)
unfolding insert_by
insert_by-All P x [] h k = (h, tt)
insert_by-All P x (m ∷ ms) h k =
    if_elim (All P) (migration_le x m) (x ∷ m ∷ ms) (m ∷ insert_by migration_le x ms) (λ e. (h, k))
      (λ e. (k.0, insert_by-All P x ms h k.1))

sort_by-All :
    (P : Migration → Type 0) (ms : List Migration) → All P ms → All P (sort_by migration_le ms)
unfolding sort_by
sort_by-All P [] h = tt
sort_by-All P (m ∷ ms) h = insert_by-All P m _ h.0 (sort_by-All P ms h.1)

FromUp-StrictlyUp :
    (lo : ℕ) (m : Migration) (ms : List Migration)
    → lo < m.version
    → FromUp m.version ms
    → check_duplicates (m ∷ ms) ≡ ok tt
    → StrictlyUp lo (m ∷ ms)
unfolding FromUp StrictlyUp check_duplicates
FromUp-StrictlyUp lo m [] h k c = (h, tt)
FromUp-StrictlyUp lo m (n ∷ ms) h k c = elim (Bool-cases (m.version == n.version)) [
  | inl e ↦ let g = rw (e, check_duplicates) at c in cc
  | inr e ↦ (h, FromUp-StrictlyUp m.version n ms (ground arith) k.1 (rw (e, check_duplicates) at c))
]

from_start : (ms : List Migration) → FromUp 1 ms → check_duplicates ms ≡ ok tt → StrictlyUp 0 ms
unfolding FromUp StrictlyUp
from_start [] h c = tt
from_start (m ∷ ms) h c = FromUp-StrictlyUp 0 m ms (ground arith) h.1 c

-- The plan for a directory.
pub record IsPlan (d : Directory) (ms : List Migration) : Type 0 where
  pub strictly_up : StrictlyUp 0 ms
  pub versions : All (λ (m : Migration). IsVersion m.version) ms
  pub found : List Migration
  pub all_found : Perm ms found
  pub of_scripts : StandFor found (select is_sql_file d.entries)

checked-IsPlan :
    (d : Directory) (found ms : List Migration) (c : Result (Unit {0}))
    → collect d d.entries ≡ ok found
    → check_duplicates (sort_by migration_le found) ≡ c
    → checked (sort_by migration_le found) c ≡ ok ms
    → IsPlan d ms
checked-IsPlan d found ms (err x) h e g = cc
checked-IsPlan d found ms (ok u) h e g =
    let same : sort_by migration_le found ≡ ms = cc in
    let v = collect-Versioned d d.entries found h in
    subst (IsPlan d) same (record {
      strictly_up = from_start _ (sort_by-FromUp found v) e;
      versions = sort_by-All (λ (m : Migration). IsVersion m.version) found v;
      found = found;
      all_found = sort_by-perm migration_le found;
      of_scripts =
          subst (StandFor found) (scripts_are_sql_files d.entries)
            (collect-StandFor d d.entries found h);
    })

collected-IsPlan :
    (d : Directory) (r : Result (List Migration)) (ms : List Migration)
    → collect d d.entries ≡ r
    → sorted_and_checked r ≡ ok ms
    → IsPlan d ms
collected-IsPlan d (err x) ms h g = cc
collected-IsPlan d (ok found) ms h g = checked-IsPlan d found ms _ h refl g

-- A plan that is loaded from a directory consists of exactly one migration for each regular file there
-- whose name is something and `.sql`: it has the file's name and path, and its version is what the decimal digits in front of the first
-- underscore of the name write. All versions are between 1 and the largest int, and they strictly
-- increase.
pub load_migrations-IsPlan :
    (d : Directory) (ms : List Migration) → load_migrations d ≡ ok ms → IsPlan d ms
unfolding load_migrations
load_migrations-IsPlan d ms h = elim (Bool-cases d.is_directory) [
  | inl e ↦ collected-IsPlan d (collect d d.entries) ms refl (rw (e, load_migrations) at h)
  | inr e ↦ let g = rw (e, load_migrations) at h in cc
]

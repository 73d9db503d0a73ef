-- ===== src/Storage/Migrations/Files.antt =====
-- libs/mail-storage/src/MigrationRunner.cpp: the files of a migrations directory.
use mail_server_client.Base.{
  ℕ, ◌+◌, ◌-◌, ◌*◌, ◌^◌, Bool, true, not, ◌&&◌, ◌||◌, Option, none, some, List, [], ◌∷◌, ◌++◌,
  Bytes, codes, bytes_eq, find_byte, take, drop, length, ltb, leb, ◌==◌, if◌then◌else◌, to_string,
}
use mail_server_client.Storage.Database.{std_exception, Result, ok, err}
use mail_server_client.Storage.Rows.{sort_by, text_le}

pub record Migration : Type 0 where
  pub version : ℕ
  pub name : Bytes
  pub path : Bytes

pub record Entry : Type 0 where
  pub name : Bytes
  pub path : Bytes
  pub is_regular_file : Bool

-- `fails` says that opening or advancing the iterator ends with an error behind the entries.
pub record Directory : Type 0 where
  pub path : Bytes
  pub is_directory : Bool
  pub entries : List Entry
  pub fails : Bool

abbrev pub all_digits : Bytes → Bool
all_digits [] = true
all_digits (c ∷ cs) = (leb b'0' c && leb c b'9') && all_digits cs

-- std::stol of digits
unfoldable pub decimal : ℕ → Bytes → ℕ
decimal n [] = n
decimal n (c ∷ cs) = decimal (n * 10 + (c - b'0')) cs

abbrev pub invalid_name : {A : Type 0} → Bytes → Result A
invalid_name filename = err (std_exception (codes "Invalid migration filename: " ++ filename))

-- Beyond the range of long it is std::out_of_range, which gives the same exception.
unfoldable pub version_of : Bytes → ℕ → Result ℕ
version_of filename n =
    if ltb (2 ^ 63 - 1) n
    then invalid_name filename
    else if n == 0 || ltb 2147483647 n
    then invalid_name filename
    else ok n

unfoldable pub parse_version : Bytes → Result ℕ
unfolding version_of decimal
parse_version filename = elim (find_byte b'_' filename) [
  | none ↦ invalid_name filename
  | some position ↦
      if position == 0
        || (leb (length filename) (position + 5)
            || not (bytes_eq (drop (length filename - 4) filename) (codes ".sql")))
      then invalid_name filename
      else if not (all_digits (take position filename))
      then invalid_name filename
      else version_of filename (decimal 0 (take position filename))
]

-- The text from the last dot on.
unfoldable pub last_dot : Bytes → Option Bytes
last_dot [] = none
last_dot (c ∷ cs) = elim (last_dot cs) [
  | some rest ↦ some rest
  | none ↦ if c == b'.' then some (c ∷ cs) else none
]

-- path::extension: a dot at the start of the name begins none.
unfoldable pub extension : Bytes → Bytes
unfolding last_dot
extension [] = []
extension (c ∷ cs) = elim (last_dot cs) [ none ↦ [] | some rest ↦ rest ]

unfoldable pub is_script : Entry → Bool
unfolding extension
is_script e = e.is_regular_file && bytes_eq (extension e.name) (codes ".sql")

abbrev pub push : Entry → Result ℕ → Result (List Migration) → Result (List Migration)
push e (err x) rest = err x
push e (ok version) (err x) = err x
push e (ok version) (ok ms) = ok (record { version = version; name = e.name; path = e.path } ∷ ms)

abbrev pub unreadable : {A : Type 0} → Directory → Result A
unreadable d = err (std_exception (codes "Failed to read migrations directory: " ++ d.path))

-- The loop over the directory, and the check of the error behind it.
unfoldable pub collect : Directory → List Entry → Result (List Migration)
unfolding is_script parse_version
collect d [] = if d.fails then unreadable d else ok []
collect d (e ∷ es) =
    let rest = collect d es in if is_script e then push e (parse_version e.name) rest else rest

unfoldable pub migration_le : Migration → Migration → Bool
migration_le a b = ltb a.version b.version || (a.version == b.version && text_le a.name b.name)

unfoldable pub check_duplicates : List Migration → Result (Unit {0})
check_duplicates [] = ok tt
check_duplicates (m ∷ []) = ok tt
check_duplicates (m ∷ n ∷ ms) =
    let rest = check_duplicates (n ∷ ms) in
    if m.version == n.version
    then err (std_exception (codes "Duplicate migration version: " ++ to_string n.version))
    else rest

abbrev pub checked : List Migration → Result (Unit {0}) → Result (List Migration)
checked ms (ok u) = ok ms
checked ms (err e) = err e

abbrev pub sorted_and_checked : Result (List Migration) → Result (List Migration)
sorted_and_checked (err e) = err e
sorted_and_checked (ok ms) =
    let sorted = sort_by migration_le ms in checked sorted (check_duplicates sorted)

unfoldable pub load_migrations : Directory → Result (List Migration)
unfolding collect migration_le check_duplicates
load_migrations d =
    if not d.is_directory then unreadable d else sorted_and_checked (collect d d.entries)

-- ===== src/Desktop/Cache.antt =====
-- apps/mail-client/models/database/CacheStore.cpp. Time is in nanoseconds since 1970; a time is stored as
-- text in whole seconds. What std::put_time and std::get_time with timegm make of it is a parameter.
pub mod Like
pub mod Laws
use mail_server_client.Base.{
  ℕ, zero, suc, ℤ, pos, negsuc, ◌+◌, ◌*◌, ◌/◌, Bool, true, false, not, ◌&&◌, Option, none, some,
  List, [], ◌∷◌, ◌++◌, Bytes, codes, bytes_eq, leb, if◌then◌else◌,
}
use mail_server_client.Storage.Rows.{select, update_where, exists_where, first_row}
use mail_server_client.Storage.Database.{
  Exception, std_exception, Result, ok, err, next_fault, later_faults, bind_text,
}
use mail_server_client.Desktop.Cache.Like.{escape_like, like}

-- A row of cache_entries
pub record Row : Type 0 where
  pub cache_namespace : Bytes
  pub cache_key : Bytes
  pub payload : Bytes
  pub version : ℤ
  pub created_at : Bytes
  pub expires_at : Bytes

pub record Entry : Type 0 where
  pub cache_namespace : Bytes
  pub cache_key : Bytes
  pub payload : Bytes
  pub version : ℤ
  pub created_at : ℕ
  pub expires_at : ℕ

-- `now` is the clock of the program and `clock` what CURRENT_TIMESTAMP gives; `faults` says for each
-- statement to come whether it fails.
pub record Store : Type 0 where
  pub rows : List Row
  pub faults : List (Option Exception)
  pub now : ℕ
  pub clock : Bytes

pub data Timestamp : Type 0 where
  seconds : ℕ → Timestamp
  unreadable out_of_range : Timestamp

pub record Calendar : Type 0 where
  pub format : ℕ → Bytes
  pub parse : Bytes → Timestamp

abbrev pub nanoseconds : ℕ
nanoseconds = 1000000000

abbrev pub time_point_to_string : Calendar → ℕ → Bytes
time_point_to_string q time_point = q.format (time_point / nanoseconds)

abbrev pub time_point : Bytes → Timestamp → Result ℕ
time_point text (seconds n) = ok (n * nanoseconds)
time_point text unreadable = err (std_exception (codes "Failed to parse cache timestamp: " ++ text))
time_point text out_of_range =
    err (std_exception (codes "Failed to convert broken-down time to UTC time_t"))

abbrev pub string_to_time_point : Calendar → Bytes → Result ℕ
string_to_time_point q text = time_point text (q.parse text)

-- One statement on the table.
abbrev pub step : {A : Type 0} → A → List Row → Store → Result A × Store
step a rows s =
    let rest = record s { faults = later_faults s.faults } in
    elim (next_fault s.faults) [
      | some e ↦ (err e, rest)
      | none ↦ (ok a, record rest { rows = rows })
    ]

abbrev pub has_key : Bytes → Bytes → Row → Bool
has_key cache_namespace cache_key r =
    bytes_eq r.cache_namespace (bind_text cache_namespace)
    && bytes_eq r.cache_key (bind_text cache_key)

-- INSERT … ON CONFLICT(cache_namespace, cache_key) DO UPDATE
unfoldable pub upsert : (Row → Bool) → Row → List Row → List Row
upsert p new rows =
    if exists_where p rows
    then update_where p
        (λ r. record r {
          payload = new.payload;
          version = new.version;
          created_at = new.created_at;
          expires_at = new.expires_at;
        })
        rows
    else rows ++ new ∷ []

-- What Put binds for a time of expiry.
abbrev pub row_for : Calendar → Bytes → Bytes → Bytes → ℤ → Bytes → ℕ → Row
row_for q cache_namespace cache_key payload version clock expires_at = record {
  cache_namespace = bind_text cache_namespace;
  cache_key = bind_text cache_key;
  payload = bind_text payload;
  version = version;
  created_at = clock;
  expires_at = bind_text (time_point_to_string q expires_at);
}

unfoldable pub put : Calendar → Bytes → Bytes → Bytes → ℤ → ℤ → Store → Result (Unit {0}) × Store
unfolding upsert
put q cache_namespace cache_key payload (pos (suc n)) version s =
    let expires_at = s.now + suc n * nanoseconds in
    let new = row_for q cache_namespace cache_key payload version s.clock expires_at in
    step tt (upsert (has_key cache_namespace cache_key) new s.rows) s
put q cache_namespace cache_key payload (pos zero) version s =
    (err (std_exception (codes "Cache TTL must be positive")), s)
put q cache_namespace cache_key payload (negsuc n) version s =
    (err (std_exception (codes "Cache TTL must be positive")), s)

abbrev pub entry_with : Row → Result ℕ → Result ℕ → Result Entry
entry_with r (err e) expires_at = err e
entry_with r (ok created_at) (err e) = err e
entry_with r (ok created_at) (ok expires_at) = ok (record {
  cache_namespace = r.cache_namespace;
  cache_key = r.cache_key;
  payload = r.payload;
  version = r.version;
  created_at = created_at;
  expires_at = expires_at;
})

abbrev pub read_entry : Calendar → Row → Result Entry
read_entry q r =
    entry_with r (string_to_time_point q r.created_at) (string_to_time_point q r.expires_at)

abbrev pub fresh : Bool → ℕ → Result Entry → Result (Option Entry)
fresh allow_stale now (err e) = err e
fresh allow_stale now (ok entry) =
    if not allow_stale && leb entry.expires_at now then ok none else ok (some entry)

abbrev pub found : Calendar → Bool → ℕ → Result (Option Row) → Result (Option Entry)
found q allow_stale now (err e) = err e
found q allow_stale now (ok none) = ok none
found q allow_stale now (ok (some r)) = fresh allow_stale now (read_entry q r)

unfoldable pub get : Calendar → Bytes → Bytes → Bool → Store → Result (Option Entry) × Store
get q cache_namespace cache_key allow_stale s =
    let r = step (first_row (select (has_key cache_namespace cache_key) s.rows)) s.rows s in
    (found q allow_stale s.now r.0, r.1)

abbrev pub has_value : Result (Option Entry) → Result Bool
has_value (err e) = err e
has_value (ok none) = ok false
has_value (ok (some entry)) = ok true

unfoldable pub exists : Calendar → Bytes → Bytes → Store → Result Bool × Store
unfolding get
exists q cache_namespace cache_key s =
    let r = get q cache_namespace cache_key true s in (has_value r.0, r.1)

abbrev pub delete_where : (Row → Bool) → Store → Result (Unit {0}) × Store
delete_where p s = step tt (select (λ r. not (p r)) s.rows) s

unfoldable pub invalidate : Bytes → Bytes → Store → Result (Unit {0}) × Store
invalidate cache_namespace cache_key s = delete_where (has_key cache_namespace cache_key) s

unfoldable pub invalidate_namespace : Bytes → Store → Result (Unit {0}) × Store
invalidate_namespace cache_namespace s =
    delete_where (λ r. bytes_eq r.cache_namespace (bind_text cache_namespace)) s

unfoldable pub invalidate_namespace_prefix : Bytes → Store → Result (Unit {0}) × Store
unfolding escape_like like
invalidate_namespace_prefix prefix s =
    delete_where (λ r. like false (bind_text (escape_like prefix ++ codes "%")) r.cache_namespace) s

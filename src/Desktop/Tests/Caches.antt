-- ===== src/Desktop/Tests/Caches.antt =====
-- The theorems on the cache, at two rows and a calendar that writes seconds as one number.
use mail_server_client.Base.{
  suc, pos, ◌+◌, ◌-◌, ◌*◌, ◌/◌, ◌≡◌, refl, true, false, not, none, some, [], ◌∷◌, Bytes, codes,
  arith,
}
use mail_server_client.Storage.Rows.{select}
use mail_server_client.Storage.Database.{ok, bind_text}
use mail_server_client.Desktop.Cache.{
  Row, Store, Calendar, Timestamp, seconds, unreadable, nanoseconds, put, get,
  invalidate_namespace_prefix,
}
use mail_server_client.Desktop.Cache.Like.{begins_with}
use mail_server_client.Desktop.Cache.Laws.{get-put, invalidate_namespace_prefix-rows}
use mail_server_client.Desktop.MailCache.{list_namespace, load, invalidate_all}
use mail_server_client.Desktop.MailCache.Gone.{load-invalidate_all}

abbrev number : Bytes → Timestamp
number [] = unreadable
number (n ∷ text) = seconds (n - 1)

abbrev calendar : Calendar
calendar = record { format = λ n. suc n ∷ []; parse = number }

abbrev row : Bytes → Row
row cache_namespace = record {
  cache_namespace = cache_namespace;
  cache_key = codes "inbox|";
  payload = codes "[]";
  version = pos 1;
  created_at = 6 ∷ [];
  expires_at = 9 ∷ [];
}

abbrev store : Store
store = record {
  rows = row (codes "email-list:inbox") ∷ row (codes "user-profile") ∷ [];
  faults = [];
  now = 5 * nanoseconds;
  clock = 6 ∷ [];
}

reads_back :
    calendar.parse (bind_text (calendar.format ((store.now + suc 2 * nanoseconds) / nanoseconds)))
    ≡ seconds ((store.now + suc 2 * nanoseconds) / nanoseconds)
unfolding bind_text
reads_back = refl

get-put_example :
    (get calendar
      (codes "user-profile")
      (codes "k")
      false
      (record (put calendar
        (codes "user-profile")
        (codes "k")
        (codes "p")
        (pos (suc 2))
        (pos 1)
        store).1 { now = 6 * nanoseconds })).0
    ≡ ok (
        some (record {
          cache_namespace = bind_text (codes "user-profile");
          cache_key = bind_text (codes "k");
          payload = bind_text (codes "p");
          version = pos 1;
          created_at = 5 * nanoseconds;
          expires_at = 8 * nanoseconds;
        }))
get-put_example =
    get-put calendar (codes "user-profile") (codes "k") (codes "p") 2 (pos 1) store
      (6 * nanoseconds) 5 false refl refl reads_back

invalidate_namespace_prefix-rows_example :
    (invalidate_namespace_prefix (codes "user_") store).1.rows
    ≡ select (λ r. not (begins_with (codes "user_") r.cache_namespace)) store.rows
invalidate_namespace_prefix-rows_example =
    invalidate_namespace_prefix-rows (codes "user_") store
      (omega arith, (omega arith, (omega arith, (omega arith, (omega arith, tt))))) refl

load-invalidate_all_example :
    ((invalidate_all store).1.rows
      ≡ select (λ r. not (begins_with list_namespace r.cache_namespace)) store.rows)
    × ((load calendar (λ x. x) (codes "inbox") [] true (invalidate_all store).1).0 ≡ ok none)
load-invalidate_all_example =
    load-invalidate_all calendar (λ x. x) (codes "inbox") [] true store refl

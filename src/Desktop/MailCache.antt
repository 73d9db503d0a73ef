-- ===== src/Desktop/MailCache.antt =====
-- apps/mail-client/models/mail/EmailCache.cpp. `normal` is trimmed().toLower() of Qt.
pub mod Gone
use mail_server_client.Base.{ℤ, Bool, Option, none, some, List, ◌++◌, Bytes, codes}
use mail_server_client.Storage.Database.{Result, ok, err}
use mail_server_client.Desktop.Cache.{
  Calendar, Store, Entry, put, get, invalidate_namespace, invalidate_namespace_prefix,
}

pub record CachedEmailList : Type 0 where
  pub folder : Bytes
  pub search_text : Bytes
  pub payload : Bytes
  pub version : ℤ

abbrev pub list_namespace : Bytes
list_namespace = codes "email-list"

abbrev pub make_key : (Bytes → Bytes) → Bytes → Bytes → Bytes
make_key normal folder search_text = normal folder ++ (codes "|" ++ normal search_text)

abbrev pub make_namespace : (Bytes → Bytes) → Bytes → Bytes
make_namespace normal folder = list_namespace ++ (codes ":" ++ normal folder)

unfoldable pub save :
    Calendar → (Bytes → Bytes) → Bytes → Bytes → Bytes → ℤ → ℤ → Store → Result (Unit {0}) × Store
unfolding put
save q normal folder search_text payload ttl version s =
    put q (make_namespace normal folder) (make_key normal folder search_text) payload ttl version s

abbrev pub list_of : Bytes → Bytes → Result (Option Entry) → Result (Option CachedEmailList)
list_of folder search_text (err e) = err e
list_of folder search_text (ok none) = ok none
list_of folder search_text (ok (some entry)) = ok (
    some (record {
      folder = folder;
      search_text = search_text;
      payload = entry.payload;
      version = entry.version;
    }))

unfoldable pub load :
    Calendar
    → (Bytes → Bytes)
    → Bytes
    → Bytes
    → Bool
    → Store
    → Result (Option CachedEmailList) × Store
unfolding get
load q normal folder search_text allow_stale s =
    let r =
      get q (make_namespace normal folder) (make_key normal folder search_text) allow_stale s in
    (list_of folder search_text r.0, r.1)

unfoldable pub invalidate_folder : (Bytes → Bytes) → Bytes → Store → Result (Unit {0}) × Store
unfolding invalidate_namespace
invalidate_folder normal folder s = invalidate_namespace (make_namespace normal folder) s

unfoldable pub invalidate_all : Store → Result (Unit {0}) × Store
unfolding invalidate_namespace_prefix
invalidate_all s = invalidate_namespace_prefix list_namespace s

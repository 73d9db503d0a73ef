-- ===== src/Smtp/Tests/Storing.antt =====
-- `store_message`, when SQLite carries out every statement and when it does not.
use mail_server_client.Base.{◌≡◌, refl, suc, none, [], ◌∷◌, codes}
use mail_server_client.Storage.Database.{ok, Db, statement, begin_immediate, rollback, commit}
use mail_server_client.Storage.Messages.{create_message}
use mail_server_client.Storage.Actors.{create_actor, status_allowed, default_status}
use mail_server_client.Storage.Rows.{exists_where}
use mail_server_client.Storage.Database.Laws.{committed}
use mail_server_client.Smtp.Store.{store_message, store_rows, or_rollback}
use mail_server_client.Smtp.Store.Atomic.{store_message_atomic}
use mail_server_client.Smtp.Store.Rows.{with_message, store_message-rows}
use mail_server_client.Smtp.Store.Returns.{store_message-returns}
use mail_server_client.Smtp.Tests.Fixtures.{alice, bob, db, failing_db, locked}

store_message_atomic_example :
    committed (store_message alice (bob ∷ []) (codes "hi") failing_db).1 ≡ committed failing_db
unfolding store_message store_rows or_rollback begin_immediate statement rollback create_message
    create_actor exists_where status_allowed default_status
store_message_atomic_example =
    store_message_atomic alice (bob ∷ []) (codes "hi") failing_db locked refl

store_message-returns_example : (store_message alice (bob ∷ []) (codes "hi") db).0 ≡ ok 1
store_message-returns_example = store_message-returns alice (bob ∷ []) (codes "hi") db refl refl

abbrev stored : Db
stored = (store_message alice (bob ∷ []) (codes "hi") db).1

store_message-rows_example :
    (1 ≡ suc 0)
    × (stored.tables ≡ with_message alice (bob ∷ []) (codes "hi") db.clock db.tables)
    × (stored.saved ≡ none)
unfolding store_message store_rows or_rollback begin_immediate statement commit create_message
    create_actor exists_where status_allowed default_status
store_message-rows_example = store_message-rows alice (bob ∷ []) (codes "hi") db 1 stored refl

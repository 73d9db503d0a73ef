-- ===== src/Smtp/Store.antt =====
-- `SmtpSessionHandler::StoreMessage`: one transaction for the message and its actors.
pub mod Atomic
pub mod Rows
pub mod Returns
use mail_server_client.Base.{ℕ, Option, none, some, List, [], ◌∷◌, Bytes}
use mail_server_client.Storage.Records.{DeliveryStatus, MessageStatus, from, to}
use mail_server_client.Storage.Database.{
  Query, Result, ok, err, Db, pure, ◌>>=◌, ◌>>◌, begin_immediate, commit, rollback,
}
use mail_server_client.Storage.Messages.{create_message}
use mail_server_client.Storage.Actors.{create_actor}

-- for (const std::string& recipient : state.recipients)
unfoldable pub create_recipients : ℕ → List Bytes → Query (Unit {0})
create_recipients message_id [] = pure tt
create_recipients message_id (recipient ∷ rest) =
    create_actor message_id recipient to (some DeliveryStatus.queued)
    >> create_recipients message_id rest

-- the body of the `try`
unfoldable pub store_rows : Bytes → List Bytes → Bytes → Query ℕ
unfolding create_recipients
store_rows sender recipients body = do
  message_id ← create_message none body none MessageStatus.queued
  create_actor message_id sender from none
  create_recipients message_id recipients
  commit
  pure message_id

-- catch (...): roll back, drop an exception of that, and throw again
unfoldable pub or_rollback : {A : Type 0} → Result A × Db → Result A × Db
or_rollback (ok a, db) = (ok a, db)
or_rollback (err e, db) = (err e, (rollback db).1)

unfoldable pub store_message : Bytes → List Bytes → Bytes → Query ℕ
unfolding store_rows or_rollback
store_message sender recipients body = do
  begin_immediate
  λ db. or_rollback (store_rows sender recipients body db)

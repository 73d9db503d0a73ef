-- ===== src/Http/Tests/Mailboxes.antt =====
-- Requests on a mailbox, and the configuration.
use mail_server_client.Base.{pos, ◌≡◌, ◌≢◌, refl, true, some, [], codes, bytes_eq}
use mail_server_client.Storage.Database.{Db, ok, err, std_exception, bind_text, statement}
use mail_server_client.Storage.Rows.{exists_where, sort_by}
use mail_server_client.Storage.Actors.{change_actors}
use mail_server_client.Storage.Actors.Mailbox.{mailbox_where, mark_deleted, is_null}
use mail_server_client.Storage.Messages.{newer_first}
use mail_server_client.Http.Config.{
  get_object, get_string, get_bool, get_port, port_of, port_in_range, parse_log_level, read_members,
  read_root, load, validate, configurator, ◌>>=◌,
}
use mail_server_client.Http.Json.{if_contains}
use mail_server_client.Http.Config.Bounds.{IsUsable, configurator-IsUsable}
use mail_server_client.Http.Message.{get, post}
use mail_server_client.Http.Router.{dispatch}
use mail_server_client.Http.Router.Errors.{dispatch-never}
use mail_server_client.Http.MailStorage.{by_id, delete_mail, find_mails_for_user}
use mail_server_client.Http.MailStorage.Deleted.{listing, others, find_mails_for_user-deleted}
use mail_server_client.Http.Handlers.{make_router}
use mail_server_client.Http.Mailboxes.{Within}
use mail_server_client.Http.Mailboxes.Dispatch.{dispatch-Within}
use mail_server_client.Http.Tests.Fixtures.{
  server, reads, settings, mail_db, mail_world, request_to, id_document, settings_document,
}

dispatch-Within_example :
    Within
      (request_to post (codes "/mails/delete") (some (codes "b@x")))
      mail_world.db.tables
      (dispatch
        (server id_document)
        (make_router (server id_document))
        (request_to post (codes "/mails/delete") (some (codes "b@x")))
        mail_world).1.db.tables
dispatch-Within_example =
    dispatch-Within (server id_document)
      (request_to post (codes "/mails/delete") (some (codes "b@x"))) mail_world

dispatch-never_example :
    (dispatch
      (server id_document)
      (make_router (server id_document))
      (request_to get (codes "/mails") (some (codes "b@x")))
      mail_world).0
    ≢ err (std_exception (codes "Failed"))
dispatch-never_example =
    dispatch-never (server id_document) (request_to get (codes "/mails") (some (codes "b@x")))
      mail_world (codes "Failed") (make_router (server id_document))

is_configured : configurator (reads settings_document) (codes "c.json") (some []) ≡ ok settings
unfolding configurator load validate read_root read_members get_object get_string get_bool get_port
    port_of port_in_range parse_log_level if_contains bytes_eq bind_text ◌>>=◌
is_configured = refl

configurator-IsUsable_example : IsUsable settings
configurator-IsUsable_example =
    configurator-IsUsable (reads settings_document) (codes "c.json") (some []) settings
      is_configured

abbrev deleted_db : Db
deleted_db = (delete_mail (pos 1) (codes "b@x") mail_db).1

is_deleted : delete_mail (pos 1) (codes "b@x") mail_db ≡ (ok true, deleted_db)
unfolding delete_mail by_id mark_deleted change_actors exists_where mailbox_where statement bytes_eq
    bind_text is_null
is_deleted = refl

is_plain : bind_text (codes "b@x") ≡ codes "b@x"
unfolding bind_text
is_plain = refl

has_no_faults : deleted_db.faults ≡ []
unfolding delete_mail by_id mark_deleted change_actors statement
has_no_faults = refl

find_mails_for_user-deleted_example :
    (find_mails_for_user (codes "b@x") deleted_db).0
    ≡ ok (
        listing
          (codes "b@x")
          mail_db.tables.actors
          (others 1 (sort_by newer_first mail_db.tables.messages)))
find_mails_for_user-deleted_example =
    find_mails_for_user-deleted 1 (codes "b@x") mail_db deleted_db is_plain is_deleted has_no_faults

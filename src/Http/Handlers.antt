-- ===== src/Http/Handlers.antt =====
-- The handlers of apps/mail-server/src/handlers, and the routes of Main.cpp.
pub mod Reading
pub mod Mailbox
pub mod Accounts
pub mod Sending
use mail_server_client.Base.{List, [], codes}
use mail_server_client.Http.Message.{get, post}
use mail_server_client.Http.Router.{Route, add}
use mail_server_client.Http.World.{Services}
use mail_server_client.Http.Handlers.Mailbox.{
  get_mails_handler, star_handler, unstar_handler, archive_handler, unarchive_handler,
  delete_mail_handler,
}
use mail_server_client.Http.Handlers.Accounts.{hello_handler, login_handler, register_handler}
use mail_server_client.Http.Handlers.Sending.{send_mail_handler}

unfoldable pub make_router : {P : Type 0} → Services P → List (Route P)
unfolding add
make_router s =
    let r₁ = add get (codes "/mails") (get_mails_handler s) [] in
    let r₂ = add post (codes "/hello") (hello_handler s) r₁ in
    let r₃ = add post (codes "/login") (login_handler s) r₂ in
    let r₄ = add post (codes "/register") (register_handler s) r₃ in
    let r₅ = add post (codes "/send-mail") (send_mail_handler s) r₄ in
    let r₆ = add post (codes "/mails/star") (star_handler s) r₅ in
    let r₇ = add post (codes "/mails/unstar") (unstar_handler s) r₆ in
    let r₈ = add post (codes "/mails/archive") (archive_handler s) r₇ in
    let r₉ = add post (codes "/mails/unarchive") (unarchive_handler s) r₈ in
    add post (codes "/mails/delete") (delete_mail_handler s) r₉

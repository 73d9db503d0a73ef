-- ===== src/Smtp/Server/Routing.antt =====
-- Where an event goes.
use mail_server_client.Base.{
  ℕ, ◌≡◌, refl, ◌∙◌, ap, false, Option, none, some, [], ◌∷◌, ◌++◌, ◌==◌, if◌then◌else◌, arith,
  Bool-cases, inl, inr,
}
use mail_server_client.Smtp.Config.{ServerConfig}
use mail_server_client.Smtp.State.{Event, World}
use mail_server_client.Smtp.Session.{Session, push_event}
use mail_server_client.Smtp.Server.{Sessions, find_session, each, push_if, route_event}

change_found : (Session → Session) → Option Session → Option Session
change_found f none = none
change_found f (some s) = some (f s)

find_session-each :
    (f : ℕ → Session → Session) (id : ℕ) (xs : Sessions)
    → find_session id (each f xs) ≡ change_found (f id) (find_session id xs)
unfolding find_session each change_found
find_session-each f id [] = refl
find_session-each f id ((key, s) ∷ rest) = elim (Bool-cases (key == id)) [
  | inl e ↦ let same : key ≡ id = ground arith in rw e (ap (λ (k : ℕ). some (f k s)) same)
  | inr e ↦ rw e (find_session-each f id rest)
]

passed_by :
    (event : Event) (id : ℕ) (found : Option Session)
    → (id == event.connection_id) ≡ false
    → change_found (push_if event id) found ≡ found
unfolding change_found push_if
passed_by event id none e = refl
passed_by event id (some s) e = rw e refl

pushed :
    (event : Event) (id : ℕ) (s : Session) (found : Option Session)
    → (id ≡ event.connection_id → found ≡ some s)
    → change_found (push_if event id) found
      ≡ (if id == event.connection_id then some (push_event event s) else found)
unfolding change_found push_if
pushed event id s found h = elim (Bool-cases (id == event.connection_id)) [
  | inl e ↦ let here : found ≡ some s = h (ground arith) in rw here (rw (e, push_if) refl)
  | inr e ↦ passed_by event id found e ∙ rw e refl
]

-- An event of a connection that has a session goes to the end of that session's queue, and to no
-- other session.
pub route_event-existing :
    (config : ServerConfig) (event : Event) (xs : Sessions) (w : World) (s : Session)
    → find_session event.connection_id xs ≡ some s
    → (id : ℕ)
    → find_session id (route_event config event xs w).0 ≡ (
        if id == event.connection_id
        then some (record s { events = s.events ++ event ∷ [] })
        else find_session id xs)
unfolding route_event push_event
route_event-existing config event xs w s h id =
    rw (h, route_event)
      (find_session-each (push_if event) id xs
        ∙ pushed event id s (find_session id xs) (λ e. rw e h))

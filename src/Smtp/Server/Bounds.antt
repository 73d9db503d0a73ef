-- ===== src/Smtp/Server/Bounds.antt =====
-- An iteration of the server keeps its table of sessions in order.
use mail_server_client.Base.{
  ℕ, suc, ◌≤◌, ◌≡◌, refl, true, not, Option, none, some, List, [], ◌∷◌, ◌++◌, All, All-append,
  length, length-append, ltb, ◌==◌, arith, Bool-cases, inl, inr, if_elim,
}
use mail_server_client.Storage.Records.{Actor}
use mail_server_client.Storage.Database.{Exception}
use mail_server_client.Smtp.Config.{ServerConfig}
use mail_server_client.Smtp.State.{Event, World}
use mail_server_client.Smtp.Session.{
  Session, new_session, push_event, is_ready_for_removal, is_disconnected,
}
use mail_server_client.Smtp.Dispatcher.{Handed, poll}
use mail_server_client.Smtp.Server.{
  Sessions, find_session, each, push_if, route_new, route_event, route_events, scheduled,
  remove_closed_sessions, after_poll, run_once,
}
use mail_server_client.Smtp.Server.Table.{
  Distinct, Owns, length-each, each-Distinct, each-Owns, push_if-Owns, scheduled-Owns,
  append-Distinct,
}

pub record WellKept (config : ServerConfig) (sessions : Sessions) : Type 0 where
  pub bounded : length sessions ≤ config.max_connections
  pub distinct : Distinct sessions
  pub owned : All (λ (p : ℕ × Session). Owns p.0 p.1) sessions

each-WellKept :
    (config : ServerConfig) (f : ℕ → Session → Session)
    → ((key : ℕ) (s : Session) → Owns key s → Owns key (f key s))
    → (xs : Sessions) → WellKept config xs
    → WellKept config (each f xs)
each-WellKept config f h xs k = record {
  bounded = rw (length-each f xs) k.bounded;
  distinct = each-Distinct f xs k.distinct;
  owned = each-Owns f h xs k.owned;
}

module _ (config : ServerConfig) where
  joined-WellKept :
      (event : Event) (xs : Sessions)
      → find_session event.connection_id xs ≡ none
      → ltb (length xs) config.max_connections ≡ true
      → WellKept config xs
      → WellKept config
          (xs ++ (event.connection_id, push_event event (new_session event.connection_id)) ∷ [])
  unfolding push_event new_session
  joined-WellKept event xs n room k = record {
    bounded =
        let fits : suc (length xs) ≤ config.max_connections = ground arith in
        omega (
          arith,
          length-append xs
              ((event.connection_id, push_event event (new_session event.connection_id)) ∷ []),
          fits,
        );
    distinct = append-Distinct event.connection_id _ xs n k.distinct;
    owned = All-append (λ (p : ℕ × Session). Owns p.0 p.1) xs _ k.owned ((refl, tt), tt);
  }

  route_new-WellKept :
      (event : Event) (xs : Sessions) (w : World)
      → find_session event.connection_id xs ≡ none
      → WellKept config xs
      → WellKept config (route_new config event xs w).0
  unfolding route_new
  route_new-WellKept event xs w n k =
      if_elim (λ (x : Sessions × World). WellKept config x.0) (is_disconnected event.type) _ _
        (λ _. k)
        (λ _.
          if_elim (λ (x : Sessions × World). WellKept config x.0)
            (not (ltb (length xs) config.max_connections)) _ _ (λ _. k)
            (λ room. joined-WellKept event xs n (ground (arith, room)) k))

  routed-WellKept :
      (event : Event) (xs : Sessions) (w : World) (found : Option Session)
      → find_session event.connection_id xs ≡ found
      → WellKept config xs
      → WellKept config
          (let y : Sessions × World = elim found [
            | some s ↦ (each (push_if event) xs, w)
            | none ↦ route_new config event xs w
          ] in
            y).0
  routed-WellKept event xs w (some s) e k =
      each-WellKept config (push_if event) (push_if-Owns event) xs k
  routed-WellKept event xs w none e k = route_new-WellKept event xs w e k

  route_event-WellKept :
      (event : Event) (xs : Sessions) (w : World)
      → WellKept config xs
      → WellKept config (route_event config event xs w).0
  unfolding route_event
  route_event-WellKept event xs w k =
      routed-WellKept event xs w (find_session event.connection_id xs) refl k

  route_events-WellKept :
      (events : List Event) (xs : Sessions) (w : World)
      → WellKept config xs
      → WellKept config (route_events config events xs w).0
  unfolding route_events
  route_events-WellKept [] xs w k = k
  route_events-WellKept (event ∷ events) xs w k =
      route_events-WellKept events (route_event config event xs w).0
        (route_event config event xs w).1 (route_event-WellKept event xs w k)

  find_session-remove :
      (id : ℕ) (xs : Sessions)
      → find_session id xs ≡ none
      → find_session id (remove_closed_sessions xs) ≡ none
  unfolding remove_closed_sessions find_session
  find_session-remove id [] h = refl
  find_session-remove id ((key, s) ∷ rest) h = elim (Bool-cases (key == id)) [
    | inl e ↦ let g = rw e at h in cc
    | inr e ↦
        if_elim (λ (x : Sessions). find_session id x ≡ none) (is_ready_for_removal s) _ _
          (λ _. find_session-remove id rest (rw e at h))
          (λ _. rw e (find_session-remove id rest (rw e at h)))
  ]

  remove-WellKept :
      (xs : Sessions)
      → Distinct xs
      → All (λ (p : ℕ × Session). Owns p.0 p.1) xs
      → (length (remove_closed_sessions xs) ≤ length xs)
        × Distinct (remove_closed_sessions xs)
        × All (λ (p : ℕ × Session). Owns p.0 p.1) (remove_closed_sessions xs)
  unfolding remove_closed_sessions
  remove-WellKept [] d a = (omega arith, tt, tt)
  remove-WellKept ((key, s) ∷ rest) d a =
      let (shorter, distinct, owned) = remove-WellKept rest d.1 a.1 in
      if_elim
        (λ (x : Sessions).
          (length x ≤ suc (length rest)) × Distinct x × All (λ (p : ℕ × Session). Owns p.0 p.1) x)
        (is_ready_for_removal s) _ _ (λ _. (omega (arith, shorter), distinct, owned))
        (λ _. (omega (arith, shorter), (find_session-remove key rest d.0, distinct), (a.0, owned)))

  swept-WellKept :
      (xs : Sessions) → WellKept config xs → WellKept config (remove_closed_sessions xs)
  swept-WellKept xs k =
      let (shorter, distinct, owned) = remove-WellKept xs k.distinct k.owned in
      record { bounded = omega (arith, shorter, k.bounded); distinct = distinct; owned = owned }

  ended-WellKept :
      (xs : Sessions) (w : World) (next_poll : ℕ) (h : Handed) (thrown : Option Exception)
      → h.thrown ≡ thrown
      → WellKept config xs
      → WellKept config (after_poll xs w next_poll h).sessions
  unfolding after_poll
  ended-WellKept xs w next_poll h none e k =
      rw e (swept-WellKept (each scheduled xs) (each-WellKept config scheduled scheduled-Owns xs k))
  ended-WellKept xs w next_poll h (some x) e k = rw e k

  -- An iteration of the server, whatever events come and whatever the poll of the delivery queue
  -- does: there are at most as many sessions as the configuration allows, no connection has two, and
  -- the events that wait in a session are those of its connection.
  pub run_once-WellKept :
      (enqueue : Actor → Option Exception) (events : List Event) (now next_poll : ℕ)
      (sessions : Sessions) (w : World)
      → WellKept config sessions
      → WellKept config (run_once config enqueue events now next_poll sessions w).sessions
  unfolding run_once
  run_once-WellKept enqueue events now next_poll sessions w k =
      let (routed, w') = route_events config events sessions w in
      let (later, h) = poll config.delivery enqueue now next_poll w'.db in
      ended-WellKept routed w' later h h.thrown refl (route_events-WellKept events sessions w k)

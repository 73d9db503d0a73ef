-- ===== src/Smtp/Server/Table.antt =====
-- The table of sessions: its keys, and the events that wait in it.
use mail_server_client.Base.{
  ℕ, suc, ◌≡◌, refl, ap, Bool, true, false, Option, none, some, List, [], ◌∷◌, ◌++◌, All,
  All-append, length, ◌==◌, if◌then◌else◌, arith, Bool-cases, inl, inr,
}
use mail_server_client.Smtp.State.{Event}
use mail_server_client.Smtp.Session.{Session, push_event, extract_from, try_extract_next_task}
use mail_server_client.Smtp.Server.{Sessions, find_session, each, push_if, scheduled}

-- No connection has two sessions.
abbrev pub Distinct : Sessions → Type 0
Distinct [] = Unit
Distinct ((key, s) ∷ rest) = (find_session key rest ≡ none) × Distinct rest

-- The events that wait in the session of a connection are of that connection.
abbrev pub Owns : ℕ → Session → Type 0
Owns key s = All (λ (e : Event). e.connection_id ≡ key) s.events

module _ (f : ℕ → Session → Session) where
  pub length-each : (xs : Sessions) → length (each f xs) ≡ length xs
  unfolding each
  length-each [] = refl
  length-each ((key, s) ∷ rest) = ap suc (length-each rest)

  pub find_session-each :
      (id : ℕ) (xs : Sessions) → find_session id xs ≡ none → find_session id (each f xs) ≡ none
  unfolding each find_session
  find_session-each id [] h = refl
  find_session-each id ((key, s) ∷ rest) h = elim (Bool-cases (key == id)) [
    | inl e ↦ let g = rw e at h in cc
    | inr e ↦ rw e (find_session-each id rest (rw e at h))
  ]

  pub each-Distinct : (xs : Sessions) → Distinct xs → Distinct (each f xs)
  unfolding each
  each-Distinct [] d = tt
  each-Distinct ((key, s) ∷ rest) d = (find_session-each key rest d.0, each-Distinct rest d.1)

  pub each-Owns :
      ((key : ℕ) (s : Session) → Owns key s → Owns key (f key s))
      → (xs : Sessions) → All (λ (p : ℕ × Session). Owns p.0 p.1) xs
      → All (λ (p : ℕ × Session). Owns p.0 p.1) (each f xs)
  unfolding each
  each-Owns h [] a = tt
  each-Owns h ((key, s) ∷ rest) a = (h key s a.0, each-Owns h rest a.1)

pub push_if-Owns :
    (event : Event) (key : ℕ) (s : Session) → Owns key s → Owns key (push_if event key s)
unfolding push_if push_event
push_if-Owns event key s a = elim (Bool-cases (key == event.connection_id)) [
  | inl e ↦
      let same : event.connection_id ≡ key = ground arith in
      rw e (All-append (λ (x : Event). x.connection_id ≡ key) s.events (event ∷ []) a (same, tt))
  | inr e ↦ rw e a
]

extracted-Owns :
    (key : ℕ) (s : Session) (events : List Event) (o : Option (Event × Session))
    → extract_from events s ≡ o
    → All (λ (e : Event). e.connection_id ≡ key) events
    → Owns key s
    → Owns key (let t : Session = elim o [ none ↦ s | some (event, t) ↦ t ] in t)
unfolding extract_from
extracted-Owns key s [] o h a b = rw (← h) b
extracted-Owns key s (x ∷ xs) o h a b = rw (← h) a.1

offered-Owns :
    (key : ℕ) (s : Session) (busy : Bool)
    → Owns key s
    → Owns key (
        let t : Session = elim (if busy then none else extract_from s.events s) [
          | none ↦ s
          | some (event, t) ↦ t
        ] in
        t)
offered-Owns key s true a = a
offered-Owns key s false a = extracted-Owns key s s.events (extract_from s.events s) refl a a

pub scheduled-Owns : (key : ℕ) (s : Session) → Owns key s → Owns key (scheduled key s)
unfolding scheduled try_extract_next_task
scheduled-Owns key s a = offered-Owns key s s.is_processing a

pub find_session-append :
    (id key : ℕ) (s : Session) (xs : Sessions)
    → find_session id xs ≡ none
    → (key == id) ≡ false
    → find_session id (xs ++ (key, s) ∷ []) ≡ none
unfolding find_session
find_session-append id key s [] h k = rw k refl
find_session-append id key s ((x, t) ∷ rest) h k = elim (Bool-cases (x == id)) [
  | inl e ↦ let g = rw e at h in cc
  | inr e ↦ rw e (find_session-append id key s rest (rw e at h) k)
]

pub append-Distinct :
    (key : ℕ) (s : Session) (xs : Sessions)
    → find_session key xs ≡ none
    → Distinct xs
    → Distinct (xs ++ (key, s) ∷ [])
unfolding find_session
append-Distinct key s [] h d = (refl, tt)
append-Distinct key s ((x, t) ∷ rest) h d = elim (Bool-cases (x == key)) [
  | inl e ↦ let g = rw e at h in cc
  | inr e ↦ (
    find_session-append x key s rest d.0 (ground arith),
    append-Distinct key s rest (rw e at h) d.1,
  )
]

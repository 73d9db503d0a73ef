-- ===== src/Pool/Ends.antt =====
-- Stop returns: what is left to do runs out, and until it does some worker can go on.
use mail_server_client.Base.{
  ℕ, zero, suc, ◌+◌, ◌*◌, ◌<◌, ◌≡◌, ◌⊎◌, refl, sym, ap, ◌∙◌, Bool, true, false, List, [], ◌∷◌, ◌++◌,
  length, map, inl, inr, arith,
}
use mail_server_client.Pool.{
  Worker, ready, asleep, exited, running, Pool, returns, takes, take_turn, is_joined, System, awake,
  set_stopping, notify_all, Step, adds, stops, notifies, wakes, sleeps, leaves, begins, ends, Reach,
}
use mail_server_client.Pool.Order.{
  has_exited, has_asleep, Inv, asleep-split, takes-front, waits-serving,
}
use mail_server_client.Pool.Keeps.{Reach-Inv, Step-Inv, Added-of}

-- What is left to do: for a worker, and for the system.
weight : Worker → ℕ
weight exited = 0
weight ready = 1
weight asleep = 1
weight (running task) = 2

weights : List Worker → ℕ
weights [] = 0
weights (w ∷ ws) = weight w + weights ws

left_to_do : System → ℕ
left_to_do s = 3 * length s.pool.tasks + weights s.pool.workers

weights-split :
    (ws vs : List Worker) (w : Worker) → weights (ws ++ w ∷ vs) ≡ weight w + weights (ws ++ vs)
unfolding weights
weights-split [] vs w = refl
weights-split (x ∷ ws) vs w = let rest = weights-split ws vs w in omega (arith, rest)

-- A worker that has not returned.
record Busy (workers : List Worker) : Type 0 where
  before : List Worker
  worker : Worker
  behind : List Worker
  here : workers ≡ before ++ worker ∷ behind
  is_busy : has_exited (worker ∷ []) ≡ false

Busy-cons : (w : Worker) (ws : List Worker) → Busy ws → Busy (w ∷ ws)
Busy-cons w ws b = record {
  before = w ∷ b.before;
  worker = b.worker;
  behind = b.behind;
  here = ap (◌∷◌ w) b.here;
  is_busy = b.is_busy;
}

Busy-or_joined : (ws : List Worker) → (is_joined ws ≡ true) ⊎ Busy ws
unfolding is_joined has_exited
Busy-or_joined [] = inl refl
Busy-or_joined (exited ∷ ws) = elim (Busy-or_joined ws) [
  | inl h ↦ inl h
  | inr b ↦ inr (Busy-cons exited ws b)
]
Busy-or_joined (ready ∷ ws) =
    inr (record { before = []; worker = ready; behind = ws; here = refl; is_busy = refl })
Busy-or_joined (asleep ∷ ws) =
    inr (record { before = []; worker = asleep; behind = ws; here = refl; is_busy = refl })
Busy-or_joined (running task ∷ ws) =
    inr (record { before = []; worker = running task; behind = ws; here = refl; is_busy = refl })

-- Whose step it is: Stop's, or a worker's that holds the lock or ends its task. A client adds a task,
-- and a sleeper may wake without a call that notifies it.
pub is_of_stop : {s t : System} → Step s t → Bool
is_of_stop stops = true
is_of_stop (notifies h) = true
is_of_stop (adds task p h) = false
is_of_stop (wakes ws vs h) = false
is_of_stop (sleeps ws vs h k) = false
is_of_stop (leaves ws vs h k) = false
is_of_stop (begins ws vs task rest h k) = false
is_of_stop (ends ws vs task h) = false

pub is_of_worker : {s t : System} → Step s t → Bool
is_of_worker stops = false
is_of_worker (notifies h) = false
is_of_worker (adds task p h) = false
is_of_worker (wakes ws vs h) = false
is_of_worker (sleeps ws vs h k) = true
is_of_worker (leaves ws vs h k) = true
is_of_worker (begins ws vs task rest h k) = true
is_of_worker (ends ws vs task h) = true

-- Some worker can go on, without being woken.
pub record CanGoOn (s : System) : Type 0 where
  pub next : System
  pub step : Step s next
  pub by_worker : is_of_worker step ≡ true

-- Every run from here comes to an end, and it can end only where all workers have returned: until then
-- some worker can go on, a further call of Stop changes nothing, and whatever else happens is closer to
-- the end.
pub data AlwaysJoins : System → Type 0 where
  always_joins :
      {s : System}
      → (is_joined s.pool.workers ≡ true) ⊎ CanGoOn s
      → ((t : System) (step : Step s t) → is_of_stop step ≡ true → t ≡ s)
      → ((t : System) (step : Step s t) → is_of_stop step ≡ false → AlwaysJoins t)
      → AlwaysJoins s

-- The turn of a worker when the pool is stopping.
Turned : Pool → Type 0
Turned p =
    (take_turn p ≡ returns)
    ⊎ ((task : ℕ) × (rest : List ℕ) × (take_turn p ≡ takes task rest) × (p.tasks ≡ task ∷ rest))

Turned-on :
    (tasks : List ℕ) (stopping : Bool) (workers : List Worker)
    → stopping ≡ true
    → Turned (record { tasks = tasks; stopping = stopping; workers = workers })
unfolding Turned take_turn
Turned-on [] true workers h = inl refl
Turned-on (x ∷ xs) true workers h = inr (x, xs, refl, refl)
Turned-on tasks false workers h = cc

true-false : true ≡ false → ⊥
true-false e = cc

Turned-of : (p : Pool) → p.stopping ≡ true → Turned p
unfolding Turned
Turned-of p h = Turned-on p.tasks p.stopping p.workers h

awake-none : (ws : List Worker) → has_asleep ws ≡ false → map awake ws ≡ ws
unfolding has_asleep
awake-none [] h = refl
awake-none (asleep ∷ ws) h = cc
awake-none (ready ∷ ws) h = ap (◌∷◌ ready) (awake-none ws h)
awake-none (exited ∷ ws) h = ap (◌∷◌ exited) (awake-none ws h)
awake-none (running task ∷ ws) h = ap (◌∷◌ (running task)) (awake-none ws h)

module _ (s : System) (i : Inv s) (n : s.is_notified ≡ true) where
  stopped : s.pool.stopping ≡ true
  stopped = (i.notified n).0

  nobody_asleep : (ws vs : List Worker) → s.pool.workers ≡ ws ++ asleep ∷ vs → ⊥
  unfolding has_asleep
  nobody_asleep ws vs e =
      true-false (sym (asleep-split ws vs asleep) ∙ ap has_asleep (sym e) ∙ (i.notified n).1)

  old_weights :
      (ws vs : List Worker) (w : Worker)
      → s.pool.workers ≡ ws ++ w ∷ vs
      → weights s.pool.workers ≡ weight w + weights (ws ++ vs)
  old_weights ws vs w e = ap weights e ∙ weights-split ws vs w

  Step-less :
      (t : System) (step : Step s t)
      → is_of_stop step ≡ false
      → (left_to_do t < left_to_do s) × (t.is_notified ≡ true)
  unfolding is_of_stop left_to_do weight
  Step-less t stops b = cc
  Step-less t (notifies h) b = cc
  Step-less t (adds task p h) b =
      absurd (true-false (sym stopped ∙ (Added-of task s.pool p h).serving))
  Step-less t (wakes ws vs e) b = absurd (nobody_asleep ws vs e)
  Step-less t (sleeps ws vs e k) b = absurd (true-false (sym stopped ∙ waits-serving s.pool k))
  Step-less t (leaves ws vs e k) b =
      (omega (arith, old_weights ws vs ready e, weights-split ws vs exited), n)
  Step-less t (begins ws vs task rest e k) b =
      let l : length s.pool.tasks ≡ suc (length rest) =
        ap length (takes-front s.pool task rest k) in
      (omega (arith, l, old_weights ws vs ready e, weights-split ws vs (running task)), n)
  Step-less t (ends ws vs task e) b =
      (omega (arith, old_weights ws vs (running task) e, weights-split ws vs ready), n)

  Step-same : (t : System) (step : Step s t) → is_of_stop step ≡ true → t ≡ s
  unfolding is_of_stop set_stopping notify_all
  Step-same t stops b = ap (λ x. record s { pool = record s.pool { stopping = x } }) (sym stopped)
  Step-same t (notifies h) b =
      let workers = awake-none s.pool.workers (i.notified n).1 in
      λ j. record s { pool = record s.pool { workers = workers j }; is_notified = sym n j }
  Step-same t (adds task p h) b = cc
  Step-same t (wakes ws vs e) b = cc
  Step-same t (sleeps ws vs e k) b = cc
  Step-same t (leaves ws vs e k) b = cc
  Step-same t (begins ws vs task rest e k) b = cc
  Step-same t (ends ws vs task e) b = cc

  ready-CanGoOn :
      (ws vs : List Worker) → s.pool.workers ≡ ws ++ ready ∷ vs → Turned s.pool → CanGoOn s
  unfolding Turned is_of_worker
  ready-CanGoOn ws vs e (inl t) = record { next = _; step = leaves ws vs e t; by_worker = refl }
  ready-CanGoOn ws vs e (inr (task, rest, t, f)) = record {
    next = _;
    step = begins ws vs task rest e t;
    by_worker = refl;
  }

  Busy-CanGoOn :
      (ws vs : List Worker) (w : Worker)
      → s.pool.workers ≡ ws ++ w ∷ vs
      → has_exited (w ∷ []) ≡ false
      → CanGoOn s
  unfolding has_exited is_of_worker
  Busy-CanGoOn ws vs exited e b = cc
  Busy-CanGoOn ws vs ready e b = ready-CanGoOn ws vs e (Turned-of s.pool stopped)
  Busy-CanGoOn ws vs asleep e b = absurd (nobody_asleep ws vs e)
  Busy-CanGoOn ws vs (running task) e b = record {
    next = _;
    step = ends ws vs task e;
    by_worker = refl;
  }

  joined_or_on : (is_joined s.pool.workers ≡ true) ⊎ CanGoOn s
  joined_or_on = elim (Busy-or_joined s.pool.workers) [
    | inl h ↦ inl h
    | inr x ↦ inr (Busy-CanGoOn x.before x.behind x.worker x.here x.is_busy)
  ]

within-AlwaysJoins :
    (fuel : ℕ) (s : System) → Inv s → s.is_notified ≡ true → left_to_do s < fuel → AlwaysJoins s
within-AlwaysJoins zero s i n b = absurd (omega (arith, b))
within-AlwaysJoins (suc fuel) s i n b =
    always_joins (joined_or_on s i n) (Step-same s i n) λ t step own.
      let (less, still) = Step-less s i n t step own in
      within-AlwaysJoins fuel t (Step-Inv s t i step) still (omega (arith, b, less))

-- From every state that is reached once Stop has set its flag and notified the workers, whatever tasks
-- are left in the queue and in hand, every run ends: it takes finitely many steps other than further
-- calls of Stop, which change nothing, and until all workers have returned, so that the joins of Stop
-- return, some worker can go on without being woken again.
pub notified-AlwaysJoins :
    (worker_count : ℕ) (s : System) → Reach worker_count s → s.is_notified ≡ true → AlwaysJoins s
notified-AlwaysJoins worker_count s r n =
    within-AlwaysJoins (suc (left_to_do s)) s (Reach-Inv worker_count s r) n (omega arith)

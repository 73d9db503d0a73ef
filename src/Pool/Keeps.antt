-- ===== src/Pool/Keeps.antt =====
-- Every step of the pool keeps its invariant.
use mail_server_client.Base.{
  ℕ, suc, zero, ◌+◌, ◌≡◌, refl, sym, ap, ◌∙◌, Bool, true, false, List, [], ◌∷◌, ◌++◌, append_assoc,
  is_empty, map, ◌==◌, arith,
}
use mathlib.Core.Path.{subst}
use mail_server_client.Storage.Database.{ok}
use mail_server_client.Pool.{
  Worker, ready, asleep, exited, running, Pool, ready_workers, new_pool, add_task, awake,
  set_stopping, notify_all, System, begin_with, moved, Step, adds, stops, notifies, wakes, sleeps,
  leaves, begins, ends, Reach, start, later,
}
use mail_server_client.Pool.Order.{
  count, in_hand, all_in_hand, has_exited, has_asleep, Inv, count-append, in_hand-split,
  exited-split, asleep-split, nonempty-split, takes-front, returns-drained, waits-serving, Replaced,
  Replaced-by,
}

true-false : true ≡ false → ⊥
true-false e = cc

Replaced-Inv : (s : System) (ws : List Worker) → Inv s → Replaced s ws → Inv (moved s ws)
Replaced-Inv s ws i r = record {
  order = i.order;
  begun = λ n. omega (arith, i.begun n, r.hands n);
  drained = r.exits;
  notified = λ h. ((i.notified h).0, r.sleepers h);
  some_worker = r.some_left;
}

-- A task is added only while the pool is not stopping.
pub record Added (p q : Pool) (task : ℕ) : Type 0 where
  pub serving : p.stopping ≡ false
  same : record p { tasks = p.tasks ++ task ∷ [] } ≡ q

Added-to :
    (task : ℕ) (tasks : List ℕ) (stopping : Bool) (workers : List Worker) (q : Pool)
    → add_task task (record { tasks = tasks; stopping = stopping; workers = workers }) ≡ ok q
    → Added (record { tasks = tasks; stopping = stopping; workers = workers }) q task
unfolding add_task
Added-to task tasks true workers q h = cc
Added-to task tasks false workers q h = record { serving = refl; same = cc }

pub Added-of : (task : ℕ) (p q : Pool) → add_task task p ≡ ok q → Added p q task
Added-of task p q h = Added-to task p.tasks p.stopping p.workers q h

adds-Inv :
    (s : System) (task : ℕ) (p : Pool)
    → Inv s
    → add_task task s.pool ≡ ok p
    → Inv (record s { pool = p; accepted = s.accepted ++ task ∷ [] })
adds-Inv s task p i h =
    let a = Added-of task s.pool p h in
    let new : Inv (record s {
      pool = record s.pool { tasks = s.pool.tasks ++ task ∷ [] };
      accepted = s.accepted ++ task ∷ [];
    }) =
      record {
        order =
            ap (λ (l : List ℕ). l ++ task ∷ []) i.order
            ∙ append_assoc s.started s.pool.tasks (task ∷ []);
        begun = i.begun;
        drained = λ e. let d = (i.drained e).0 in absurd (true-false (sym d ∙ a.serving));
        notified = i.notified;
        some_worker = i.some_worker;
      } in
    subst (λ q. Inv (record s { pool = q; accepted = s.accepted ++ task ∷ [] })) a.same new

awake-in_hand : (ws : List Worker) → all_in_hand (map awake ws) ≡ all_in_hand ws
unfolding all_in_hand in_hand
awake-in_hand [] = refl
awake-in_hand (asleep ∷ ws) = awake-in_hand ws
awake-in_hand (ready ∷ ws) = awake-in_hand ws
awake-in_hand (exited ∷ ws) = awake-in_hand ws
awake-in_hand (running task ∷ ws) = ap (◌∷◌ task) (awake-in_hand ws)

awake-exited : (ws : List Worker) → has_exited (map awake ws) ≡ has_exited ws
unfolding has_exited
awake-exited [] = refl
awake-exited (asleep ∷ ws) = awake-exited ws
awake-exited (ready ∷ ws) = awake-exited ws
awake-exited (exited ∷ ws) = refl
awake-exited (running task ∷ ws) = awake-exited ws

awake-asleep : (ws : List Worker) → has_asleep (map awake ws) ≡ false
unfolding has_asleep
awake-asleep [] = refl
awake-asleep (asleep ∷ ws) = awake-asleep ws
awake-asleep (ready ∷ ws) = awake-asleep ws
awake-asleep (exited ∷ ws) = awake-asleep ws
awake-asleep (running task ∷ ws) = awake-asleep ws

awake-some : (ws : List Worker) → is_empty (map awake ws) ≡ is_empty ws
awake-some [] = refl
awake-some (w ∷ ws) = refl

notifies-Inv :
    (s : System)
    → Inv s
    → s.pool.stopping ≡ true
    → Inv (record s { pool = notify_all s.pool; is_notified = true })
unfolding notify_all
notifies-Inv s i h = record {
  order = i.order;
  begun = λ n.
      i.begun n ∙ ap (λ l. count n s.finished + count n l) (sym (awake-in_hand s.pool.workers));
  drained = λ e. i.drained (sym (awake-exited s.pool.workers) ∙ e);
  notified = λ e. (h, awake-asleep s.pool.workers);
  some_worker = awake-some s.pool.workers ∙ i.some_worker;
}

begins-Inv :
    (s : System) (ws vs : List Worker) (task : ℕ) (rest : List ℕ)
    → Inv s
    → s.pool.workers ≡ ws ++ ready ∷ vs
    → s.pool.tasks ≡ task ∷ rest
    → Inv (record s {
      pool = record s.pool { tasks = rest; workers = ws ++ running task ∷ vs };
      started = s.started ++ task ∷ [];
    })
unfolding in_hand has_exited has_asleep count
begins-Inv s ws vs task rest i e f = record {
  order = i.order ∙ ap (λ l. s.started ++ l) f ∙ sym (append_assoc s.started (task ∷ []) rest);
  begun = λ n.
      let o : count n (all_in_hand s.pool.workers) ≡ count n (all_in_hand (ws ++ ready ∷ vs)) =
        ap (λ l. count n (all_in_hand l)) e in
      omega (
        arith,
        i.begun n,
        o,
        in_hand-split n ws vs ready,
        in_hand-split n ws vs (running task),
        count-append n s.started (task ∷ []),
      );
  drained = λ h.
      let old : has_exited s.pool.workers ≡ true =
        ap has_exited e ∙ exited-split ws vs ready ∙ sym (exited-split ws vs (running task)) ∙ h in
      absurd (true-false (sym (i.drained old).1 ∙ ap is_empty f));
  notified = λ h. (
    (i.notified h).0,
    asleep-split ws vs (running task)
        ∙ sym (asleep-split ws vs ready)
        ∙ ap has_asleep (sym e)
        ∙ (i.notified h).1,
  );
  some_worker = nonempty-split ws vs (running task);
}

ends-Inv :
    (s : System) (ws vs : List Worker) (task : ℕ)
    → Inv s
    → s.pool.workers ≡ ws ++ running task ∷ vs
    → Inv (record s {
      pool = record s.pool { workers = ws ++ ready ∷ vs };
      finished = s.finished ++ task ∷ [];
    })
unfolding in_hand has_exited has_asleep count
ends-Inv s ws vs task i e = record {
  order = i.order;
  begun = λ n.
      let o : count n (all_in_hand s.pool.workers)
          ≡ count n (all_in_hand (ws ++ running task ∷ vs)) =
        ap (λ l. count n (all_in_hand l)) e in
      omega (
        arith,
        i.begun n,
        o,
        in_hand-split n ws vs ready,
        in_hand-split n ws vs (running task),
        count-append n s.finished (task ∷ []),
      );
  drained = λ h.
      i.drained
        (ap has_exited e ∙ exited-split ws vs (running task) ∙ sym (exited-split ws vs ready) ∙ h);
  notified = λ h. (
    (i.notified h).0,
    asleep-split ws vs ready
        ∙ sym (asleep-split ws vs (running task))
        ∙ ap has_asleep (sym e)
        ∙ (i.notified h).1,
  );
  some_worker = nonempty-split ws vs ready;
}

pub Step-Inv : (s t : System) → Inv s → Step s t → Inv t
unfolding set_stopping in_hand has_exited has_asleep
Step-Inv s t i (adds task p h) = adds-Inv s task p i h
Step-Inv s t i stops = record {
  order = i.order;
  begun = i.begun;
  drained = λ e. (refl, (i.drained e).1);
  notified = λ e. (refl, (i.notified e).1);
  some_worker = i.some_worker;
}
Step-Inv s t i (notifies h) = notifies-Inv s i h
Step-Inv s t i (wakes ws vs e) =
    Replaced-Inv s _ i (Replaced-by s ws vs asleep ready i e (λ n. refl) (λ h. cc) (λ h. refl))
Step-Inv s t i (sleeps ws vs e w) = Replaced-Inv s _ i (
    Replaced-by s ws vs ready asleep i e (λ n. refl) (λ h. cc)
      (λ h. absurd (true-false (sym (i.notified h).0 ∙ waits-serving s.pool w))))
Step-Inv s t i (leaves ws vs e w) =
    Replaced-Inv s _ i
      (Replaced-by s ws vs ready exited i e (λ n. refl) (λ h. returns-drained s.pool w) (λ h. refl))
Step-Inv s t i (begins ws vs task rest e w) =
    begins-Inv s ws vs task rest i e (takes-front s.pool task rest w)
Step-Inv s t i (ends ws vs task e) = ends-Inv s ws vs task i e

ready-in_hand : (n : ℕ) → all_in_hand (ready_workers n) ≡ []
unfolding ready_workers all_in_hand in_hand
ready-in_hand zero = refl
ready-in_hand (suc n) = ready-in_hand n

ready-exited : (n : ℕ) → has_exited (ready_workers n) ≡ false
unfolding ready_workers has_exited
ready-exited zero = refl
ready-exited (suc n) = ready-exited n

ready_workers-Inv :
    (n : ℕ)
    → is_empty (ready_workers n) ≡ false
    → Inv (record (begin_with 0) {
      pool = record { tasks = []; stopping = false; workers = ready_workers n };
    })
unfolding count
ready_workers-Inv n h = record {
  order = refl;
  begun = λ m. let e = ap (count m) (ready-in_hand n) in omega (arith, e);
  drained = λ e. absurd (true-false (sym e ∙ ready-exited n));
  notified = λ e. cc;
  some_worker = h;
}

begin_with-Inv : (n : ℕ) → Inv (begin_with n)
unfolding new_pool ready_workers
begin_with-Inv zero = ready_workers-Inv 1 refl
begin_with-Inv (suc n) =
    let e : (suc n == 0) ≡ false = ground arith in rw (e, new_pool) (ready_workers-Inv (suc n) refl)

pub Reach-Inv : (worker_count : ℕ) (s : System) → Reach worker_count s → Inv s
Reach-Inv n s start = begin_with-Inv n
Reach-Inv n s (later r step) = Step-Inv _ s (Reach-Inv n _ r) step

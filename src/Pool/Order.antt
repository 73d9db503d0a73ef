-- ===== src/Pool/Order.antt =====
-- The order of the tasks, and what has become of them when Stop returns.
use mail_server_client.Base.{
  ℕ, suc, ◌+◌, ◌≡◌, refl, sym, ap, ◌∙◌, Bool, true, false, ◌||◌, List, [], ◌∷◌, ◌++◌, is_empty,
  ◌==◌, if◌then◌else◌, arith,
}
use mail_server_client.Pool.{
  Worker, asleep, exited, running, Pool, waits, returns, takes, take_turn, System,
}

-- How often a task stands in the list.
unfoldable pub count : ℕ → List ℕ → ℕ
count n [] = 0
count n (x ∷ xs) = let rest = count n xs in if x == n then suc rest else rest

unfoldable pub in_hand : Worker → List ℕ
in_hand (running task) = task ∷ []
in_hand _ = []

-- The tasks that workers are in.
unfoldable pub all_in_hand : List Worker → List ℕ
all_in_hand [] = []
all_in_hand (w ∷ ws) = in_hand w ++ all_in_hand ws

unfoldable pub has_exited : List Worker → Bool
has_exited [] = false
has_exited (exited ∷ ws) = true
has_exited (_ ∷ ws) = has_exited ws

unfoldable pub has_asleep : List Worker → Bool
has_asleep [] = false
has_asleep (asleep ∷ ws) = true
has_asleep (_ ∷ ws) = has_asleep ws

pub record Inv (s : System) : Type 0 where
  pub order : s.accepted ≡ s.started ++ s.pool.tasks
  pub begun :
      (n : ℕ) → count n s.started ≡ count n s.finished + count n (all_in_hand s.pool.workers)
  pub drained :
      has_exited s.pool.workers ≡ true → (s.pool.stopping ≡ true) × (is_empty s.pool.tasks ≡ true)
  pub notified :
      s.is_notified ≡ true → (s.pool.stopping ≡ true) × (has_asleep s.pool.workers ≡ false)
  pub some_worker : is_empty s.pool.workers ≡ false

pub count-append : (n : ℕ) (xs ys : List ℕ) → count n (xs ++ ys) ≡ count n xs + count n ys
unfolding count
count-append n [] ys = omega arith
count-append n (x ∷ xs) ys = let rest = count-append n xs ys in ground (arith, rest)

-- What one worker in the list adds.
pub in_hand-split :
    (n : ℕ) (ws vs : List Worker) (w : Worker)
    → count n (all_in_hand (ws ++ w ∷ vs)) ≡ count n (in_hand w) + count n (all_in_hand (ws ++ vs))
unfolding all_in_hand
in_hand-split n [] vs w = count-append n (in_hand w) (all_in_hand vs)
in_hand-split n (x ∷ ws) vs w =
    let rest = in_hand-split n ws vs w in
    omega (
      arith,
      rest,
      count-append n (in_hand x) (all_in_hand (ws ++ w ∷ vs)),
      count-append n (in_hand x) (all_in_hand (ws ++ vs)),
    )

pub exited-split :
    (ws vs : List Worker) (w : Worker)
    → has_exited (ws ++ w ∷ vs) ≡ has_exited (w ∷ []) || has_exited (ws ++ vs)
unfolding has_exited
exited-split [] vs w = ground arith
exited-split (x ∷ ws) vs w = let rest = exited-split ws vs w in ground (arith, rest)

pub asleep-split :
    (ws vs : List Worker) (w : Worker)
    → has_asleep (ws ++ w ∷ vs) ≡ has_asleep (w ∷ []) || has_asleep (ws ++ vs)
unfolding has_asleep
asleep-split [] vs w = ground arith
asleep-split (x ∷ ws) vs w = let rest = asleep-split ws vs w in ground (arith, rest)

pub nonempty-split : (ws vs : List Worker) (w : Worker) → is_empty (ws ++ w ∷ vs) ≡ false
nonempty-split [] vs w = refl
nonempty-split (x ∷ ws) vs w = refl

front :
    (tasks : List ℕ) (stopping : Bool) (workers : List Worker) (task : ℕ) (rest : List ℕ)
    → take_turn (record { tasks = tasks; stopping = stopping; workers = workers }) ≡ takes task rest
    → tasks ≡ task ∷ rest
unfolding take_turn
front [] true workers task rest h = cc
front [] false workers task rest h = cc
front (x ∷ xs) true workers task rest h = cc
front (x ∷ xs) false workers task rest h = cc

drained_of :
    (tasks : List ℕ) (stopping : Bool) (workers : List Worker)
    → take_turn (record { tasks = tasks; stopping = stopping; workers = workers }) ≡ returns
    → (stopping ≡ true) × (is_empty tasks ≡ true)
unfolding take_turn
drained_of [] true workers h = (refl, refl)
drained_of [] false workers h = cc
drained_of (x ∷ xs) true workers h = cc
drained_of (x ∷ xs) false workers h = cc

serving_of :
    (tasks : List ℕ) (stopping : Bool) (workers : List Worker)
    → take_turn (record { tasks = tasks; stopping = stopping; workers = workers }) ≡ waits
    → stopping ≡ false
unfolding take_turn
serving_of tasks false workers h = refl
serving_of [] true workers h = cc
serving_of (x ∷ xs) true workers h = cc

pub exits_of :
    {C : Type 0} (u rest w : Bool) {o : Bool}
    → (u ≡ true → C)
    → (o ≡ true → C)
    → (u || rest) ≡ true
    → o ≡ (w || rest)
    → C
exits_of true rest w f g h e = f refl
exits_of false true true f g h e = g e
exits_of false true false f g h e = g e
exits_of false false w f g h e = cc

pub neither : (u rest w : Bool) → u ≡ false → (w || rest) ≡ false → (u || rest) ≡ false
neither u rest w h k = ground arith

pub takes-front :
    (p : Pool) (task : ℕ) (rest : List ℕ) → take_turn p ≡ takes task rest → p.tasks ≡ task ∷ rest
takes-front p task rest h = front p.tasks p.stopping p.workers task rest h

pub returns-drained :
    (p : Pool) → take_turn p ≡ returns → (p.stopping ≡ true) × (is_empty p.tasks ≡ true)
returns-drained p h = drained_of p.tasks p.stopping p.workers h

pub waits-serving : (p : Pool) → take_turn p ≡ waits → p.stopping ≡ false
waits-serving p h = serving_of p.tasks p.stopping p.workers h

-- A worker was replaced in the list by one that has not returned, holds the same tasks and sleeps only
-- where the pool is not stopping.
pub record Replaced (s : System) (workers : List Worker) : Type 0 where
  pub hands : (n : ℕ) → count n (all_in_hand workers) ≡ count n (all_in_hand s.pool.workers)
  pub exits : has_exited workers ≡ true → (s.pool.stopping ≡ true) × (is_empty s.pool.tasks ≡ true)
  pub sleepers : s.is_notified ≡ true → has_asleep workers ≡ false
  pub some_left : is_empty workers ≡ false

pub Replaced-by :
    (s : System) (ws vs : List Worker) (w u : Worker)
    → Inv s
    → s.pool.workers ≡ ws ++ w ∷ vs
    → ((n : ℕ) → count n (in_hand u) ≡ count n (in_hand w))
    → (has_exited (u ∷ []) ≡ true → (s.pool.stopping ≡ true) × (is_empty s.pool.tasks ≡ true))
    → (s.is_notified ≡ true → has_asleep (u ∷ []) ≡ false)
    → Replaced s (ws ++ u ∷ vs)
Replaced-by s ws vs w u i e same x a = record {
  hands = λ n.
      let o : count n (all_in_hand s.pool.workers) ≡ count n (all_in_hand (ws ++ w ∷ vs)) =
        ap (λ l. count n (all_in_hand l)) e in
      omega (arith, o, in_hand-split n ws vs w, in_hand-split n ws vs u, same n);
  exits = λ h.
      let o : has_exited s.pool.workers ≡ has_exited (ws ++ w ∷ vs) = ap has_exited e in
      exits_of (has_exited (u ∷ [])) (has_exited (ws ++ vs)) (has_exited (w ∷ [])) x i.drained
        (sym (exited-split ws vs u) ∙ h) (o ∙ exited-split ws vs w);
  sleepers = λ h.
      let o : has_asleep s.pool.workers ≡ has_asleep (ws ++ w ∷ vs) = ap has_asleep e in
      asleep-split ws vs u
      ∙ neither (has_asleep (u ∷ [])) (has_asleep (ws ++ vs)) (has_asleep (w ∷ [])) (a h)
          (sym (asleep-split ws vs w) ∙ sym o ∙ (i.notified h).1);
  some_left = nonempty-split ws vs u;
}

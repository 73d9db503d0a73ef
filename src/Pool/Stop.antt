-- ===== src/Pool/Stop.antt =====
-- What Stop promises of the tasks when it returns.
use mail_server_client.Base.{
  ℕ, ◌≡◌, refl, ap, ◌∙◌, true, false, List, [], ◌∷◌, ◌++◌, append-nil, is_empty, arith,
}
use mail_server_client.Pool.{Worker, ready, asleep, exited, running, is_joined, System, Reach}
use mail_server_client.Pool.Order.{count, all_in_hand, in_hand, has_exited}
use mail_server_client.Pool.Keeps.{Reach-Inv}

joined-exited :
    (ws : List Worker) → is_empty ws ≡ false → is_joined ws ≡ true → has_exited ws ≡ true
unfolding is_joined has_exited
joined-exited [] h k = cc
joined-exited (exited ∷ ws) h k = refl
joined-exited (ready ∷ ws) h k = cc
joined-exited (asleep ∷ ws) h k = cc
joined-exited (running task ∷ ws) h k = cc

joined-in_hand : (ws : List Worker) → is_joined ws ≡ true → all_in_hand ws ≡ []
unfolding is_joined all_in_hand in_hand
joined-in_hand [] k = refl
joined-in_hand (exited ∷ ws) k = joined-in_hand ws k
joined-in_hand (ready ∷ ws) k = cc
joined-in_hand (asleep ∷ ws) k = cc
joined-in_hand (running task ∷ ws) k = cc

nil_of : (xs : List ℕ) → is_empty xs ≡ true → xs ≡ []
nil_of [] h = refl
nil_of (x ∷ xs) h = cc

-- When all workers have returned, which is when Stop does: the tasks were begun in the order in which
-- they were accepted, all of them, and each has ended as often as it was accepted.
pub joined-finished :
    (worker_count : ℕ) (s : System)
    → Reach worker_count s
    → is_joined s.pool.workers ≡ true
    → (s.accepted ≡ s.started) × ((n : ℕ) → count n s.finished ≡ count n s.accepted)
unfolding count
joined-finished worker_count s r h =
    let i = Reach-Inv worker_count s r in
    let left = (i.drained (joined-exited s.pool.workers i.some_worker h)).1 in
    let all : s.accepted ≡ s.started =
      i.order ∙ ap (λ l. s.started ++ l) (nil_of s.pool.tasks left) ∙ append-nil s.started in
    (
      all,
      λ n.
          let a = ap (count n) all in
          let b = ap (count n) (joined-in_hand s.pool.workers h) in omega (arith, a, b, i.begun n),
    )

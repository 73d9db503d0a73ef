-- ===== src/Pool/Tests.antt =====
-- The theorems on the pool, at one worker, which sleeps at first, and one task.
use mail_server_client.Base.{ℕ, ◌≡◌, refl, true, [], ◌∷◌}
use mail_server_client.Pool.{
  ready, exited, ready_workers, new_pool, add_task, take_turn, set_stopping, notify_all, is_joined,
  System, begin_with, sleeps, adds, stops, notifies, begins, ends, leaves, Reach, start, later,
}
use mail_server_client.Pool.Order.{count}
use mail_server_client.Pool.Stop.{joined-finished}
use mail_server_client.Pool.Ends.{AlwaysJoins, notified-AlwaysJoins}

abbrev busy : System
busy = record (begin_with 1) {
  pool = record { tasks = 7 ∷ []; stopping = true; workers = ready ∷ [] };
  accepted = 7 ∷ [];
  is_notified = true;
}

busy_reached : Reach 1 busy
unfolding new_pool ready_workers add_task take_turn set_stopping notify_all
busy_reached =
    later (later (later (later start (sleeps [] [] refl refl)) (adds 7 _ refl)) stops)
      (notifies refl)

notified-AlwaysJoins_example : AlwaysJoins busy
notified-AlwaysJoins_example = notified-AlwaysJoins 1 busy busy_reached refl

abbrev ended : System
ended = record busy {
  pool = record { tasks = []; stopping = true; workers = exited ∷ [] };
  started = 7 ∷ [];
  finished = 7 ∷ [];
}

ended_reached : Reach 1 ended
unfolding take_turn
ended_reached =
    later (later (later busy_reached (begins [] [] 7 [] refl refl)) (ends [] [] 7 refl))
      (leaves [] [] refl refl)

is_ended : is_joined ended.pool.workers ≡ true
unfolding is_joined
is_ended = refl

joined-finished_example :
    (ended.accepted ≡ ended.started) × ((n : ℕ) → count n ended.finished ≡ count n ended.accepted)
joined-finished_example = joined-finished 1 ended ended_reached is_ended

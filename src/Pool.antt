-- ===== src/Pool.antt =====
-- libs/thread_pool/src/ThreadPool.cpp. A task is a number that names it: what it does is not the pool's, and a
-- packaged task keeps what it throws. The mutex makes what happens under it one step; a worker that
-- waits may wake at any time, as the condition variable permits.
pub mod Order
pub mod Keeps
pub mod Stop
pub mod Ends
mod Tests
use mail_server_client.Base.{
  ℕ, zero, suc, Bool, true, false, not, ◌&&◌, ◌||◌, List, [], ◌∷◌, ◌++◌, codes, is_empty, map, ◌==◌,
  ◌≡◌, if◌then◌else◌,
}
use mail_server_client.Storage.Database.{Result, ok, err, std_exception}

-- Where a worker is in WorkerLoop: in front of the lock, in the wait, in task(), behind the return.
pub data Worker : Type 0 where
  ready asleep exited : Worker
  running : ℕ → Worker

pub record Pool : Type 0 where
  pub tasks : List ℕ
  pub stopping : Bool
  pub workers : List Worker

unfoldable pub ready_workers : ℕ → List Worker
ready_workers zero = []
ready_workers (suc n) = ready ∷ ready_workers n

unfoldable pub new_pool : ℕ → Pool
new_pool worker_count = record {
  tasks = [];
  stopping = false;
  workers = ready_workers (if worker_count == 0 then 1 else worker_count);
}

unfoldable pub add_task : ℕ → Pool → Result Pool
add_task task p =
    if p.stopping
    then err (std_exception (codes "ThreadPool is stopping"))
    else ok (record p { tasks = p.tasks ++ task ∷ [] })

-- What a worker does that has the lock: it waits, returns, or takes the front of the queue.
pub data Turn : Type 0 where
  waits returns : Turn
  takes : ℕ → List ℕ → Turn

unfoldable pub take_turn : Pool → Turn
take_turn p =
    if p.stopping || not (is_empty p.tasks)
    then if p.stopping && is_empty p.tasks
      then returns
      else elim p.tasks [ [] ↦ returns | task ∷ rest ↦ takes task rest ]
    else waits

abbrev pub awake : Worker → Worker
awake asleep = ready
awake ready = ready
awake exited = exited
awake (running task) = running task

-- The first part of Stop, and notify_all.
unfoldable pub set_stopping : Pool → Pool
set_stopping p = record p { stopping = true }

unfoldable pub notify_all : Pool → Pool
notify_all p = record p { workers = map awake p.workers }

-- The joins of Stop return when every worker has returned.
unfoldable pub is_joined : List Worker → Bool
is_joined [] = true
is_joined (exited ∷ ws) = is_joined ws
is_joined (_ ∷ ws) = false

-- The pool with what has become of the tasks: those accepted, begun and ended, each in that order.
pub record System : Type 0 where
  pub pool : Pool
  pub accepted : List ℕ
  pub started : List ℕ
  pub finished : List ℕ
  pub is_notified : Bool

abbrev pub begin_with : ℕ → System
begin_with worker_count = record {
  pool = new_pool worker_count;
  accepted = [];
  started = [];
  finished = [];
  is_notified = false;
}

-- The system with another list of workers.
abbrev pub moved : System → List Worker → System
moved s ws = record s { pool = record s.pool { workers = ws } }

pub data Step (s : System) : System → Type 0 where
  adds :
      (task : ℕ) (p : Pool)
      → add_task task s.pool ≡ ok p
      → Step s (record s { pool = p; accepted = s.accepted ++ task ∷ [] })
  stops : Step s (record s { pool = set_stopping s.pool })
  notifies :
      s.pool.stopping ≡ true → Step s (record s { pool = notify_all s.pool; is_notified = true })
  wakes :
      (ws vs : List Worker)
      → s.pool.workers ≡ ws ++ asleep ∷ vs
      → Step s (moved s (ws ++ ready ∷ vs))
  sleeps :
      (ws vs : List Worker)
      → s.pool.workers ≡ ws ++ ready ∷ vs
      → take_turn s.pool ≡ waits
      → Step s (moved s (ws ++ asleep ∷ vs))
  leaves :
      (ws vs : List Worker)
      → s.pool.workers ≡ ws ++ ready ∷ vs
      → take_turn s.pool ≡ returns
      → Step s (moved s (ws ++ exited ∷ vs))
  begins :
      (ws vs : List Worker) (task : ℕ) (rest : List ℕ)
      → s.pool.workers ≡ ws ++ ready ∷ vs
      → take_turn s.pool ≡ takes task rest
      → Step s (record s {
        pool = record s.pool { tasks = rest; workers = ws ++ running task ∷ vs };
        started = s.started ++ task ∷ [];
      })
  ends :
      (ws vs : List Worker) (task : ℕ)
      → s.pool.workers ≡ ws ++ running task ∷ vs
      → Step s (record s {
        pool = record s.pool { workers = ws ++ ready ∷ vs };
        finished = s.finished ++ task ∷ [];
      })

pub data Reach (worker_count : ℕ) : System → Type 0 where
  start : Reach worker_count (begin_with worker_count)
  later : {s t : System} → Reach worker_count s → Step s t → Reach worker_count t

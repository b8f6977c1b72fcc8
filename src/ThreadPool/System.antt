-- ===== src/ThreadPool/System.antt =====
-- The pool with its worker threads and the master thread of potato_old/threadPool.c: who stands where
-- between two critical sections, and one step for each critical section.
pub mod Counting
pub mod Finish
pub mod Submit
pub mod Steps
pub mod Reach
pub mod Safety
pub mod Total
pub mod Hang
pub mod Invariant
use tidbits.Prelude.{
  ℕ, zero, suc, ◌+◌, ltb, ◌==◌, if◌then◌else◌, Bool, true, false, ◌&&◌, Option, none, some, List,
  [], ◌∷◌, ◌++◌,
}
use tidbits.ThreadPool.TaskQueue.{Task}
use tidbits.ThreadPool.Pool.{
  Config, Pool, Next, call, sleep, exit, Turn, Pass, handed, spawned, queued, full, create,
  worker_begin, worker_finish, worker_wake, check_thread_timeout, run_task_pass, destroy_pop,
}

-- A worker thread inside its user callback.
pub record Running : Type 0 where
  pub worker : ℕ
  pub task : Task

-- Where the master thread stands. `starting`, `blocked` and `draining` wait on `p->cond`; `started`,
-- `unblocked` and `drained` have been signalled and wait for the lock; `joining` is in
-- `pthread_join`.
pub data Master : Type 0 where
  free : Master
  starting : Master
  started : Master
  blocked : Task → Master
  unblocked : Task → Master
  joining : ℕ → Master
  draining : Master
  drained : Master
  gone : Master

-- `born` threads are created and wait for their first lock; `woken` ones are signalled out of the
-- idle list and wait for the lock; the idle list holds those asleep. `submitted` and `calls` are the
-- traces of the tasks given to `poThreadPool_runTask` and of the user callbacks that were called.
pub record System : Type 0 where
  pub pool : Pool
  pub born : List ℕ
  pub busy : List Running
  pub woken : List ℕ
  pub master : Master
  pub submitted : List Task
  pub calls : List Task

-- `pthread_cond_signal(&p->cond)`: only the master ever waits there.
abbrev pub signal_master : Master → Master
signal_master starting = started
signal_master (blocked t) = unblocked t
signal_master draining = drained
signal_master m = m

abbrev pub signalled : Bool → Master → Master
signalled b m = if b then signal_master m else m

-- The thread of worker `w` goes on as its turn says.
unfoldable pub after_turn : System → ℕ → Turn → System
after_turn s w turn = elim turn.next [
  | call t ↦ record s {
    pool = turn.pool;
    busy = record { worker = w; task = t } ∷ s.busy;
    calls = t ∷ s.calls;
    master = signalled turn.signal s.master;
  }
  | _ ↦ record s { pool = turn.pool; master = signalled turn.signal s.master }
]

abbrev pub maybe {ℓ} : {A : Type ℓ} → Option A → List A
maybe none = []
maybe (some a) = a ∷ []

-- One pass of the loop of `poThreadPool_runTask`, the lock held.
unfoldable pub run_task : Config → System → Task → ℕ → Option System
run_task c s t now = elim (run_task_pass c s.pool t now) [
  | none ↦ none
  | some (pass, p) ↦ elim pass [
    | handed w r ↦ some (record s { pool = p; woken = w ∷ maybe r ++ s.woken; master = free })
    | spawned w ↦ some (record s { pool = p; born = w ∷ s.born; master = starting })
    | queued ↦ some (record s { pool = p; master = free })
    | full ↦ some (record s { pool = p; master = blocked t })
  ]
]

-- `poThreadPool_destroy` once the idle list is empty.
unfoldable pub destroy_rest : System → System
destroy_rest s =
    if ltb 0 s.pool.num_threads
    then record s { pool = record s.pool { cleanup = true }; master = draining }
    else record s { master = gone }

-- `poThreadPool_destroy` from the lock, or from the return of a join, on.
unfoldable pub destroy : System → System
destroy s =
    let (i, p) = destroy_pop s.pool in
    elim i [
      | some w ↦ record s { pool = p; woken = w ∷ s.woken; master = joining w }
      | none ↦ destroy_rest (record s { pool = p })
    ]

-- The `i`th of a list, and the others.
unfoldable pub take_at {ℓ} : {A : Type ℓ} → List A → ℕ → Option (A × List A)
take_at [] i = none
take_at (x ∷ xs) zero = some (x, xs)
take_at (x ∷ xs) (suc i) = elim (take_at xs i) [ none ↦ none | some (y, ys) ↦ some (y, x ∷ ys) ]

abbrev pub worker_ids : List Running → List ℕ
worker_ids [] = []
worker_ids (r ∷ rs) = r.worker ∷ worker_ids rs

abbrev pub contains : List ℕ → ℕ → Bool
contains [] w = false
contains (x ∷ xs) w = if x == w then true else contains xs w

-- What the schedule does next: the master calls the pool (`submit`, `check_idle`, `shut_down`) or goes
-- on after a wait (`resume`), or the thread at a place of `born`, `busy` or `woken` gets the lock.
pub data Event : Type 0 where
  submit : Task → ℕ → Event
  check_idle : ℕ → Event
  shut_down : Event
  resume : ℕ → Event
  begin : ℕ → Event
  finish : ℕ → ℕ → Event
  wake : ℕ → Event

unfoldable pub submit_step : Config → System → Task → ℕ → Option System
submit_step c s t now = elim s.master [
  | free ↦ run_task c (record s { submitted = t ∷ s.submitted }) t now
  | _ ↦ none
]

unfoldable pub check_idle_step : Config → System → ℕ → Option System
check_idle_step c s now = elim s.master [
  | free ↦ elim (check_thread_timeout c s.pool now) [
    | none ↦ none
    | some (r, p) ↦ some (record s { pool = p; woken = maybe r ++ s.woken })
  ]
  | _ ↦ none
]

unfoldable pub shut_down_step : System → Option System
shut_down_step s = elim s.master [ free ↦ some (destroy s) | _ ↦ none ]

-- The joined thread is gone when it is neither awake nor in a callback.
unfoldable pub resume_step : Config → System → ℕ → Option System
resume_step c s now = elim s.master [
  | started ↦ some (record s { master = free })
  | unblocked t ↦
      run_task c (record s { pool = record s.pool { task_waiting_to_be_run = false } }) t now
  | joining w ↦ if contains (worker_ids s.busy ++ s.woken) w then none else some (destroy s)
  | drained ↦ some (record s { master = gone })
  | _ ↦ none
]

unfoldable pub begin_step : System → ℕ → Option System
begin_step s i = elim (take_at s.born i) [
  | none ↦ none
  | some (w, rest) ↦ elim (worker_begin s.pool w) [
    | none ↦ none
    | some turn ↦ some (after_turn (record s { born = rest }) w turn)
  ]
]

unfoldable pub finish_step : Config → System → ℕ → ℕ → Option System
finish_step c s i now = elim (take_at s.busy i) [
  | none ↦ none
  | some (r, rest) ↦
      some (after_turn (record s { busy = rest }) r.worker (worker_finish c s.pool r.worker now))
]

unfoldable pub wake_step : Config → System → ℕ → Option System
wake_step c s i = elim (take_at s.woken i) [
  | none ↦ none
  | some (w, rest) ↦ some (after_turn (record s { woken = rest }) w (worker_wake c s.pool w))
]

-- `none` is an event that cannot happen, or a fault.
unfoldable pub step : Config → System → Event → Option System
step c s (submit t now) = submit_step c s t now
step c s (check_idle now) = check_idle_step c s now
step c s shut_down = shut_down_step s
step c s (resume now) = resume_step c s now
step c s (begin i) = begin_step s i
step c s (finish i now) = finish_step c s i now
step c s (wake i) = wake_step c s i

unfoldable pub start : Config → System
start c = record {
  pool = create c;
  born = [];
  busy = [];
  woken = [];
  master = free;
  submitted = [];
  calls = [];
}

-- A schedule that runs to its end.
unfoldable pub run : Config → System → List Event → Option System
run c s [] = some s
run c s (e ∷ es) = elim (step c s e) [ none ↦ none | some s' ↦ run c s' es ]

-- ===== src/ThreadPool/System/Invariant.antt =====
-- What holds between any two critical sections of the pool.
use tidbits.Prelude.{
  ℕ, ◌+◌, ◌^◌, ◌<◌, ◌≡◌, ◌≢◌, sym, subst, ltb, if◌then◌else◌, Bool, true, false, Option, none, some,
  List, length,
}
use tidbits.ThreadPool.TaskQueue.{Task}
use tidbits.ThreadPool.TaskQueue.Refine.{IsValid, contents}
use tidbits.ThreadPool.WorkerList.Pair.{Pair}
use tidbits.ThreadPool.Pool.{Config}
use tidbits.ThreadPool.System.{
  System, Master, free, starting, started, blocked, unblocked, joining, draining, drained, gone,
  maybe,
}
use tidbits.ThreadPool.System.Counting.{total, one, held, waiting}

pub record IsUsable (c : Config) : Type 0 where
  pub some_thread : 0 < c.max_num_threads
  pub few_threads : c.max_num_threads < 2 ^ 31
  pub some_slot : 0 < c.queue_length
  pub few_slots : c.queue_length < 2 ^ 31

-- What the master's place says of the pool: the two flags, and how many workers are born, idle and
-- unused, how many threads there are, and how many tasks are queued.
abbrev pub MasterOk : ℕ → Bool → Bool → ℕ → ℕ → ℕ → ℕ → ℕ → Master → Type 0
MasterOk size waits cleanup born idle unused threads tasks free =
    (waits ≡ false) × (cleanup ≡ false) × (born ≡ 0)
MasterOk size waits cleanup born idle unused threads tasks starting =
    (waits ≡ false) × (cleanup ≡ false) × (born ≡ 1)
MasterOk size waits cleanup born idle unused threads tasks started =
    (waits ≡ false) × (cleanup ≡ false) × (born ≡ 0)
MasterOk size waits cleanup born idle unused threads tasks (blocked t) =
    (waits ≡ true) × (cleanup ≡ false) × (born ≡ 0) × (idle ≡ 0) × (unused ≡ 0) × (tasks ≡ size)
MasterOk size waits cleanup born idle unused threads tasks (unblocked t) =
    (cleanup ≡ false) × (born ≡ 0)
MasterOk size waits cleanup born idle unused threads tasks (joining w) =
    (waits ≡ false) × (cleanup ≡ false) × (born ≡ 0)
MasterOk size waits cleanup born idle unused threads tasks draining =
    (waits ≡ false) × (cleanup ≡ true) × (born ≡ 0) × (idle ≡ 0)
MasterOk size waits cleanup born idle unused threads tasks drained =
    (waits ≡ false) × (cleanup ≡ true) × (born ≡ 0) × (threads ≡ 0)
MasterOk size waits cleanup born idle unused threads tasks gone =
    (waits ≡ false) × (born ≡ 0) × (threads ≡ 0)

-- `is` and `us` are the workers that the idle and the unused list hold.
pub record Inv (c : Config) (s : System) (is us : List ℕ) : Type 0 where
  pub usable : IsUsable c
  pub pair : Pair s.pool.links s.pool.idle is s.pool.unused us
  pub queue : IsValid c.queue_length s.pool.task
  pub once :
      (w : ℕ)
      → total (one w) is
          + total (one w) us
          + total (one w) s.born
          + total (λ r. one w r.worker) s.busy
          + total (one w) s.woken
        ≡ (if ltb w c.max_num_threads then 1 else 0)
  pub threads : s.pool.num_threads ≡ length is + length s.busy + length s.woken
  pub all :
      length is + length us + length s.born + length s.busy + length s.woken ≡ c.max_num_threads
  pub no_spare : s.pool.task.num ≢ 0 → (length is ≡ 0) × (length us ≡ 0)
  pub born_ready : (w : ℕ) → total (one w) s.born ≢ 0 → (s.pool.worker w).user_callback ≢ none
  pub idle_clear : (w : ℕ) → total (one w) is ≢ 0 → (s.pool.worker w).user_callback ≡ none
  pub master :
      MasterOk c.queue_length s.pool.task_waiting_to_be_run s.pool.cleanup
        (length s.born)
        (length is)
        (length us)
        s.pool.num_threads
        s.pool.task.num
        s.master
  -- Each task given to the pool was called, is queued, is assigned to a worker that has not begun it,
  -- or waits with the master; `f` may count any one task.
  pub kept :
      (f : Task → ℕ)
      → total f s.submitted
        ≡ total f s.calls
          + total f (contents c.queue_length s.pool.task)
          + total (held f s.pool.worker) s.born
          + total (held f s.pool.worker) s.woken
          + waiting f s.master

-- The same while the thread of worker `w`, bound to the task `m`, holds the lock.
pub record Limbo (c : Config) (s : System) (w : ℕ) (m : Option Task) (is us : List ℕ) : Type 0 where
  pub usable : IsUsable c
  pub pair : Pair s.pool.links s.pool.idle is s.pool.unused us
  pub queue : IsValid c.queue_length s.pool.task
  pub once :
      (x : ℕ)
      → total (one x) is
          + total (one x) us
          + total (one x) s.born
          + total (λ r. one x r.worker) s.busy
          + total (one x) s.woken
          + one x w
        ≡ (if ltb x c.max_num_threads then 1 else 0)
  pub threads : s.pool.num_threads ≡ length is + length s.busy + length s.woken + 1
  pub all :
      length is + length us + length s.born + length s.busy + length s.woken + 1 ≡ c.max_num_threads
  pub no_spare : s.pool.task.num ≢ 0 → (length is ≡ 0) × (length us ≡ 0)
  pub born_ready : (x : ℕ) → total (one x) s.born ≢ 0 → (s.pool.worker x).user_callback ≢ none
  pub idle_clear : (x : ℕ) → total (one x) is ≢ 0 → (s.pool.worker x).user_callback ≡ none
  pub master :
      MasterOk c.queue_length s.pool.task_waiting_to_be_run s.pool.cleanup
        (length s.born)
        (length is)
        (length us)
        s.pool.num_threads
        s.pool.task.num
        s.master
  pub kept :
      (f : Task → ℕ)
      → total f s.submitted
        ≡ total f s.calls
          + total f (contents c.queue_length s.pool.task)
          + total (held f s.pool.worker) s.born
          + total (held f s.pool.worker) s.woken
          + waiting f s.master
          + total f (maybe m)

-- A step that happens leaves the invariant.
abbrev pub Keeps : Config → Option System → Type 0
Keeps c none = Unit
Keeps c (some s) = (is : List ℕ) × (us : List ℕ) × Inv c s is us

-- A step that does happen, and leaves the invariant.
abbrev pub Happens : Config → Option System → Type 0
Happens c o = (s : System) × (o ≡ some s) × Keeps c (some s)

pub Happens-Keeps : (c : Config) (o : Option System) → Happens c o → Keeps c o
Happens-Keeps c o (s, e, k) = subst (Keeps c) (sym e) k

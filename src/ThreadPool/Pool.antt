-- ===== src/ThreadPool/Pool.antt =====
-- The pool struct of potato_old/threadPool.h and the critical sections of threadPool.c, each from
-- the lock (or the return of a wait) to the next unlock or wait. All run under the pool mutex.
pub mod Branches
pub mod Passes
use tidbits.Prelude.{
  ℕ, zero, suc, ◌+◌, ◌-◌, ◌%◌, ◌^◌, ltb, ◌==◌, if◌then◌else◌, Bool, true, false, ◌&&◌, Option, none,
  some, List, [], ◌∷◌,
}
use tidbits.ThreadPool.TaskQueue.{Task, TaskQueue, queue_get_next, queue_make_new_entry}
use tidbits.ThreadPool.WorkerList.{Links, WorkerList, list_push, list_pull, list_pop, create_unused}

-- PO_THREADPOOL_QUEUE_LENGTH, PO_THREADPOOL_MAX_NUM_THREADS and PO_THREADPOOL_MAX_IDLE_TIME, all
-- positive, as in the default configuration.
pub record Config : Type 0 where
  pub queue_length : ℕ
  pub max_num_threads : ℕ
  pub max_idle_time : ℕ

-- The fields of `struct POThreadPool_worker` but its links. A NULL `userCallback` is `none`; times
-- are in milliseconds.
pub record Worker : Type 0 where
  pub user_callback : Option ℕ
  pub user_data : ℕ
  pub last_work_time : ℕ

-- `struct POThreadPool`.
pub record Pool : Type 0 where
  pub num_threads : ℕ
  pub task : TaskQueue
  pub worker : ℕ → Worker
  pub links : Links
  pub idle : WorkerList
  pub unused : WorkerList
  pub cleanup : Bool
  pub detach_thread : Bool
  pub task_waiting_to_be_run : Bool

abbrev pub set_worker : Pool → ℕ → Worker → Pool
set_worker p w v = record p { worker = λ x. if x == w then v else p.worker x }

-- The task that stands in a worker struct.
abbrev pub assigned : Worker → Option Task
assigned v = elim v.user_callback [
  | none ↦ none
  | some c ↦ some (record { user_callback = c; user_data = v.user_data })
]

abbrev pub assign : Pool → ℕ → Task → Pool
assign p w t =
    set_worker p w
      (record (p.worker w) { user_callback = some t.user_callback; user_data = t.user_data })

abbrev pub null_task : Task
null_task = record { user_callback = 0; user_data = 0 }

abbrev pub null_worker : Worker
null_worker = record { user_callback = none; user_data = 0; last_work_time = 0 }

abbrev pub null_tasks : ℕ → List Task
null_tasks zero = []
null_tasks (suc n) = null_task ∷ null_tasks n

abbrev pub created : Config → Links → WorkerList → Pool
created c links unused = record {
  num_threads = 0;
  task = record { task = null_tasks c.queue_length; next_read_index = 0; num = 0 };
  worker = λ _. null_worker;
  links = links;
  idle = record { top = none; bottom = none };
  unused = unused;
  cleanup = false;
  detach_thread = true;
  task_waiting_to_be_run = false;
}

-- Initialising a mutex or a condition variable is taken to succeed.
unfoldable pub create : Config → Pool
create c = let (h, l) = create_unused c.max_num_threads in created c h l

-- The oldest queued task, if there is one; the flag says that `p->cond` is signalled.
unfoldable pub look_for_work : Config → Pool → Option Task × Bool × Pool
look_for_work c p =
    let (t, q) = queue_get_next c.queue_length p.task in
    elim t [
      | some t' ↦ (some t', p.task_waiting_to_be_run, record p { task = q })
      | none ↦ (none, false, record p { task = q })
    ]

-- What a worker thread does at the end of a critical section.
pub data Next : Type 0 where
  call : Task → Next
  sleep : Next
  exit : Next

pub record Turn : Type 0 where
  pub next : Next
  pub signal : Bool
  pub pool : Pool

-- The end of `workerCallback`: the thread returns.
unfoldable pub leave : Pool → ℕ → Bool → Turn
leave p w signal =
    let (h, l) = list_push p.links p.unused w in
    record {
      next = exit;
      signal = signal;
      pool = record p {
        links = h;
        unused = l;
        num_threads = (p.num_threads + 2 ^ 32 - 1) % 2 ^ 32;
      };
    }

-- The head of `workerCallback`. `none` is a call through a NULL pointer.
unfoldable pub worker_begin : Pool → ℕ → Option Turn
worker_begin p w = elim (assigned (p.worker w)) [
  | none ↦ none
  | some t ↦ some (record {
    next = call t;
    signal = true;
    pool = record p { num_threads = (p.num_threads + 1) % 2 ^ 32 };
  })
]

-- Puts the worker to sleep in the idle list.
unfoldable pub go_idle : Pool → ℕ → ℕ → Turn
go_idle p w now =
    let v = record (p.worker w) { user_callback = none; last_work_time = now } in
    let (h, l) = list_push p.links p.idle w in
    record {
      next = sleep;
      signal = false;
      pool = record (set_worker p w v) { links = h; idle = l };
    }

-- The loop body of `workerCallback` from the return of the user callback on.
unfoldable pub worker_finish : Config → Pool → ℕ → ℕ → Turn
worker_finish c p w now =
    let (t, signal, p') = look_for_work c p in
    elim t [
      | some t' ↦ record { next = call t'; signal = signal; pool = p' }
      | none ↦ if p'.cleanup then leave p' w (p'.num_threads == 1) else go_idle p' w now
    ]

-- The loop body of `workerCallback` from the return of the wait on `worker->cond` on.
unfoldable pub worker_wake : Config → Pool → ℕ → Turn
worker_wake c p w = elim (assigned (p.worker w)) [
  | some t ↦ record { next = call t; signal = false; pool = p }
  | none ↦
      let (t, signal, p') = look_for_work c p in
      elim t [
        | some t' ↦ record { next = call t'; signal = signal; pool = p' }
        | none ↦ leave p' w false
      ]
]

-- `_poThreadPool_checkThreadTimeout` at time `now`: the worker that is signalled, if there is one.
-- An outer `none` is a read through a NULL pointer.
unfoldable pub check_thread_timeout : Config → Pool → ℕ → Option (Option ℕ × Pool)
check_thread_timeout c p now = if ltb p.num_threads 2 then some (none, p) else (elim p.idle.bottom [
  | none ↦ some (none, p)
  | some b ↦
      if ltb 2 p.num_threads && ltb c.max_idle_time (now - (p.worker b).last_work_time)
      then (elim (list_pull p.links p.idle) [
        | none ↦ none
        | some (r, h, l) ↦ elim r [
          | none ↦ none
          | some w ↦ some (some w, record p { links = h; idle = l })
        ]
      ])
      else some (none, p)
])

-- How one pass of the loop of `poThreadPool_runTask` ends: an idle worker is handed the task (and
-- perhaps another is timed out), a worker struct is given a new thread, the task is queued, or the
-- queue is full.
pub data Pass : Type 0 where
  handed : ℕ → Option ℕ → Pass
  spawned : ℕ → Pass
  queued : Pass
  full : Pass

unfoldable pub run_task_pass : Config → Pool → Task → ℕ → Option (Pass × Pool)
run_task_pass c p t now =
    let (i, h, idle') = list_pop p.links p.idle in
    let (u, h', unused') = list_pop p.links p.unused in
    let (made, q) = queue_make_new_entry c.queue_length p.task t in
    elim i [
      | some w ↦
          elim (check_thread_timeout c (assign (record p { links = h; idle = idle' }) w t) now) [
            | none ↦ none
            | some (r, p') ↦ some (handed w r, p')
          ]
      | none ↦ elim u [
        | some w ↦ some (spawned w, assign (record p { links = h'; unused = unused' }) w t)
        | none ↦
            if made
            then some (queued, record p { task = q })
            else some (full, record p { task_waiting_to_be_run = true })
      ]
    ]

-- One turn of the loop of `poThreadPool_destroy` over the idle workers: the worker that is signalled
-- and then joined, if there is one.
unfoldable pub destroy_pop : Pool → Option ℕ × Pool
destroy_pop p =
    let (i, h, idle') = list_pop p.links p.idle in
    elim i [
      | none ↦ (none, record p { detach_thread = true })
      | some w ↦ (
        some w,
        record (set_worker p w (record (p.worker w) { user_callback = none })) {
          links = h;
          idle = idle';
          detach_thread = false;
        },
      )
    ]

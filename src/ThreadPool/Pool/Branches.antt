-- ===== src/ThreadPool/Pool/Branches.antt =====
-- Each critical section of a worker thread, branch by branch.
use tidbits.Prelude.{ℕ, ◌≡◌, ◌==◌, true, false, none, some, arith}
use tidbits.ThreadPool.TaskQueue.{Task, TaskQueue, queue_get_next}
use tidbits.ThreadPool.Pool.{
  Config, Pool, call, assigned, look_for_work, worker_finish, worker_wake, leave, go_idle,
}

module _ (c : Config) (p : Pool) where
  look_none :
      queue_get_next c.queue_length p.task ≡ (none, p.task) → look_for_work c p ≡ (none, false, p)
  unfolding look_for_work
  look_none e = ground arith

  look_some :
      (t : Task) (q : TaskQueue)
      → queue_get_next c.queue_length p.task ≡ (some t, q)
      → look_for_work c p ≡ (some t, p.task_waiting_to_be_run, record p { task = q })
  unfolding look_for_work
  look_some t q e = ground arith

  pub finish_queued :
      (w now : ℕ) (t : Task) (q : TaskQueue)
      → queue_get_next c.queue_length p.task ≡ (some t, q)
      → worker_finish c p w now
        ≡ record { next = call t; signal = p.task_waiting_to_be_run; pool = record p { task = q } }
  unfolding worker_finish
  finish_queued w now t q e = ground (arith, look_some t q e)

  pub finish_leave :
      (w now : ℕ)
      → queue_get_next c.queue_length p.task ≡ (none, p.task)
      → p.cleanup ≡ true
      → worker_finish c p w now ≡ leave p w (p.num_threads == 1)
  unfolding worker_finish
  finish_leave w now e h = ground (arith, look_none e)

  pub finish_idle :
      (w now : ℕ)
      → queue_get_next c.queue_length p.task ≡ (none, p.task)
      → p.cleanup ≡ false
      → worker_finish c p w now ≡ go_idle p w now
  unfolding worker_finish
  finish_idle w now e h = ground (arith, look_none e)

  pub wake_own :
      (w : ℕ) (t : Task)
      → assigned (p.worker w) ≡ some t
      → worker_wake c p w ≡ record { next = call t; signal = false; pool = p }
  unfolding worker_wake
  wake_own w t e = ground arith

  pub wake_queued :
      (w : ℕ) (t : Task) (q : TaskQueue)
      → assigned (p.worker w) ≡ none
      → queue_get_next c.queue_length p.task ≡ (some t, q)
      → worker_wake c p w
        ≡ record { next = call t; signal = p.task_waiting_to_be_run; pool = record p { task = q } }
  unfolding worker_wake
  wake_queued w t q e e' = ground (arith, look_some t q e')

  pub wake_leave :
      (w : ℕ)
      → assigned (p.worker w) ≡ none
      → queue_get_next c.queue_length p.task ≡ (none, p.task)
      → worker_wake c p w ≡ leave p w false
  unfolding worker_wake
  wake_leave w e e' = ground (arith, look_none e')

-- ===== src/ThreadPool/TaskQueue.antt =====
-- The task queue of potato_old/threadPool.c: an array used round and round.
-- PO_THREADPOOL_QUEUE_LENGTH is the parameter `queue_length`; `uint32_t` sums wrap at 2 ^ 32.
pub mod Refine
pub mod Cases
use tidbits.Prelude.{
  ℕ, zero, suc, ◌+◌, ◌-◌, ◌%◌, ◌^◌, ltb, ◌==◌, if◌then◌else◌, Bool, true, false, Option, none, some,
  List, get_elem?, set,
}

-- `struct POThreadPool_task`: a function pointer and its argument.
pub record Task : Type 0 where
  pub user_callback : ℕ
  pub user_data : ℕ

-- `struct POThreadPool_taskQueue`.
pub record TaskQueue : Type 0 where
  pub task : List Task
  pub next_read_index : ℕ
  pub num : ℕ

module _ (queue_length : ℕ) where
  unfoldable pub queue_check : TaskQueue → Bool
  queue_check q = ltb 0 q.num

  -- `++q->nextReadIndex`, or back to 0.
  abbrev pub next_index : ℕ → ℕ
  next_index i = if ltb i (queue_length - 1) then i + 1 else 0

  -- The task is read through the returned pointer before anything else writes to the array.
  unfoldable pub queue_get_next : TaskQueue → Option Task × TaskQueue
  queue_get_next q = if q.num == 0 then (none, q) else (
    get_elem? q.task q.next_read_index,
    record q { next_read_index = next_index q.next_read_index; num = q.num - 1 },
  )

  -- `(q->nextReadIndex + (q->num++)) % PO_THREADPOOL_QUEUE_LENGTH`.
  abbrev pub write_index : TaskQueue → ℕ
  write_index q = (q.next_read_index + q.num) % 2 ^ 32 % queue_length

  unfoldable pub queue_make_new_entry : TaskQueue → Task → Bool × TaskQueue
  queue_make_new_entry q t =
      if q.num == queue_length
      then (false, q)
      else (true, record q { task = set q.task (write_index q) t; num = (q.num + 1) % 2 ^ 32 })

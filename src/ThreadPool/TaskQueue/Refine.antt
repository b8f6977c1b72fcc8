-- ===== src/ThreadPool/TaskQueue/Refine.antt =====
-- The task queue behaves as a bounded first-in first-out list of tasks.
use tidbits.Prelude.{
  ℕ, zero, suc, ◌+◌, ◌-◌, ◌^◌, ◌≤◌, ◌<◌, ◌≡◌, ◌≢◌, refl, ap, ltb, ◌==◌, if◌then◌else◌, Bool, true,
  false, not, Option, none, some, List, [], ◌∷◌, ◌++◌, arith, length, get_or, set, length-set,
  get_elem?-eq-get_or, get_or-set_self, get_or-set_ne, mod_once,
}
use tidbits.ThreadPool.TaskQueue.{
  Task, TaskQueue, queue_check, next_index, write_index, queue_get_next, queue_make_new_entry,
}

abbrev pub null_task : Task
null_task = record { user_callback = 0; user_data = 0 }

module _ (queue_length : ℕ) where
  -- What the assertions at the head of each function state, and the size of the array.
  pub record IsValid (q : TaskQueue) : Type 0 where
    pub storage : length q.task ≡ queue_length
    pub small : queue_length < 2 ^ 31
    pub index_in : q.next_read_index < queue_length
    pub num_in : q.num ≤ queue_length

  -- The `n` tasks from index `i` on.
  abbrev pub slots : List Task → ℕ → ℕ → List Task
  slots ts i zero = []
  slots ts i (suc n) = get_or ts i null_task ∷ slots ts (next_index queue_length i) n

  abbrev pub contents : TaskQueue → List Task
  contents q = slots q.task q.next_read_index q.num

  pub length-slots : (ts : List Task) (i n : ℕ) → length (slots ts i n) ≡ n
  length-slots ts i zero = refl
  length-slots ts i (suc n) = ap suc (length-slots ts (next_index queue_length i) n)

  pub slots_pos :
      (ts : List Task) (i n : ℕ)
      → n ≢ 0
      → slots ts i n ≡ get_or ts i null_task ∷ slots ts (next_index queue_length i) (n - 1)
  slots_pos ts i zero p = absurd (p refl)
  slots_pos ts i (suc n) p = ap (λ k. slots ts i (suc k)) (omega arith)

  -- A write just behind `n` tasks extends them by one.
  pub slots-set :
      (ts : List Task) (t : Task) (n i j : ℕ)
      → length ts ≡ queue_length
      → i < queue_length
      → n < queue_length
      → j ≡ (if ltb (i + n) queue_length then i + n else i + n - queue_length)
      → slots (set ts j t) i (suc n) ≡ slots ts i n ++ t ∷ []
  slots-set ts t zero i j len hi hn e = ground (arith, get_or-set_self ts i t null_task)
  slots-set ts t (suc n) i j len hi hn e =
      ground (
        arith,
        get_or-set_ne ts j i t null_task,
        slots-set ts t n (next_index queue_length i) j len,
      )

  -- The index that is written lies in the array, and no sum wraps.
  pub write_index_lem :
      (q : TaskQueue)
      → IsValid q
      → q.num ≢ queue_length
      → write_index queue_length q ≡ (
          if ltb (q.next_read_index + q.num) queue_length
          then q.next_read_index + q.num
          else q.next_read_index + q.num - queue_length)
  write_index_lem q v ne = ground (
    arith,
    mod_once (q.next_read_index + q.num) queue_length,
    mod_once (q.next_read_index + q.num) (2 ^ 32),
  )

  -- A bounded list of tasks, oldest first: what the queue stands for.
  unfoldable pub fifo_put : List Task → Task → Bool × List Task
  fifo_put ts t = if length ts == queue_length then (false, ts) else (true, ts ++ t ∷ [])

  abbrev pub fifo_get : List Task → Option Task × List Task
  fifo_get [] = (none, [])
  fifo_get (t ∷ ts) = (some t, ts)

  -- `queueMakeNewEntry` on a valid queue: it answers what the bounded list answers, leaves the queue
  -- holding that list's contents, and leaves it valid.
  pub make_new_entry_refines :
      (q : TaskQueue) (t : Task)
      → IsValid q
      → let (made, q') = queue_make_new_entry queue_length q t in
        ((made, contents q') ≡ fifo_put (contents q) t) × IsValid q'
  unfolding queue_make_new_entry fifo_put
  make_new_entry_refines q t v = ground (
    arith,
    length-slots q.task q.next_read_index q.num,
    write_index_lem q v,
    length-set q.task (write_index queue_length q) t,
    slots-set q.task t q.num q.next_read_index (write_index queue_length q),
  )

  -- `queueGetNext` on a valid queue: it returns the oldest task of the contents, or NULL when there is
  -- none, leaves the others, and leaves the queue valid.
  pub get_next_refines :
      (q : TaskQueue)
      → IsValid q
      → let (t, q') = queue_get_next queue_length q in
        ((t, contents q') ≡ fifo_get (contents q)) × IsValid q'
  unfolding queue_get_next
  get_next_refines q v = ground (
    arith,
    slots_pos q.task q.next_read_index q.num,
    get_elem?-eq-get_or q.task q.next_read_index null_task,
  )

  -- `queueCheck` tells whether there is a task.
  pub check-contents : (q : TaskQueue) → queue_check queue_length q ≡ not (length (contents q) == 0)
  unfolding queue_check
  check-contents q = ground (arith, length-slots q.task q.next_read_index q.num)

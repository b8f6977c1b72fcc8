-- ===== src/ThreadPool/TaskQueue/Cases.antt =====
-- The two outcomes of each call on a valid task queue.
use tidbits.Prelude.{
  ℕ, suc, ◌-◌, ◌≡◌, ◌≢◌, ◌==◌, true, false, ◌⊎◌, inl, inr, none, some, ◌∷◌, ◌++◌, [], arith,
  Bool-cases, get_elem?-eq-get_or, get_or, set, length-set,
}
use tidbits.ThreadPool.TaskQueue.{
  Task, TaskQueue, queue_get_next, queue_make_new_entry, next_index, write_index,
}
use tidbits.ThreadPool.TaskQueue.Refine.{
  IsValid, contents, null_task, slots_pos, slots-set, write_index_lem,
}

module _ (queue_length : ℕ) where
  pub get_next_cases :
      (q : TaskQueue)
      → IsValid queue_length q
      → ((q.num ≡ 0) × (queue_get_next queue_length q ≡ (none, q)))
        ⊎ ((t : Task) × (q' : TaskQueue) × (queue_get_next queue_length q ≡ (some t, q'))
            × IsValid queue_length q'
            × (q.num ≡ suc q'.num)
            × (contents queue_length q ≡ t ∷ contents queue_length q'))
  unfolding queue_get_next
  get_next_cases q v = elim (Bool-cases (q.num == 0)) [
    | inl e ↦ inl (ground arith, ground arith)
    | inr e ↦ inr (
      get_or q.task q.next_read_index null_task,
      record q { next_read_index = next_index queue_length q.next_read_index; num = q.num - 1 },
      ground (arith, get_elem?-eq-get_or q.task q.next_read_index null_task),
      ground arith,
      ground arith,
      slots_pos queue_length q.task q.next_read_index q.num (ground arith),
    )
  ]

  pub make_new_entry_cases :
      (q : TaskQueue) (t : Task)
      → IsValid queue_length q
      → ((q.num ≡ queue_length) × (queue_make_new_entry queue_length q t ≡ (false, q)))
        ⊎ ((q.num ≢ queue_length)
            × (q' : TaskQueue) × (queue_make_new_entry queue_length q t ≡ (true, q'))
            × IsValid queue_length q'
            × (q'.num ≡ suc q.num)
            × (contents queue_length q' ≡ contents queue_length q ++ t ∷ []))
  unfolding queue_make_new_entry
  make_new_entry_cases q t v = elim (Bool-cases (q.num == queue_length)) [
    | inl e ↦ inl (ground arith, ground arith)
    | inr e ↦ inr (
      ground arith,
      record q { task = set q.task (write_index queue_length q) t; num = suc q.num },
      ground arith,
      ground (arith, length-set q.task (write_index queue_length q) t),
      omega arith,
      slots-set queue_length q.task t q.num q.next_read_index (write_index queue_length q) v.storage
          v.index_in (ground arith) (write_index_lem queue_length q v (ground arith)),
    )
  ]

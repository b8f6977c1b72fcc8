-- ===== src/ThreadPool/System/Safety.antt =====
-- What the pool promises in every state that a schedule reaches.
use tidbits.Prelude.{
  ℕ, zero, suc, ◌+◌, ◌<◌, ◌≡◌, refl, ap, ◌∙◌, subst, ◌==◌, some, Bool-cases, inl, inr, List, [],
  ◌∷◌, arith, length,
}
use tidbits.ThreadPool.TaskQueue.{Task, TaskQueue, queue_get_next}
use tidbits.ThreadPool.TaskQueue.Refine.{contents, length-slots}
use tidbits.ThreadPool.TaskQueue.Cases.{get_next_cases}
use tidbits.ThreadPool.Pool.{Config}
use tidbits.ThreadPool.Pool.Branches.{finish_queued}
use tidbits.ThreadPool.System.{
  System, Running, blocked, unblocked, gone, signalled, finish_step, take_at, after_turn, Event,
  finish, step, run, start,
}
use tidbits.ThreadPool.System.Counting.{total, held, waiting, total-nil, take_at-total}
use tidbits.ThreadPool.System.Invariant.{Inv, IsUsable, Keeps}
use tidbits.ThreadPool.WorkerList.Create.{indices}
use tidbits.ThreadPool.System.Steps.{at}
use tidbits.ThreadPool.System.Reach.{run-Keeps, start-Inv}

take_at-some :
    (rs : List Running) (i : ℕ)
    → i < length rs
    → (r : Running) × (rest : List Running) × (take_at rs i ≡ some (r, rest))
unfolding take_at
take_at-some [] i h = absurd (omega arith)
take_at-some (r ∷ rs) zero h = (r, rs, refl)
take_at-some (r ∷ rs) (suc i) h =
    let (r', rest, e) = take_at-some rs i (omega arith) in (r', r ∷ rest, ground (arith, e))

module _ (c : Config) (s : System) (is us : List ℕ) (v : Inv c s is us) where
  all_called :
      s.master ≡ gone
      → (s.pool.num_threads ≡ 0)
        × (length s.busy ≡ 0)
        × ((f : Task → ℕ) → total f s.submitted ≡ total f s.calls)
  all_called e =
      let (_, none_born, none_left) = at c s is us v gone e in
      let empty : s.pool.task.num ≡ 0 = elim (Bool-cases (s.pool.task.num == 0)) [
        | inl z ↦ ground arith
        | inr n ↦ absurd (omega (arith, v.no_spare (ground arith), v.usable.some_thread))
      ] in
      (
        none_left,
        omega arith,
        λ f. omega (
          arith,
          v.kept f,
          ap (waiting f) e,
          total-nil (held f s.pool.worker) s.born none_born,
          total-nil (held f s.pool.worker) s.woken (omega arith),
          total-nil f (contents c.queue_length s.pool.task)
              (length-slots c.queue_length _ _ s.pool.task.num ∙ empty),
        ),
      )

  finish_queued_step :
      (i now : ℕ) (r : Running) (rest : List Running) (t : Task) (q : TaskQueue)
      → take_at s.busy i ≡ some (r, rest)
      → queue_get_next c.queue_length s.pool.task ≡ (some t, q)
      → step c s (finish i now)
        ≡ some (record s {
          pool = record s.pool { task = q };
          busy = record { worker = r.worker; task = t } ∷ rest;
          calls = t ∷ s.calls;
          master = signalled s.pool.task_waiting_to_be_run s.master;
        })
  unfolding step finish_step after_turn
  finish_queued_step i now r rest t q e e' =
      ground (arith, finish_queued c s.pool r.worker now t q e')

  some_awake : (t : Task) → s.master ≡ blocked t → 0 < length s.busy + length s.woken
  some_awake t e =
      let (_, _, none_born, none_idle, none_unused, _) = at c s is us v (blocked t) e in
      omega (arith, v.usable.some_thread)

  unblocks :
      (t : Task) (i now : ℕ)
      → s.master ≡ blocked t
      → i < length s.busy
      → (s' : System) × (step c s (finish i now) ≡ some s')
        × (s'.master ≡ unblocked t)
        × (length s'.busy ≡ length s.busy)
        × (suc s'.pool.task.num ≡ c.queue_length)
  unblocks t i now e h =
      let (flag, _, _, _, _, is_full) = at c s is us v (blocked t) e in
      let (r, rest, found) = take_at-some s.busy i h in
      elim (get_next_cases c.queue_length s.pool.task v.queue) [
        | inl (empty, _) ↦ absurd (omega (arith, v.usable.some_slot))
        | inr (t', q, got, _, n, _) ↦ (
          _,
          finish_queued_step i now r rest t' q found got,
          ground arith,
          omega (arith, take_at-total (λ (r : Running). 0) s.busy i r rest found),
          omega arith,
        )
      ]

module _ (c : Config) (u : IsUsable c) (es : List Event) (s : System)
    (r : run c (start c) es ≡ some s) where
  -- In every state that a schedule reaches from `poThreadPool_create`, for some lists of workers: the
  -- idle and the unused list are well linked and disjoint; each worker struct is in exactly one of
  -- idle, unused, starting, in a callback, or signalled; `num_threads` counts the threads; a task is
  -- queued only while no worker is idle or unused; and the tasks given are accounted for.
  pub reached-Inv : (is : List ℕ) × (us : List ℕ) × Inv c s is us
  reached-Inv =
      subst (Keeps c) r (run-Keeps c (start c) es ([], indices 0 c.max_num_threads, start-Inv c u))

  -- When `poThreadPool_destroy` has returned, no thread is left, none is in a callback, and every task
  -- given to the pool was called, exactly once.
  pub destroyed_all_called :
      s.master ≡ gone
      → (s.pool.num_threads ≡ 0)
        × (length s.busy ≡ 0)
        × ((f : Task → ℕ) → total f s.submitted ≡ total f s.calls)
  destroyed_all_called e = let (is, us, v) = reached-Inv in all_called c s is us v e

  -- While `poThreadPool_runTask` is blocked on a full queue, some thread is in a callback or is
  -- signalled: the threads are not all asleep.
  pub blocked_some_awake : (t : Task) → s.master ≡ blocked t → 0 < length s.busy + length s.woken
  blocked_some_awake t e = let (is, us, v) = reached-Inv in some_awake c s is us v t e

  -- While `poThreadPool_runTask` is blocked on a full queue, any thread that comes back from its
  -- callback goes on with a queued task, which frees a slot, and signals the master.
  pub blocked_unblocks :
      (t : Task) (i now : ℕ)
      → s.master ≡ blocked t
      → i < length s.busy
      → (s' : System) × (step c s (finish i now) ≡ some s')
        × (s'.master ≡ unblocked t)
        × (length s'.busy ≡ length s.busy)
        × (suc s'.pool.task.num ≡ c.queue_length)
  blocked_unblocks t i now e h = let (is, us, v) = reached-Inv in unblocks c s is us v t i now e h

-- ===== src/ThreadPool/System/Hang.antt =====
-- Two schedules that the pool does not survive: a signal that is never sent, and a wait that returns
-- without a signal.
use tidbits.Prelude.{
  ℕ, ◌≡◌, refl, ap, ◌∙◌, subst, false, none, some, inl, inr, List, [], ◌∷◌, arith,
}
use tidbits.ThreadPool.TaskQueue.Refine.{IsValid}
use tidbits.ThreadPool.TaskQueue.Cases.{get_next_cases}
use tidbits.ThreadPool.WorkerList.{Links, WorkerList, list_push}
use tidbits.ThreadPool.WorkerList.Pair.{Pair}
use tidbits.ThreadPool.Pool.{Config, Pool, Turn, assigned, leave, worker_wake}
use tidbits.ThreadPool.Pool.Branches.{wake_leave}
use tidbits.ThreadPool.System.{
  System, draining, submit_step, check_idle_step, shut_down_step, resume_step, begin_step,
  finish_step, wake_step, after_turn, take_at, Event, submit, check_idle, shut_down, resume, begin,
  finish, wake, step,
}

module _ (c : Config) (s : System) where
  nothing_happens :
      s.born ≡ []
      → s.busy ≡ []
      → s.woken ≡ []
      → s.master ≡ draining
      → (e : Event) → step c s e ≡ none
  unfolding step submit_step check_idle_step shut_down_step resume_step begin_step finish_step
      wake_step take_at
  nothing_happens a b d m (submit t now) = ground arith
  nothing_happens a b d m (check_idle now) = ground arith
  nothing_happens a b d m shut_down = ground arith
  nothing_happens a b d m (resume now) = ground arith
  nothing_happens a b d m (begin i) = rw (a, begin_step)
  nothing_happens a b d m (finish i now) = rw (b, finish_step)
  nothing_happens a b d m (wake i) = rw (d, wake_step)

module _ (c : Config) (s : System) where
  -- When `poThreadPool_destroy` waits on `p->cond` and the last thread is one that was signalled out of
  -- the idle list for its idle time and has not gone on yet, that thread leaves and signals nobody:
  -- no thread is left, the master still waits, and nothing can happen any more.
  pub lost_signal_hangs :
      (w : ℕ)
      → IsValid c.queue_length s.pool.task
      → s.pool.task.num ≡ 0
      → s.pool.num_threads ≡ 1
      → (s.pool.worker w).user_callback ≡ none
      → s.born ≡ []
      → s.busy ≡ []
      → s.woken ≡ w ∷ []
      → s.master ≡ draining
      → (s' : System) × (step c s (wake 0) ≡ some s')
        × (s'.pool.num_threads ≡ 0)
        × (s'.master ≡ draining)
        × ((e : Event) → step c s' e ≡ none)
  unfolding step wake_step after_turn leave take_at
  lost_signal_hangs w valid empty last clear a b d m =
      elim (get_next_cases c.queue_length s.pool.task valid) [
        | inl (_, e) ↦
            let s₁ : System = record s { woken = []; pool = (leave s.pool w false).pool } in
            let nothing : assigned (s.pool.worker w) ≡ none = ground arith in
            (
              s₁,
              ground (arith, wake_leave c s.pool w nothing e),
              omega arith,
              m,
              nothing_happens c s₁ a b refl m,
            )
        | inr (_, _, _, _, n, _) ↦ absurd (omega arith)
      ]

leave_idle : (p : Pool) (w : ℕ) → (leave p w false).pool.idle ≡ p.idle
unfolding leave
leave_idle p w = refl

leave_top : (p : Pool) (w : ℕ) → (leave p w false).pool.unused.top ≡ some w
unfolding leave list_push
leave_top p w = ground arith

tops_meet :
    (h : Links) (a b : WorkerList) (w : ℕ) (xs ys : List ℕ)
    → a.top ≡ some w
    → b.top ≡ some w
    → ¬ Pair h a xs b ys
tops_meet h a b w [] ys e e' p = cc (p.0.0.0)
tops_meet h a b w (x ∷ xs) [] e e' p = cc (p.1.0.0)
tops_meet h a b w (x ∷ xs) (y ∷ ys) e e' p = ground (arith, p.0.0.0, p.1.0.0, p.2.0.0)

-- The wait of an idle worker is no loop: when `pthread_cond_wait` returns without a signal to the worker
-- at the top of the idle list, and no task is queued, the worker enters the unused list without
-- leaving the idle one, and no two disjoint lists are held there any more.
pub spurious_wake_breaks :
    (c : Config) (p : Pool) (w : ℕ) (is us : List ℕ)
    → Pair p.links p.idle (w ∷ is) p.unused us
    → IsValid c.queue_length p.task
    → p.task.num ≡ 0
    → (p.worker w).user_callback ≡ none
    → let p' = (worker_wake c p w).pool in
      (xs ys : List ℕ) → ¬ Pair p'.links p'.idle xs p'.unused ys
spurious_wake_breaks c p w is us pair valid empty clear xs ys held' =
    elim (get_next_cases c.queue_length p.task valid) [
      | inl (_, e) ↦
          let nothing : assigned (p.worker w) ≡ none = ground arith in
          let p' : Pool = (leave p w false).pool in
          let left : Pair p'.links p'.idle xs p'.unused ys =
            subst (λ (t : Turn). Pair t.pool.links t.pool.idle xs t.pool.unused ys)
              (wake_leave c p w nothing e) held' in
          tops_meet p'.links p'.idle p'.unused w xs ys
            (ap (λ (l : WorkerList). l.top) (leave_idle p w) ∙ pair.0.0.0) (leave_top p w) left
      | inr (_, _, _, _, n, _) ↦ absurd (omega arith)
    ]

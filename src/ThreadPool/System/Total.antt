-- ===== src/ThreadPool/System/Total.antt =====
-- Each call of the pool goes through: no NULL pointer is followed and no NULL callback called.
use tidbits.Prelude.{
  ℕ, zero, suc, ◌<◌, ◌≡◌, ◌≢◌, refl, ap, none, some, Option-cases, inl, inr, List, [], ◌∷◌, arith,
  length, ==_refl,
}
use tidbits.ThreadPool.TaskQueue.{Task}
use tidbits.ThreadPool.WorkerList.Ends.{pulled_links, pulled_list}
use tidbits.ThreadPool.Pool.{Config, assigned, Worker}
use tidbits.ThreadPool.Pool.Passes.{timeout_cases}
use tidbits.ThreadPool.System.{
  System, free, submit_step, check_idle_step, shut_down_step, destroy, take_at, submit, check_idle,
  shut_down, begin, step,
}
use tidbits.ThreadPool.System.Counting.{one, waiting, take_at-total}
use tidbits.ThreadPool.System.Invariant.{Inv}
use tidbits.ThreadPool.System.Submit.{run_task-Happens}
use tidbits.ThreadPool.System.Steps.{at, Inv-Ready, submitted-Ready}
use tidbits.ThreadPool.System.Reach.{begin_eq}

take_at-some :
    (xs : List ℕ) (i : ℕ)
    → i < length xs
    → (x : ℕ) × (rest : List ℕ) × (take_at xs i ≡ some (x, rest))
unfolding take_at
take_at-some [] i h = absurd (omega arith)
take_at-some (x ∷ xs) zero h = (x, xs, refl)
take_at-some (x ∷ xs) (suc i) h =
    let (y, rest, e) = take_at-some xs i (omega arith) in (y, x ∷ rest, ground (arith, e))

assigned-some : (v : Worker) → v.user_callback ≢ none → (t : Task) × (assigned v ≡ some t)
assigned-some v n = elim (Option-cases v.user_callback) [
  | inl e ↦ absurd (n e)
  | inr (k, e) ↦ (record { user_callback = k; user_data = v.user_data }, ground arith)
]

module _ (c : Config) (s : System) (is us : List ℕ) (v : Inv c s is us) where
  submit_happens :
      (t : Task) (now : ℕ) → s.master ≡ free → (s' : System) × (step c s (submit t now) ≡ some s')
  unfolding step submit_step
  submit_happens t now e =
      let (a, b, n) = at c s is us v free e in
      let ready =
        submitted-Ready c s is us v t (Inv-Ready c s is us v a b n (λ f. ap (waiting f) e)) in
      let (s', done, _) = run_task-Happens c _ t now is us ready in (s', ground (arith, done))

  check_idle_happens :
      (now : ℕ) → s.master ≡ free → (s' : System) × (step c s (check_idle now) ≡ some s')
  unfolding step check_idle_step
  check_idle_happens now e = elim (timeout_cases c s.pool now is us v.pair) [
    | inl e' ↦ (s, ground arith)
    | inr (xs, b, _, _, e', _) ↦ (
      record s {
        pool = record s.pool {
          links = pulled_links s.pool.links xs;
          idle = pulled_list s.pool.idle xs;
        };
        woken = b ∷ s.woken;
      },
      ground arith,
    )
  ]

  shut_down_happens : s.master ≡ free → (s' : System) × (step c s shut_down ≡ some s')
  unfolding step shut_down_step
  shut_down_happens e = (destroy s, ground arith)

  -- In a state of the invariant, a thread that was created finds a callback to call.
  pub begin_happens : (i : ℕ) → i < length s.born → (s' : System) × (step c s (begin i) ≡ some s')
  unfolding step
  begin_happens i h =
      let (w, rest, e) = take_at-some s.born i h in
      let (t, e') =
        assigned-some (s.pool.worker w)
          (v.born_ready w (ground (arith, take_at-total (one w) s.born i w rest e, ==_refl w))) in
      (_, begin_eq c s is us v i w rest t e e')

  -- In a state of the invariant, a master that is in no call of the pool reaches the end of the first
  -- critical section of `poThreadPool_runTask`, `poThreadPool_checkIdleThreadTimeout` and
  -- `poThreadPool_destroy`: nothing is read through a NULL pointer.
  pub calls_go_through :
      s.master ≡ free
      → ((t : Task) (now : ℕ) → (s' : System) × (step c s (submit t now) ≡ some s'))
        × ((now : ℕ) → (s' : System) × (step c s (check_idle now) ≡ some s'))
        × ((s' : System) × (step c s shut_down ≡ some s'))
  calls_go_through e =
      ((λ t now. submit_happens t now e), (λ now. check_idle_happens now e), shut_down_happens e)

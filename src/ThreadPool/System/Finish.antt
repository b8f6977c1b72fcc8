-- ===== src/ThreadPool/System/Finish.antt =====
-- The invariant under the three ways in which a worker thread ends a critical section of its loop:
-- with a task, asleep in the idle list, or gone.
use tidbits.Prelude.{
  ap, ◌∙◌, ℕ, suc, ◌≡◌, refl, sym, subst, ◌==◌, Bool, true, false, Option, none, some, Option-cases,
  Bool-cases, inl, inr, List, ◌∷◌, arith,
}
use tidbits.ThreadPool.TaskQueue.{Task, TaskQueue}
use tidbits.ThreadPool.TaskQueue.Refine.{IsValid, contents}
use tidbits.ThreadPool.TaskQueue.Cases.{get_next_cases}
use tidbits.ThreadPool.WorkerList.Shape.{Apart}
use tidbits.ThreadPool.WorkerList.Pair.{Pair-sym, push-Pair}
use tidbits.ThreadPool.Pool.{
  Config, Worker, worker_finish, worker_wake, Next, leave, go_idle, assigned, Turn,
}
use tidbits.ThreadPool.Pool.Branches.{
  finish_queued, finish_leave, finish_idle, wake_own, wake_queued, wake_leave,
}
use tidbits.ThreadPool.System.{maybe, System, Running, take_at, finish_step, wake_step, after_turn}
use tidbits.ThreadPool.System.Counting.{
  total, one, held, held-apart, waiting-signalled, take_at-total, Apart-of_total,
}
use tidbits.ThreadPool.System.Invariant.{Inv, Limbo, Keeps}

module _ (c : Config) (s : System) (w : ℕ) (m : Option Task) (is us : List ℕ)
    (v : Limbo c s w m is us) where
  -- The worker is in neither list.
  apart : Apart w is × Apart w us
  apart = (
    Apart-of_total w is (ground (arith, v.once w)),
    Apart-of_total w us (ground (arith, v.once w)),
  )

  -- With its own task or, `queue`d, with the oldest one.
  called_own-Keeps :
      (t : Task)
      → m ≡ some t
      → Keeps c
          (some (after_turn s w (record { next = Next.call t; signal = false; pool = s.pool })))
  unfolding after_turn
  called_own-Keeps t own = (
    is,
    us,
    record {
      usable = v.usable;
      pair = v.pair;
      queue = v.queue;
      once = λ x. omega (arith, v.once x);
      threads = omega arith;
      all = omega arith;
      no_spare = v.no_spare;
      born_ready = v.born_ready;
      idle_clear = v.idle_clear;
      master = v.master;
      kept = λ f. omega (arith, v.kept f, ap (λ (o : Option Task). total f (maybe o)) own);
    },
  )

  called_queued-Keeps :
      (t : Task) (q : TaskQueue)
      → IsValid c.queue_length q
      → s.pool.task.num ≡ suc q.num
      → contents c.queue_length s.pool.task ≡ t ∷ contents c.queue_length q
      → m ≡ none
      → Keeps c (
          some (
            after_turn s w (record {
              next = Next.call t;
              signal = s.pool.task_waiting_to_be_run;
              pool = record s.pool { task = q };
            })))
  unfolding after_turn
  called_queued-Keeps t q valid n first free' = (
    is,
    us,
    record {
      usable = v.usable;
      pair = v.pair;
      queue = valid;
      once = λ x. omega (arith, v.once x);
      threads = omega arith;
      all = omega arith;
      no_spare = λ h. v.no_spare (omega arith);
      born_ready = v.born_ready;
      idle_clear = v.idle_clear;
      master = ground (arith, v.master);
      kept = λ f. omega (
        arith,
        v.kept f,
        ap (total f) first,
        ap (λ (o : Option Task). total f (maybe o)) free',
        waiting-signalled f s.pool.task_waiting_to_be_run s.master,
      );
    },
  )

  -- The thread leaves when no task is queued, and signals when it is the last in the cleanup.
  leave-Keeps :
      (b : Bool)
      → s.pool.task.num ≡ 0
      → (b ≡ true → (s.pool.num_threads ≡ 1) × (s.pool.cleanup ≡ true))
      → m ≡ none
      → Keeps c (some (after_turn s w (leave s.pool w b)))
  unfolding after_turn leave
  leave-Keeps b empty last free' =
      let moved =
        push-Pair s.pool.links s.pool.unused s.pool.idle w us is
          (Pair-sym s.pool.links s.pool.idle s.pool.unused is us v.pair) apart.1 apart.0 in
      (
        is,
        w ∷ us,
        record {
          usable = v.usable;
          pair = Pair-sym _ _ _ _ _ moved;
          queue = v.queue;
          once = λ x. omega (arith, v.once x);
          threads = omega (arith, v.usable.few_threads);
          all = omega arith;
          no_spare = λ h. absurd (h empty);
          born_ready = v.born_ready;
          idle_clear = v.idle_clear;
          master = ground (arith, v.master, last, v.usable.few_threads, v.usable.some_slot);
          kept = λ f. omega (
            arith,
            v.kept f,
            ap (λ (o : Option Task). total f (maybe o)) free',
            waiting-signalled f b s.master,
          );
        },
      )

  go_idle-Keeps :
      (now : ℕ)
      → s.pool.task.num ≡ 0
      → s.pool.cleanup ≡ false
      → m ≡ none
      → Keeps c (some (after_turn s w (go_idle s.pool w now)))
  unfolding after_turn go_idle
  go_idle-Keeps now empty running free' =
      let moved = push-Pair s.pool.links s.pool.idle s.pool.unused w is us v.pair apart.0 apart.1 in
      let slept : Worker = record (s.pool.worker w) {
        user_callback = none;
        last_work_time = now;
      } in
      (
        w ∷ is,
        us,
        record {
          usable = v.usable;
          pair = moved;
          queue = v.queue;
          once = λ x. omega (arith, v.once x);
          threads = omega arith;
          all = omega arith;
          no_spare = λ h. absurd (h empty);
          born_ready = λ x h. ground (arith, v.born_ready x, v.once w, v.once x);
          idle_clear = λ x h. ground (arith, v.idle_clear x);
          master = ground (arith, v.master, v.usable.some_slot);
          kept = λ f. omega (
            arith,
            v.kept f,
            ap (λ (o : Option Task). total f (maybe o)) free',
            held-apart f s.pool.worker w slept s.born (ground (arith, v.once w)),
            held-apart f s.pool.worker w slept s.woken (ground (arith, v.once w)),
          );
        },
      )

  turn-Keeps :
      (turn turn' : Turn)
      → turn ≡ turn'
      → Keeps c (some (after_turn s w turn'))
      → Keeps c (some (after_turn s w turn))
  turn-Keeps turn turn' e k = subst (λ (u : Turn). Keeps c (some (after_turn s w u))) (sym e) k

  finish-Keeps :
      (now : ℕ) → m ≡ none → Keeps c (some (after_turn s w (worker_finish c s.pool w now)))
  finish-Keeps now free' = elim (get_next_cases c.queue_length s.pool.task v.queue) [
    | inl (empty, e) ↦ elim (Bool-cases s.pool.cleanup) [
      | inl cleaning ↦
          turn-Keeps _ _ (finish_leave c s.pool w now e cleaning)
            (leave-Keeps (s.pool.num_threads == 1) empty (λ h. (ground arith, cleaning)) free')
      | inr running ↦
          turn-Keeps _ _ (finish_idle c s.pool w now e running)
            (go_idle-Keeps now empty running free')
    ]
    | inr (t, q, e, valid, n, first) ↦
        turn-Keeps _ _ (finish_queued c s.pool w now t q e)
          (called_queued-Keeps t q valid n first free')
  ]

  wake-Keeps :
      m ≡ assigned (s.pool.worker w) → Keeps c (some (after_turn s w (worker_wake c s.pool w)))
  wake-Keeps bound = elim (Option-cases (assigned (s.pool.worker w))) [
    | inl nothing ↦ elim (get_next_cases c.queue_length s.pool.task v.queue) [
      | inl (empty, e) ↦
          turn-Keeps _ _ (wake_leave c s.pool w nothing e)
            (leave-Keeps false empty (λ h. absurd (cc h)) (bound ∙ nothing))
      | inr (t, q, e, valid, n, first) ↦
          turn-Keeps _ _ (wake_queued c s.pool w t q nothing e)
            (called_queued-Keeps t q valid n first (bound ∙ nothing))
    ]
    | inr (t, e) ↦ turn-Keeps _ _ (wake_own c s.pool w t e) (called_own-Keeps t (bound ∙ e))
  ]

module _ (c : Config) (s : System) (is us : List ℕ) (v : Inv c s is us) where
  -- A thread that comes back from its callback.
  busy-Limbo :
      (i : ℕ) (r : Running) (rest : List Running)
      → take_at s.busy i ≡ some (r, rest)
      → Limbo c (record s { busy = rest }) r.worker none is us
  busy-Limbo i r rest found =
      let fewer = take_at-total (λ (r : Running). 0) s.busy i r rest found in
      record {
        usable = v.usable;
        pair = v.pair;
        queue = v.queue;
        once = λ x. omega (
          arith,
          v.once x,
          take_at-total (λ (r : Running). one x r.worker) s.busy i r rest found,
        );
        threads = omega (arith, fewer);
        all = omega (arith, fewer);
        no_spare = v.no_spare;
        born_ready = v.born_ready;
        idle_clear = v.idle_clear;
        master = v.master;
        kept = λ f. omega (arith, v.kept f);
      }

  -- A thread that comes back from its wait.
  woken-Limbo :
      (i w : ℕ) (rest : List ℕ)
      → take_at s.woken i ≡ some (w, rest)
      → Limbo c (record s { woken = rest }) w (assigned (s.pool.worker w)) is us
  woken-Limbo i w rest found =
      let fewer = take_at-total (λ (x : ℕ). 0) s.woken i w rest found in
      record {
        usable = v.usable;
        pair = v.pair;
        queue = v.queue;
        once = λ x. omega (arith, v.once x, take_at-total (one x) s.woken i w rest found);
        threads = omega (arith, fewer);
        all = omega (arith, fewer);
        no_spare = v.no_spare;
        born_ready = v.born_ready;
        idle_clear = v.idle_clear;
        master = v.master;
        kept = λ f.
            omega (arith, v.kept f, take_at-total (held f s.pool.worker) s.woken i w rest found);
      }

  pub finish_step-Keeps : (i now : ℕ) → Keeps c (finish_step c s i now)
  unfolding finish_step
  finish_step-Keeps i now = elim (Option-cases (take_at s.busy i)) [
    | inl e ↦ rw (e, finish_step) tt
    | inr ((r, rest), e) ↦
        rw (e, finish_step) (finish-Keeps c _ r.worker none is us (busy-Limbo i r rest e) now refl)
  ]

  pub wake_step-Keeps : (i : ℕ) → Keeps c (wake_step c s i)
  unfolding wake_step
  wake_step-Keeps i = elim (Option-cases (take_at s.woken i)) [
    | inl e ↦ rw (e, wake_step) tt
    | inr ((w, rest), e) ↦
        rw (e, wake_step) (wake-Keeps c _ w _ is us (woken-Limbo i w rest e) refl)
  ]

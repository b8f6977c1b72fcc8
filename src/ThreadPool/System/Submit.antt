-- ===== src/ThreadPool/System/Submit.antt =====
-- The invariant under `poThreadPool_runTask` and `poThreadPool_checkIdleThreadTimeout`.
use tidbits.Prelude.{
  ap, ℕ, ◌+◌, ◌≡◌, ◌≢◌, refl, ltb, ◌==◌, if◌then◌else◌, true, false, Option, none, some, inl, inr,
  List, [], ◌∷◌, ◌++◌, arith, length, length-append,
}
use tidbits.ThreadPool.TaskQueue.{Task, TaskQueue}
use tidbits.ThreadPool.TaskQueue.Refine.{IsValid, contents}
use tidbits.ThreadPool.TaskQueue.Cases.{make_new_entry_cases}
use tidbits.ThreadPool.WorkerList.{Links, WorkerList, list_pop}
use tidbits.ThreadPool.WorkerList.Shape.{pop-Holds_nil, Popped}
use tidbits.ThreadPool.WorkerList.Pair.{Pair, Pair-sym, pop-Pair}
use tidbits.ThreadPool.Pool.{
  Config, Worker, Pool, Pass, handed, spawned, queued, full, assign, run_task_pass,
}
use tidbits.ThreadPool.Pool.Passes.{
  timeout_cases, pass_handed, pass_spawned, pass_queued, pass_full,
}
use tidbits.ThreadPool.System.{System, free, starting, blocked, run_task, maybe}
use tidbits.ThreadPool.System.Counting.{
  total, one, held, held-apart, held_self, held_ne, held_clear, total-append, total-nil,
}
use tidbits.ThreadPool.System.Invariant.{Inv, IsUsable, Keeps, Happens, Happens-Keeps}

-- The invariant when the master holds the lock and has the task `m` to give to the pool.
pub record Ready (c : Config) (s : System) (m : Option Task) (is us : List ℕ) : Type 0 where
  pub usable : IsUsable c
  pub pair : Pair s.pool.links s.pool.idle is s.pool.unused us
  pub queue : IsValid c.queue_length s.pool.task
  pub once :
      (w : ℕ)
      → total (one w) is
          + total (one w) us
          + total (λ r. one w r.worker) s.busy
          + total (one w) s.woken
        ≡ (if ltb w c.max_num_threads then 1 else 0)
  pub threads : s.pool.num_threads ≡ length is + length s.busy + length s.woken
  pub all : length is + length us + length s.busy + length s.woken ≡ c.max_num_threads
  pub no_spare : s.pool.task.num ≢ 0 → (length is ≡ 0) × (length us ≡ 0)
  pub idle_clear : (w : ℕ) → total (one w) is ≢ 0 → (s.pool.worker w).user_callback ≡ none
  pub none_born : length s.born ≡ 0
  pub not_waiting : s.pool.task_waiting_to_be_run ≡ false
  pub running : s.pool.cleanup ≡ false
  pub kept :
      (f : Task → ℕ)
      → total f s.submitted
        ≡ total f s.calls
          + total f (contents c.queue_length s.pool.task)
          + total (held f s.pool.worker) s.woken
          + total f (maybe m)

-- The struct of worker `w` with the task `t`.
abbrev given : System → Task → ℕ → Worker
given s t w = record (s.pool.worker w) {
  user_callback = some t.user_callback;
  user_data = t.user_data;
}

-- The effect of a pass on the system.
abbrev pass_result : System → Pass → Pool → Task → Option System
pass_result s (handed w r) p t =
    some (record s { pool = p; woken = w ∷ maybe r ++ s.woken; master = free })
pass_result s (spawned w) p t = some (record s { pool = p; born = w ∷ s.born; master = starting })
pass_result s queued p t = some (record s { pool = p; master = free })
pass_result s full p t = some (record s { pool = p; master = blocked t })

module _ (c : Config) (s : System) (t : Task) (now : ℕ) where
  result-Happens :
      (pass : Pass) (p : Pool)
      → run_task_pass c s.pool t now ≡ some (pass, p)
      → Keeps c (pass_result s pass p t)
      → Happens c (run_task c s t now)
  unfolding run_task
  result-Happens (handed w r) p e k = (_, rw (e, run_task), k)
  result-Happens (spawned w) p e k = (_, rw (e, run_task), k)
  result-Happens queued p e k = (_, rw (e, run_task), k)
  result-Happens full p e k = (_, rw (e, run_task), k)

  module _ (h : Links) (l : WorkerList) (w : ℕ) (is us : List ℕ)
      (v : Ready c s (some t) (w ∷ is) us) (kept : Pair h l is s.pool.unused us) where
    handed_one-Inv :
        Inv c
          (record s {
            pool = assign (record s.pool { links = h; idle = l }) w t;
            woken = w ∷ s.woken;
            master = free;
          })
          is
          us
    handed_one-Inv = record {
      usable = v.usable;
      pair = kept;
      queue = v.queue;
      once = λ x. omega (arith, v.once x, total-nil (one x) s.born v.none_born);
      threads = omega arith;
      all = omega (arith, v.none_born);
      no_spare = λ n. absurd (omega (arith, v.no_spare n));
      born_ready = λ x n. absurd (n (total-nil (one x) s.born v.none_born));
      idle_clear = λ x n. ground (arith, v.idle_clear x, v.once x);
      master = (v.not_waiting, v.running, v.none_born);
      kept = λ f. omega (
        arith,
        v.kept f,
        held_self f s.pool.worker w (given s t w),
        held-apart f s.pool.worker w (given s t w) s.woken (ground (arith, v.once w)),
        total-nil (held f (λ x. if x == w then given s t w else s.pool.worker x)) s.born
            v.none_born,
      );
    }

    handed_two-Inv :
        (xs : List ℕ) (b : ℕ) (h' : Links) (l' : WorkerList)
        → is ≡ xs ++ b ∷ []
        → Pair h' l' xs s.pool.unused us
        → Inv c
            (record s {
              pool = record (assign (record s.pool { links = h; idle = l }) w t) {
                links = h';
                idle = l';
              };
              woken = w ∷ b ∷ s.woken;
              master = free;
            })
            xs
            us
    handed_two-Inv xs b h' l' e kept' =
        let len : length is ≡ length xs + 1 = rw e (length-append xs (b ∷ [])) in
        let sum : (x : ℕ) → total (one x) is ≡ total (one x) xs + (one x b + 0) =
          λ x. rw e (total-append (one x) xs (b ∷ [])) in
        let other : b ≢ w = ground (arith, v.once b, sum b) in
        record {
          usable = v.usable;
          pair = kept';
          queue = v.queue;
          once = λ x. omega (arith, v.once x, total-nil (one x) s.born v.none_born, sum x);
          threads = omega (arith, len);
          all = omega (arith, v.none_born, len);
          no_spare = λ n. absurd (omega (arith, v.no_spare n));
          born_ready = λ x n. absurd (n (total-nil (one x) s.born v.none_born));
          idle_clear = λ x n. ground (arith, v.idle_clear x, v.once x, sum x);
          master = (v.not_waiting, v.running, v.none_born);
          kept = λ f. omega (
            arith,
            v.kept f,
            held_self f s.pool.worker w (given s t w),
            held_ne f s.pool.worker w (given s t w) b other,
            held_clear f s.pool.worker b (v.idle_clear b (ground (arith, sum b))),
            held-apart f s.pool.worker w (given s t w) s.woken (ground (arith, v.once w)),
            total-nil (held f (λ x. if x == w then given s t w else s.pool.worker x)) s.born
                v.none_born,
          );
        }

  spawned-Inv :
      (h : Links) (l : WorkerList) (w : ℕ) (us : List ℕ)
      → Ready c s (some t) [] (w ∷ us)
      → Pair h s.pool.idle [] l us
      → Inv c
          (record s {
            pool = assign (record s.pool { links = h; unused = l }) w t;
            born = w ∷ s.born;
            master = starting;
          })
          []
          us
  spawned-Inv h l w us v kept = record {
    usable = v.usable;
    pair = kept;
    queue = v.queue;
    once = λ x. omega (arith, v.once x, total-nil (one x) s.born v.none_born);
    threads = omega arith;
    all = omega (arith, v.none_born);
    no_spare = λ n. absurd (omega (arith, v.no_spare n));
    born_ready = λ x n. ground (arith, total-nil (one x) s.born v.none_born);
    idle_clear = λ x n. absurd (n refl);
    master = (v.not_waiting, v.running, omega (arith, v.none_born));
    kept = λ f. omega (
      arith,
      v.kept f,
      held_self f s.pool.worker w (given s t w),
      held-apart f s.pool.worker w (given s t w) s.woken (ground (arith, v.once w)),
      total-nil (held f (λ x. if x == w then given s t w else s.pool.worker x)) s.born v.none_born,
    );
  }

  queued-Inv :
      (q : TaskQueue)
      → Ready c s (some t) [] []
      → IsValid c.queue_length q
      → contents c.queue_length q ≡ contents c.queue_length s.pool.task ++ t ∷ []
      → Inv c (record s { pool = record s.pool { task = q }; master = free }) [] []
  queued-Inv q v valid last = record {
    usable = v.usable;
    pair = v.pair;
    queue = valid;
    once = λ x. omega (arith, v.once x, total-nil (one x) s.born v.none_born);
    threads = v.threads;
    all = omega (arith, v.none_born);
    no_spare = λ n. (refl, refl);
    born_ready = λ x n. absurd (n (total-nil (one x) s.born v.none_born));
    idle_clear = λ x n. absurd (n refl);
    master = (v.not_waiting, v.running, v.none_born);
    kept = λ f. omega (
      arith,
      v.kept f,
      total-nil (held f s.pool.worker) s.born v.none_born,
      ap (total f) last,
      total-append f (contents c.queue_length s.pool.task) (t ∷ []),
    );
  }

  full-Inv :
      Ready c s (some t) [] []
      → s.pool.task.num ≡ c.queue_length
      → Inv c
          (record s { pool = record s.pool { task_waiting_to_be_run = true }; master = blocked t })
          []
          []
  full-Inv v n = record {
    usable = v.usable;
    pair = v.pair;
    queue = v.queue;
    once = λ x. omega (arith, v.once x, total-nil (one x) s.born v.none_born);
    threads = v.threads;
    all = omega (arith, v.none_born);
    no_spare = λ n. (refl, refl);
    born_ready = λ x n. absurd (n (total-nil (one x) s.born v.none_born));
    idle_clear = λ x n. absurd (n refl);
    master = (refl, v.running, v.none_born, refl, refl, n);
    kept = λ f. omega (arith, v.kept f, total-nil (held f s.pool.worker) s.born v.none_born);
  }

pub Popped_eta : (r : Popped) (w : ℕ) → r.0 ≡ some w → r ≡ (some w, r.1, r.2)
Popped_eta r w e = ground arith

module _ (c : Config) (s : System) (t : Task) (now : ℕ) where
  give_idle-Happens :
      (w : ℕ) (is us : List ℕ) → Ready c s (some t) (w ∷ is) us → Happens c (run_task c s t now)
  give_idle-Happens w is us v =
      let p = s.pool in
      let (top, kept) = pop-Pair p.links p.idle p.unused w is us v.pair in
      let popped = Popped_eta (list_pop p.links p.idle) w top in
      let h : Links = (list_pop p.links p.idle).1 in
      let l : WorkerList = (list_pop p.links p.idle).2 in
      elim (timeout_cases c (assign (record p { links = h; idle = l }) w t) now is us kept) [
        | inl e ↦
            result-Happens c s t now (handed w none) _ (pass_handed c p t now w h l none _ popped e)
              (is, us, handed_one-Inv c s t now h l w is us v kept)
        | inr (xs, b, e, _, e', kept') ↦
            result-Happens c s t now (handed w (some b)) _
              (pass_handed c p t now w h l (some b) _ popped e')
              (xs, us, handed_two-Inv c s t now h l w is us v kept xs b _ _ e kept')
      ]

  give_new-Happens :
      (w : ℕ) (us : List ℕ) → Ready c s (some t) [] (w ∷ us) → Happens c (run_task c s t now)
  give_new-Happens w us v =
      let p = s.pool in
      let (top, kept) =
        pop-Pair p.links p.unused p.idle w us []
          (Pair-sym p.links p.idle p.unused [] (w ∷ us) v.pair) in
      let none_idle = pop-Holds_nil p.links p.idle v.pair.0 in
      let h : Links = (list_pop p.links p.unused).1 in
      let l : WorkerList = (list_pop p.links p.unused).2 in
      result-Happens c s t now (spawned w) _
        (pass_spawned c p t now w h l none_idle (Popped_eta (list_pop p.links p.unused) w top))
        ([], us, spawned-Inv c s t now h l w us v (Pair-sym h l p.idle us [] kept))

  give_queue-Happens : Ready c s (some t) [] [] → Happens c (run_task c s t now)
  give_queue-Happens v =
      let p = s.pool in
      let none_idle = pop-Holds_nil p.links p.idle v.pair.0 in
      let none_unused = pop-Holds_nil p.links p.unused v.pair.1 in
      elim (make_new_entry_cases c.queue_length p.task t v.queue) [
        | inl (n, e) ↦
            result-Happens c s t now full _ (pass_full c p t now none_idle none_unused e)
              ([], [], full-Inv c s t now v n)
        | inr (_, q, e, valid, _, last) ↦
            result-Happens c s t now queued _ (pass_queued c p t now q none_idle none_unused e)
              ([], [], queued-Inv c s t now q v valid last)
      ]

  pub run_task-Happens :
      (is us : List ℕ) → Ready c s (some t) is us → Happens c (run_task c s t now)
  run_task-Happens (w ∷ is) us v = give_idle-Happens w is us v
  run_task-Happens [] (w ∷ us) v = give_new-Happens w us v
  run_task-Happens [] [] v = give_queue-Happens v

  pub run_task-Keeps : (is us : List ℕ) → Ready c s (some t) is us → Keeps c (run_task c s t now)
  run_task-Keeps is us v = Happens-Keeps c _ (run_task-Happens is us v)

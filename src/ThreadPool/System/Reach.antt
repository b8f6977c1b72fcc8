-- ===== src/ThreadPool/System/Reach.antt =====
-- The invariant from `poThreadPool_create` on, along any schedule.
use tidbits.Prelude.{
  ℕ, zero, suc, ◌+◌, ◌%◌, ◌^◌, ◌<◌, ◌≡◌, refl, ap, subst, ltb, leb, ◌&&◌, if◌then◌else◌, true,
  Option, none, some, Option-cases, inl, inr, List, [], ◌∷◌, ◌++◌, arith, length, length-append,
}
use tidbits.ThreadPool.TaskQueue.{Task}
use tidbits.ThreadPool.WorkerList.{Links, WorkerList, create_unused}
use tidbits.ThreadPool.WorkerList.Shape.{Holds}
use tidbits.ThreadPool.WorkerList.Create.{indices, create_unused-Holds}
use tidbits.ThreadPool.WorkerList.Pair.{Pair}
use tidbits.ThreadPool.WorkerList.Ends.{pulled_links, pulled_list}
use tidbits.ThreadPool.Pool.{Config, worker_begin, assigned, create, null_tasks}
use tidbits.ThreadPool.Pool.Passes.{timeout_cases}
use tidbits.ThreadPool.System.{
  maybe, System, Master, free, signalled, check_idle_step, begin_step, take_at, after_turn, Event,
  submit, check_idle, shut_down, resume, begin, finish, wake, step, run, start,
}
use tidbits.ThreadPool.System.Counting.{
  total, one, held, held_clear, waiting-signalled, total-append, take_at-total,
}
use tidbits.ThreadPool.System.Invariant.{Inv, IsUsable, Keeps}
use tidbits.ThreadPool.System.Finish.{finish_step-Keeps, wake_step-Keeps}
use tidbits.ThreadPool.System.Steps.{
  Keeps-by, submit_step-Keeps, shut_down_step-Keeps, resume_step-Keeps,
}

module _ (c : Config) (s : System) (is us : List ℕ) (v : Inv c s is us) where
  timed_out-Inv :
      (xs : List ℕ) (b : ℕ) (h : Links) (l : WorkerList)
      → s.master ≡ free
      → is ≡ xs ++ b ∷ []
      → Pair h l xs s.pool.unused us
      → Inv c (record s { pool = record s.pool { links = h; idle = l }; woken = b ∷ s.woken }) xs us
  timed_out-Inv xs b h l m e kept =
      let len : length is ≡ length xs + 1 = rw e (length-append xs (b ∷ [])) in
      let sum : (x : ℕ) → total (one x) is ≡ total (one x) xs + (one x b + 0) =
        λ x. rw e (total-append (one x) xs (b ∷ [])) in
      record {
        usable = v.usable;
        pair = kept;
        queue = v.queue;
        once = λ x. omega (arith, v.once x, sum x);
        threads = omega (arith, len);
        all = omega (arith, len);
        no_spare = λ n. absurd (omega (arith, v.no_spare n, len));
        born_ready = v.born_ready;
        idle_clear = λ x n. v.idle_clear x (omega (arith, sum x));
        master = ground (arith, v.master, m);
        kept = λ f. omega (
          arith,
          v.kept f,
          held_clear f s.pool.worker b (v.idle_clear b (ground (arith, sum b))),
        );
      }

  check_idle_step-Keeps : (now : ℕ) → Keeps c (check_idle_step c s now)
  unfolding check_idle_step
  check_idle_step-Keeps now = go s.master refl
    where
      go : (m : Master) → s.master ≡ m → Keeps c (check_idle_step c s now)
      go free e = elim (timeout_cases c s.pool now is us v.pair) [
        | inl e' ↦ Keeps-by c (check_idle_step c s now) (some s) (ground arith) (is, us, v)
        | inr (xs, b, e₁, _, e₂, kept) ↦
            Keeps-by c (check_idle_step c s now)
              (some (record s {
                pool = record s.pool {
                  links = pulled_links s.pool.links xs;
                  idle = pulled_list s.pool.idle xs;
                };
                woken = b ∷ s.woken;
              }))
              (ground arith) (xs, us, timed_out-Inv xs b _ _ e e₁ kept)
      ]
      go _ e = Keeps-by c (check_idle_step c s now) none (ground arith) tt

  begun-Inv :
      (i w : ℕ) (rest : List ℕ) (t : Task)
      → take_at s.born i ≡ some (w, rest)
      → assigned (s.pool.worker w) ≡ some t
      → Inv c
          (record s {
            pool = record s.pool { num_threads = (s.pool.num_threads + 1) % 2 ^ 32 };
            born = rest;
            busy = record { worker = w; task = t } ∷ s.busy;
            calls = t ∷ s.calls;
            master = signalled true s.master;
          })
          is
          us
  begun-Inv i w rest t found own =
      let fewer = take_at-total (λ (x : ℕ). 0) s.born i w rest found in
      record {
        usable = v.usable;
        pair = v.pair;
        queue = v.queue;
        once = λ x. omega (arith, v.once x, take_at-total (one x) s.born i w rest found);
        threads = omega (arith, fewer, v.usable.few_threads);
        all = omega (arith, fewer);
        no_spare = v.no_spare;
        born_ready =
            λ x n. v.born_ready x (omega (arith, take_at-total (one x) s.born i w rest found));
        idle_clear = v.idle_clear;
        master = ground (arith, v.master, fewer);
        kept = λ f. omega (
          arith,
          v.kept f,
          take_at-total (held f s.pool.worker) s.born i w rest found,
          ap (λ (o : Option Task). total f (maybe o)) own,
          waiting-signalled f true s.master,
        );
      }

  pub begin_eq :
      (i w : ℕ) (rest : List ℕ) (t : Task)
      → take_at s.born i ≡ some (w, rest)
      → assigned (s.pool.worker w) ≡ some t
      → begin_step s i
        ≡ some (record s {
          pool = record s.pool { num_threads = (s.pool.num_threads + 1) % 2 ^ 32 };
          born = rest;
          busy = record { worker = w; task = t } ∷ s.busy;
          calls = t ∷ s.calls;
          master = signalled true s.master;
        })
  unfolding begin_step worker_begin after_turn
  begin_eq i w rest t e e' = ground arith

  begin_fault :
      (i w : ℕ) (rest : List ℕ)
      → take_at s.born i ≡ some (w, rest)
      → assigned (s.pool.worker w) ≡ none
      → begin_step s i ≡ none
  unfolding begin_step worker_begin
  begin_fault i w rest e e' = ground arith

  begin_step-Keeps : (i : ℕ) → Keeps c (begin_step s i)
  unfolding begin_step
  begin_step-Keeps i = elim (Option-cases (take_at s.born i)) [
    | inl e ↦ Keeps-by c (begin_step s i) none (ground arith) tt
    | inr ((w, rest), e) ↦ elim (Option-cases (assigned (s.pool.worker w))) [
      | inl e' ↦ Keeps-by c (begin_step s i) none (begin_fault i w rest e e') tt
      | inr (t, e') ↦
          Keeps-by c (begin_step s i) _ (begin_eq i w rest t e e')
            (is, us, begun-Inv i w rest t e e')
    ]
  ]

  -- Every step that happens, of the master or of a worker thread, keeps the invariant.
  pub step-Keeps : (e : Event) → Keeps c (step c s e)
  unfolding step
  step-Keeps (submit t now) = submit_step-Keeps c s is us v t now
  step-Keeps (check_idle now) = check_idle_step-Keeps now
  step-Keeps shut_down = shut_down_step-Keeps c s is us v
  step-Keeps (resume now) = resume_step-Keeps c s is us v now
  step-Keeps (begin i) = begin_step-Keeps i
  step-Keeps (finish i now) = finish_step-Keeps c s is us v i now
  step-Keeps (wake i) = wake_step-Keeps c s is us v i

pub run-Keeps :
    (c : Config) (s : System) (es : List Event) → Keeps c (some s) → Keeps c (run c s es)
unfolding run
run-Keeps c s [] k = k
run-Keeps c s (e ∷ es) (is, us, v) = elim (Option-cases (step c s e)) [
  | inl stuck ↦ Keeps-by c (run c s (e ∷ es)) none (ground arith) tt
  | inr (s', happens) ↦
      Keeps-by c (run c s (e ∷ es)) (run c s' es) (ground arith)
        (run-Keeps c s' es (subst (Keeps c) happens (step-Keeps c s is us v e)))
]

total-indices :
    (w i n : ℕ) → total (one w) (indices i n) ≡ (if leb i w && ltb w (i + n) then 1 else 0)
total-indices w i zero = ground arith
total-indices w i (suc n) = ground (arith, total-indices w (suc i) n)

length-indices : (i n : ℕ) → length (indices i n) ≡ n
length-indices i zero = refl
length-indices i (suc n) = ap suc (length-indices (suc i) n)

length-null_tasks : (n : ℕ) → length (null_tasks n) ≡ n
length-null_tasks zero = refl
length-null_tasks (suc n) = ap suc (length-null_tasks n)

unused-Holds : (n : ℕ) → 0 < n → Holds (create_unused n).0 (create_unused n).1 (indices 0 n)
unused-Holds zero h = absurd (omega arith)
unused-Holds (suc m) h = create_unused-Holds m

-- `poThreadPool_create` sets the invariant up: all workers are unused, in the array's order.
pub start-Inv : (c : Config) → IsUsable c → Inv c (start c) [] (indices 0 c.max_num_threads)
unfolding start create
start-Inv c u = record {
  usable = u;
  pair = (((refl, refl), tt), unused-Holds c.max_num_threads u.some_thread, tt);
  queue = record {
    storage = length-null_tasks c.queue_length;
    small = u.few_slots;
    index_in = u.some_slot;
    num_in = omega arith;
  };
  once = λ w. ground (arith, total-indices w 0 c.max_num_threads);
  threads = refl;
  all = omega (arith, length-indices 0 c.max_num_threads);
  no_spare = λ n. absurd (n refl);
  born_ready = λ w n. absurd (n refl);
  idle_clear = λ w n. absurd (n refl);
  master = (refl, refl, refl);
  kept = λ f. refl;
}

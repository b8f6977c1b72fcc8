-- ===== src/ThreadPool/System/Steps.antt =====
-- The invariant under every step of the pool, and so in every state that a schedule reaches.
use tidbits.Prelude.{
  ℕ, ◌≡◌, refl, sym, ap, subst, ltb, ◌==◌, if◌then◌else◌, true, false, Option, none, some,
  Bool-cases, inl, inr, List, [], ◌∷◌, ◌++◌, arith, length,
}
use tidbits.ThreadPool.TaskQueue.{Task}
use tidbits.ThreadPool.WorkerList.{Links, WorkerList, list_pop}
use tidbits.ThreadPool.WorkerList.Shape.{pop-Holds_nil}
use tidbits.ThreadPool.WorkerList.Pair.{Pair, pop-Pair}
use tidbits.ThreadPool.Pool.{Config, Worker, Pool, set_worker, destroy_pop}
use tidbits.ThreadPool.Pool.Passes.{destroy_pop-none, destroy_pop-some}
use tidbits.ThreadPool.System.{
  System, Master, free, started, unblocked, joining, draining, drained, gone, run_task, submit_step,
  shut_down_step, resume_step, destroy, destroy_rest, worker_ids, contains,
}
use tidbits.ThreadPool.System.Counting.{one, held, waiting, held-apart, held_self, total-nil}
use tidbits.ThreadPool.System.Invariant.{Inv, Keeps, MasterOk}
use tidbits.ThreadPool.System.Submit.{Ready, run_task-Keeps, Popped_eta}

pub Keeps-by : (c : Config) (o o' : Option System) → o ≡ o' → Keeps c o' → Keeps c o
Keeps-by c o o' e k = subst (Keeps c) (sym e) k

destroy-some :
    (s : System) (w : ℕ) (p : Pool)
    → destroy_pop s.pool ≡ (some w, p)
    → destroy s ≡ record s { pool = p; woken = w ∷ s.woken; master = joining w }
unfolding destroy
destroy-some s w p e = ground arith

destroy-none :
    (s : System) (p : Pool)
    → destroy_pop s.pool ≡ (none, p)
    → destroy s ≡ destroy_rest (record s { pool = p })
unfolding destroy
destroy-none s p e = ground arith

module _ (c : Config) (s : System) where
  destroy_rest-Keeps : (us : List ℕ) → Ready c s none [] us → Keeps c (some (destroy_rest s))
  unfolding destroy_rest
  destroy_rest-Keeps us v = elim (Bool-cases (ltb 0 s.pool.num_threads)) [
    | inl e ↦
        Keeps-by c (some (destroy_rest s))
          (some (record s { pool = record s.pool { cleanup = true }; master = draining }))
          (ground arith)
          (
            [],
            us,
            record {
              usable = v.usable;
              pair = v.pair;
              queue = v.queue;
              once = λ x. omega (arith, v.once x, total-nil (one x) s.born v.none_born);
              threads = v.threads;
              all = omega (arith, v.none_born);
              no_spare = v.no_spare;
              born_ready = λ x n. absurd (n (total-nil (one x) s.born v.none_born));
              idle_clear = λ x n. absurd (n refl);
              master = (v.not_waiting, refl, v.none_born, refl);
              kept =
                  λ f. omega (arith, v.kept f, total-nil (held f s.pool.worker) s.born v.none_born);
            },
          )
    | inr e ↦
        Keeps-by c (some (destroy_rest s)) (some (record s { master = gone })) (ground arith) (
          [],
          us,
          record {
            usable = v.usable;
            pair = v.pair;
            queue = v.queue;
            once = λ x. omega (arith, v.once x, total-nil (one x) s.born v.none_born);
            threads = v.threads;
            all = omega (arith, v.none_born);
            no_spare = v.no_spare;
            born_ready = λ x n. absurd (n (total-nil (one x) s.born v.none_born));
            idle_clear = λ x n. absurd (n refl);
            master = (v.not_waiting, v.none_born, ground arith);
            kept =
                λ f. omega (arith, v.kept f, total-nil (held f s.pool.worker) s.born v.none_born);
          },
        )
  ]

  join-Inv :
      (w : ℕ) (is us : List ℕ) (h : Links) (l : WorkerList)
      → Ready c s none (w ∷ is) us
      → Pair h l is s.pool.unused us
      → Inv c
          (record s {
            pool =
                record (set_worker s.pool w (record (s.pool.worker w) { user_callback = none })) {
                  links = h;
                  idle = l;
                  detach_thread = false;
                };
            woken = w ∷ s.woken;
            master = joining w;
          })
          is
          us
  join-Inv w is us h l v kept =
      let cleared : Worker = record (s.pool.worker w) { user_callback = none } in
      record {
        usable = v.usable;
        pair = kept;
        queue = v.queue;
        once = λ x. omega (arith, v.once x, total-nil (one x) s.born v.none_born);
        threads = omega arith;
        all = omega (arith, v.none_born);
        no_spare = λ n. absurd (omega (arith, v.no_spare n));
        born_ready = λ x n. absurd (n (total-nil (one x) s.born v.none_born));
        idle_clear = λ x n. ground (arith, v.idle_clear x, v.once x);
        master = (v.not_waiting, v.running, v.none_born);
        kept = λ f. omega (
          arith,
          v.kept f,
          held_self f s.pool.worker w cleared,
          held-apart f s.pool.worker w cleared s.woken (ground (arith, v.once w)),
          total-nil (held f (λ x. if x == w then cleared else s.pool.worker x)) s.born v.none_born,
        );
      }

detached :
    (c : Config) (s : System) (is us : List ℕ)
    → Ready c s none is us
    → Ready c (record s { pool = record s.pool { detach_thread = true } }) none is us
detached c s is us v = record {
  usable = v.usable;
  pair = v.pair;
  queue = v.queue;
  once = v.once;
  threads = v.threads;
  all = v.all;
  no_spare = v.no_spare;
  idle_clear = v.idle_clear;
  none_born = v.none_born;
  not_waiting = v.not_waiting;
  running = v.running;
  kept = v.kept;
}

destroy-Keeps :
    (c : Config) (s : System) (is us : List ℕ) → Ready c s none is us → Keeps c (some (destroy s))
destroy-Keeps c s [] us v =
    let p = s.pool in
    let popped = destroy_pop-none p (pop-Holds_nil p.links p.idle v.pair.0) in
    Keeps-by c _ _ (ap some (destroy-none s _ popped))
      (destroy_rest-Keeps c _ us (detached c s [] us v))
destroy-Keeps c s (w ∷ is) us v =
    let p = s.pool in
    let (top, kept) = pop-Pair p.links p.idle p.unused w is us v.pair in
    let popped = destroy_pop-some p w _ _ (Popped_eta (list_pop p.links p.idle) w top) in
    Keeps-by c _ _ (ap some (destroy-some s w _ popped)) (is, us, join-Inv c s w is us _ _ v kept)

-- The master is free, or about to go on after a wait.
module _ (c : Config) (s : System) (is us : List ℕ) (v : Inv c s is us) where
  abbrev pub At : Master → Type 0
  At m =
      MasterOk c.queue_length s.pool.task_waiting_to_be_run s.pool.cleanup (length s.born)
        (length is) (length us) s.pool.num_threads s.pool.task.num m

  pub at : (m : Master) → s.master ≡ m → At m
  at m e = subst At e v.master

  pub Inv-Ready :
      s.pool.task_waiting_to_be_run ≡ false
      → s.pool.cleanup ≡ false
      → length s.born ≡ 0
      → ((f : Task → ℕ) → waiting f s.master ≡ 0)
      → Ready c s none is us
  Inv-Ready a b n idle = record {
    usable = v.usable;
    pair = v.pair;
    queue = v.queue;
    once = λ x. omega (arith, v.once x, total-nil (one x) s.born n);
    threads = v.threads;
    all = omega (arith, n);
    no_spare = v.no_spare;
    idle_clear = v.idle_clear;
    none_born = n;
    not_waiting = a;
    running = b;
    kept = λ f. omega (arith, v.kept f, total-nil (held f s.pool.worker) s.born n, idle f);
  }

  pub submitted-Ready :
      (t : Task)
      → Ready c s none is us
      → Ready c (record s { submitted = t ∷ s.submitted }) (some t) is us
  submitted-Ready t r = record {
    usable = r.usable;
    pair = r.pair;
    queue = r.queue;
    once = r.once;
    threads = r.threads;
    all = r.all;
    no_spare = r.no_spare;
    idle_clear = r.idle_clear;
    none_born = r.none_born;
    not_waiting = r.not_waiting;
    running = r.running;
    kept = λ f. omega (arith, r.kept f);
  }

  unblocked-Ready :
      (t : Task)
      → s.master ≡ unblocked t
      → s.pool.cleanup ≡ false
      → length s.born ≡ 0
      → Ready c
          (record s { pool = record s.pool { task_waiting_to_be_run = false } })
          (some t)
          is
          us
  unblocked-Ready t e b n = record {
    usable = v.usable;
    pair = v.pair;
    queue = v.queue;
    once = λ x. omega (arith, v.once x, total-nil (one x) s.born n);
    threads = v.threads;
    all = omega (arith, n);
    no_spare = v.no_spare;
    idle_clear = v.idle_clear;
    none_born = n;
    not_waiting = refl;
    running = b;
    kept =
        λ f. omega (arith, v.kept f, total-nil (held f s.pool.worker) s.born n, ap (waiting f) e);
  }

  Inv-master :
      (m : Master)
      → At m
      → ((f : Task → ℕ) → waiting f m ≡ waiting f s.master)
      → Keeps c (some (record s { master = m }))
  Inv-master m k same = (
    is,
    us,
    record {
      usable = v.usable;
      pair = v.pair;
      queue = v.queue;
      once = v.once;
      threads = v.threads;
      all = v.all;
      no_spare = v.no_spare;
      born_ready = v.born_ready;
      idle_clear = v.idle_clear;
      master = k;
      kept = λ f. omega (arith, v.kept f, same f);
    },
  )

  pub submit_step-Keeps : (t : Task) (now : ℕ) → Keeps c (submit_step c s t now)
  unfolding submit_step
  submit_step-Keeps t now = go s.master refl
    where
      go : (m : Master) → s.master ≡ m → Keeps c (submit_step c s t now)
      go free e =
          let (a, b, n) = at free e in
          Keeps-by c (submit_step c s t now)
            (run_task c (record s { submitted = t ∷ s.submitted }) t now) (ground arith)
            (run_task-Keeps c _ t now is us
              (submitted-Ready t (Inv-Ready a b n (λ f. ap (waiting f) e))))
      go _ e = Keeps-by c (submit_step c s t now) none (ground arith) tt

  pub shut_down_step-Keeps : Keeps c (shut_down_step s)
  unfolding shut_down_step
  shut_down_step-Keeps = go s.master refl
    where
      go : (m : Master) → s.master ≡ m → Keeps c (shut_down_step s)
      go free e =
          let (a, b, n) = at free e in
          Keeps-by c (shut_down_step s) (some (destroy s)) (ground arith)
            (destroy-Keeps c s is us (Inv-Ready a b n (λ f. ap (waiting f) e)))
      go _ e = Keeps-by c (shut_down_step s) none (ground arith) tt

  pub resume_step-Keeps : (now : ℕ) → Keeps c (resume_step c s now)
  unfolding resume_step
  resume_step-Keeps now = go s.master refl
    where
      go : (m : Master) → s.master ≡ m → Keeps c (resume_step c s now)
      go started e =
          Keeps-by c (resume_step c s now) (some (record s { master = free })) (ground arith)
            (Inv-master free (at started e) (λ f. sym (ap (waiting f) e)))
      go (unblocked t) e =
          let (b, n) = at (unblocked t) e in
          Keeps-by c (resume_step c s now)
            (run_task c (record s { pool = record s.pool { task_waiting_to_be_run = false } }) t
              now)
            (ground arith) (run_task-Keeps c _ t now is us (unblocked-Ready t e b n))
      go (joining w) e =
          let (a, b, n) = at (joining w) e in
          elim (Bool-cases (contains (worker_ids s.busy ++ s.woken) w)) [
            | inl here ↦ Keeps-by c (resume_step c s now) none (ground arith) tt
            | inr left ↦
                Keeps-by c (resume_step c s now) (some (destroy s)) (ground arith)
                  (destroy-Keeps c s is us (Inv-Ready a b n (λ f. ap (waiting f) e)))
          ]
      go drained e =
          let (a, b, n, t) = at drained e in
          Keeps-by c (resume_step c s now) (some (record s { master = gone })) (ground arith)
            (Inv-master gone (a, n, t) (λ f. sym (ap (waiting f) e)))
      go _ e = Keeps-by c (resume_step c s now) none (ground arith) tt

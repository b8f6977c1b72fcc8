-- ===== src/ThreadPool/Pool/Passes.antt =====
-- The critical sections of the master thread, branch by branch.
use tidbits.Prelude.{
  ℕ, ◌<◌, ◌-◌, ◌≡◌, ltb, true, false, Bool-cases, Option, Option-cases, none, some, ◌⊎◌, inl, inr,
  List, [], ◌∷◌, ◌++◌, refl, subst, arith, ◌&&◌,
}
use tidbits.ThreadPool.TaskQueue.{Task, TaskQueue, queue_make_new_entry}
use tidbits.ThreadPool.WorkerList.{Links, WorkerList, list_pop, list_pull}
use tidbits.ThreadPool.WorkerList.Ends.{pulled_links, pulled_list}
use tidbits.ThreadPool.WorkerList.Pair.{Pair, pull-Pair}
use tidbits.ThreadPool.Pool.{
  Config, Pool, handed, spawned, queued, full, assign, check_thread_timeout, run_task_pass,
  destroy_pop, set_worker,
}

pub Snoc-cases : (xs : List ℕ) → (xs ≡ []) ⊎ ((ys : List ℕ) × (w : ℕ) × (xs ≡ ys ++ w ∷ []))
Snoc-cases [] = inl refl
Snoc-cases (x ∷ xs) = elim (Snoc-cases xs) [
  | inl e ↦ inr ([], x, rw e)
  | inr (ys, w, e) ↦ inr (x ∷ ys, w, rw e)
]

module _ (c : Config) (p : Pool) (now : ℕ) where
  -- What a check for a worker that was idle too long does: nothing, or it takes the bottom worker of
  -- the idle list, and then there are more than two threads.
  abbrev pub TimeoutCases : List ℕ → List ℕ → Type 0
  TimeoutCases is us =
      (check_thread_timeout c p now ≡ some (none, p))
      ⊎ ((xs : List ℕ) × (w : ℕ) × (is ≡ xs ++ w ∷ [])
          × (2 < p.num_threads)
          × (check_thread_timeout c p now
              ≡ some (
                some w,
                record p { links = pulled_links p.links xs; idle = pulled_list p.idle xs },
              ))
          × Pair (pulled_links p.links xs) (pulled_list p.idle xs) xs p.unused us)

  timeout_none : p.idle.bottom ≡ none → check_thread_timeout c p now ≡ some (none, p)
  unfolding check_thread_timeout
  timeout_none e = ground arith

  timeout_some :
      (b w : ℕ) (h : Links) (l : WorkerList)
      → p.idle.bottom ≡ some b
      → list_pull p.links p.idle ≡ some (some w, h, l)
      → (check_thread_timeout c p now ≡ some (none, p))
        ⊎ ((2 < p.num_threads)
            × (check_thread_timeout c p now ≡ some (some w, record p { links = h; idle = l })))
  unfolding check_thread_timeout
  timeout_some b w h l e e' =
      elim (Bool-cases
        (ltb 2 p.num_threads && ltb c.max_idle_time (now - (p.worker b).last_work_time))) [
          | inl old ↦ inr (ground arith, ground arith)
          | inr young ↦ inl (ground arith)
        ]

  pub timeout_cases : (is us : List ℕ) → Pair p.links p.idle is p.unused us → TimeoutCases is us
  timeout_cases is us v = elim (Snoc-cases is) [
    | inl e ↦
        let v' : Pair p.links p.idle [] p.unused us =
          subst (λ (l : List ℕ). Pair p.links p.idle l p.unused us) e v in
        inl (timeout_none v'.0.0.1)
    | inr (ys, w, e) ↦
        let v' : Pair p.links p.idle (ys ++ w ∷ []) p.unused us =
          subst (λ (l : List ℕ). Pair p.links p.idle l p.unused us) e v in
        let (pulled, rest) = pull-Pair p.links p.idle p.unused w ys us v' in
        elim (Option-cases p.idle.bottom) [
          | inl none' ↦ inl (timeout_none none')
          | inr (b, some') ↦ elim (timeout_some b w _ _ some' pulled) [
            | inl young ↦ inl young
            | inr (many, old) ↦ inr (ys, w, e, many, old, rest)
          ]
        ]
  ]

module _ (c : Config) (p : Pool) (t : Task) (now : ℕ) where
  pub pass_handed :
      (w : ℕ) (h : Links) (l : WorkerList) (r : Option ℕ) (p' : Pool)
      → list_pop p.links p.idle ≡ (some w, h, l)
      → check_thread_timeout c (assign (record p { links = h; idle = l }) w t) now ≡ some (r, p')
      → run_task_pass c p t now ≡ some (handed w r, p')
  unfolding run_task_pass
  pass_handed w h l r p' e e' = ground arith

  pub pass_spawned :
      (w : ℕ) (h : Links) (l : WorkerList)
      → list_pop p.links p.idle ≡ (none, p.links, p.idle)
      → list_pop p.links p.unused ≡ (some w, h, l)
      → run_task_pass c p t now ≡ some (spawned w, assign (record p { links = h; unused = l }) w t)
  unfolding run_task_pass
  pass_spawned w h l e e' = ground arith

  pub pass_queued :
      (q : TaskQueue)
      → list_pop p.links p.idle ≡ (none, p.links, p.idle)
      → list_pop p.links p.unused ≡ (none, p.links, p.unused)
      → queue_make_new_entry c.queue_length p.task t ≡ (true, q)
      → run_task_pass c p t now ≡ some (queued, record p { task = q })
  unfolding run_task_pass
  pass_queued q e e' e'' = ground arith

  pub pass_full :
      list_pop p.links p.idle ≡ (none, p.links, p.idle)
      → list_pop p.links p.unused ≡ (none, p.links, p.unused)
      → queue_make_new_entry c.queue_length p.task t ≡ (false, p.task)
      → run_task_pass c p t now ≡ some (full, record p { task_waiting_to_be_run = true })
  unfolding run_task_pass
  pass_full e e' e'' = ground arith

module _ (p : Pool) where
  pub destroy_pop-none :
      list_pop p.links p.idle ≡ (none, p.links, p.idle)
      → destroy_pop p ≡ (none, record p { detach_thread = true })
  unfolding destroy_pop
  destroy_pop-none e = ground arith

  pub destroy_pop-some :
      (w : ℕ) (h : Links) (l : WorkerList)
      → list_pop p.links p.idle ≡ (some w, h, l)
      → destroy_pop p ≡ (
        some w,
        record (set_worker p w (record (p.worker w) { user_callback = none })) {
          links = h;
          idle = l;
          detach_thread = false;
        },
      )
  unfolding destroy_pop
  destroy_pop-some w h l e = ground arith

-- ===== src/Potato/Fork/Ends.antt =====
-- How `poTato_fork` of potato_old/potato.c ends in each process.
use Prim.{Unit}
use mathlib.Core.List.{map}
use tidbits.Prelude.{
  ℕ, zero, suc, ◌≡◌, refl, sym, ap, ◌∙◌, Bool, Bool-cases, Option-cases, inl, inr, true, false,
  Option, none, some, List, [], ◌∷◌, ◌++◌, length, ◌<◌, subst, arith, append_assoc, append-nil,
  if_cases, of_some, ◌⊎◌,
}
use tidbits.Potato.Children.{Children}
use tidbits.Potato.Fork.{
  reader, writer, ParentCalls, Forked, got_signal, fork_parent, ServerPoll, PollCalls,
  add_listeners, renew_poll, ChildServer, renew_all, ChildCalls, Child, exits, runs, no_children,
  child_started, fork_child, fork_loop, ForkCalls, no_pipe, no_fork, parent, fork_calling,
}

-- The child is recorded and returned, or it is signalled and the children stay as they were.
abbrev pub Settled : ℕ → Children → Forked → Type 0
Settled pid c r =
    ((r.returned ≡ some pid)
      × (r.signalled ≡ none)
      × (r.children.child_pids ≡ c.child_pids ++ some pid ∷ []))
    ⊎ ((r.returned ≡ none) × (r.signalled ≡ some pid) × (r.children ≡ c))

-- In the parent, whatever the calls say, `poTato_fork` closes both ends of the pipe, each once, and either
-- returns the pid of the child and has it among the children, or returns -1, has signalled the child,
-- and the children are those of before.
pub fork_parent-Settled :
    (pid : ℕ) (calls : ParentCalls) (c : Children)
    → ((fork_parent pid calls c).ends ≡ writer ∷ reader ∷ [])
      × Settled pid c (fork_parent pid calls c)
unfolding fork_parent
fork_parent-Settled pid calls c =
    if_cases (λ (r : Forked). (r.ends ≡ writer ∷ reader ∷ []) × Settled pid c r) calls.close_writer
      (λ y.
        if_cases (λ (r : Forked). (r.ends ≡ writer ∷ reader ∷ []) × Settled pid c r)
          (got_signal calls.read)
          (λ y.
            if_cases (λ (r : Forked). (r.ends ≡ writer ∷ reader ∷ []) × Settled pid c r)
              calls.close_reader (λ y. (refl, inl (refl, refl, refl)))
              (λ n. (refl, inr (refl, refl, refl))))
          (λ n. (refl, inr (refl, refl, refl))))
      (λ n. (refl, inr (refl, refl, refl)))

-- The listeners below `i`, the last one first.
abbrev pub down_from : (ℕ → ℕ) → ℕ → List ℕ
down_from fds zero = []
down_from fds (suc i) = fds i ∷ down_from fds i

add_listeners_all :
    (add : ℕ → Bool) (fds : ℕ → ℕ) (i : ℕ) (p q : ServerPoll)
    → add_listeners add fds i p ≡ some q
    → q.registered ≡ p.registered ++ down_from fds i
unfolding add_listeners
add_listeners_all add fds zero p q e =
    of_some (λ (r : ServerPoll). r.registered ≡ p.registered ++ []) p q e
      (sym (append-nil p.registered))
add_listeners_all add fds (suc i) p q e = elim (Bool-cases (add i)) [
  | inl y ↦
      add_listeners_all add fds i (record p { registered = p.registered ++ fds i ∷ [] }) q
        (ground (arith, y))
      ∙ append_assoc p.registered (fds i ∷ []) (down_from fds i)
  | inr n ↦ absurd (ground (arith, n))
]

renew_poll_all :
    (calls : PollCalls) (fds : ℕ → ℕ) (n : ℕ) (q : ServerPoll)
    → renew_poll calls fds n ≡ some q
    → q.registered ≡ down_from fds n
unfolding renew_poll
renew_poll_all calls fds n q e = elim (Bool-cases calls.close) [
  | inr m ↦ absurd (ground (arith, m))
  | inl y ↦ elim (Option-cases calls.create) [
    | inl m ↦ absurd (ground (arith, y, m))
    | inr (efd, m) ↦
        add_listeners_all calls.add fds n (record { efd = efd; registered = [] }) q
          (ground (arith, y, m))
  ]
]

-- Each server of the child polls all its listeners.
abbrev pub AllPolled : List ChildServer → List ServerPoll → Type 0
AllPolled [] [] = Unit
AllPolled [] (p ∷ ps) = ⊥
AllPolled (s ∷ ss) [] = ⊥
AllPolled (s ∷ ss) (p ∷ ps) = (p.registered ≡ down_from s.fds s.num_listeners) × AllPolled ss ps

renew_all-AllPolled :
    (ss : List ChildServer) (ps : List ServerPoll) → renew_all ss ≡ some ps → AllPolled ss ps
unfolding renew_all
renew_all-AllPolled [] ps e = of_some (AllPolled []) [] ps e (record {})
renew_all-AllPolled (s ∷ ss) ps e = elim (Option-cases (renew_poll s.calls s.fds s.num_listeners)) [
  | inl m ↦ absurd (ground (arith, m))
  | inr (p, m) ↦ elim (Option-cases (renew_all ss)) [
    | inl k ↦ absurd (ground (arith, m, k))
    | inr (qs, k) ↦
        of_some (AllPolled (s ∷ ss)) (p ∷ qs) ps (ground (arith, m, k))
          (renew_poll_all s.calls s.fds s.num_listeners p m, renew_all-AllPolled ss qs k)
  ]
]

-- A child that runs has closed both ends of the pipe and polls all its listeners; it has no children
-- and no exit status.
abbrev pub Started : List ChildServer → Child → Type 0
Started ss (exits ends) = Unit
Started ss (runs ends ps c) = (ends ≡ reader ∷ writer ∷ []) × AllPolled ss ps × (c ≡ no_children)

pub fork_child-Started :
    (calls : ChildCalls) (ss : List ChildServer) → Started ss (fork_child calls ss)
unfolding fork_child
fork_child-Started calls ss =
    if_cases (Started ss) calls.close_reader (λ y. started (renew_all ss) refl) (λ n. record {})
  where
    started : (o : Option (List ServerPoll)) → renew_all ss ≡ o → Started ss (child_started calls o)
    started none e = record {}
    started (some ps) e =
        if_cases (Started ss) calls.write
          (λ y.
            if_cases (Started ss) calls.close_writer
              (λ y. (refl, renew_all-AllPolled ss ps e, refl)) (λ n. record {}))
          (λ n. record {})

-- `poTato_fork` returns -1 and leaves the children as they are, or it returns a pid that it has recorded.
recorded :
    (calls : ForkCalls) (c : Children)
    → (((fork_calling calls c).returned ≡ none) × ((fork_calling calls c).children ≡ c))
      ⊎ ((pid : ℕ) × ((fork_calling calls c).returned ≡ some pid)
          × ((fork_calling calls c).children.child_pids ≡ c.child_pids ++ some pid ∷ []))
unfolding fork_calling
recorded no_pipe c = inl (refl, refl)
recorded no_fork c = inl (refl, refl)
recorded (parent pid calls) c = elim (fork_parent-Settled pid calls c).1 [
  | inl (e, f, g) ↦ inr (pid, e, g)
  | inr (e, f, g) ↦ inl (e, g)
]

-- The children with new ones behind: `n` where there was no error, and fewer where there was one.
abbrev pub Grown : ℕ → Children → Bool × Children → Type 0
Grown n c (error, d) =
    (added : List ℕ) × (d.child_pids ≡ c.child_pids ++ map some added)
    × (((error ≡ false) × (length added ≡ n)) ⊎ ((error ≡ true) × (length added < n)))

after_fork-Grown :
    (n pid : ℕ) (c d : Children) (r : Bool × Children)
    → d.child_pids ≡ c.child_pids ++ some pid ∷ []
    → Grown n d r
    → Grown (suc n) c r
after_fork-Grown n pid c d (error, x) g (added, e, ends) = (
  pid ∷ added,
  e
      ∙ ap (λ (l : List (Option ℕ)). l ++ map some added) g
      ∙ append_assoc c.child_pids (some pid ∷ []) (map some added),
  elim ends [
    | inl (no_error, m) ↦ inl (no_error, omega (arith, m))
    | inr (failed, m) ↦ inr (failed, omega (arith, m))
  ],
)

-- Whatever the calls say, and where no child ends meanwhile: where `poTato_doOptionsFork` with `n` forks
-- returns no error in the parent, it has added the pids of `n` children behind the children that were
-- there; where it returns an error, those of fewer than `n`.
pub fork_loop-Grown :
    (n : ℕ) (calls : ℕ → ForkCalls) (c : Children) → Grown n c (fork_loop n calls c)
unfolding fork_loop
fork_loop-Grown zero calls c = ([], sym (append-nil c.child_pids), inl (refl, refl))
fork_loop-Grown (suc n) calls c =
    let r = fork_calling (calls n) c in
    let ih = fork_loop-Grown n calls r.children in
    elim (recorded (calls n) c) [
      | inl (e, g) ↦
          let same : fork_loop (suc n) calls c ≡ (true, r.children) = ground (arith, e) in
          subst (Grown (suc n) c) (sym same) (
            [],
            ap (λ (d : Children). d.child_pids) g ∙ sym (append-nil c.child_pids),
            inr (refl, omega arith),
          )
      | inr (pid, e, g) ↦
          let same : fork_loop (suc n) calls c ≡ fork_loop n calls r.children = ground (arith, e) in
          subst (Grown (suc n) c) (sym same)
            (after_fork-Grown n pid c r.children (fork_loop n calls r.children) g ih)
    ]

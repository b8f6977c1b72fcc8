-- ===== src/Server/Pass/Batch.antt =====
-- `_poServer_doNextEvent` of potato_old/server.c keeps the lists, the descriptors and the waiting queue.
use Prim.{Unit}
use tidbits.Prelude.{
  ℕ, zero, suc, ◌≡◌, refl, sym, subst, ap, Bool-cases, inl, inr, true, Option-cases, Option, none,
  some, List, [], ◌∷◌, ◌++◌, arith, of_some,
}
use tidbits.Server.Connection.Open.{is_open}
use tidbits.Server.Callbacks.{Handlers, is_set}
use tidbits.Server.Events.{PoServer, AcceptAnswer, accepting, removing, is_old, connection_event}
use tidbits.Server.Events.Kept.{
  Kept, Good, takes_one, accepting_takes, Accepted, Accepted-Good, removing-Kept,
  accepting-Accepted,
}
use tidbits.Server.Events.Loop.{look_for_accept-Good, listener_event-Good}
use tidbits.Server.Events.Serve.{connection_event-Sound}
use tidbits.Server.Pass.{
  EpollEvent, at_listener, at_connection, LoopPass, very_old, remove_old, remove_very_old,
  can_accept, accept_all, do_event, do_events, before_poll,
}

module _ {W : Type 0} (n : ℕ) where
  pub very_old_first :
      (s : PoServer W) (us fs ls : List ℕ) (long t c : ℕ)
      → Kept n s us fs ls
      → very_old s long t ≡ some c
      → (xs : List ℕ) × (us ≡ c ∷ xs) × (is_old s long t c ≡ true)
  very_old_first s [] fs ls long t c k e = absurd (ground (arith, k.is_kept.lists.used))
  very_old_first s (u ∷ us) fs ls long t c k e = elim (Bool-cases (is_old s long t u)) [
    | inl y ↦
        let same : u ≡ c = ground (arith, y, k.is_kept.lists.used.0) in
        (us, ap (λ (i : ℕ). i ∷ us) same, subst (λ (i : ℕ). is_old s long t i ≡ true) same y)
    | inr m ↦ absurd (ground (arith, m, k.is_kept.lists.used.0))
  ]

  pub first_removed-Kept :
      (s : PoServer W) (us xs fs ls : List ℕ) (c : ℕ)
      → us ≡ c ∷ xs
      → Kept n s us fs ls
      → Kept n (removing s c) xs (fs ++ c ∷ []) ls
  first_removed-Kept s us xs fs ls c e k =
      removing-Kept n s [] xs fs ls c (subst (λ (r : List ℕ). Kept n s r fs ls) e k)

  remove_old-Good : (m long t : ℕ) (s : PoServer W) → Good n s → Good n (remove_old m long t s)
  unfolding remove_old
  remove_old-Good zero long t s g = g
  remove_old-Good (suc m) long t s (us, fs, ls, k) = elim (Option-cases (very_old s long t)) [
    | inl e ↦
        let same : remove_old (suc m) long t s ≡ s = ground (arith, e) in
        subst (λ (r : PoServer W). Good n r) (sym same) (us, fs, ls, k)
    | inr (c, e) ↦
        let (xs, u, y) = very_old_first s us fs ls long t c k e in
        let same : remove_old (suc m) long t s ≡ remove_old m long t (removing s c) =
          ground (arith, e) in
        subst (λ (r : PoServer W). Good n r) (sym same)
          (remove_old-Good m long t (removing s c)
            (xs, fs ++ c ∷ [], ls, first_removed-Kept s us xs fs ls c u k))
  ]

  -- Where the loop of `_poServer_accept` goes on, it follows no NULL.
  pub can_accept_shape :
      (s : PoServer W) (us fs ls : List ℕ)
      → Kept n s us fs ls
      → can_accept s ≡ true
      → (f : ℕ) × (gs : List ℕ) × (l : ℕ) × (ks : List ℕ) × (fs ≡ f ∷ gs) × (ls ≡ l ∷ ks)
  can_accept_shape s us [] ls k y =
      absurd (ground (arith, k.is_kept.lists.unused.ends, Bool-cases (is_set s.waiting.first)))
  can_accept_shape s us (f ∷ fs) [] k y = absurd (ground (arith, k.queue.holds.chain))
  can_accept_shape s us (f ∷ fs) (l ∷ ls) k y = (f, fs, l, ls, refl, refl)

  pub accept_pass :
      (s : PoServer W) (us fs ls : List ℕ) (a : AcceptAnswer)
      → takes_one a ≡ true
      → Kept n s us fs ls
      → can_accept s ≡ true
      → (s' : PoServer W) × (accepting s a ≡ some s') × Accepted n s.accept_time us fs ls a s'
  accept_pass s us fs ls a b k y =
      let (f, gs, l, ks, p, q) = can_accept_shape s us fs ls k y in
      let k' : Kept n s us (f ∷ gs) (l ∷ ks) =
        subst (λ (r : List ℕ). Kept n s us r (l ∷ ks)) p
          (subst (λ (r : List ℕ). Kept n s us fs r) q k) in
      let (s', e, g) = accepting-Accepted n s us gs ks f l a b k' in
      (
        s',
        e,
        subst (λ (r : List ℕ). Accepted n s.accept_time us r ls a s') (sym p)
            (subst (λ (r : List ℕ). Accepted n s.accept_time us (f ∷ gs) r a s') (sym q) g),
      )

  accept_all-Good :
      (rest left : List AcceptAnswer) (s s' : PoServer W)
      → Good n s
      → accept_all rest s ≡ some (s', left)
      → Good n s'
  unfolding accept_all
  accept_all-Good [] left s s' g e = elim (Bool-cases (can_accept s)) [
    | inl y ↦ absurd (ground (arith, y))
    | inr m ↦
        of_some (λ (r : PoServer W × List AcceptAnswer). Good n r.0) (s, []) (s', left)
          (ground (arith, m)) g
  ]
  accept_all-Good (a ∷ rest) left s s' (us, fs, ls, k) e = elim (Bool-cases (can_accept s)) [
    | inl y ↦ elim (Option-cases (accepting s a)) [
      | inl m ↦ absurd (ground (arith, y, m))
      | inr (w, h) ↦
          let (v, f, g) = accept_pass s us fs ls a (accepting_takes s w a h) k y in
          accept_all-Good rest left v s' (Accepted-Good n s.accept_time us fs ls a v g)
            (ground (arith, y, f))
    ]
    | inr m ↦
        of_some (λ (r : PoServer W × List AcceptAnswer). Good n r.0) (s, a ∷ rest) (s', left)
          (ground (arith, m)) (us, fs, ls, k)
  ]

module _ {W : Type 0} (user : Handlers W) (n : ℕ) (wait long : Option ℕ) where
  pub before_poll-Good :
      (p : LoopPass) (s s' : PoServer W) (left : List AcceptAnswer)
      → Good n s
      → before_poll user n wait long p s ≡ some (s', left)
      → Good n s'
  unfolding before_poll
  before_poll-Good p s s' left g e =
      let old = remove_very_old n long p.time s in
      elim (Option-cases (accept_all p.accepts old)) [
        | inl m ↦ absurd (ground (arith, m))
        | inr ((v, rest), f) ↦
            look_for_accept-Good n wait p.time rest left v s'
              (accept_all-Good n p.accepts rest old v (removed long) f) (ground (arith, f))
      ]
    where
      removed : (long : Option ℕ) → Good n (remove_very_old n long p.time s)
      removed none = g
      removed (some long) = remove_old-Good n n long p.time s g

  -- The event is at a listener or at an open connection.
  abbrev pub Current : EpollEvent → PoServer W → Type 0
  Current (at_listener l t) s = Unit
  Current (at_connection c f) s = is_open (s.server.conn c).fd ≡ true

  pub do_event-Good :
      (e : EpollEvent) (rest left : List AcceptAnswer) (s s' : PoServer W)
      → Good n s
      → Current e s
      → do_event user n wait long e rest s ≡ some (s', left)
      → Good n s'
  unfolding do_event
  do_event-Good (at_listener l t) rest left s s' g o e =
      listener_event-Good n wait l t rest left s s' g e
  do_event-Good (at_connection c f) rest left s s' (us, fs, ls, k) o e =
      let (server, world) = connection_event user c f s.server s.world in
      let v =
        connection_event-Sound user n s.arrived c f s.server s.world
          (record { used = us; free = fs; is_kept = k.is_kept; all = k.all; account = k.account })
          o in
      of_some (λ (r : PoServer W × List AcceptAnswer). Good n r.0)
        (record s { server = server; world = world }, rest) (s', left) e
        (
          v.used,
          v.free,
          ls,
          record { is_kept = v.is_kept; all = v.all; account = v.account; queue = k.queue },
        )

  -- Each event is current when its turn comes.
  abbrev pub Live : List EpollEvent → List AcceptAnswer → PoServer W → Type 0
  Live [] rest s = Unit
  Live (e ∷ es) rest s =
      Current e s
      × ((s' : PoServer W) (left : List AcceptAnswer)
          → do_event user n wait long e rest s ≡ some (s', left)
          → Live es left s')

  pub do_events-Good :
      (es : List EpollEvent) (rest left : List AcceptAnswer) (s s' : PoServer W)
      → Good n s
      → Live es rest s
      → do_events user n wait long es rest s ≡ some (s', left)
      → Good n s'
  unfolding do_events
  do_events-Good [] rest left s s' g v e =
      of_some (λ (r : PoServer W × List AcceptAnswer). Good n r.0) (s, rest) (s', left) e g
  do_events-Good (x ∷ es) rest left s s' g v e =
      elim (Option-cases (do_event user n wait long x rest s)) [
        | inl m ↦ absurd (ground (arith, m))
        | inr ((t, r), f) ↦
            do_events-Good es r left t s' (do_event-Good x rest r s t g v.0 f) (v.1 t r f)
              (ground (arith, f))
      ]

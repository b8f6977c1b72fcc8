-- ===== src/Server/Events/Loop.antt =====
-- The loop of `lookForAcceptFromTimedOutConns` of potato_old/server.c, and `doEvent` at a listener.
use tidbits.Prelude.{
  ℕ, ◌≡◌, refl, sym, subst, ap, Bool-cases, inl, inr, true, not, ◌&&◌, Option-cases, Option, none,
  some, List, [], ◌∷◌, ◌++◌, arith, of_some, if◌then◌else◌,
}
use tidbits.Server.{queue_push}
use tidbits.Server.Chain.{mem}
use tidbits.Server.Queues.{Waits, queue_push-Waits}
use tidbits.Server.Connection.Open.{is_open}
use tidbits.Server.Callbacks.{is_set}
use tidbits.Server.Events.{
  PoServer, AcceptAnswer, accepting, removing, is_old, timed_out, replace_old, look_for_accept,
  accept_one, listener_event,
}
use tidbits.Server.Events.Kept.{
  Kept, Good, takes_one, accepting_takes, removing-Kept, Accepted, Accepted-Good,
  accepting-Accepted,
}

pub front_of : (fs : List ℕ) (c : ℕ) → (f : ℕ) × (gs : List ℕ) × (fs ++ c ∷ [] ≡ f ∷ gs)
front_of [] c = (c, [], refl)
front_of (f ∷ fs) c = (f, fs ++ c ∷ [], refl)

abbrev pub queued : {W : Type 0} → PoServer W → ℕ → PoServer W
queued s l = record s { waiting = queue_push s.waiting l }

module _ {W : Type 0} (n : ℕ) where
  -- The loop goes on at the first used connection, for the first listener, if it is old.
  pub timed_out_first :
      (s : PoServer W) (us fs ls : List ℕ) (wait t c : ℕ)
      → Kept n s us fs ls
      → timed_out s wait t ≡ some c
      → (xs : List ℕ) × (l : ℕ) × (ks : List ℕ) × (us ≡ c ∷ xs)
        × (ls ≡ l ∷ ks)
        × (is_old s wait t c ≡ true)
  timed_out_first s [] fs ls wait t c k e = absurd (ground (arith, k.is_kept.lists.used))
  timed_out_first s (u ∷ us) fs [] wait t c k e =
      absurd (ground (arith, k.is_kept.lists.used.0, k.queue.holds.chain))
  timed_out_first s (u ∷ us) fs (l ∷ ls) wait t c k e = elim (Bool-cases (is_old s wait t u)) [
    | inl y ↦
        let same : u ≡ c = ground (arith, y, k.is_kept.lists.used.0, k.queue.holds.chain.0) in
        (
          us,
          l,
          ls,
          ap (λ (i : ℕ). i ∷ us) same,
          refl,
          subst (λ (i : ℕ). is_old s wait t i ≡ true) same y,
        )
    | inr m ↦ absurd (ground (arith, m, k.is_kept.lists.used.0, k.queue.holds.chain.0))
  ]

  -- One pass of the loop.
  pub replaced-Accepted :
      (s : PoServer W) (us fs ls : List ℕ) (wait t c : ℕ) (a : AcceptAnswer)
      → takes_one a ≡ true
      → Kept n s us fs ls
      → timed_out s wait t ≡ some c
      → (s' : PoServer W) × (xs : List ℕ) × (gs : List ℕ) × (us ≡ c ∷ xs)
        × (is_old s wait t c ≡ true)
        × (accepting (removing s c) a ≡ some s')
        × Accepted n s.accept_time xs gs ls a s'
  replaced-Accepted s us fs ls wait t c a y k e =
      let (xs, l, ks, u, q, o) = timed_out_first s us fs ls wait t c k e in
      let (f, gs, g) = front_of fs c in
      let k' : Kept n s ([] ++ c ∷ xs) fs (l ∷ ks) =
        subst (λ (r : List ℕ). Kept n s r fs (l ∷ ks)) u
          (subst (λ (r : List ℕ). Kept n s us fs r) q k) in
      let r = removing-Kept n s [] xs fs (l ∷ ks) c k' in
      let (s', e', g') =
        accepting-Accepted n (removing s c) xs gs ks f l a y
          (subst (λ (r : List ℕ). Kept n (removing s c) xs r (l ∷ ks)) g r) in
      (
        s',
        xs,
        f ∷ gs,
        u,
        o,
        e',
        subst (λ (r : List ℕ). Accepted n s.accept_time xs (f ∷ gs) r a s') (sym q) g',
      )

  pub replace_old-Good :
      (rest : List AcceptAnswer) (wait t : ℕ) (s s' : PoServer W) (left : List AcceptAnswer)
      → Good n s
      → replace_old rest wait t s ≡ some (s', left)
      → Good n s'
  unfolding replace_old
  replace_old-Good [] wait t s s' left g e = elim (Option-cases (timed_out s wait t)) [
    | inl m ↦
        of_some (λ (r : PoServer W × List AcceptAnswer). Good n r.0) (s, []) (s', left)
          (ground (arith, m)) g
    | inr (c, m) ↦ absurd (ground (arith, m))
  ]
  replace_old-Good (a ∷ rest) wait t s s' left (us, fs, ls, k) e =
      elim (Option-cases (timed_out s wait t)) [
        | inl m ↦
            of_some (λ (r : PoServer W × List AcceptAnswer). Good n r.0) (s, a ∷ rest) (s', left)
              (ground (arith, m)) (us, fs, ls, k)
        | inr (c, m) ↦ elim (Option-cases (accepting (removing s c) a)) [
          | inl f ↦ absurd (ground (arith, m, f))
          | inr (w, h) ↦
              let y = accepting_takes (removing s c) w a h in
              let (v, xs, gs, u, o, f, g) = replaced-Accepted s us fs ls wait t c a y k m in
              replace_old-Good rest wait t v s' left (Accepted-Good n s.accept_time xs gs ls a v g)
                (ground (arith, m, f))
        ]
      ]

  -- Behind `queuePush` a listener waits.
  pub queued-Kept :
      (s : PoServer W) (us fs ls : List ℕ) (l : ℕ)
      → Kept n s us fs ls
      → (f : ℕ) × (ks : List ℕ) × Kept n (queued s l) us fs (f ∷ ks)
  queued-Kept s us fs ls l k =
      let (f, ks, e) = some_waits ls in
      (
        f,
        ks,
        record {
          is_kept = k.is_kept;
          all = k.all;
          account = k.account;
          queue =
              subst (Waits (queue_push s.waiting l)) e (queue_push-Waits s.waiting ls l k.queue);
        },
      )
    where
      some_waits :
          (ls : List ℕ)
          → (f : ℕ) × (ks : List ℕ) × ((if mem l ls then ls else ls ++ l ∷ []) ≡ f ∷ ks)
      some_waits [] = (l, [], refl)
      some_waits (x ∷ xs) = elim (Bool-cases (mem l (x ∷ xs))) [
        | inl y ↦ (x, xs, ground (arith, y))
        | inr m ↦ (x, xs ++ l ∷ [], ground (arith, m))
      ]

  -- One `_poServer_accept`, where a connection is unused and a listener waits.
  accept_one-Accepted :
      (rest left : List AcceptAnswer) (s s' : PoServer W) (us fs ls : List ℕ) (l : ℕ)
      → is_set s.server.lists.unused.back ≡ true
      → Kept n s us fs (l ∷ ls)
      → accept_one rest s ≡ some (s', left)
      → (a : AcceptAnswer) × Accepted n s.accept_time us fs (l ∷ ls) a s'
  accept_one-Accepted [] left s s' us fs ls l b k e = absurd (ground arith)
  accept_one-Accepted (a ∷ rest) left s s' us [] ls l b k e =
      absurd (ground (arith, k.is_kept.lists.unused.ends))
  accept_one-Accepted (a ∷ rest) left s s' us (f ∷ fs) ls l b k e =
      elim (Option-cases (accepting s a)) [
        | inl m ↦ absurd (ground (arith, m))
        | inr (w, h) ↦
            let (v, m, g) = accepting-Accepted n s us fs ls f l a (accepting_takes s w a h) k in
            (
              a,
              of_some
                  (λ (r : PoServer W × List AcceptAnswer).
                    Accepted n s.accept_time us (f ∷ fs) (l ∷ ls) a r.0)
                  (v, rest) (s', left) (ground (arith, m)) g,
            )
      ]

  pub look_for_accept-Good :
      (wait : Option ℕ) (t : ℕ) (rest left : List AcceptAnswer) (s s' : PoServer W)
      → Good n s
      → look_for_accept wait t rest s ≡ some (s', left)
      → Good n s'
  look_for_accept-Good none t rest left s s' g e =
      of_some (λ (r : PoServer W × List AcceptAnswer). Good n r.0) (s, rest) (s', left) e g
  look_for_accept-Good (some wait) t rest left s s' g e = replace_old-Good rest wait t s s' left g e

  -- `doEvent` at a listener.
  pub listener_event-Good :
      (wait : Option ℕ) (l t : ℕ) (rest left : List AcceptAnswer) (s s' : PoServer W)
      → Good n s
      → listener_event wait l t rest s ≡ some (s', left)
      → Good n s'
  unfolding listener_event
  listener_event-Good wait l t rest left s s' (us, fs, ls, k) e =
      let (f, ks, q) = queued-Kept s us fs ls l k in
      elim (Bool-cases (not s.is_running && not (is_open (s.listener_fd l)))) [
        | inl y ↦
            of_some (λ (r : PoServer W × List AcceptAnswer). Good n r.0) (s, rest) (s', left)
              (ground (arith, y)) (us, fs, ls, k)
        | inr m ↦ elim (Bool-cases (is_set s.server.lists.unused.back)) [
          | inl b ↦
              let (a, g) =
                accept_one-Accepted rest left (queued s l) s' us fs ks f b q
                  (ground (arith, m, b)) in
              Accepted-Good n s.accept_time us fs (f ∷ ks) a s' g
          | inr b ↦
              look_for_accept-Good wait t rest left (queued s l) s' (us, fs, f ∷ ks, q)
                (ground (arith, m, b))
        ]
      ]

  -- Where no connection is removed for a waiting listener, the open ones stay open.
  pub listener_event-stay :
      (l t z : ℕ) (rest left : List AcceptAnswer) (s s' : PoServer W)
      → Good n s
      → listener_event none l t rest s ≡ some (s', left)
      → is_open (s.server.conn z).fd ≡ true
      → is_open (s'.server.conn z).fd ≡ true
  unfolding listener_event
  listener_event-stay l t z rest left s s' (us, fs, ls, k) e o =
      let (f, ks, q) = queued-Kept s us fs ls l k in
      elim (Bool-cases (not s.is_running && not (is_open (s.listener_fd l)))) [
        | inl y ↦
            of_some (λ (r : PoServer W × List AcceptAnswer). is_open (r.0.server.conn z).fd ≡ true)
              (s, rest) (s', left) (ground (arith, y)) o
        | inr m ↦ elim (Bool-cases (is_set s.server.lists.unused.back)) [
          | inl b ↦
              let (a, g) =
                accept_one-Accepted rest left (queued s l) s' us fs ks f b q
                  (ground (arith, m, b)) in
              ground (arith, g.is_kept.is_kept.descriptors z, k.is_kept.descriptors z, g.stay z)
          | inr b ↦
              of_some
                (λ (r : PoServer W × List AcceptAnswer). is_open (r.0.server.conn z).fd ≡ true)
                (queued s l, rest) (s', left) (ground (arith, m, b)) o
        ]
      ]

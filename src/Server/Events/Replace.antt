-- ===== src/Server/Events/Replace.antt =====
-- The loop of `lookForAcceptFromTimedOutConns` of potato_old/server.c ends, and connections stay in the
-- order of their accept times.
use Prim.{Unit}
use tidbits.Prelude.{
  ℕ, suc, ◌+◌, ◌≤◌, ◌<◌, ◌≡◌, ◌⊎◌, ◌==◌, leb, sym, subst, ap, ◌∙◌, Bool, Bool-cases, inl, inr, true,
  false, Option-cases, none, some, List, [], ◌∷◌, ◌++◌, length, arith, if◌then◌else◌, ==_iff,
  ==_refl,
}
use tidbits.Server.{update}
use tidbits.Server.Chain.{mem, mem-append}
use tidbits.Server.Events.{
  PoServer, AcceptAnswer, no_client, accept_error, client, accept, is_old, timed_out, replace_old,
}
use tidbits.Server.Events.Kept.{Kept, Newest, takes_one, accept_ends, accept-Accepted}
use tidbits.Server.Events.Loop.{timed_out_first, replaced-Accepted}

-- How many connections of the list are old.
abbrev pub count : (ℕ → Bool) → List ℕ → ℕ
count old [] = 0
count old (x ∷ xs) = if old x then suc (count old xs) else count old xs

-- The list is in the order of the times.
abbrev pub Ordered : (ℕ → ℕ) → List ℕ → Type 0
Ordered time [] = Unit
Ordered time (x ∷ xs) = ((z : ℕ) → mem z xs ≡ true → time x ≤ time z) × Ordered time xs

-- A client that comes has not timed out.
abbrev pub IsYoung : ℕ → ℕ → AcceptAnswer → Type 0
IsYoung wait t no_client = Unit
IsYoung wait t accept_error = Unit
IsYoung wait t (client fd nonblocking polled now) = t < now + wait

-- Every answer of `accept` is EAGAIN or a descriptor for which all calls succeed.
abbrev pub AllTake : List AcceptAnswer → Type 0
AllTake [] = Unit
AllTake (a ∷ rest) = (takes_one a ≡ true) × AllTake rest

abbrev pub AllYoung : ℕ → ℕ → List AcceptAnswer → Type 0
AllYoung wait t [] = Unit
AllYoung wait t (a ∷ rest) = IsYoung wait t a × AllYoung wait t rest

count_new :
    (time : ℕ → ℕ) (wait t now f : ℕ) (xs : List ℕ)
    → mem f xs ≡ false
    → t < now + wait
    → count (λ c. leb (update time f now c + wait) t) (xs ++ f ∷ [])
      ≡ count (λ c. leb (time c + wait) t) xs
count_new time wait t now f [] m y = ground (arith, ==_refl f)
count_new time wait t now f (x ∷ xs) m y =
    let ih = count_new time wait t now f xs (ground arith) y in
    ground (arith, ih, Bool-cases (leb (time x + wait) t))

same_times :
    (time time' : ℕ → ℕ) (wait t : ℕ) (us used : List ℕ)
    → used ≡ us
    → time' ≡ time
    → count (λ c. leb (time' c + wait) t) used ≡ count (λ c. leb (time c + wait) t) us
same_times time time' wait t us used u e =
    subst
      (λ (f : ℕ → ℕ). count (λ c. leb (f c + wait) t) used ≡ count (λ c. leb (time c + wait) t) us)
      (sym e) (ap (count (λ c. leb (time c + wait) t)) u)

-- At most the new connection counts, and it is young.
count-Newest :
    {W : Type 0} (wait t : ℕ) (time : ℕ → ℕ) (us used : List ℕ) (a : AcceptAnswer) (s : PoServer W)
    → Newest time us a s used
    → IsYoung wait t a
    → count (is_old s wait t) used ≡ count (λ c. leb (time c + wait) t) us
count-Newest wait t time us used no_client s (u, e) y =
    same_times time s.accept_time wait t us used u e
count-Newest wait t time us used accept_error s (u, e) y =
    same_times time s.accept_time wait t us used u e
count-Newest wait t time us used (client fd nonblocking polled now) s (f, u, m, e) y =
    same_times (update time f now) s.accept_time wait t (us ++ f ∷ []) used u e
    ∙ count_new time wait t now f us m y

-- A descriptor that comes later than the connections of the list goes behind them.
Ordered-new :
    (time : ℕ → ℕ) (f now : ℕ) (xs : List ℕ)
    → mem f xs ≡ false
    → ((z : ℕ) → mem z xs ≡ true → time z ≤ now)
    → Ordered time xs
    → Ordered (update time f now) (xs ++ f ∷ [])
Ordered-new time f now [] m l o = ((λ z y. absurd (ground arith)), record {})
Ordered-new time f now (x ∷ xs) m l o = (
  λ z y. ground (
    arith,
    mem-append z f xs,
    l x (ground (arith, ==_refl x)),
    o.0 z,
    Bool-cases (x == f),
    Bool-cases (z == f),
    ==_iff x f,
  ),
  Ordered-new time f now xs (ground arith) (λ z y. l z (ground arith)) o.1,
)

-- Without a waiting listener no connection is removed.
pub replace_old_stops :
    {W : Type 0} (rest : List AcceptAnswer) (wait t : ℕ) (s : PoServer W)
    → s.waiting.first ≡ none
    → replace_old rest wait t s ≡ some (s, rest)
unfolding replace_old
replace_old_stops [] wait t s e = elim (Option-cases s.server.lists.first) [
  | inl f ↦ ground (arith, f)
  | inr (c, f) ↦ ground (arith, f, e)
]
replace_old_stops (a ∷ rest) wait t s e = elim (Option-cases s.server.lists.first) [
  | inl f ↦ ground (arith, f)
  | inr (c, f) ↦ ground (arith, f, e)
]

module _ {W : Type 0} (n : ℕ) where
  -- From a state of the invariant: where no call fails, the loop of `lookForAcceptFromTimedOutConns` ends after as many passes as there
  -- are old used connections, if the clients that come have not timed out: then no listener waits, no
  -- connection is used, or the oldest used connection is not old.
  pub replace_old_returns :
      (rest : List AcceptAnswer) (wait t : ℕ) (s : PoServer W) (us fs ls : List ℕ)
      → Kept n s us fs ls
      → AllTake rest
      → AllYoung wait t rest
      → count (is_old s wait t) us ≤ length rest
      → (s' : PoServer W) × (left : List AcceptAnswer) × (replace_old rest wait t s
          ≡ some (s', left))
        × (timed_out s' wait t ≡ none)
  unfolding replace_old
  replace_old_returns [] wait t s us fs ls k b y h = elim (Option-cases (timed_out s wait t)) [
    | inl m ↦ (s, [], ground (arith, m), m)
    | inr (c, e) ↦
        let (xs, l, ks, u, q, o) = timed_out_first n s us fs ls wait t c k e in
        absurd (ground (arith, ap (count (is_old s wait t)) u, o))
  ]
  replace_old_returns (a ∷ rest) wait t s us fs ls k b y h =
      elim (Option-cases (timed_out s wait t)) [
        | inl m ↦ (s, a ∷ rest, ground (arith, m), m)
        | inr (c, e) ↦
            let (v, xs, gs, u, o, f, g) = replaced-Accepted n s us fs ls wait t c a b.0 k e in
            let (s', left, r, m) =
              replace_old_returns rest wait t v g.used g.free g.queued g.is_kept b.1 y.1 (
                ground (
                  arith,
                  ap (count (is_old s wait t)) u,
                  o,
                  count-Newest wait t s.accept_time xs g.used a v g.newest y.0,
                )) in
            (s', left, ground (arith, e, f, r), m)
      ]

-- A client comes no earlier than the used connections came.
abbrev pub IsLater : (ℕ → ℕ) → List ℕ → AcceptAnswer → Type 0
IsLater time us no_client = Unit
IsLater time us accept_error = Unit
IsLater time us (client fd nonblocking polled now) = (z : ℕ) → mem z us ≡ true → time z ≤ now

same_order :
    (time time' : ℕ → ℕ) (us used : List ℕ)
    → used ≡ us
    → time' ≡ time
    → Ordered time us
    → Ordered time' used
same_order time time' us used u e o =
    subst (λ (f : ℕ → ℕ). Ordered f used) (sym e) (subst (Ordered time) (sym u) o)

Newest-Ordered :
    {W : Type 0} (time : ℕ → ℕ) (us used : List ℕ) (a : AcceptAnswer) (s : PoServer W)
    → Newest time us a s used
    → IsLater time us a
    → Ordered time us
    → Ordered s.accept_time used
Newest-Ordered time us used no_client s (u, e) l o = same_order time s.accept_time us used u e o
Newest-Ordered time us used accept_error s (u, e) l o = same_order time s.accept_time us used u e o
Newest-Ordered time us used (client fd nonblocking polled now) s (f, u, m, e) l o =
    same_order (update time f now) s.accept_time (us ++ f ∷ []) used u e
      (Ordered-new time f now us m l o)

-- From a state of the invariant, where a listener waits and a connection is unused: `_poServer_accept` ends the process where a call
-- fails. Otherwise it follows no NULL and keeps the used connections in the order of their accept times, if
-- the clock does not go back.
pub accept-Ordered :
    {W : Type 0} (n : ℕ) (s : PoServer W) (us fs ls : List ℕ) (f l : ℕ) (a : AcceptAnswer)
    → Kept n s us (f ∷ fs) (l ∷ ls)
    → Ordered s.accept_time us
    → IsLater s.accept_time us a
    → ((takes_one a ≡ false) × (accept s a ≡ none))
      ⊎ ((takes_one a ≡ true)
          × ((r : Bool × PoServer W) × (used : List ℕ) × (free : List ℕ) × (queued : List ℕ)
              × (accept s a ≡ some r)
              × Kept n r.1 used free queued
              × Ordered r.1.accept_time used))
accept-Ordered n s us fs ls f l a k o i = elim (Bool-cases (takes_one a)) [
  | inr m ↦ inl (m, accept_ends s a m)
  | inl y ↦
      let (r, e, g) = accept-Accepted n s us fs ls f l a y k in
      inr (
        y,
        (
          r,
          g.used,
          g.free,
          g.queued,
          e,
          g.is_kept,
          Newest-Ordered s.accept_time us g.used a r.1 g.newest i o,
        ),
      )
]

-- ===== src/Server/Pass/Ends.antt =====
-- `poServer_shutdown` of potato_old/server.c ends where there is a long timeout.
use tidbits.Prelude.{
  ℕ, ◌+◌, ◌≤◌, ◌≡◌, refl, subst, Bool, true, Option, none, some, List, [], ◌∷◌, arith, ==_refl,
  ◌++◌, Option-cases, inl, inr, of_some,
}
use tidbits.Server.Chain.{mem}
use tidbits.Server.Callbacks.{Handlers}
use tidbits.Server.Events.{PoServer, used_first, is_old, look_for_accept}
use tidbits.Server.Events.Replace.{replace_old_stops}
use tidbits.Server.Events.Kept.{Kept, AllClosed, none_used-AllClosed}
use tidbits.Server.Pass.{
  LoopPass, no_events, remove_old, accept_all, before_poll, do_next_event, wait_for_last,
  listeners_shut, shutdown,
}
use tidbits.Server.Pass.Limits.{young, remove_old-young}

-- `epoll_wait` times out at the given time, and no client comes.
abbrev pub quiet_pass : ℕ → LoopPass
quiet_pass t = record { time = t; accepts = []; poll = no_events }

all_old :
    (old : ℕ → Bool) (xs : List ℕ) → ((z : ℕ) → mem z xs ≡ true → old z ≡ true) → young old xs ≡ []
all_old old [] h = refl
all_old old (x ∷ xs) h =
    ground (arith, h x (ground (arith, ==_refl x)), all_old old xs (λ z m. h z (ground arith)))

no_one_waits :
    {W : Type 0} (wait : Option ℕ) (t : ℕ) (s : PoServer W)
    → s.waiting.first ≡ none
    → look_for_accept wait t [] s ≡ some (s, [])
no_one_waits none t s e = refl
no_one_waits (some wait) t s e = replace_old_stops [] wait t s e

module _ {W : Type 0} (user : Handlers W) (n : ℕ) (wait : Option ℕ) (long : ℕ) where
  quiet_pass_removes :
      (t : ℕ) (s : PoServer W) (us fs : List ℕ)
      → Kept n s us fs []
      → ((z : ℕ) → mem z us ≡ true → s.accept_time z + long ≤ t)
      → (s' : PoServer W) × (gs : List ℕ) × (do_next_event user n wait (some long) (quiet_pass t) s
          ≡ some s')
        × Kept n s' [] gs []
  unfolding do_next_event before_poll accept_all
  quiet_pass_removes t s us fs k h =
      let (gs, r) = remove_old-young n n long t s us fs [] k (omega (arith, k.all)) in
      let s' = remove_old n long t s in
      let empty : young (is_old s long t) us ≡ [] =
        all_old (is_old s long t) us (λ z m. ground (arith, h z m)) in
      let r' : Kept n s' [] gs [] = subst (λ (l : List ℕ). Kept n s' l gs []) empty r in
      let looked = no_one_waits wait t s' r'.queue.holds.chain in
      (s', gs, ground (arith, r'.queue.holds.chain, looked), r')

  -- The state behind some passes of the loop of `poServer_shutdown`, or where it has ended before.
  abbrev pub after_passes : List LoopPass → PoServer W → Option (PoServer W)
  after_passes [] s = some s
  after_passes (p ∷ ps) s = elim (used_first s) [
    | none ↦ some s
    | some c ↦ elim (do_next_event user n wait (some long) p s) [
      | none ↦ none
      | some s' ↦ after_passes ps s'
    ]
  ]

  wait_for_last_goes_on :
      (ps qs : List LoopPass) (s u : PoServer W)
      → after_passes ps s ≡ some u
      → wait_for_last user n wait (some long) (ps ++ qs) s
        ≡ wait_for_last user n wait (some long) qs u
  unfolding wait_for_last
  wait_for_last_goes_on [] qs s u e =
      of_some
        (λ (v : PoServer W).
          wait_for_last user n wait (some long) qs s ≡ wait_for_last user n wait (some long) qs v)
        s u e refl
  wait_for_last_goes_on (p ∷ ps) qs s u e = elim (Option-cases (used_first s)) [
    | inl f ↦
        of_some
          (λ (v : PoServer W).
            wait_for_last user n wait (some long) (p ∷ ps ++ qs) s
            ≡ wait_for_last user n wait (some long) qs v)
          s u (ground (arith, f)) (at_end qs f)
    | inr (c, f) ↦ elim (Option-cases (do_next_event user n wait (some long) p s)) [
      | inl m ↦ absurd (ground (arith, f, m))
      | inr (v, m) ↦
          let ih = wait_for_last_goes_on ps qs v u (ground (arith, f, m)) in
          ground (arith, f, m, ih)
    ]
  ]
    where
      at_end :
          (qs : List LoopPass)
          → used_first s ≡ none
          → wait_for_last user n wait (some long) (p ∷ ps ++ qs) s
            ≡ wait_for_last user n wait (some long) qs s
      at_end [] f = ground (arith, f)
      at_end (q ∷ qs) f = ground (arith, f)

  last_pass :
      (t : ℕ) (v : PoServer W) (us fs : List ℕ)
      → Kept n v us fs []
      → ((z : ℕ) → mem z us ≡ true → v.accept_time z + long ≤ t)
      → (s' : PoServer W) × (wait_for_last user n wait (some long) (quiet_pass t ∷ []) v ≡ some s')
        × AllClosed n s'
  unfolding wait_for_last
  last_pass t v [] fs k h =
      (v, ground (arith, k.is_kept.lists.used), none_used-AllClosed n v fs [] k)
  last_pass t v (u ∷ us) fs k h =
      let (s', gs, e, r) = quiet_pass_removes t v (u ∷ us) fs k h in
      (
        s',
        ground (arith, k.is_kept.lists.used.0, e, r.is_kept.lists.used),
        none_used-AllClosed n s' gs [] r,
      )

  -- `poServer_shutdown`, where its loop has come by any passes to a state of the invariant with no waiting
  -- listener, returns after one more pass in which `epoll_wait` times out, when each used connection is as
  -- old as the long timeout; then no connection is used, and each descriptor that `accept` returned is
  -- closed, as often as it was returned.
  pub shutdown_returns :
      (m t : ℕ) (ps : List LoopPass) (s v u : PoServer W) (us fs : List ℕ)
      → listeners_shut m s ≡ some v
      → after_passes ps v ≡ some u
      → Kept n u us fs []
      → ((z : ℕ) → mem z us ≡ true → u.accept_time z + long ≤ t)
      → (s' : PoServer W) × (shutdown user m n wait (some long) (ps ++ quiet_pass t ∷ []) s
          ≡ some s')
        × AllClosed n s'
  unfolding shutdown
  shutdown_returns m t ps s v u us fs e f k h =
      let (s', g, c) = last_pass t u us fs k h in
      (s', ground (arith, e, wait_for_last_goes_on ps (quiet_pass t ∷ []) v u f, g), c)

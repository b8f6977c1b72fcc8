-- ===== src/Server/Pass/Limits.antt =====
-- The loops of `_poServer_doNextEvent` of potato_old/server.c end.
use tidbits.Prelude.{
  ℕ, zero, suc, ◌+◌, ◌≤◌, ◌<◌, ◌≡◌, ◌==◌, leb, refl, sym, subst, ap, Bool, Bool-cases, inl, inr,
  true, false, some, List, [], ◌∷◌, ◌++◌, length, arith, if◌then◌else◌, ==_iff,
}
use tidbits.Server.Chain.{mem}
use tidbits.Server.Events.{PoServer, AcceptAnswer, removing, is_old}
use tidbits.Server.Events.Replace.{Ordered, AllTake}
use tidbits.Server.Events.Kept.{Kept}
use tidbits.Server.Pass.{remove_old, can_accept, accept_all}
use tidbits.Server.Pass.Batch.{first_removed-Kept, can_accept_shape, accept_pass}

-- The connections of the list from the first one on that is not old.
abbrev pub young : (ℕ → Bool) → List ℕ → List ℕ
young old [] = []
young old (x ∷ xs) = if old x then young old xs else x ∷ xs

young_ones :
    (time : ℕ → ℕ) (long t : ℕ) (xs : List ℕ) (z : ℕ)
    → Ordered time xs
    → mem z (young (λ c. leb (time c + long) t) xs) ≡ true
    → t < time z + long
young_ones time long t [] z o m = absurd (ground arith)
young_ones time long t (x ∷ xs) z o m = elim (Bool-cases (leb (time x + long) t)) [
  | inl y ↦ young_ones time long t xs z o.1 (ground (arith, y))
  | inr b ↦ elim (Bool-cases (z == x)) [
    | inl y ↦ let same : z ≡ x = (==_iff z x).0 y in ground (arith, ap time same)
    | inr c ↦ let later = o.0 z (ground (arith, b)) in ground arith
  ]
]

module _ {W : Type 0} (n : ℕ) where
  -- As many passes as there are used connections are enough for the loop that removes very old ones:
  -- it removes the used connections up to the first one that is not very old.
  pub remove_old-young :
      (m long t : ℕ) (s : PoServer W) (us fs ls : List ℕ)
      → Kept n s us fs ls
      → length us ≤ m
      → (gs : List ℕ) × Kept n (remove_old m long t s) (young (is_old s long t) us) gs ls
  unfolding remove_old
  remove_old-young zero long t s [] fs ls k h = (fs, k)
  remove_old-young zero long t s (u ∷ us) fs ls k h = absurd (omega arith)
  remove_old-young (suc m) long t s [] fs ls k h = (
    fs,
    let same : remove_old (suc m) long t s ≡ s = ground (arith, k.is_kept.lists.used) in
        subst (λ (r : PoServer W). Kept n r [] fs ls) (sym same) k,
  )
  remove_old-young (suc m) long t s (u ∷ us) fs ls k h = elim (Bool-cases (is_old s long t u)) [
    | inl y ↦
        let (gs, r) =
          remove_old-young m long t (removing s u) us (fs ++ u ∷ []) ls
            (first_removed-Kept n s (u ∷ us) us fs ls u refl k) (omega arith) in
        let same : remove_old (suc m) long t s ≡ remove_old m long t (removing s u) =
          ground (arith, y, k.is_kept.lists.used.0) in
        let list : young (is_old s long t) (u ∷ us) ≡ young (is_old s long t) us =
          ground (arith, y) in
        (
          gs,
          subst (λ (v : PoServer W). Kept n v (young (is_old s long t) (u ∷ us)) gs ls) (sym same)
              (subst (λ (l : List ℕ). Kept n (remove_old m long t (removing s u)) l gs ls)
                (sym list) r),
        )
    | inr b ↦
        let same : remove_old (suc m) long t s ≡ s = ground (arith, b, k.is_kept.lists.used.0) in
        let list : young (is_old s long t) (u ∷ us) ≡ u ∷ us = ground (arith, b) in
        (
          fs,
          subst (λ (v : PoServer W). Kept n v (young (is_old s long t) (u ∷ us)) fs ls) (sym same)
              (subst (λ (l : List ℕ). Kept n s l fs ls) (sym list) k),
        )
  ]

  -- From a state of the invariant: where the used connections are in the order of their accept times, the loop that removes very old
  -- connections ends within PO_SERVER_MAX_CONNECTIONS passes: the used connections are then those from the
  -- first on that is not very old, and none of them is very old.
  pub remove_old-Kept :
      (long t : ℕ) (s : PoServer W) (us fs ls : List ℕ)
      → Kept n s us fs ls
      → Ordered s.accept_time us
      → (gs : List ℕ) × Kept n (remove_old n long t s) (young (is_old s long t) us) gs ls
        × ((z : ℕ) → mem z (young (is_old s long t) us) ≡ true → t < s.accept_time z + long)
  remove_old-Kept long t s us fs ls k o =
      let (gs, r) = remove_old-young n long t s us fs ls k (omega (arith, k.all)) in
      (gs, r, λ z m. young_ones s.accept_time long t us z o m)

  -- From a state of the invariant: where no call fails, the loop of `_poServer_accept` ends after as many calls as there are waiting
  -- listeners and unused connections: then no listener waits, or no connection is unused.
  pub accept_all_returns :
      (rest : List AcceptAnswer) (s : PoServer W) (us fs ls : List ℕ)
      → Kept n s us fs ls
      → AllTake rest
      → length fs + length ls ≤ length rest
      → (s' : PoServer W) × (left : List AcceptAnswer) × (accept_all rest s ≡ some (s', left))
        × (can_accept s' ≡ false)
  unfolding accept_all
  accept_all_returns [] s us fs ls k t h = elim (Bool-cases (can_accept s)) [
    | inl y ↦
        let (f, gs, l, ks, p, q) = can_accept_shape n s us fs ls k y in
        absurd (omega (arith, ap (λ (xs : List ℕ). length xs) p))
    | inr m ↦ (s, [], ground (arith, m), m)
  ]
  accept_all_returns (a ∷ rest) s us fs ls k t h = elim (Bool-cases (can_accept s)) [
    | inl y ↦
        let (v, e, g) = accept_pass n s us fs ls a t.0 k y in
        let (s', left, f, b) =
          accept_all_returns rest v g.used g.free g.queued g.is_kept t.1
            (ground (arith, g.fewer)) in
        (s', left, ground (arith, y, e, f), b)
    | inr m ↦ (s, a ∷ rest, ground (arith, m), m)
  ]

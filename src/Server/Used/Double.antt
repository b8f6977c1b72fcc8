-- ===== src/Server/Used/Double.antt =====
-- A doubly linked chain as the list of its elements.
use Prim.{Unit}
use tidbits.Prelude.{
  ℕ, ◌≡◌, refl, sym, subst, ◌∙◌, false, Option, none, some, List, [], ◌∷◌, ◌++◌, arith, ==_refl,
}
use tidbits.Server.{update}
use tidbits.Server.Chain.{mem, Distinct, last_elem, last_elem_ne}
use tidbits.Server.Used.{next_added, relinked}

-- The element before the first is `p`.
abbrev pub Double : (ℕ → Option ℕ) → (ℕ → Option ℕ) → Option ℕ → Option ℕ → List ℕ → Type 0
Double next prev p first [] = first ≡ none
Double next prev p first (x ∷ xs) =
    (first ≡ some x) × (prev x ≡ p) × Double next prev (some x) (next x) xs

abbrev pub Agree : (ℕ → Option ℕ) → (ℕ → Option ℕ) → List ℕ → Type 0
Agree f g [] = Unit
Agree f g (x ∷ xs) = (f x ≡ g x) × Agree f g xs

pub update-Agree :
    (f : ℕ → Option ℕ) (i : ℕ) (v : Option ℕ) (xs : List ℕ)
    → mem i xs ≡ false
    → Agree (update f i v) f xs
update-Agree f i v [] m = record {}
update-Agree f i v (x ∷ xs) m = (ground arith, update-Agree f i v xs (ground arith))

pub Agree-trans : (f g h : ℕ → Option ℕ) (xs : List ℕ) → Agree f g xs → Agree g h xs → Agree f h xs
Agree-trans f g h [] a b = record {}
Agree-trans f g h (x ∷ xs) a b = (a.0 ∙ b.0, Agree-trans f g h xs a.1 b.1)

pub same-Agree : (f : ℕ → Option ℕ) (xs : List ℕ) → Agree f f xs
same-Agree f [] = record {}
same-Agree f (x ∷ xs) = (refl, same-Agree f xs)

-- The links of other elements do not matter.
pub Agree-Double :
    (next prev next' prev' : ℕ → Option ℕ) (p first : Option ℕ) (xs : List ℕ)
    → Agree next' next xs
    → Agree prev' prev xs
    → Double next prev p first xs
    → Double next' prev' p first xs
Agree-Double next prev next' prev' p first [] a b d = d
Agree-Double next prev next' prev' p first (x ∷ xs) a b d = (
  d.0,
  b.0 ∙ d.1,
  subst (λ (o : Option ℕ). Double next' prev' (some x) o xs) (sym a.0)
      (Agree-Double next prev next' prev' (some x) (next x) xs a.1 b.1 d.2),
)

-- What stands behind a removed element gets the element before that one.
pub behind-Double :
    (next prev next' : ℕ → Option ℕ) (p q first : Option ℕ) (xs : List ℕ)
    → Distinct xs
    → Agree next' next xs
    → Double next prev p first xs
    → Double next' (relinked prev first q) q first xs
behind-Double next prev next' p q first [] h a d = d
behind-Double next prev next' p q first (x ∷ xs) h a d =
    subst (λ (o : Option ℕ). Double next' (relinked prev o q) q o (x ∷ xs)) (sym d.0)
      (
        refl,
        ground (arith, ==_refl x),
        subst (λ (o : Option ℕ). Double next' (update prev x q) (some x) o xs) (sym a.0)
            (Agree-Double next prev next' (update prev x q) (some x) (next x) xs a.1
              (update-Agree prev x q xs h.0) d.2),
      )

-- What stands before a removed element is linked to what stands behind it.
pub before-Double :
    (next prev prev' : ℕ → Option ℕ) (nn : Option ℕ) (c : ℕ) (bs : List ℕ) (a : ℕ) (xs : List ℕ)
    (p first : Option ℕ)
    → Distinct (a ∷ xs)
    → Agree prev' prev (a ∷ xs)
    → Double (update next (last_elem a xs) nn) prev' (some (last_elem a xs)) nn bs
    → Double next prev p first (a ∷ xs ++ c ∷ bs)
    → Double (update next (last_elem a xs) nn) prev' p first (a ∷ xs ++ bs)
before-Double next prev prev' nn c bs a [] p first h g b d =
    let at_a : update next a nn a ≡ nn = ground (arith, ==_refl a) in
    (
      d.0,
      g.0 ∙ d.1,
      subst (λ (o : Option ℕ). Double (update next a nn) prev' (some a) o bs) (sym at_a) b,
    )
before-Double next prev prev' nn c bs a (x ∷ xs) p first h g b d =
    let l = last_elem x xs in
    let e : update next l nn a ≡ next a = ground (arith, last_elem_ne a x xs h.0) in
    (
      d.0,
      g.0 ∙ d.1,
      subst (λ (o : Option ℕ). Double (update next l nn) prev' (some a) o (x ∷ xs ++ bs)) (sym e)
          (before-Double next prev prev' nn c bs x xs (some a) (next a) h.1 g.1 b d.2),
    )

-- The links of an element of a chain.
pub links_at :
    (next prev : ℕ → Option ℕ) (c : ℕ) (bs : List ℕ) (a : ℕ) (xs : List ℕ) (p first : Option ℕ)
    → Double next prev p first (a ∷ xs ++ c ∷ bs)
    → (prev c ≡ some (last_elem a xs)) × Double next prev (some c) (next c) bs
links_at next prev c bs a [] p first d = (d.2.1, d.2.2)
links_at next prev c bs a (x ∷ xs) p first d = links_at next prev c bs x xs (some a) (next a) d.2

-- A new last element.
pub added-Double :
    (next prev : ℕ → Option ℕ) (c y : ℕ) (ys : List ℕ) (p first : Option ℕ)
    → mem c (y ∷ ys) ≡ false
    → Distinct (y ∷ ys)
    → Double next prev p first (y ∷ ys)
    → Double
        (next_added next (some (last_elem y ys)) c)
        (update prev c (some (last_elem y ys)))
        p
        first
        (y ∷ ys ++ c ∷ [])
added-Double next prev c y [] p first m h d = (
  d.0,
  ground (arith, d.1),
  (ground (arith, ==_refl y), ground (arith, ==_refl c), ground (arith, ==_refl c)),
)
added-Double next prev c y (z ∷ zs) p first m h d =
    let l = last_elem z zs in
    let e : next_added next (some l) c y ≡ next y = ground (arith, last_elem_ne y z zs h.0) in
    (
      d.0,
      ground (arith, d.1),
      subst
          (λ (o : Option ℕ).
            Double (next_added next (some l) c) (update prev c (some l)) (some y) o
              (z ∷ zs ++ c ∷ []))
          (sym e) (added-Double next prev c z zs (some y) (next y) (ground arith) h.1 d.2),
    )

-- ===== src/ThreadPool/WorkerList/Pair.antt =====
-- Two worker lists over the same structs, as the idle and the unused list of a pool: an operation on
-- one leaves the other as it is.
use tidbits.Prelude.{ℕ, ◌≡◌, sym, subst, none, some, List, [], ◌∷◌, ◌++◌}
use tidbits.ThreadPool.WorkerList.{Links, WorkerList, update, list_push, list_pop, list_pull}
use tidbits.ThreadPool.WorkerList.Shape.{
  Segment, Apart, Holds, Segment-next, Segment-prev, Popped, push-Holds, pop-Holds_cons, push_eq,
  pop_eq, pop_one,
}
use tidbits.ThreadPool.WorkerList.Ends.{last_of, pulled_links, pulled_list, pull-Holds}

abbrev pub Disjoint : List ℕ → List ℕ → Type 0
Disjoint [] bs = Unit
Disjoint (a ∷ xs) bs = Apart a bs × Disjoint xs bs

abbrev pub Pair : Links → WorkerList → List ℕ → WorkerList → List ℕ → Type 0
Pair h a xs b ys = Holds h a xs × Holds h b ys × Disjoint xs ys

Disjoint-nil : (xs : List ℕ) → Disjoint xs []
Disjoint-nil [] = tt
Disjoint-nil (x ∷ xs) = (tt, Disjoint-nil xs)

Disjoint-cons : (y : ℕ) (xs ys : List ℕ) → Apart y xs → Disjoint xs ys → Disjoint xs (y ∷ ys)
Disjoint-cons y [] ys f d = tt
Disjoint-cons y (x ∷ xs) ys f d = (((λ e. f.0 (sym e)), d.0), Disjoint-cons y xs ys f.1 d.1)

Disjoint-sym : (xs ys : List ℕ) → Disjoint xs ys → Disjoint ys xs
Disjoint-sym [] ys d = Disjoint-nil ys
Disjoint-sym (x ∷ xs) ys d = Disjoint-cons x ys xs d.0 (Disjoint-sym xs ys d.1)

Disjoint-init : (w : ℕ) (xs ys : List ℕ) → Disjoint (xs ++ w ∷ []) ys → Disjoint xs ys
Disjoint-init w [] ys d = tt
Disjoint-init w (x ∷ xs) ys d = (d.0, Disjoint-init w xs ys d.1)

Disjoint-last : (x : ℕ) (xs ys : List ℕ) → Disjoint (x ∷ xs) ys → Apart (last_of x xs) ys
Disjoint-last x [] ys d = d.0
Disjoint-last x (z ∷ zs) ys d = Disjoint-last z zs ys d.1

pub Pair-sym : (h : Links) (a b : WorkerList) (xs ys : List ℕ) → Pair h a xs b ys → Pair h b ys a xs
Pair-sym h a b xs ys p = (p.1, p.0, Disjoint-sym xs ys p.2)

push_other :
    (h : Links) (a b : WorkerList) (w : ℕ) (xs ys : List ℕ)
    → Pair h a xs b ys
    → Apart w ys
    → Segment (list_push h a w).0 b.top none ys b.bottom
unfolding list_push
push_other h a b w [] ys p f =
    let kept = Segment-prev h w none ys b.top none b.bottom f p.1.0 in
    rw (p.0.0.0, list_push)
      (Segment-next (record h { prev = update h.prev w none }) w none ys b.top none b.bottom f kept)
push_other h a b w (t ∷ xs) ys p f =
    let h₁ : Links = record h { prev = update h.prev t (some w) } in
    let h₂ : Links = record h₁ { prev = update h₁.prev w none } in
    let kept₁ = Segment-prev h t (some w) ys b.top none b.bottom p.2.0 p.1.0 in
    let kept₂ = Segment-prev h₁ w none ys b.top none b.bottom f kept₁ in
    let kept₃ = Segment-next h₂ w (some t) ys b.top none b.bottom f kept₂ in
    subst (λ (r : Links × WorkerList). Segment r.0 b.top none ys b.bottom)
      (sym (push_eq h a w t p.0.0.0)) kept₃

-- `listPush` on one of two lists, of a worker that is in neither.
pub push-Pair :
    (h : Links) (a b : WorkerList) (w : ℕ) (xs ys : List ℕ)
    → Pair h a xs b ys
    → Apart w xs
    → Apart w ys
    → let (h', a') = list_push h a w in Pair h' a' (w ∷ xs) b ys
push-Pair h a b w xs ys p f g =
    (push-Holds h a w xs p.0 f, (push_other h a b w xs ys p g, p.1.1), (g, p.2))

pop_other :
    (h : Links) (a b : WorkerList) (w : ℕ) (xs ys : List ℕ)
    → Pair h a (w ∷ xs) b ys
    → Segment (list_pop h a).1 b.top none ys b.bottom
unfolding list_pop
pop_other h a b w [] ys p =
    subst (λ (r : Popped). Segment r.1 b.top none ys b.bottom)
      (sym (pop_one h a w p.0.0.0 p.0.0.2.0)) p.1.0
pop_other h a b w (n ∷ xs) ys p =
    subst (λ (r : Popped). Segment r.1 b.top none ys b.bottom)
      (sym (pop_eq h a w n p.0.0.0 p.0.0.2.0))
      (Segment-prev h n none ys b.top none b.bottom p.2.1.0 p.1.0)

-- `listPop` on one of two lists.
pub pop-Pair :
    (h : Links) (a b : WorkerList) (w : ℕ) (xs ys : List ℕ)
    → Pair h a (w ∷ xs) b ys
    → let (r, h', a') = list_pop h a in (r ≡ some w) × Pair h' a' xs b ys
pop-Pair h a b w xs ys p =
    let (r, kept) = pop-Holds_cons h a w xs p.0 in
    (r, (kept, (pop_other h a b w xs ys p, p.1.1), p.2.1))

pull_other :
    (h : Links) (b : WorkerList) (xs ys : List ℕ)
    → Holds h b ys
    → Disjoint xs ys
    → Segment (pulled_links h xs) b.top none ys b.bottom
pull_other h b [] ys s d = s.0
pull_other h b (x ∷ xs) ys s d =
    Segment-next h (last_of x xs) none ys b.top none b.bottom (Disjoint-last x xs ys d) s.0

-- `listPull` on one of two lists.
pub pull-Pair :
    (h : Links) (a b : WorkerList) (w : ℕ) (xs ys : List ℕ)
    → Pair h a (xs ++ w ∷ []) b ys
    → (list_pull h a ≡ some (some w, pulled_links h xs, pulled_list a xs))
      × Pair (pulled_links h xs) (pulled_list a xs) xs b ys
pull-Pair h a b w xs ys p =
    let (e, kept) = pull-Holds h a w xs p.0 in
    let d = Disjoint-init w xs ys p.2 in (e, (kept, (pull_other h b xs ys p.1 d, p.1.1), d))

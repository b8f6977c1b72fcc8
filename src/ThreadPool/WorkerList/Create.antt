-- ===== src/ThreadPool/WorkerList/Create.antt =====
-- The list of unused workers that `poThreadPool_create` builds.
use tidbits.Prelude.{
  ℕ, zero, suc, ◌+◌, ◌-◌, ◌<◌, ◌≡◌, refl, sym, subst, ltb, if◌then◌else◌, Option, none, some, List,
  [], ◌∷◌, arith,
}
use tidbits.ThreadPool.WorkerList.{
  Links, WorkerList, update, null_links, link_workers, create_unused,
}
use tidbits.ThreadPool.WorkerList.Shape.{Segment, Apart, Distinct, Holds}

-- The worker indices from `i` on, `n` of them.
abbrev pub indices : ℕ → ℕ → List ℕ
indices i zero = []
indices i (suc n) = i ∷ indices (suc i) n

-- The links once the loop has done the indices below `i`.
record Linked (h : Links) (i : ℕ) : Type 0 where
  nexts : (j : ℕ) → h.next j ≡ (if ltb (suc j) i then some (suc j) else none)
  prevs : (j : ℕ) → h.prev (suc j) ≡ (if ltb (suc j) i then some j else none)
  first : h.prev zero ≡ none

round-Linked :
    (h : Links) (j : ℕ)
    → Linked h (suc j)
    → Linked
        (record { next = update h.next j (some (suc j)); prev = update h.prev (suc j) (some j) })
        (suc (suc j))
round-Linked h j v = record {
  nexts = λ k. ground (arith, v.nexts k);
  prevs = λ k. ground (arith, v.prevs k);
  first = ground (arith, v.first);
}

link_workers-Linked :
    (max_threads rounds j : ℕ) (h : Links) (l : WorkerList)
    → Linked h (suc j)
    → let (h', l') = link_workers max_threads rounds (suc j) h l in
      Linked h' (rounds + suc j) × (l' ≡ l)
unfolding link_workers
link_workers-Linked max_threads zero j h l v = (subst (λ (i : ℕ). Linked h i) (omega arith) v, refl)
link_workers-Linked max_threads (suc rounds) j h l v =
    let h' : Links = record {
      next = update h.next j (some (suc j));
      prev = update h.prev (suc j) (some j);
    } in
    let (linked, same) = link_workers-Linked max_threads rounds (suc j) h' l (round-Linked h j v) in
    (
      subst (λ (i : ℕ). Linked (link_workers max_threads rounds (suc (suc j)) h' l).0 i)
          (omega arith) linked,
      same,
    )

Apart-indices : (a i n : ℕ) → a < i → Apart a (indices i n)
Apart-indices a i zero lt = tt
Apart-indices a i (suc n) lt = (omega arith, Apart-indices a (suc i) n (omega arith))

Distinct-indices : (i n : ℕ) → Distinct (indices i n)
Distinct-indices i zero = tt
Distinct-indices i (suc n) = (Apart-indices i (suc i) n (omega arith), Distinct-indices (suc i) n)

Linked-Segment :
    (h : Links) (m n i : ℕ)
    → Linked h (suc m)
    → i + n ≡ m
    → Segment h (some i) (h.prev i) (indices i (suc n)) (some m)
Linked-Segment h m zero i v e = (refl, refl, ground (arith, v.nexts i))
Linked-Segment h m (suc n) i v e =
    let follows : h.next i ≡ some (suc i) = ground (arith, v.nexts i) in
    let precedes : h.prev (suc i) ≡ some i = ground (arith, v.prevs i) in
    let rest = Linked-Segment h m n (suc i) v (omega arith) in
    (
      refl,
      refl,
      subst (λ (o : Option ℕ). Segment h o (some i) (indices (suc i) (suc n)) (some m))
          (sym follows)
          (subst (λ (b : Option ℕ). Segment h (some (suc i)) b (indices (suc i) (suc n)) (some m))
            precedes rest),
    )

Linked-Holds :
    (h : Links) (l : WorkerList) (m k : ℕ)
    → Linked h (m + 1)
    → l ≡ record { top = some 0; bottom = some k }
    → k ≡ m
    → Holds h l (indices 0 (suc m))
Linked-Holds h l m k v same e =
    let w : Linked h (suc m) = subst (λ (i : ℕ). Linked h i) (omega arith) v in
    let run = Linked-Segment h m m 0 w (omega arith) in
    let from_none : Segment h (some 0) none (indices 0 (suc m)) (some m) =
      subst (λ (b : Option ℕ). Segment h (some 0) b (indices 0 (suc m)) (some m)) w.first run in
    let to_k : Segment h (some 0) none (indices 0 (suc m)) (some k) =
      subst (λ (i : ℕ). Segment h (some 0) none (indices 0 (suc m)) (some i)) (sym e) from_none in
    subst (λ (l' : WorkerList). Holds h l' (indices 0 (suc m))) (sym same)
      (to_k, Distinct-indices 0 (suc m))

first-Linked :
    (k : ℕ)
    → Linked
        (record { next = update null_links.next k none; prev = update null_links.prev 0 none })
        1
first-Linked k = record {
  nexts = λ j. ground arith;
  prevs = λ j. ground arith;
  first = ground arith;
}

-- The memset of `poThreadPool_create` and its loop over the workers leave them all, in the order of
-- the array, in the list of unused workers, for any positive number of them.
pub create_unused-Holds :
    (m : ℕ) → let (h, l) = create_unused (suc m) in Holds h l (indices 0 (suc m))
unfolding create_unused
create_unused-Holds m =
    let (linked, same) = link_workers-Linked (suc m) m 0 _ _ (first-Linked (suc m - 1)) in
    Linked-Holds _ _ m (suc m - 1) linked same (omega arith)

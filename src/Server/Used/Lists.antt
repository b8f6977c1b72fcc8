-- ===== src/Server/Used/Lists.antt =====
-- The used list and the unused queue together.
use tidbits.Prelude.{
  ℕ, ◌≡◌, refl, sym, subst, ap, ◌∙◌, ◌==◌, Bool-cases, inl, inr, true, false, Option, none, some,
  List, [], ◌∷◌, ◌++◌, arith, ==_refl, ==_iff,
}
use tidbits.Server.{update, ConnectionQueue, unused_pop, last_behind}
use tidbits.Server.Chain.{
  mem, Distinct, Holds, Chain-frame, tail-Holds, push-Distinct, mem-append, mem-last_elem,
  last_elem, last_elem?, last_elem?-append,
}
use tidbits.Server.Used.{Connections, next_added, first_added, added, list_add_new}
use tidbits.Server.Used.Double.{Double, added-Double}
use tidbits.Server.Used.Split.{Apart, Apart-sym}

-- The used connections, oldest first, and the unused ones.
pub record Lists (s : Connections) (us fs : List ℕ) : Type 0 where
  pub used : Double s.unused.next s.prev none s.first us
  pub ends : s.last ≡ last_elem? us
  pub unused : Holds s.unused.next s.unused.front s.unused.back fs
  pub distinct : Distinct us
  pub apart : Apart us fs

-- Links of elements outside a list leave the queue as it is.
pub frame-Holds :
    (next next' : ℕ → Option ℕ) (front back : Option ℕ) (xs : List ℕ)
    → ((z : ℕ) → mem z xs ≡ true → next' z ≡ next z)
    → Holds next front back xs
    → Holds next' front back xs
frame-Holds next next' front back xs a h = record {
  chain = Chain-frame next next' front xs a h.chain;
  ends = h.ends;
  distinct = h.distinct;
}

-- An element of one of two lists without a common element is none of the other.
pub outside :
    (f : ℕ → Option ℕ) (i : ℕ) (v : Option ℕ) (z : ℕ) (xs : List ℕ)
    → mem i xs ≡ false
    → mem z xs ≡ true
    → update f i v z ≡ f z
outside f i v z xs m h = elim (Bool-cases (z == i)) [
  | inl y ↦
      let e : mem z xs ≡ mem i xs = ap (λ (k : ℕ). mem k xs) ((==_iff z i).0 y) in
      absurd (ground arith)
  | inr n ↦ ground arith
]

added_used :
    (s : Connections) (next : ℕ → Option ℕ) (c : ℕ) (us : List ℕ) (last : Option ℕ)
    → last ≡ last_elem? us
    → mem c us ≡ false
    → Distinct us
    → Double next s.prev none s.first us
    → Double
        (next_added next last c)
        (update s.prev c last)
        none
        (first_added s.first last c)
        (us ++ c ∷ [])
added_used s next c [] last e m h d =
    subst
      (λ (o : Option ℕ).
        Double (next_added next o c) (update s.prev c o) none (first_added s.first o c) (c ∷ []))
      (sym e) (refl, ground (arith, ==_refl c), ground (arith, ==_refl c))
added_used s next c (y ∷ ys) last e m h d =
    subst
      (λ (o : Option ℕ).
        Double (next_added next o c) (update s.prev c o) none (first_added s.first o c)
          (y ∷ ys ++ c ∷ []))
      (sym e) (added-Double next s.prev c y ys none s.first m h d)

next_added_outside :
    (next : ℕ → Option ℕ) (last : Option ℕ) (us fs : List ℕ) (c z : ℕ)
    → last ≡ last_elem? us
    → Apart us fs
    → mem c fs ≡ false
    → mem z fs ≡ true
    → next_added next last c z ≡ next z
next_added_outside next last [] fs c z e a m h =
    subst (λ (o : Option ℕ). next_added next o c z ≡ next z) (sym e) (outside next c none z fs m h)
next_added_outside next last (u ∷ us) fs c z e a m h =
    let l = last_elem u us in
    subst (λ (o : Option ℕ). next_added next o c z ≡ next z) (sym e)
      (outside (update next l (some c)) c none z fs m h
        ∙ outside next l (some c) z fs (a l (mem-last_elem u us)) h)

last_elem?-push : (xs : List ℕ) (c : ℕ) → last_elem? (xs ++ c ∷ []) ≡ some c
last_elem?-push xs c = last_elem?-append xs c []

-- `listAddNew` takes the first of the unused connections and appends it to the used ones.
pub list_add_new-Lists :
    (s : Connections) (us fs : List ℕ) (c : ℕ)
    → Lists s us (c ∷ fs)
    → (s' : Connections) × (list_add_new s ≡ some (c, s')) × Lists s' (us ++ c ∷ []) fs
unfolding list_add_new unused_pop
list_add_new-Lists s us fs c h = (
  added s q c,
  ground (arith, h.unused.chain.0),
  record {
    used = added_used s q.next c us s.last h.ends not_used h.distinct h.used;
    ends = sym (last_elem?-push us c);
    unused =
        frame-Holds q.next (next_added q.next s.last c) q.front q.back fs
          (λ z m. next_added_outside q.next s.last us fs c z h.ends apart' h.unused.distinct.0 m)
          (tail-Holds s.unused.next s.unused.front s.unused.back c fs h.unused);
    distinct = push-Distinct c us not_used h.distinct;
    apart = apart_now;
  },
)
  where
    q : ConnectionQueue
    q = record s.unused {
      front = s.unused.next c;
      back = last_behind (s.unused.next c) s.unused.back;
    }

    not_used : mem c us ≡ false
    not_used = Apart-sym us (c ∷ fs) h.apart c (ground (arith, ==_refl c))

    apart' : Apart us fs
    apart' z m = ground (arith, h.apart z m)

    apart_now : Apart (us ++ c ∷ []) fs
    apart_now z m = elim (Bool-cases (z == c)) [
      | inl y ↦ ap (λ (i : ℕ). mem i fs) ((==_iff z c).0 y) ∙ h.unused.distinct.0
      | inr n ↦ apart' z (ground (arith, mem-append z c us))
    ]

-- ===== src/Server/Used/Remove.antt =====
-- `listRemove` of a connection that stands anywhere in the used list.
use tidbits.Prelude.{
  ℕ, ◌≡◌, refl, sym, subst, ap, ◌∙◌, ◌==◌, Bool-cases, inl, inr, true, false, Option, none, some,
  List, [], ◌∷◌, ◌++◌, arith, ==_refl, ==_iff, append-nil,
}
use tidbits.Server.{update, linked, unused_push}
use tidbits.Server.Chain.{
  mem, push-Holds, mem-append, mem-append_list, mem-last_elem, last_elem, last_elem?,
  last_elem?-append,
}
use tidbits.Server.Used.{Connections, relinked, end_after, list_remove}
use tidbits.Server.Used.Double.{
  Double, Agree, update-Agree, Agree-trans, same-Agree, Agree-Double, behind-Double, before-Double,
  links_at,
}
use tidbits.Server.Used.Split.{Apart, Apart-sym, Parts, Distinct-Parts}
use tidbits.Server.Used.Lists.{Lists, frame-Holds, outside}

pub links :
    (next prev : ℕ → Option ℕ) (c : ℕ) (xs ys : List ℕ) (first : Option ℕ)
    → Double next prev none first (xs ++ c ∷ ys)
    → (prev c ≡ last_elem? xs) × Double next prev (some c) (next c) ys
links next prev c [] ys first d = (d.1, d.2)
links next prev c (x ∷ xs) ys first d = links_at next prev c ys x xs none first d

-- The link to the first element of a list changes nothing outside the list.
pub first_outside :
    (next prev f : ℕ → Option ℕ) (v p first : Option ℕ) (ys : List ℕ) (c : ℕ)
    → Double next prev p first ys
    → mem c ys ≡ false
    → relinked f first v c ≡ f c
first_outside next prev f v p first [] c d m =
    subst (λ (o : Option ℕ). relinked f o v c ≡ f c) (sym d) refl
first_outside next prev f v p first (y ∷ ys) c d m =
    subst (λ (o : Option ℕ). relinked f o v c ≡ f c) (sym d.0) (ground arith)

first-Agree :
    (next prev f : ℕ → Option ℕ) (v p first : Option ℕ) (xs ys : List ℕ)
    → Double next prev p first ys
    → Apart xs ys
    → Agree (relinked f first v) f xs
first-Agree next prev f v p first xs [] d a =
    subst (λ (o : Option ℕ). Agree (relinked f o v) f xs) (sym d) (same-Agree f xs)
first-Agree next prev f v p first xs (y ∷ ys) d a =
    subst (λ (o : Option ℕ). Agree (relinked f o v) f xs) (sym d.0)
      (update-Agree f y v xs (Apart-sym xs (y ∷ ys) a y (ground (arith, ==_refl y))))

last_outside :
    (f : ℕ → Option ℕ) (v o : Option ℕ) (xs ys : List ℕ) (z : ℕ)
    → o ≡ last_elem? xs
    → Apart xs ys
    → mem z ys ≡ true
    → relinked f o v z ≡ f z
last_outside f v o [] ys z e a m = subst (λ (i : Option ℕ). relinked f i v z ≡ f z) (sym e) refl
last_outside f v o (x ∷ xs) ys z e a m =
    subst (λ (i : Option ℕ). relinked f i v z ≡ f z) (sym e)
      (outside f (last_elem x xs) v z ys (a (last_elem x xs) (mem-last_elem x xs)) m)

-- The used list without `c`.
pub joined-Double :
    (next prev : ℕ → Option ℕ) (c : ℕ) (xs ys : List ℕ) (first pp : Option ℕ)
    → Parts xs c ys
    → pp ≡ last_elem? xs
    → Double next prev (some c) (next c) ys
    → Double next prev none first (xs ++ c ∷ ys)
    → Double
        (relinked next pp (next c))
        (relinked prev (next c) pp)
        none
        (end_after pp (next c) first)
        (xs ++ ys)
joined-Double next prev c [] ys first pp p e b d =
    subst
      (λ (o : Option ℕ).
        Double (relinked next o (next c)) (relinked prev (next c) o) none
          (end_after o (next c) first) ys)
      (sym e)
      (behind-Double next prev next (some c) none (next c) ys p.behind (same-Agree next ys) b)
joined-Double next prev c (x ∷ xs) ys first pp p e b d =
    let l = last_elem x xs in
    subst
      (λ (o : Option ℕ).
        Double (relinked next o (next c)) (relinked prev (next c) o) none
          (end_after o (next c) first) (x ∷ xs ++ ys))
      (sym e)
      (before-Double next prev (relinked prev (next c) (some l)) (next c) c ys x xs none first
        p.before (first-Agree next prev prev (some l) (some c) (next c) (x ∷ xs) ys b p.apart)
        (behind-Double next prev (update next l (next c)) (some c) (some l) (next c) ys p.behind
          (update-Agree next l (next c) ys (p.apart l (mem-last_elem x xs))) b)
        d)

joined_last :
    (next prev : ℕ → Option ℕ) (c : ℕ) (xs ys : List ℕ) (last pp : Option ℕ)
    → pp ≡ last_elem? xs
    → last ≡ last_elem? (xs ++ c ∷ ys)
    → Double next prev (some c) (next c) ys
    → end_after (next c) pp last ≡ last_elem? (xs ++ ys)
joined_last next prev c xs [] last pp e l b =
    subst (λ (o : Option ℕ). end_after o pp last ≡ last_elem? (xs ++ [])) (sym b)
      (e ∙ ap last_elem? (sym (append-nil xs)))
joined_last next prev c xs (y ∷ ys) last pp e l b =
    subst (λ (o : Option ℕ). end_after o pp last ≡ last_elem? (xs ++ y ∷ ys)) (sym b.0)
      (l ∙ last_elem?-append xs c (y ∷ ys) ∙ sym (last_elem?-append xs y ys))

linked-Agree :
    (next : ℕ → Option ℕ) (back : Option ℕ) (c : ℕ) (us fs : List ℕ)
    → back ≡ last_elem? fs
    → Apart us fs
    → mem c us ≡ false
    → Agree (linked next back c) next us
linked-Agree next back c us [] e a m =
    subst (λ (o : Option ℕ). Agree (linked next o c) next us) (sym e)
      (update-Agree next c none us m)
linked-Agree next back c us (f ∷ fs) e a m =
    let l = last_elem f fs in
    subst (λ (o : Option ℕ). Agree (linked next o c) next us) (sym e)
      (Agree-trans (update (update next c none) l (some c)) (update next c none) next us
        (update-Agree (update next c none) l (some c) us
          (Apart-sym us (f ∷ fs) a l (mem-last_elem f fs)))
        (update-Agree next c none us m))

-- `listRemove`, with the link of `c` that it reads twice.
abbrev removed : Connections → ℕ → Option ℕ → Connections
removed s c pp = record {
  prev = relinked s.prev (s.unused.next c) (s.prev c);
  first = end_after pp (s.unused.next c) s.first;
  last = end_after (s.unused.next c) (s.prev c) s.last;
  unused = unused_push (record s.unused { next = relinked s.unused.next pp (s.unused.next c) }) c;
}

removed-Lists :
    (s : Connections) (xs ys fs : List ℕ) (c : ℕ)
    → Lists s (xs ++ c ∷ ys) fs
    → Lists (removed s c (s.prev c)) (xs ++ ys) (fs ++ c ∷ [])
unfolding unused_push
removed-Lists s xs ys fs c h = record {
  used =
      Agree-Double next' prev' (linked next' s.unused.back c) prev' none first' (xs ++ ys)
        (linked-Agree next' s.unused.back c (xs ++ ys) fs h.unused.ends apart' not_in)
        (same-Agree prev' (xs ++ ys))
        (joined-Double s.unused.next s.prev c xs ys s.first (s.prev c) p k.0 k.1 h.used);
  ends = joined_last s.unused.next s.prev c xs ys s.last (s.prev c) k.0 h.ends k.1;
  unused =
      push-Holds next' s.unused.front s.unused.back fs c
        (frame-Holds s.unused.next next' s.unused.front s.unused.back fs same h.unused) c_used;
  distinct = p.joined;
  apart = apart_now;
}
  where
    p : Parts xs c ys
    p = Distinct-Parts xs c ys h.distinct

    k : (s.prev c ≡ last_elem? xs) × Double s.unused.next s.prev (some c) (s.unused.next c) ys
    k = links s.unused.next s.prev c xs ys s.first h.used

    next' : ℕ → Option ℕ
    next' = relinked s.unused.next (s.prev c) (s.unused.next c)

    prev' : ℕ → Option ℕ
    prev' = relinked s.prev (s.unused.next c) (s.prev c)

    first' : Option ℕ
    first' = end_after (s.prev c) (s.unused.next c) s.first

    c_used : mem c fs ≡ false
    c_used = h.apart c (ground (arith, mem-append_list c xs (c ∷ ys), ==_refl c))

    not_in : mem c (xs ++ ys) ≡ false
    not_in = ground (arith, mem-append_list c xs ys, p.not_before, p.not_behind)

    in_used : (z : ℕ) → mem z (xs ++ ys) ≡ true → mem z (xs ++ c ∷ ys) ≡ true
    in_used z m = ground (arith, mem-append_list z xs ys, mem-append_list z xs (c ∷ ys))

    apart' : Apart (xs ++ ys) fs
    apart' z m = h.apart z (in_used z m)

    apart_xs : Apart xs fs
    apart_xs z m = h.apart z (ground (arith, mem-append_list z xs (c ∷ ys)))

    same : (z : ℕ) → mem z fs ≡ true → next' z ≡ s.unused.next z
    same z m = last_outside s.unused.next (s.unused.next c) (s.prev c) xs fs z k.0 apart_xs m

    apart_now : Apart (xs ++ ys) (fs ++ c ∷ [])
    apart_now z m = elim (Bool-cases (z == c)) [
      | inl y ↦
          let e : mem z (xs ++ ys) ≡ mem c (xs ++ ys) =
            ap (λ (i : ℕ). mem i (xs ++ ys)) ((==_iff z c).0 y) in
          absurd (ground (arith, not_in))
      | inr n ↦ ground (arith, mem-append z c fs, apart' z m)
    ]

-- `listRemove` takes a connection out of the used list, wherever it stands, keeps the others in order,
-- and appends it to the unused ones.
pub list_remove-Lists :
    (s : Connections) (xs ys fs : List ℕ) (c : ℕ)
    → Lists s (xs ++ c ∷ ys) fs
    → Lists (list_remove s c) (xs ++ ys) (fs ++ c ∷ [])
unfolding list_remove
list_remove-Lists s xs ys fs c h =
    let p = Distinct-Parts xs c ys h.distinct in
    let k = links s.unused.next s.prev c xs ys s.first h.used in
    let e =
      first_outside s.unused.next s.prev s.prev (s.prev c) (some c) (s.unused.next c) ys c k.1
        p.not_behind in
    subst (λ (o : Option ℕ). Lists (removed s c o) (xs ++ ys) (fs ++ c ∷ [])) (sym e)
      (removed-Lists s xs ys fs c h)

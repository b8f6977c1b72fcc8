-- ===== src/Server/Chain.antt =====
-- A chain of links as the list of its elements.
use Prim.{Unit}
use tidbits.Prelude.{
  true, ℕ, ◌≡◌, refl, sym, subst, ap, ◌∙◌, ◌==◌, ◌||◌, Bool, false, Option, none, some, List, [],
  ◌∷◌, ◌++◌, arith, ==_refl,
}
use tidbits.Server.{linked, first_of, last_behind}

abbrev pub mem : ℕ → List ℕ → Bool
mem x [] = false
mem x (y ∷ ys) = (x == y) || mem x ys

abbrev pub Distinct : List ℕ → Type 0
Distinct [] = Unit
Distinct (x ∷ xs) = (mem x xs ≡ false) × Distinct xs

abbrev pub Chain : (ℕ → Option ℕ) → Option ℕ → List ℕ → Type 0
Chain next first [] = first ≡ none
Chain next first (x ∷ xs) = (first ≡ some x) × Chain next (next x) xs

abbrev pub last_elem : ℕ → List ℕ → ℕ
last_elem x [] = x
last_elem x (y ∷ ys) = last_elem y ys

abbrev pub last_elem? : List ℕ → Option ℕ
last_elem? [] = none
last_elem? (x ∷ xs) = some (last_elem x xs)

-- A queue with the ends `first` and `last` holds the elements of a list.
pub record Holds (next : ℕ → Option ℕ) (first last : Option ℕ) (xs : List ℕ) : Type 0 where
  pub chain : Chain next first xs
  pub ends : last ≡ last_elem? xs
  pub distinct : Distinct xs

pub last_elem_ne : (x y : ℕ) (ys : List ℕ) → mem x (y ∷ ys) ≡ false → (x == last_elem y ys) ≡ false
last_elem_ne x y [] h = ground arith
last_elem_ne x y (z ∷ zs) h = last_elem_ne x z zs (ground arith)

push-Chain :
    (next : ℕ → Option ℕ) (x y : ℕ) (ys : List ℕ) (first : Option ℕ)
    → Chain next first (y ∷ ys)
    → mem x (y ∷ ys) ≡ false
    → Distinct (y ∷ ys)
    → Chain (linked next (some (last_elem y ys)) x) first (y ∷ ys ++ x ∷ [])
push-Chain next x y [] first c h d = (c.0, (ground (arith, ==_refl y), ground (arith, ==_refl x)))
push-Chain next x y (z ∷ zs) first c h d =
    let ih = push-Chain next x z zs (next y) c.1 (ground arith) d.1 in
    let same : linked next (some (last_elem z zs)) x y ≡ next y =
      ground (arith, last_elem_ne y z zs d.0) in
    (
      c.0,
      subst (λ (o : Option ℕ). Chain (linked next (some (last_elem z zs)) x) o (z ∷ zs ++ x ∷ []))
          (sym same) ih,
    )

pub mem-append : (y x : ℕ) (xs : List ℕ) → mem y (xs ++ x ∷ []) ≡ (y == x) || mem y xs
mem-append y x [] = refl
mem-append y x (z ∷ zs) = ground (arith, mem-append y x zs)

pub push-Distinct : (x : ℕ) (xs : List ℕ) → mem x xs ≡ false → Distinct xs → Distinct (xs ++ x ∷ [])
push-Distinct x [] h d = (refl, record {})
push-Distinct x (y ∷ ys) h d =
    (ground (arith, mem-append y x ys), push-Distinct x ys (ground arith) d.1)

last_elem-push : (x y : ℕ) (ys : List ℕ) → last_elem y (ys ++ x ∷ []) ≡ x
last_elem-push x y [] = refl
last_elem-push x y (z ∷ zs) = last_elem-push x z zs

-- Pushing a new element behind the last one.
pub push-Holds :
    (next : ℕ → Option ℕ) (first last : Option ℕ) (xs : List ℕ) (x : ℕ)
    → Holds next first last xs
    → mem x xs ≡ false
    → Holds (linked next last x) (first_of first last x) (some x) (xs ++ x ∷ [])
push-Holds next first last [] x h m =
    subst (λ (o : Option ℕ). Holds (linked next o x) (first_of first o x) (some x) (x ∷ []))
      (sym h.ends)
      (record {
        chain = (refl, ground (arith, ==_refl x));
        ends = refl;
        distinct = (refl, record {});
      })
push-Holds next first last (y ∷ ys) x h m =
    subst
      (λ (o : Option ℕ). Holds (linked next o x) (first_of first o x) (some x) (y ∷ ys ++ x ∷ []))
      (sym h.ends)
      (record {
        chain = push-Chain next x y ys first h.chain m h.distinct;
        ends = ap some (sym (last_elem-push x y ys));
        distinct = push-Distinct x (y ∷ ys) m h.distinct;
      })

last_behind-last_elem? :
    (next : ℕ → Option ℕ) (first : Option ℕ) (x : ℕ) (xs : List ℕ)
    → Chain next first xs
    → last_behind first (some (last_elem x xs)) ≡ last_elem? xs
last_behind-last_elem? next first x [] c = ap (λ (o : Option ℕ). last_behind o (some x)) c
last_behind-last_elem? next first x (y ∷ ys) c =
    ap (λ (o : Option ℕ). last_behind o (some (last_elem y ys))) c.0

-- Taking the first element.
pub tail-Holds :
    (next : ℕ → Option ℕ) (first last : Option ℕ) (x : ℕ) (xs : List ℕ)
    → Holds next first last (x ∷ xs)
    → Holds next (next x) (last_behind (next x) last) xs
tail-Holds next first last x xs h = record {
  chain = h.chain.1;
  ends = ap (last_behind (next x)) h.ends ∙ last_behind-last_elem? next (next x) x xs h.chain.1;
  distinct = h.distinct.1;
}

pub mem-append_list : (z : ℕ) (xs ys : List ℕ) → mem z (xs ++ ys) ≡ mem z xs || mem z ys
mem-append_list z [] ys = refl
mem-append_list z (x ∷ xs) ys = ground (arith, mem-append_list z xs ys)

pub mem-last_elem : (x : ℕ) (xs : List ℕ) → mem (last_elem x xs) (x ∷ xs) ≡ true
mem-last_elem x [] = ground (arith, ==_refl x)
mem-last_elem x (y ∷ ys) = ground (arith, mem-last_elem y ys)

pub last_elem?-append :
    (xs : List ℕ) (y : ℕ) (ys : List ℕ) → last_elem? (xs ++ y ∷ ys) ≡ some (last_elem y ys)
last_elem?-append [] y ys = refl
last_elem?-append (x ∷ []) y ys = refl
last_elem?-append (x ∷ z ∷ zs) y ys = last_elem?-append (z ∷ zs) y ys

-- The links of other elements do not matter.
pub Chain-frame :
    (next next' : ℕ → Option ℕ) (first : Option ℕ) (xs : List ℕ)
    → ((z : ℕ) → mem z xs ≡ true → next' z ≡ next z)
    → Chain next first xs
    → Chain next' first xs
Chain-frame next next' first [] a c = c
Chain-frame next next' first (x ∷ xs) a c = (
  c.0,
  subst (λ (o : Option ℕ). Chain next' o xs) (sym (a x (ground (arith, ==_refl x))))
      (Chain-frame next next' (next x) xs (λ z h. a z (ground (arith, h))) c.1),
)

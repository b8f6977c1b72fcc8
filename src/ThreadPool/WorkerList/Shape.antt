-- ===== src/ThreadPool/WorkerList/Shape.antt =====
-- Which list of workers a linked list holds, and what writes elsewhere leave alone.
use tidbits.Prelude.{ℕ, ◌≡◌, ◌≢◌, refl, sym, subst, ◌∙◌, Option, none, some, List, [], ◌∷◌, arith}
use tidbits.ThreadPool.WorkerList.{Links, WorkerList, update, list_push, list_pop}

-- From `o` on, and behind `before`, the links run through `ws` and end at `last`.
abbrev pub Segment : Links → Option ℕ → Option ℕ → List ℕ → Option ℕ → Type 0
Segment h o before [] last = (o ≡ none) × (last ≡ before)
Segment h o before (w ∷ ws) last =
    (o ≡ some w) × (h.prev w ≡ before) × Segment h (h.next w) (some w) ws last

abbrev pub Apart : ℕ → List ℕ → Type 0
Apart a [] = Unit
Apart a (w ∷ ws) = (w ≢ a) × Apart a ws

abbrev pub Distinct : List ℕ → Type 0
Distinct [] = Unit
Distinct (w ∷ ws) = Apart w ws × Distinct ws

-- The linked list `l` holds the workers `ws`, from the top to the bottom, each once.
abbrev pub Holds : Links → WorkerList → List ℕ → Type 0
Holds h l ws = Segment h l.top none ws l.bottom × Distinct ws

pub Segment-next :
    (h : Links) (a : ℕ) (v : Option ℕ) (ws : List ℕ) (o before last : Option ℕ)
    → Apart a ws
    → Segment h o before ws last
    → Segment (record h { next = update h.next a v }) o before ws last
Segment-next h a v [] o before last f s = s
Segment-next h a v (w ∷ ws) o before last f s =
    ground (arith, Segment-next h a v ws (h.next w) (some w) last)

pub Segment-prev :
    (h : Links) (a : ℕ) (v : Option ℕ) (ws : List ℕ) (o before last : Option ℕ)
    → Apart a ws
    → Segment h o before ws last
    → Segment (record h { prev = update h.prev a v }) o before ws last
Segment-prev h a v [] o before last f s = s
Segment-prev h a v (w ∷ ws) o before last f s =
    ground (arith, Segment-prev h a v ws (h.next w) (some w) last)

pub update_self : (f : ℕ → Option ℕ) (a : ℕ) (v : Option ℕ) → update f a v a ≡ v
update_self f a v = ground arith

pub update_ne : (f : ℕ → Option ℕ) (a x : ℕ) (v : Option ℕ) → x ≢ a → update f a v x ≡ f x
update_ne f a x v ne = ground arith

pub push_eq :
    (h : Links) (l : WorkerList) (w t : ℕ)
    → l.top ≡ some t
    → list_push h l w ≡ (
      record { next = update h.next w (some t); prev = update (update h.prev t (some w)) w none },
      record l { top = some w },
    )
unfolding list_push
push_eq h l w t e = rw (e, list_push)

-- `listPush` of a worker that is in no list: it stands at the top, and the others stay in order.
pub push-Holds :
    (h : Links) (l : WorkerList) (w : ℕ) (ws : List ℕ)
    → Holds h l ws
    → Apart w ws
    → let (h', l') = list_push h l w in Holds h' l' (w ∷ ws)
unfolding list_push
push-Holds h l w [] s f = ground arith
push-Holds h l w (t ∷ ws) s f =
    let h₁ : Links = record h { prev = update h.prev t (some w) } in
    let h₂ : Links = record h₁ { prev = update h₁.prev w none } in
    let kept₁ = Segment-prev h t (some w) ws (h.next t) (some t) l.bottom s.1.0 s.0.2 in
    let kept₂ = Segment-prev h₁ w none ws (h.next t) (some t) l.bottom f.1 kept₁ in
    let kept₃ = Segment-next h₂ w (some t) ws (h.next t) (some t) l.bottom f.1 kept₂ in
    subst (λ (r : Links × WorkerList). Holds r.0 r.1 (w ∷ t ∷ ws)) (sym (push_eq h l w t s.0.0))
      (
        (
          refl,
          update_self h₁.prev w none,
          (
            update_self h.next w (some t),
            update_ne h₁.prev w t none f.0 ∙ update_self h.prev t (some w),
            rw (update_ne h.next w t (some t) f.0) kept₃,
          ),
        ),
        (f, s.1),
      )

abbrev pub Popped : Type 0
Popped = Option ℕ × Links × WorkerList

pub pop_eq :
    (h : Links) (l : WorkerList) (w n : ℕ)
    → l.top ≡ some w
    → h.next w ≡ some n
    → list_pop h l ≡ (some w, record h { prev = update h.prev n none }, record l { top = some n })
unfolding list_pop
pop_eq h l w n e e' = ground arith

pub pop_one :
    (h : Links) (l : WorkerList) (w : ℕ)
    → l.top ≡ some w
    → h.next w ≡ none
    → list_pop h l ≡ (some w, h, record { top = none; bottom = none })
unfolding list_pop
pop_one h l w e e' = ground arith

-- `listPop` takes the top worker, if there is one, and keeps the others in order.
pub pop-Holds_cons :
    (h : Links) (l : WorkerList) (w : ℕ) (ws : List ℕ)
    → Holds h l (w ∷ ws)
    → let (r, h', l') = list_pop h l in (r ≡ some w) × Holds h' l' ws
unfolding list_pop
pop-Holds_cons h l w [] s = ground arith
pop-Holds_cons h l w (n ∷ ws) s =
    let kept = Segment-prev h n none ws (h.next n) (some n) l.bottom s.1.1.0 s.0.2.2 in
    subst (λ (r : Popped). (r.0 ≡ some w) × Holds r.1 r.2 (n ∷ ws))
      (sym (pop_eq h l w n s.0.0 s.0.2.0)) (refl, ((refl, update_self h.prev n none, kept), s.1.1))

-- `listPop` of an empty list returns NULL.
pub pop-Holds_nil : (h : Links) (l : WorkerList) → Holds h l [] → list_pop h l ≡ (none, h, l)
unfolding list_pop
pop-Holds_nil h l s = ground arith

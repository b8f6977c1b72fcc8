-- ===== src/ThreadPool/WorkerList/Ends.antt =====
-- `listPull`: the worker at the bottom, the one that is idle the longest.
use tidbits.Prelude.{
  ℕ, ◌≡◌, ◌≢◌, refl, sym, subst, ◌∙◌, Option, none, some, List, [], ◌∷◌, ◌++◌, arith,
}
use tidbits.ThreadPool.WorkerList.{Links, WorkerList, update, list_pull}
use tidbits.ThreadPool.WorkerList.Shape.{Segment, Apart, Distinct, Holds, update_self, update_ne}

abbrev pub last_or : Option ℕ → List ℕ → Option ℕ
last_or before [] = before
last_or before (x ∷ xs) = last_or (some x) xs

abbrev pub last_of : ℕ → List ℕ → ℕ
last_of x [] = x
last_of x (y ∷ ys) = last_of y ys

pub last_or-some : (x : ℕ) (xs : List ℕ) → last_or (some x) xs ≡ some (last_of x xs)
last_or-some x [] = refl
last_or-some x (y ∷ ys) = last_or-some y ys

last_of-ne : (a x : ℕ) (xs : List ℕ) → Apart a (x ∷ xs) → last_of x xs ≢ a
last_of-ne a x [] f = f.0
last_of-ne a x (y ∷ ys) f = last_of-ne a y ys f.1

-- The bottom is the last worker, and its `prev` the one before.
pub bottom_lem :
    (h : Links) (w : ℕ) (ws : List ℕ) (o before last : Option ℕ)
    → Segment h o before (ws ++ w ∷ []) last
    → (last ≡ some w) × (h.prev w ≡ last_or before ws)
bottom_lem h w [] o before last s = (s.2.1, s.1)
bottom_lem h w (x ∷ xs) o before last s = bottom_lem h w xs (h.next x) (some x) last s.2

pub Apart-init : (a w : ℕ) (ws : List ℕ) → Apart a (ws ++ w ∷ []) → Apart a ws
Apart-init a w [] f = tt
Apart-init a w (x ∷ xs) f = (f.0, Apart-init a w xs f.1)

pub Distinct-init : (w : ℕ) (ws : List ℕ) → Distinct (ws ++ w ∷ []) → Distinct ws
Distinct-init w [] d = tt
Distinct-init w (x ∷ xs) d = (Apart-init x w xs d.0, Distinct-init w xs d.1)

-- Clearing the `next` of the last but one cuts the last worker off.
pub cut :
    (h : Links) (w x : ℕ) (xs : List ℕ) (o before last : Option ℕ)
    → Segment h o before (x ∷ xs ++ w ∷ []) last
    → Distinct (x ∷ xs)
    → Segment
        (record h { next = update h.next (last_of x xs) none })
        o
        before
        (x ∷ xs)
        (some (last_of x xs))
cut h w x [] o before last s d = (s.0, s.1, (update_self h.next x none, refl))
cut h w x (y ∷ ys) o before last s d = (
  s.0,
  s.1,
  subst
      (λ (o' : Option ℕ).
        Segment (record h { next = update h.next (last_of y ys) none }) o' (some x) (y ∷ ys)
          (some (last_of y ys)))
      (sym (update_ne h.next (last_of y ys) x none (λ e. last_of-ne x y ys d.0 (sym e))))
      (cut h w y ys (h.next x) (some x) last s.2 d.1),
)

abbrev pub Pulled : Type 0
Pulled = Option ℕ × Links × WorkerList

pub pull_one :
    (h : Links) (l : WorkerList) (t w : ℕ)
    → l.top ≡ some t
    → l.bottom ≡ some w
    → h.prev w ≡ none
    → list_pull h l ≡ some (some w, h, record { top = none; bottom = none })
unfolding list_pull
pull_one h l t w a b c = ground arith

pub pull_more :
    (h : Links) (l : WorkerList) (t w p : ℕ)
    → l.top ≡ some t
    → l.bottom ≡ some w
    → h.prev w ≡ some p
    → list_pull h l
      ≡ some (some w, record h { next = update h.next p none }, record l { bottom = some p })
unfolding list_pull
pull_more h l t w p a b c = ground arith

-- What `listPull` leaves when `ws` stand above the bottom worker.
abbrev pub pulled_links : Links → List ℕ → Links
pulled_links h [] = h
pulled_links h (x ∷ xs) = record h { next = update h.next (last_of x xs) none }

abbrev pub pulled_list : WorkerList → List ℕ → WorkerList
pulled_list l [] = record { top = none; bottom = none }
pulled_list l (x ∷ xs) = record l { bottom = some (last_of x xs) }

-- `listPull` of a list that is not empty never follows a NULL pointer: it takes the bottom worker and
-- keeps the others in order.
pub pull-Holds :
    (h : Links) (l : WorkerList) (w : ℕ) (ws : List ℕ)
    → Holds h l (ws ++ w ∷ [])
    → (list_pull h l ≡ some (some w, pulled_links h ws, pulled_list l ws))
      × Holds (pulled_links h ws) (pulled_list l ws) ws
pull-Holds h l w [] s =
    let (b, p) = bottom_lem h w [] l.top none l.bottom s.0 in
    (pull_one h l w w s.0.0 b p, ((refl, refl), tt))
pull-Holds h l w (x ∷ xs) s =
    let (b, p) = bottom_lem h w (x ∷ xs) l.top none l.bottom s.0 in
    let d = Distinct-init w (x ∷ xs) s.1 in
    (
      pull_more h l x w (last_of x xs) s.0.0 b (p ∙ last_or-some x xs),
      (cut h w x xs l.top none l.bottom s.0 d, d),
    )

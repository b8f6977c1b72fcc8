-- ===== src/ThreadPool/System/Counting.antt =====
-- Sums over lists: how often a worker or a task stands somewhere.
use tidbits.Prelude.{
  ℕ, zero, suc, ◌+◌, ◌≡◌, refl, ◌==◌, if◌then◌else◌, some, Option-cases, Bool, false, none, ==_refl,
  ◌≢◌, inl, inr, List, [], ◌∷◌, ◌++◌, arith, length,
}
use tidbits.ThreadPool.TaskQueue.{Task}
use tidbits.ThreadPool.Pool.{Worker, assigned}
use tidbits.ThreadPool.System.{
  Running, take_at, worker_ids, contains, maybe, Master, free, blocked, unblocked, signalled,
}
use tidbits.ThreadPool.WorkerList.Shape.{Apart}

abbrev pub total {ℓ} : {A : Type ℓ} → (A → ℕ) → List A → ℕ
total f [] = 0
total f (x ∷ xs) = f x + total f xs

-- Whether `x` is the worker `w`, as a number.
abbrev pub one : ℕ → ℕ → ℕ
one w x = if x == w then 1 else 0

pub total-append {ℓ} :
    {A : Type ℓ} (f : A → ℕ) (xs ys : List A) → total f (xs ++ ys) ≡ total f xs + total f ys
total-append f [] ys = omega arith
total-append f (x ∷ xs) ys = omega (arith, total-append f xs ys)

-- Taking one out of a list takes its share out of the sum.
pub take_at-total {ℓ} :
    {A : Type ℓ} (f : A → ℕ) (xs : List A) (i : ℕ) (x : A) (ys : List A)
    → take_at xs i ≡ some (x, ys)
    → (total f xs ≡ f x + total f ys) × (length xs ≡ suc (length ys))
unfolding take_at
take_at-total f [] i x ys e = ground arith
take_at-total f (y ∷ xs) zero x ys e = ground arith
take_at-total f (y ∷ xs) (suc i) x ys e = elim (Option-cases (take_at xs i)) [
  | inl absent ↦ ground arith
  | inr ((z, zs), found) ↦ ground (arith, take_at-total f xs i z zs)
]

pub Apart-of_total : (w : ℕ) (xs : List ℕ) → total (one w) xs ≡ 0 → Apart w xs
Apart-of_total w [] e = tt
Apart-of_total w (x ∷ xs) e = (ground arith, Apart-of_total w xs (ground arith))

pub total-worker_ids :
    (w : ℕ) (rs : List Running) → total (one w) (worker_ids rs) ≡ total (λ r. one w r.worker) rs
total-worker_ids w [] = refl
total-worker_ids w (r ∷ rs) = omega (arith, total-worker_ids w rs)

pub contains-total : (w : ℕ) (xs : List ℕ) → contains xs w ≡ false → total (one w) xs ≡ 0
contains-total w [] e = refl
contains-total w (x ∷ xs) e = ground (arith, contains-total w xs)

pub total-nil {ℓ} : {A : Type ℓ} (f : A → ℕ) (xs : List A) → length xs ≡ 0 → total f xs ≡ 0
total-nil f [] e = refl
total-nil f (x ∷ xs) e = absurd (omega arith)

-- What the tasks assigned to the workers of a list weigh.
abbrev pub held : (Task → ℕ) → (ℕ → Worker) → ℕ → ℕ
held f g w = total f (maybe (assigned (g w)))

abbrev pub waiting : (Task → ℕ) → Master → ℕ
waiting f (blocked t) = f t
waiting f (unblocked t) = f t
waiting f _ = 0

pub waiting-signalled :
    (f : Task → ℕ) (b : Bool) (m : Master) → waiting f (signalled b m) ≡ waiting f m
waiting-signalled f b free = ground arith
waiting-signalled f b _ = ground arith

-- Writing to a worker's struct leaves what the others hold.
pub held-apart :
    (f : Task → ℕ) (g : ℕ → Worker) (w : ℕ) (v : Worker) (xs : List ℕ)
    → total (one w) xs ≡ 0
    → total (held f (λ x. if x == w then v else g x)) xs ≡ total (held f g) xs
held-apart f g w v [] e = refl
held-apart f g w v (x ∷ xs) e =
    let other : (x == w) ≡ false = ground arith in
    let rest = held-apart f g w v xs (ground arith) in rw other (omega (arith, rest))

pub held_self :
    (f : Task → ℕ) (g : ℕ → Worker) (w : ℕ) (v : Worker)
    → held f (λ x. if x == w then v else g x) w ≡ total f (maybe (assigned v))
held_self f g w v = rw (==_refl w)

pub held_ne :
    (f : Task → ℕ) (g : ℕ → Worker) (w : ℕ) (v : Worker) (x : ℕ)
    → x ≢ w
    → held f (λ x. if x == w then v else g x) x ≡ held f g x
held_ne f g w v x ne = let other : (x == w) ≡ false = ground arith in rw other

pub held_clear :
    (f : Task → ℕ) (g : ℕ → Worker) (w : ℕ) → (g w).user_callback ≡ none → held f g w ≡ 0
held_clear f g w e = ground arith

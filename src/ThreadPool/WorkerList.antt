-- ===== src/ThreadPool/WorkerList.antt =====
-- The doubly linked worker lists of potato_old/threadPool.c, on an explicit heap of links.
-- A worker struct is named by its index in `worker[]`; NULL is `none`.
pub mod Shape
pub mod Ends
pub mod Create
pub mod Pair
use tidbits.Prelude.{ℕ, zero, suc, ◌+◌, ◌-◌, ◌==◌, if◌then◌else◌, Option, none, some}

-- The `next` and `prev` fields of every worker struct.
pub record Links : Type 0 where
  pub next : ℕ → Option ℕ
  pub prev : ℕ → Option ℕ

-- `struct POThreadPool_workerList`.
pub record WorkerList : Type 0 where
  pub top : Option ℕ
  pub bottom : Option ℕ

-- One field assignment `w->field = v`.
abbrev pub update : (ℕ → Option ℕ) → ℕ → Option ℕ → ℕ → Option ℕ
update f w v x = if x == w then v else f x

unfoldable pub list_push : Links → WorkerList → ℕ → Links × WorkerList
list_push h l w = elim l.top [
  | none ↦ (
    record { next = update h.next w none; prev = update h.prev w none },
    record { top = some w; bottom = some w },
  )
  | some t ↦ (
    record { next = update h.next w (some t); prev = update (update h.prev t (some w)) w none },
    record l { top = some w },
  )
]

-- Unlinks the bottom worker. An outer `none` is a read through a NULL `bottom`.
unfoldable pub list_pull : Links → WorkerList → Option (Option ℕ × Links × WorkerList)
list_pull h l = elim l.top [
  | none ↦ some (none, h, l)
  | some _ ↦ elim l.bottom [
    | none ↦ none
    | some w ↦ elim (h.prev w) [
      | none ↦ some (some w, h, record { top = none; bottom = h.prev w })
      | some p ↦
          some (some w, record h { next = update h.next p none }, record l { bottom = some p })
    ]
  ]
]

unfoldable pub list_pop : Links → WorkerList → Option ℕ × Links × WorkerList
list_pop h l = elim l.top [
  | none ↦ (none, h, l)
  | some w ↦ elim (h.next w) [
    | none ↦ (some w, h, record { top = none; bottom = none })
    | some n ↦ (some w, record h { prev = update h.prev n none }, record l { top = some n })
  ]
]

-- The loop of `poThreadPool_create` over `i`, `rounds` rounds of it left.
unfoldable pub link_workers : ℕ → ℕ → ℕ → Links → WorkerList → Links × WorkerList
link_workers max_threads zero i h l = (h, l)
link_workers max_threads (suc rounds) zero h l =
    link_workers max_threads rounds 1
      (record { next = update h.next (max_threads - 1) none; prev = update h.prev zero none })
      (record { top = some 0; bottom = some (max_threads - 1) })
link_workers max_threads (suc rounds) (suc j) h l =
    link_workers max_threads rounds (suc (suc j))
      (record { next = update h.next j (some (suc j)); prev = update h.prev (suc j) (some j) }) l

-- `memset(p, 0, sizeof(*p))` on the links.
abbrev pub null_links : Links
null_links = record { next = λ _. none; prev = λ _. none }

-- The unused list as `poThreadPool_create` leaves it.
unfoldable pub create_unused : ℕ → Links × WorkerList
unfolding link_workers
create_unused max_threads =
    link_workers max_threads max_threads 0 null_links (record { top = none; bottom = none })

-- ===== src/Server/Queues.antt =====
-- The queues of the server as lists.
use tidbits.Prelude.{
  ℕ, ◌≡◌, refl, sym, subst, ap, ◌==◌, if◌then◌else◌, Bool, Bool-cases, inl, inr, true, false,
  Option, none, some, List, [], ◌∷◌, ◌++◌, arith, ==_iff,
}
use tidbits.Server.{
  update, linked, first_of, last_behind, WaitingQueue, queue_pull, queue_push, ConnectionQueue,
  unused_pop, unused_push,
}
use tidbits.Server.Chain.{mem, Holds, push-Holds, tail-Holds, mem-append}

-- The queue holds the listeners of the list, which are those with the flag `waiting`.
pub record Waits (q : WaitingQueue) (xs : List ℕ) : Type 0 where
  pub holds : Holds q.next q.first q.last xs
  pub flags : (x : ℕ) → q.waiting x ≡ mem x xs

abbrev pushed : WaitingQueue → ℕ → WaitingQueue
pushed q x = record {
  next = linked q.next q.last x;
  waiting = update q.waiting x true;
  first = first_of q.first q.last x;
  last = some x;
}

-- `queuePush` appends a listener that does not wait yet, and leaves one that does in its place.
pub queue_push-Waits :
    (q : WaitingQueue) (xs : List ℕ) (x : ℕ)
    → Waits q xs
    → Waits (queue_push q x) (if mem x xs then xs else xs ++ x ∷ [])
unfolding queue_push
queue_push-Waits q xs x h = elim (Bool-cases (mem x xs)) [
  | inl y ↦
      let same : queue_push q x ≡ q = ground (arith, h.flags x) in
      subst (λ (b : Bool). Waits (queue_push q x) (if b then xs else xs ++ x ∷ [])) (sym y)
        (subst (λ (r : WaitingQueue). Waits r xs) (sym same) h)
  | inr n ↦
      let same : queue_push q x ≡ pushed q x = ground (arith, h.flags x) in
      subst (λ (b : Bool). Waits (queue_push q x) (if b then xs else xs ++ x ∷ [])) (sym n)
        (subst (λ (r : WaitingQueue). Waits r (xs ++ x ∷ [])) (sym same)
          (record {
            holds = push-Holds q.next q.first q.last xs x h.holds n;
            flags = λ z. ground (arith, mem-append z x xs, h.flags z);
          }))
]

flags-pull :
    (w : ℕ → Bool) (x : ℕ) (xs : List ℕ) (z : ℕ)
    → mem x xs ≡ false
    → w z ≡ mem z (x ∷ xs)
    → update w x false z ≡ mem z xs
flags-pull w x xs z n f = elim (Bool-cases (z == x)) [
  | inl y ↦
      let e : mem z xs ≡ mem x xs = ap (λ (i : ℕ). mem i xs) ((==_iff z x).0 y) in ground (arith, e)
  | inr m ↦ ground (arith, f)
]

-- `queuePull` takes the first listener of a queue that is not empty and resets its flag.
pub queue_pull-Waits :
    (q : WaitingQueue) (x : ℕ) (xs : List ℕ)
    → Waits q (x ∷ xs)
    → (q' : WaitingQueue) × (queue_pull q ≡ some q') × Waits q' xs
unfolding queue_pull
queue_pull-Waits q x xs h = (
  record {
    next = q.next;
    waiting = update q.waiting x false;
    first = q.next x;
    last = last_behind (q.next x) q.last;
  },
  ground (arith, h.holds.chain.0),
  record {
    holds = tail-Holds q.next q.first q.last x xs h.holds;
    flags = λ z. flags-pull q.waiting x xs z h.holds.distinct.0 (h.flags z);
  },
)

abbrev pub Unused : ConnectionQueue → List ℕ → Type 0
Unused q xs = Holds q.next q.front q.back xs

-- What comes out of the queue of unused connections, and what is left.
abbrev pub taken : List ℕ → Option ℕ × List ℕ
taken [] = (none, [])
taken (x ∷ xs) = (some x, xs)

-- `unusedPop` takes the first connection, and NULL of an empty queue.
pub unused_pop-Unused :
    (q : ConnectionQueue) (xs : List ℕ)
    → Unused q xs
    → ((unused_pop q).0 ≡ (taken xs).0) × Unused (unused_pop q).1 (taken xs).1
unfolding unused_pop
unused_pop-Unused q [] h =
    let e : unused_pop q ≡ (none, q) = ground (arith, h.chain) in
    subst (λ (r : Option ℕ × ConnectionQueue). (r.0 ≡ none) × Unused r.1 []) (sym e) (refl, h)
unused_pop-Unused q (x ∷ xs) h =
    let q' = record q { front = q.next x; back = last_behind (q.next x) q.back } in
    let e : unused_pop q ≡ (some x, q') = ground (arith, h.chain.0) in
    subst (λ (r : Option ℕ × ConnectionQueue). (r.0 ≡ some x) × Unused r.1 xs) (sym e)
      (refl, tail-Holds q.next q.front q.back x xs h)

-- `unusedPush` appends a connection that is not in the queue.
pub unused_push-Unused :
    (q : ConnectionQueue) (xs : List ℕ) (x : ℕ)
    → Unused q xs
    → mem x xs ≡ false
    → Unused (unused_push q x) (xs ++ x ∷ [])
unfolding unused_push
unused_push-Unused q xs x h m = push-Holds q.next q.front q.back xs x h m

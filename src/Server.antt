-- ===== src/Server.antt =====
-- The queues of potato_old/server.c: the listeners that wait for a free connection, and the unused
-- connections. Listeners and connections are the indices of their arrays.
pub mod Chain
pub mod Queues
pub mod Used
pub mod Connection
pub mod Callbacks
pub mod Events
pub mod Pass
pub mod Setup
pub mod Tests
use tidbits.Prelude.{ℕ, ◌==◌, if◌then◌else◌, Bool, true, false, Option, none, some, List, [], ◌∷◌}

-- `struct POServer_listenerWaitingQueue` with the fields `next` and `waiting` of the listeners.
pub record WaitingQueue : Type 0 where
  pub next : ℕ → Option ℕ
  pub waiting : ℕ → Bool
  pub first : Option ℕ
  pub last : Option ℕ

abbrev pub update : {A : Type 0} → (ℕ → A) → ℕ → A → ℕ → A
update f i v = λ x. if x == i then v else f x

-- The `last` of a queue without a `first` is reset.
abbrev pub last_behind : Option ℕ → Option ℕ → Option ℕ
last_behind none last = none
last_behind (some x) last = last

-- `queuePull`. `none` is a read through a NULL pointer.
unfoldable pub queue_pull : WaitingQueue → Option WaitingQueue
queue_pull q = elim q.first [
  | none ↦ none
  | some x ↦ some (record {
    next = q.next;
    waiting = update q.waiting x false;
    first = q.next x;
    last = last_behind (q.next x) q.last;
  })
]

-- The link that a new last element gets, and the one that leads to it.
abbrev pub linked : (ℕ → Option ℕ) → Option ℕ → ℕ → ℕ → Option ℕ
linked next none x = update next x none
linked next (some l) x = update (update next x none) l (some x)

abbrev pub first_of : Option ℕ → Option ℕ → ℕ → Option ℕ
first_of first none x = some x
first_of first (some l) x = first

-- `queuePush`.
unfoldable pub queue_push : WaitingQueue → ℕ → WaitingQueue
queue_push q x = if q.waiting x then q else record {
  next = linked q.next q.last x;
  waiting = update q.waiting x true;
  first = first_of q.first q.last x;
  last = some x;
}

-- `struct POServer_connectionQueue` with the field `next` of the connections.
pub record ConnectionQueue : Type 0 where
  pub next : ℕ → Option ℕ
  pub front : Option ℕ
  pub back : Option ℕ

unfoldable pub unused_pop : ConnectionQueue → Option ℕ × ConnectionQueue
unused_pop q = elim q.front [
  | none ↦ (none, q)
  | some x ↦ (some x, record q { front = q.next x; back = last_behind (q.next x) q.back })
]

unfoldable pub unused_push : ConnectionQueue → ℕ → ConnectionQueue
unused_push q x = record {
  next = linked q.next q.back x;
  front = first_of q.front q.back x;
  back = some x;
}

-- ===== src/Server/Connection/Run.antt =====
-- A server from `poServer_create` of potato_old/server.c on: connections are opened and removed in any order.
use tidbits.Prelude.{
  ℕ, zero, suc, ◌+◌, ◌≤◌, ◌≡◌, refl, sym, subst, ap, ◌==◌, if◌then◌else◌, Bool, Bool-cases, inl,
  inr, true, false, Option, none, some, List, [], ◌∷◌, ◌++◌, length, arith, ==_iff, append_assoc,
  append-nil,
}
use tidbits.Server.{ConnectionQueue, unused_push}
use tidbits.Server.Chain.{mem, mem-append}
use tidbits.Server.Queues.{Unused, unused_push-Unused}
use tidbits.Server.Connection.{Connection, Server, remove_connection, add_connection}
use tidbits.Server.Connection.Held.{occurrences, held}
use tidbits.Server.Connection.Open.{is_open, Open}

abbrev pub closed_connection : Connection
closed_connection = record {
  fd = none;
  read_callback = none;
  write_callback = none;
  cleanup_callback = none;
  read_ready = false;
  write_ready = false;
}

-- The loop of `poServer_create`, from connection `i` on.
unfoldable pub push_all : ℕ → ℕ → ConnectionQueue → ConnectionQueue
push_all zero i q = q
push_all (suc n) i q = push_all n (i + 1) (unused_push q i)

abbrev pub empty_queue : ConnectionQueue
empty_queue = record { next = λ c. none; front = none; back = none }

-- `poServer_create` with `n` connections. All calls succeed.
abbrev pub create : ℕ → Server
create n = record {
  lists = record { prev = λ c. none; first = none; last = none; unused = push_all n 0 empty_queue };
  conn = λ c. closed_connection;
  cleaned = [];
  closed = [];
  ended = false;
}

-- A descriptor that `accept` returned goes to `addConnection`, with what the two system calls there
-- say, or an open connection is removed.
pub data Event : Type 0 where
  accepted : ℕ → ℕ → Bool → Bool → Event
  removal : ℕ → Event

abbrev pub second : {A B : Type 0} → Option (A × B) → Option B
second none = none
second (some (a, b)) = some b

-- `none` is an event that cannot happen, an access through a NULL pointer, or the end of the process.
unfoldable pub step : Server → Event → Option Server
step s (accepted fd callback nonblocking polled) =
    second (add_connection s fd callback nonblocking polled)
step s (removal c) = if is_open (s.conn c).fd then some (remove_connection s c) else none

unfoldable pub run : List Event → Server → Option Server
run [] s = some s
run (e ∷ es) s = elim (step s e) [ none ↦ none | some s' ↦ run es s' ]

-- The descriptors that came from `accept`.
abbrev pub arrivals : List Event → List ℕ
arrivals [] = []
arrivals (accepted fd callback nonblocking polled ∷ es) = fd ∷ arrivals es
arrivals (removal c ∷ es) = arrivals es

abbrev pub range : ℕ → ℕ → List ℕ
range zero i = []
range (suc n) i = i ∷ range n (i + 1)

pub length-range : (n i : ℕ) → length (range n i) ≡ n
length-range zero i = refl
length-range (suc n) i = ap suc (length-range n (i + 1))

push_all-Unused :
    (n i : ℕ) (q : ConnectionQueue) (xs : List ℕ)
    → Unused q xs
    → ((z : ℕ) → i ≤ z → mem z xs ≡ false)
    → Unused (push_all n i q) (xs ++ range n i)
unfolding push_all
push_all-Unused zero i q xs h b = subst (Unused q) (sym (append-nil xs)) h
push_all-Unused (suc n) i q xs h b =
    subst (Unused (push_all n (i + 1) (unused_push q i)))
      (append_assoc xs (i ∷ []) (range n (i + 1)))
      (push_all-Unused n (i + 1) (unused_push q i) (xs ++ i ∷ [])
        (unused_push-Unused q xs i h (b i (omega arith)))
        (λ z l. ground (arith, mem-append z i xs, b z (omega arith))))

pub create-Open : (n : ℕ) → Open (create n) [] (range n 0)
create-Open n = record {
  lists = record {
    used = refl;
    ends = refl;
    unused =
        push_all-Unused n 0 empty_queue []
          (record { chain = refl; ends = refl; distinct = record {} }) (λ z l. refl);
    distinct = record {};
    apart = λ z h. absurd (ground arith);
  };
  descriptors = λ z. refl;
  running = refl;
}

-- The lists of the connections, and the account of the descriptors: each one that arrived is closed or
-- in use, as often as it arrived.
pub record Sound (n : ℕ) (arrived : List ℕ) (s : Server) : Type 0 where
  pub used : List ℕ
  pub free : List ℕ
  pub is_kept : Open s used free
  pub all : length used + length free ≡ n
  pub account : (z : ℕ) → occurrences z s.closed + held z s.conn used ≡ occurrences z arrived

pub mem_split :
    (c : ℕ) (us : List ℕ) → mem c us ≡ true → (xs : List ℕ) × (ys : List ℕ) × (us ≡ xs ++ c ∷ ys)
mem_split c [] m = absurd (ground arith)
mem_split c (u ∷ us) m = elim (Bool-cases (c == u)) [
  | inl y ↦ ([], us, ap (λ (x : ℕ). x ∷ us) (sym ((==_iff c u).0 y)))
  | inr n ↦
      let (xs, ys, e) = mem_split c us (ground arith) in (u ∷ xs, ys, ap (λ (l : List ℕ). u ∷ l) e)
]

pub open_has_fd : (o : Option ℕ) → is_open o ≡ true → (fd : ℕ) × (o ≡ some fd)
open_has_fd none h = absurd (ground arith)
open_has_fd (some fd) h = (fd, refl)

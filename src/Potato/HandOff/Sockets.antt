-- ===== src/Potato/HandOff/Sockets.antt =====
-- `_poTato_findListenerFd` and `_poTato_handoffCleanup` of potato_old/potato.c: each socket of a hand-off
-- becomes a listener or is closed.
use Prim.{Unit}
use tidbits.Prelude.{
  ℕ, suc, ◌+◌, ◌*◌, ◌≡◌, refl, ◌==◌, ◌||◌, ◌&&◌, if◌then◌else◌, Bool-cases, inl, inr, true, false,
  Option, Option-cases, none, some, List, [], ◌∷◌, ◌++◌, arith, ◌⊎◌, ==_refl,
}
use tidbits.Potato.Options.{equal}

-- `struct POTato_handoffSockets`, where the descriptor -1 is `none`.
pub record HandoffSlot : Type 0 where
  pub addr : List ℕ
  pub fd : Option ℕ

-- `getPort`: for AF_INET and AF_INET6 the two bytes behind the family.
unfoldable pub get_port : List ℕ → ℕ
get_port (f ∷ g ∷ h ∷ l ∷ addr) = if (f == 2 || f == 10) && g == 0 then 256 * h + l else 0
get_port [] = 0
get_port (f ∷ []) = 0
get_port (f ∷ g ∷ []) = 0
get_port (f ∷ g ∷ h ∷ []) = 0

-- What `_poTato_findListenerFd` returns, with the slots and the descriptors that it closes.
pub record Found : Type 0 where
  pub fd : Option ℕ
  pub slots : List HandoffSlot
  pub closed : List ℕ

abbrev pub used_slot : HandoffSlot → HandoffSlot
used_slot s = record s { fd = none }

abbrev pub later : HandoffSlot → Found → Found
later s r = record r { slots = s ∷ r.slots }

-- A slot with a descriptor and the port of the address.
abbrev pub taken_slot : List ℕ → HandoffSlot → ℕ → List HandoffSlot → Found
taken_slot addr s fd ss =
    if equal s.addr addr
    then record { fd = some fd; slots = used_slot s ∷ ss; closed = [] }
    else record { fd = none; slots = used_slot s ∷ ss; closed = fd ∷ [] }

-- `_poTato_findListenerFd`.
unfoldable pub find_listener_fd : List ℕ → List HandoffSlot → Found
find_listener_fd addr [] = record { fd = none; slots = []; closed = [] }
find_listener_fd addr (s ∷ ss) = elim s.fd [
  | none ↦ later s (find_listener_fd addr ss)
  | some fd ↦
      let rest = later s (find_listener_fd addr ss) in
      if get_port s.addr == get_port addr then taken_slot addr s fd ss else rest
]

-- The descriptors that `_poTato_handoffCleanup` closes.
unfoldable pub handoff_cleanup : List HandoffSlot → List ℕ
handoff_cleanup [] = []
handoff_cleanup (s ∷ ss) = elim s.fd [
  | none ↦ handoff_cleanup ss
  | some fd ↦ fd ∷ handoff_cleanup ss
]

abbrev pub none_or : Option ℕ → List ℕ
none_or none = []
none_or (some fd) = fd ∷ []

abbrev pub count : ℕ → List ℕ → ℕ
count z [] = 0
count z (x ∷ xs) = if z == x then suc (count z xs) else count z xs

pub count-append : (z : ℕ) (xs ys : List ℕ) → count z (xs ++ ys) ≡ count z xs + count z ys
count-append z [] ys = omega arith
count-append z (x ∷ xs) ys = ground (arith, count-append z xs ys)

-- A search neither loses nor doubles a descriptor.
pub find_listener_fd-count :
    (z : ℕ) (addr : List ℕ) (ss : List HandoffSlot)
    → let r = find_listener_fd addr ss in
      count z (handoff_cleanup ss)
      ≡ count z (none_or r.fd) + count z r.closed + count z (handoff_cleanup r.slots)
unfolding find_listener_fd handoff_cleanup
find_listener_fd-count z addr [] = refl
find_listener_fd-count z addr (s ∷ ss) = elim (Option-cases s.fd) [
  | inl e ↦ ground (arith, e, find_listener_fd-count z addr ss)
  | inr (fd, e) ↦ ground (
    arith,
    e,
    Bool-cases (get_port s.addr == get_port addr),
    Bool-cases (equal s.addr addr),
    find_listener_fd-count z addr ss,
  )
]

-- No slot of the list that has a descriptor has this port.
abbrev pub OtherPorts : List ℕ → List HandoffSlot → Type 0
OtherPorts addr [] = Unit
OtherPorts addr (s ∷ ss) =
    ((s.fd ≡ none) ⊎ ((get_port s.addr == get_port addr) ≡ false)) × OtherPorts addr ss

pub equal_refl : (s : List ℕ) → equal s s ≡ true
equal_refl [] = refl
equal_refl (c ∷ s) = ground (arith, ==_refl c, equal_refl s)

-- A socket with the address is found behind slots that are used or have another port; nothing is closed.
pub find_listener_fd-finds :
    (addr : List ℕ) (fd : ℕ) (xs ys : List HandoffSlot)
    → OtherPorts addr xs
    → find_listener_fd addr (xs ++ record { addr = addr; fd = some fd } ∷ ys)
      ≡ record { fd = some fd; slots = xs ++ record { addr = addr; fd = none } ∷ ys; closed = [] }
unfolding find_listener_fd
find_listener_fd-finds addr fd [] ys o = ground (arith, ==_refl (get_port addr), equal_refl addr)
find_listener_fd-finds addr fd (x ∷ xs) ys o =
    let ih = find_listener_fd-finds addr fd xs ys o.1 in
    elim o.0 [ inl e ↦ ground (arith, e, ih) | inr m ↦ ground (arith, m, Option-cases x.fd, ih) ]

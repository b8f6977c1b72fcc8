-- ===== src/Server/Setup/Account.antt =====
-- Where the descriptors of `poServer_listenerSetup` of potato_old/server.c stay.
use tidbits.Prelude.{
  ℕ, ◌+◌, ◌≡◌, refl, sym, subst, ap, ◌∙◌, ◌==◌, if◌then◌else◌, if_cases, Bool, Bool-cases, inl, inr,
  true, false, ◌&&◌, Option, none, some, List, [], ◌∷◌, ◌++◌, length, length-append, ◌<◌, ◌⊎◌,
  ==_iff, arith,
}
use tidbits.Potato.HandOff.Sockets.{
  HandoffSlot, find_listener_fd, handoff_cleanup, none_or, count, count-append,
  find_listener_fd-count,
}
use tidbits.Server.Setup.{
  Setup, SetupCalls, failing, listening_at, all_set_up, start_listening, open_socket, with_socket,
  searched, listener_setup,
}

abbrev pub fds : List (ℕ × ℕ) → List ℕ
fds [] = []
fds ((fd, callback) ∷ ls) = fd ∷ fds ls

-- How often a descriptor stands in a listener, in a socket of the hand-off, or among the closed ones.
abbrev pub held : ℕ → Setup → ℕ
held z s = count z (fds s.listeners) + count z (handoff_cleanup s.slots) + count z s.closed

count-fds-append :
    (z fd callback : ℕ) (ls : List (ℕ × ℕ))
    → count z (fds (ls ++ (fd, callback) ∷ [])) ≡ count z (fds ls) + count z (fd ∷ [])
count-fds-append z fd callback [] = omega arith
count-fds-append z fd callback ((f, c) ∷ ls) = ground (arith, count-fds-append z fd callback ls)

failing-held :
    (z : ℕ) (s : Setup) (o : Option ℕ) → held z (failing s o).1 ≡ held z s + count z (none_or o)
failing-held z s none = omega arith
failing-held z s (some fd) = omega (arith, count-append z s.closed (fd ∷ []))

all_set_up-held : (z : ℕ) (s : Setup) → held z (all_set_up s) ≡ held z s
unfolding handoff_cleanup
all_set_up-held z s = omega (arith, count-append z s.closed (handoff_cleanup s.slots))

start_listening-held :
    (z max : ℕ) (calls : SetupCalls) (callback : ℕ) (s : Setup) (fd : ℕ)
    → held z (start_listening max calls callback s fd).1 ≡ held z s + count z (fd ∷ [])
start_listening-held z max calls callback s fd =
    let s' = listening_at s fd callback in
    let more : held z s' ≡ held z s + count z (fd ∷ []) =
      omega (arith, count-fds-append z fd callback s.listeners) in
    if_cases (λ (r : Bool × Setup). held z r.1 ≡ held z s + count z (fd ∷ []))
      (calls.listen && calls.epoll)
      (λ y.
        if_cases (λ (r : Setup). held z r ≡ held z s + count z (fd ∷ []))
          (length s'.listeners == max) (λ y. all_set_up-held z s' ∙ more) (λ n. more))
      (λ n. failing-held z s (some fd))

open_socket-held :
    (z max : ℕ) (calls : SetupCalls) (callback : ℕ) (s : Setup) (o : Option ℕ)
    → held z (open_socket max calls callback s o).1 ≡ held z s + count z (none_or o)
open_socket-held z max calls callback s none = failing-held z s none
open_socket-held z max calls callback s (some fd) =
    if_cases (λ (r : Bool × Setup). held z r.1 ≡ held z s + count z (fd ∷ []))
      (calls.setsockopt && calls.nonblocking && calls.bind)
      (λ y. start_listening-held z max calls callback s fd) (λ n. failing-held z s (some fd))

-- The descriptor that `socket` returned, if it was called.
abbrev pub socket_for : SetupCalls → Option ℕ → List ℕ
socket_for calls none = none_or calls.socket
socket_for calls (some fd) = []

abbrev pub opened : SetupCalls → List ℕ → Setup → List ℕ
opened calls addr s =
    if calls.address then socket_for calls (find_listener_fd addr s.slots).fd else []

with_socket-held :
    (z max : ℕ) (calls : SetupCalls) (callback : ℕ) (s : Setup) (o : Option ℕ)
    → held z (with_socket max calls callback s o).1
      ≡ held z s + count z (none_or o) + count z (socket_for calls o)
with_socket-held z max calls callback s none =
    omega (arith, open_socket-held z max calls callback s calls.socket)
with_socket-held z max calls callback s (some fd) =
    omega (arith, start_listening-held z max calls callback s fd)

searched-held :
    (z : ℕ) (addr : List ℕ) (s : Setup)
    → held z (searched s (find_listener_fd addr s.slots))
        + count z (none_or (find_listener_fd addr s.slots).fd)
      ≡ held z s
searched-held z addr s =
    let r = find_listener_fd addr s.slots in
    omega (arith, count-append z s.closed r.closed, find_listener_fd-count z addr s.slots)

pub listener_setup-held :
    (z max : ℕ) (calls : SetupCalls) (addr : List ℕ) (callback : ℕ) (s : Setup)
    → held z (listener_setup max calls addr callback s).1 ≡ held z s + count z (opened calls addr s)
unfolding listener_setup
listener_setup-held z max calls addr callback s = elim (Bool-cases calls.address) [
  | inl y ↦
      let r = find_listener_fd addr s.slots in
      let went : (listener_setup max calls addr callback s).1
          ≡ (with_socket max calls callback (searched s r) r.fd).1 =
        ground (arith, y) in
      let new : count z (opened calls addr s) ≡ count z (socket_for calls r.fd) =
        ground (arith, y) in
      ap (held z) went
      ∙ omega (
        arith,
        with_socket-held z max calls callback (searched s r) r.fd,
        searched-held z addr s,
        new,
      )
  | inr n ↦
      let went : (listener_setup max calls addr callback s).1 ≡ s = ground (arith, n) in
      let new : count z (opened calls addr s) ≡ 0 = ground (arith, n) in
      ap (held z) went ∙ omega (arith, new)
]

-- Listeners are missing, or the server runs with all of them and without a socket of the hand-off.
abbrev pub Progress : ℕ → Setup → Type 0
Progress max s =
    ((length s.listeners < max) × (s.is_running ≡ false))
    ⊎ ((length s.listeners ≡ max) × (s.is_running ≡ true) × (s.slots ≡ []))

start_listening-Progress :
    (max : ℕ) (calls : SetupCalls) (callback : ℕ) (s : Setup) (fd : ℕ)
    → length s.listeners < max
    → s.is_running ≡ false
    → Progress max (start_listening max calls callback s fd).1
start_listening-Progress max calls callback s fd h r =
    let s' = listening_at s fd callback in
    let longer : length s'.listeners ≡ length s.listeners + 1 =
      length-append s.listeners ((fd, callback) ∷ []) in
    if_cases (λ (o : Bool × Setup). Progress max o.1) (calls.listen && calls.epoll)
      (λ y.
        if_cases (Progress max) (length s'.listeners == max)
          (λ e. inr ((==_iff (length s'.listeners) max).0 e, refl, refl))
          (λ n. inl (ground (arith, longer), r)))
      (λ n. inl (h, r))

open_socket-Progress :
    (max : ℕ) (calls : SetupCalls) (callback : ℕ) (s : Setup) (o : Option ℕ)
    → length s.listeners < max
    → s.is_running ≡ false
    → Progress max (open_socket max calls callback s o).1
open_socket-Progress max calls callback s none h r = inl (h, r)
open_socket-Progress max calls callback s (some fd) h r =
    if_cases (λ (o : Bool × Setup). Progress max o.1)
      (calls.setsockopt && calls.nonblocking && calls.bind)
      (λ y. start_listening-Progress max calls callback s fd h r) (λ n. inl (h, r))

with_socket-Progress :
    (max : ℕ) (calls : SetupCalls) (callback : ℕ) (s : Setup) (o : Option ℕ)
    → length s.listeners < max
    → s.is_running ≡ false
    → Progress max (with_socket max calls callback s o).1
with_socket-Progress max calls callback s none h r =
    open_socket-Progress max calls callback s calls.socket h r
with_socket-Progress max calls callback s (some fd) h r =
    start_listening-Progress max calls callback s fd h r

pub listener_setup-Progress :
    (max : ℕ) (calls : SetupCalls) (addr : List ℕ) (callback : ℕ) (s : Setup)
    → length s.listeners < max
    → s.is_running ≡ false
    → Progress max (listener_setup max calls addr callback s).1
unfolding listener_setup
listener_setup-Progress max calls addr callback s h r =
    let f = find_listener_fd addr s.slots in
    if_cases (λ (o : Bool × Setup). Progress max o.1) calls.address
      (λ y. with_socket-Progress max calls callback (searched s f) f.fd h r) (λ n. inl (h, r))

-- One call of `poServer_listenerSetup`.
pub record SetupCall : Type 0 where
  pub calls : SetupCalls
  pub addr : List ℕ
  pub callback : ℕ

-- Calls while listeners are missing; a failed one may be tried again. The descriptors that `socket`
-- returned, and the state.
unfoldable pub set_up : ℕ → List SetupCall → Setup → List ℕ × Setup
set_up max [] s = ([], s)
set_up max (c ∷ cs) s =
    let (more, s') = set_up max cs (listener_setup max c.calls c.addr c.callback s).1 in
    elim s.is_running [ true ↦ ([], s) | false ↦ (opened c.calls c.addr s ++ more, s') ]

set_up-held :
    (z max : ℕ) (cs : List SetupCall) (s : Setup)
    → held z (set_up max cs s).1 ≡ held z s + count z (set_up max cs s).0
unfolding set_up
set_up-held z max [] s = omega arith
set_up-held z max (c ∷ cs) s =
    let v = (listener_setup max c.calls c.addr c.callback s).1 in
    let more = (set_up max cs v).0 in
    ground (
      arith,
      Bool-cases s.is_running,
      set_up-held z max cs v,
      listener_setup-held z max c.calls c.addr c.callback s,
      count-append z (opened c.calls c.addr s) more,
    )

set_up-Progress :
    (max : ℕ) (cs : List SetupCall) (s : Setup) → Progress max s → Progress max (set_up max cs s).1
unfolding set_up
set_up-Progress max [] s p = p
set_up-Progress max (c ∷ cs) s (inr p) =
    let same : (set_up max (c ∷ cs) s).1 ≡ s = ground (arith, p.1) in
    subst (Progress max) (sym same) (inr p)
set_up-Progress max (c ∷ cs) s (inl p) =
    let v = (listener_setup max c.calls c.addr c.callback s).1 in
    let same : (set_up max (c ∷ cs) s).1 ≡ (set_up max cs v).1 = ground (arith, p.1) in
    subst (Progress max) (sym same)
      (set_up-Progress max cs v (listener_setup-Progress max c.calls c.addr c.callback s p.0 p.1))

-- Before the first listener is set up.
abbrev pub not_set_up : List HandoffSlot → Setup
not_set_up slots = record { listeners = []; is_running = false; slots = slots; closed = [] }

-- Calls of `poServer_listenerSetup` in a server that needs a listener at least, whatever the system says:
-- the server runs exactly when it has all its listeners, and then no socket of the hand-off is left; each
-- descriptor that came with the hand-off or from `socket` is in a listener, closed, or still in the
-- hand-off, as often as it came.
pub set_up_accounts :
    (z max : ℕ) (cs : List SetupCall) (slots : List HandoffSlot)
    → 0 < max
    → Progress max (set_up max cs (not_set_up slots)).1
      × (held z (set_up max cs (not_set_up slots)).1
          ≡ count z (handoff_cleanup slots) + count z (set_up max cs (not_set_up slots)).0)
set_up_accounts z max cs slots h = (
  set_up-Progress max cs (not_set_up slots) (inl (h, refl)),
  omega (arith, set_up-held z max cs (not_set_up slots)),
)

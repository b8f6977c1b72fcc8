-- ===== src/Server/Setup.antt =====
-- `poServer_listenerSetup` of potato_old/server.c, with the sockets of a hand-off. A failing
-- call goes on with the lines behind its assertion.
pub mod Account
use tidbits.Prelude.{
  ℕ, zero, suc, ◌+◌, ◌≡◌, refl, ◌==◌, if◌then◌else◌, Bool, true, false, ◌&&◌, Option, none, some,
  List, [], ◌∷◌, ◌++◌, length,
}
use tidbits.Potato.HandOff.Sockets.{HandoffSlot, Found, find_listener_fd, handoff_cleanup}

-- The listeners that are set up, with their callbacks, `isRunning`, `po.handoffSockets` and the
-- descriptors that were closed, oldest first.
pub record Setup : Type 0 where
  pub listeners : List (ℕ × ℕ)
  pub is_running : Bool
  pub slots : List HandoffSlot
  pub closed : List ℕ

-- What the calls say, `true` where they succeed: `poUtil_setAddress`, `socket`, `setsockopt`,
-- `setNonblocking`, `bind`, `listen` and `_poServer_addListenerToEpoll`.
pub record SetupCalls : Type 0 where
  pub address : Bool
  pub socket : Option ℕ
  pub setsockopt : Bool
  pub nonblocking : Bool
  pub bind : Bool
  pub listen : Bool
  pub epoll : Bool

-- The label `fail`, with the descriptor, if there is one: `true` is an error.
abbrev pub failing : Setup → Option ℕ → Bool × Setup
failing s none = (true, s)
failing s (some fd) = (true, record s { closed = s.closed ++ fd ∷ [] })

abbrev pub listening_at : Setup → ℕ → ℕ → Setup
listening_at s fd callback = record s { listeners = s.listeners ++ (fd, callback) ∷ [] }

-- `_poTato_handoffCleanup`, and the server runs.
abbrev pub all_set_up : Setup → Setup
all_set_up s = record s {
  is_running = true;
  slots = [];
  closed = s.closed ++ handoff_cleanup s.slots;
}

-- The end of `poServer_listenerSetup`, from `listen` on. `max` is PO_SERVER_NUM_LISTENERS.
abbrev pub start_listening : ℕ → SetupCalls → ℕ → Setup → ℕ → Bool × Setup
start_listening max calls callback s fd =
    let s' = listening_at s fd callback in
    if calls.listen && calls.epoll
    then (false, if length s'.listeners == max then all_set_up s' else s')
    else failing s (some fd)

-- A new socket, where none of the hand-off fits.
abbrev pub open_socket : ℕ → SetupCalls → ℕ → Setup → Option ℕ → Bool × Setup
open_socket max calls callback s none = failing s none
open_socket max calls callback s (some fd) =
    if calls.setsockopt && calls.nonblocking && calls.bind
    then start_listening max calls callback s fd
    else failing s (some fd)

abbrev pub with_socket : ℕ → SetupCalls → ℕ → Setup → Option ℕ → Bool × Setup
with_socket max calls callback s none = open_socket max calls callback s calls.socket
with_socket max calls callback s (some fd) = start_listening max calls callback s fd

-- What `_poTato_findListenerFd` leaves.
abbrev pub searched : Setup → Found → Setup
searched s r = record s { slots = r.slots; closed = s.closed ++ r.closed }

-- `poServer_listenerSetup` for an address.
unfoldable pub listener_setup : ℕ → SetupCalls → List ℕ → ℕ → Setup → Bool × Setup
listener_setup max calls addr callback s =
    let r = find_listener_fd addr s.slots in
    if calls.address then with_socket max calls callback (searched s r) r.fd else (true, s)

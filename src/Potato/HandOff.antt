-- ===== src/Potato/HandOff.antt =====
-- The hand-off of listening sockets in potato_old/potato.c: `passListeners`, the signal to continue, and
-- `poTato_signalHandOff`, with `sendFd` and `recvFd`.
pub mod Received
pub mod Sockets
use tidbits.Prelude.{
  ℕ, zero, suc, ◌+◌, ◌*◌, ◌/◌, ◌%◌, ◌^◌, ◌≡◌, refl, ◌==◌, if◌then◌else◌, Bool, true, false, not,
  ◌&&◌, ◌||◌, Option, none, some, List, [], ◌∷◌, ◌++◌, length,
}
use tidbits.Potato.Transfer.{Item, byte, descriptor, Transferred, got, broken, writen, readn, plain}

-- `struct POTato_handoffSockets`: the bytes of an address, and the descriptor.
pub record HandoffSocket : Type 0 where
  pub addr : List ℕ
  pub fd : ℕ

-- What `passListeners` reads of a server: its listeners are those below `num_listeners`.
pub record Listening : Type 0 where
  pub num_listeners : ℕ
  pub listener : ℕ → HandoffSocket

-- What a function has sent: whether it failed, the items, and the answers that are left.
abbrev pub Sent : Type 0
Sent = Option (Bool × List Item × List Transferred)

abbrev pub of_writen : Option (Bool × List ℕ × List Transferred) → Sent
of_writen none = none
of_writen (some (failed, bs, left)) = some (failed, plain bs, left)

abbrev pub before : List Item → Sent → Sent
before items none = none
before items (some (failed, more, left)) = some (failed, items ++ more, left)

-- The second part is sent if the first did not fail.
abbrev pub then_send : Sent → (List Transferred → Sent) → Sent
then_send none f = none
then_send (some (true, items, left)) f = some (true, items, left)
then_send (some (false, items, left)) f = before items (f left)

-- `sendFd`.
abbrev pub send_fd : ℕ → List Transferred → Sent
send_fd fd [] = none
send_fd fd (got k ∷ answers) = some (false, descriptor fd ∷ [], answers)
send_fd fd (broken ∷ answers) = some (true, [], answers)

-- A `uint32_t` in the memory of a little-endian machine.
abbrev pub u32_bytes : ℕ → List ℕ
u32_bytes n = n % 256 ∷ (n / 256) % 256 ∷ (n / 65536) % 256 ∷ (n / 16777216) % 256 ∷ []

abbrev pub from_bytes : List ℕ → ℕ
from_bytes [] = 0
from_bytes (b ∷ bs) = b + 256 * from_bytes bs

-- The inner loop of `passListeners`, for the listeners below `i`, the last one first.
unfoldable pub send_listeners : (ℕ → HandoffSocket) → ℕ → List Transferred → Sent
send_listeners listener zero answers = some (false, [], answers)
send_listeners listener (suc i) answers =
    then_send (of_writen (writen answers (listener i).addr))
      (λ left. then_send (send_fd (listener i).fd left) (send_listeners listener i))

-- The outer loop.
unfoldable pub send_servers : List Listening → List Transferred → Sent
send_servers [] answers = some (false, [], answers)
send_servers (s ∷ ss) answers =
    then_send (send_listeners s.listener s.num_listeners answers) (send_servers ss)

-- The number of listeners of all servers.
abbrev pub num_listeners : List Listening → ℕ
num_listeners [] = 0
num_listeners (s ∷ ss) = s.num_listeners + num_listeners ss

-- `passListeners` on the connected socket.
unfoldable pub pass_listeners : List Listening → List Transferred → Sent
pass_listeners ss answers =
    then_send (of_writen (writen answers (u32_bytes (num_listeners ss % 2 ^ 32)))) (send_servers ss)

-- END_CHAR.
abbrev pub end_char : ℕ
end_char = 101

abbrev pub all_down : List Bool → Bool
all_down [] = true
all_down (down ∷ downs) = down && all_down downs

-- `_poTato_checkSignalNewServerContinue`, for the flags `listenersDown` of the servers: what it sends,
-- and the socket that it leaves in `po.shutdownFd`.
unfoldable pub check_signal_continue :
    Option ℕ → List Bool → List Transferred → Option (List Item × Option ℕ)
check_signal_continue none downs answers = some ([], none)
check_signal_continue (some fd) downs answers =
    if all_down downs
    then (elim (writen answers (end_char ∷ [])) [
      | none ↦ none
      | some (failed, bs, left) ↦ some (plain bs, none)
    ])
    else some ([], some fd)

-- `recvFd`: the descriptor, `none` for -1. An outer `none` is a list of answers that is too short, or
-- a stream without a message.
abbrev pub recv_fd : List Transferred → List Item → Option (Option ℕ × List Transferred × List Item)
recv_fd [] items = none
recv_fd (broken ∷ answers) items = some (none, answers, items)
recv_fd (got k ∷ answers) [] = none
recv_fd (got k ∷ answers) (byte b ∷ items) = some (none, answers, items)
recv_fd (got k ∷ answers) (descriptor fd ∷ items) = some (some fd, answers, items)

-- What was received: whether it failed, the value, and the answers and the stream that are left.
abbrev pub Received : Type 0 → Type 0
Received A = Option (Bool × A × List Transferred × List Item)

-- `sizeof(struct sockaddr)`.
abbrev pub sockaddr_size : ℕ
sockaddr_size = 16

abbrev pub with_address :
    List ℕ
    → Option (Option ℕ × List Transferred × List Item)
    → (List Transferred → List Item → Received (List HandoffSocket))
    → Received (List HandoffSocket)
with_address addr none f = none
with_address addr (some (none, answers, items)) f = some (true, [], answers, items)
with_address addr (some (some fd, answers, items)) f = elim (f answers items) [
  | none ↦ none
  | some (failed, more, left, behind) ↦
      some (failed, record { addr = addr; fd = fd } ∷ more, left, behind)
]

-- The loop of `poTato_signalHandOff` for `n` listeners.
unfoldable pub receive_listeners : ℕ → List Transferred → List Item → Received (List HandoffSocket)
receive_listeners zero answers items = some (false, [], answers, items)
receive_listeners (suc n) answers items = elim (readn answers sockaddr_size items) [
  | none ↦ none
  | some (failed, addr, left, behind) ↦ elim failed [
    | true ↦ some (true, [], left, behind)
    | false ↦ with_address addr (recv_fd left behind) (receive_listeners n)
  ]
]

-- The wait for the old server's signal: an error, or no error.
unfoldable pub wait_for_signal : List Transferred → List Item → Option Bool
wait_for_signal answers items = elim (readn answers 1 items) [
  | none ↦ none
  | some (failed, bs, left, behind) ↦ elim bs [
    | [] ↦ some true
    | c ∷ cs ↦ some (failed || not (c == end_char))
  ]
]

-- The end of `poTato_signalHandOff`, behind the loop: whether it failed, and `po.handoffSockets`.
abbrev pub received :
    List HandoffSocket → Bool → Received (List HandoffSocket) → Option (Bool × List HandoffSocket)
received old shut none = none
received old shut (some (true, sockets, answers, items)) = some (true, old)
received old false (some (false, sockets, answers, items)) = some (false, old ++ sockets)
received old true (some (false, sockets, answers, items)) = elim (wait_for_signal answers items) [
  | none ↦ none
  | some failed ↦ some (failed, old ++ sockets)
]

-- `poTato_signalHandOff` on the accepted socket. `old` are the first `po.numListeners` sockets that came
-- from earlier calls.
unfoldable pub signal_hand_off :
    List HandoffSocket → Bool → List Transferred → List Item → Option (Bool × List HandoffSocket)
signal_hand_off old shut answers items = elim (readn answers 4 items) [
  | none ↦ none
  | some (failed, bs, left, behind) ↦ elim failed [
    | true ↦ some (true, old)
    | false ↦ received old shut (receive_listeners (from_bytes bs) left behind)
  ]
]

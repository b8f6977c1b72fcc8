-- ===== src/Potato/HandOff/Received.antt =====
-- A new server of potato_old/potato.c receives the listening sockets that an old one passes.
use tidbits.Prelude.{
  ℕ, zero, suc, ◌+◌, ◌*◌, ◌%◌, ◌^◌, ◌≤◌, ◌<◌, ◌≡◌, refl, sym, ap, ◌∙◌, Bool, true, false, Option,
  none, some, List, [], ◌∷◌, ◌++◌, length, arith, append_assoc, length-append, append-nil, not,
  ◌||◌, ◌==◌,
}
use Prim.{Unit}
use tidbits.Potato.Transfer.{
  Item, byte, descriptor, Transferred, got, broken, writen, readn, plain, Enough, writen_returns,
  readn_returns,
}
use tidbits.Potato.HandOff.{
  HandoffSocket, Listening, Sent, of_writen, before, then_send, send_fd, u32_bytes, from_bytes,
  send_listeners, send_servers, num_listeners, pass_listeners, end_char, recv_fd, sockaddr_size,
  with_address, receive_listeners, wait_for_signal, received, signal_hand_off,
}

-- The sockets below `i`, the last one first.
abbrev pub down_from : (ℕ → HandoffSocket) → ℕ → List HandoffSocket
down_from listener zero = []
down_from listener (suc i) = listener i ∷ down_from listener i

-- All sockets, in the order in which they are passed.
abbrev pub passed : List Listening → List HandoffSocket
passed [] = []
passed (s ∷ ss) = down_from s.listener s.num_listeners ++ passed ss

abbrev stream_of : List HandoffSocket → List Item
stream_of [] = []
stream_of (s ∷ ss) = plain s.addr ++ descriptor s.fd ∷ stream_of ss

stream_of-append :
    (xs ys : List HandoffSocket) → stream_of (xs ++ ys) ≡ stream_of xs ++ stream_of ys
stream_of-append [] ys = refl
stream_of-append (x ∷ xs) ys =
    ap (λ (l : List Item). plain x.addr ++ descriptor x.fd ∷ l) (stream_of-append xs ys)
    ∙ sym (append_assoc (plain x.addr) (descriptor x.fd ∷ stream_of xs) (stream_of ys))

abbrev pub IsAddress : HandoffSocket → Type 0
IsAddress s = length s.addr ≡ sockaddr_size

abbrev pub AllAddresses : List Listening → Type 0
AllAddresses [] = Unit
AllAddresses (s ∷ ss) = ((i : ℕ) → IsAddress (s.listener i)) × AllAddresses ss

send_fd_returns :
    (fd m : ℕ) (answers : List Transferred)
    → Enough (suc m) answers
    → (left : List Transferred) × (send_fd fd answers ≡ some (false, descriptor fd ∷ [], left))
      × Enough m left
send_fd_returns fd m [] h = absurd (omega (arith, h.many))
send_fd_returns fd m (got k ∷ answers) h =
    (answers, refl, record { good = h.good; many = omega (arith, h.many) })
send_fd_returns fd m (broken ∷ answers) h = absurd h.good

fewer : (m n : ℕ) (answers : List Transferred) → m ≤ n → Enough n answers → Enough m answers
fewer m n answers l h = record { good = h.good; many = omega (arith, h.many) }

send_listeners_returns :
    (listener : ℕ → HandoffSocket) (i m : ℕ) (answers : List Transferred)
    → ((j : ℕ) → IsAddress (listener j))
    → Enough (17 * i + m) answers
    → (left : List Transferred) × (send_listeners listener i answers
        ≡ some (false, stream_of (down_from listener i), left))
      × Enough m left
unfolding send_listeners
send_listeners_returns listener zero m answers a h =
    (answers, refl, fewer m (17 * 0 + m) answers (omega arith) h)
send_listeners_returns listener (suc i) m answers a h =
    let s = listener i in
    let (l1, e1, h1) =
      writen_returns answers s.addr (suc (17 * i + m)) (
        fewer (length s.addr + suc (17 * i + m)) (17 * suc i + m) answers (omega (arith, a i)) h) in
    let (l2, e2, h2) = send_fd_returns s.fd (17 * i + m) l1 h1 in
    let (l3, e3, h3) = send_listeners_returns listener i m l2 a h2 in
    (
      l3,
      ap
            (λ (o : Option (Bool × List ℕ × List Transferred)).
              then_send (of_writen o)
                (λ left. then_send (send_fd s.fd left) (send_listeners listener i)))
            e1
          ∙ ap (λ (o : Sent). before (plain s.addr) (then_send o (send_listeners listener i))) e2
          ∙ ap (λ (o : Sent). before (plain s.addr) (before (descriptor s.fd ∷ []) o)) e3,
      h3,
    )

send_servers_returns :
    (ss : List Listening) (m : ℕ) (answers : List Transferred)
    → AllAddresses ss
    → Enough (17 * num_listeners ss + m) answers
    → (left : List Transferred) × (send_servers ss answers
        ≡ some (false, stream_of (passed ss), left))
      × Enough m left
unfolding send_servers
send_servers_returns [] m answers a h =
    (answers, refl, fewer m (17 * 0 + m) answers (omega arith) h)
send_servers_returns (s ∷ ss) m answers a h =
    let (l1, e1, h1) =
      send_listeners_returns s.listener s.num_listeners (17 * num_listeners ss + m) answers a.0 (
        fewer (17 * s.num_listeners + (17 * num_listeners ss + m)) (17 * num_listeners (s ∷ ss) + m)
          answers (omega arith) h) in
    let (l2, e2, h2) = send_servers_returns ss m l1 a.1 h1 in
    (
      l2,
      ap (λ (o : Sent). then_send o (send_servers ss)) e1
          ∙ ap (before (stream_of (down_from s.listener s.num_listeners))) e2
          ∙ ap (λ (l : List Item). some (false, l, l2))
              (sym (stream_of-append (down_from s.listener s.num_listeners) (passed ss))),
      h2,
    )

-- The receiver's side of `sendFd`.
recv_fd_returns :
    (fd m : ℕ) (answers : List Transferred) (items : List Item)
    → Enough (suc m) answers
    → (left : List Transferred) × (recv_fd answers (descriptor fd ∷ items)
        ≡ some (some fd, left, items))
      × Enough m left
recv_fd_returns fd m [] items h = absurd (omega (arith, h.many))
recv_fd_returns fd m (got k ∷ answers) items h =
    (answers, refl, record { good = h.good; many = omega (arith, h.many) })
recv_fd_returns fd m (broken ∷ answers) items h = absurd h.good

abbrev EachAddress : List HandoffSocket → Type 0
EachAddress [] = Unit
EachAddress (s ∷ ss) = IsAddress s × EachAddress ss

append-EachAddress :
    (xs ys : List HandoffSocket) → EachAddress xs → EachAddress ys → EachAddress (xs ++ ys)
append-EachAddress [] ys a b = b
append-EachAddress (x ∷ xs) ys a b = (a.0, append-EachAddress xs ys a.1 b)

down_from-EachAddress :
    (listener : ℕ → HandoffSocket) (i : ℕ)
    → ((j : ℕ) → IsAddress (listener j))
    → EachAddress (down_from listener i)
down_from-EachAddress listener zero a = record {}
down_from-EachAddress listener (suc i) a = (a i, down_from-EachAddress listener i a)

passed-EachAddress : (ss : List Listening) → AllAddresses ss → EachAddress (passed ss)
passed-EachAddress [] a = record {}
passed-EachAddress (s ∷ ss) a =
    append-EachAddress (down_from s.listener s.num_listeners) (passed ss)
      (down_from-EachAddress s.listener s.num_listeners a.0) (passed-EachAddress ss a.1)

length-down_from : (listener : ℕ → HandoffSocket) (i : ℕ) → length (down_from listener i) ≡ i
length-down_from listener zero = refl
length-down_from listener (suc i) = ap suc (length-down_from listener i)

length-passed : (ss : List Listening) → length (passed ss) ≡ num_listeners ss
length-passed [] = refl
length-passed (s ∷ ss) = omega (
  arith,
  length-append (down_from s.listener s.num_listeners) (passed ss),
  length-down_from s.listener s.num_listeners,
  length-passed ss,
)

abbrev OneRead : Type 0
OneRead = Option (Bool × List ℕ × List Transferred × List Item)

-- What `receive_listeners` does with an address.
abbrev behind_address :
    ℕ → OneRead → Option (Bool × List HandoffSocket × List Transferred × List Item)
behind_address n o = elim o [
  | none ↦ none
  | some (failed, addr, left, behind) ↦ elim failed [
    | true ↦ some (true, [], left, behind)
    | false ↦ with_address addr (recv_fd left behind) (receive_listeners n)
  ]
]

abbrev put_first :
    HandoffSocket
    → Option (Bool × List HandoffSocket × List Transferred × List Item)
    → Option (Bool × List HandoffSocket × List Transferred × List Item)
put_first s o = elim o [
  | none ↦ none
  | some (failed, more, left, behind) ↦ some (failed, s ∷ more, left, behind)
]

receive_listeners_returns :
    (ss : List HandoffSocket) (m : ℕ) (answers : List Transferred) (items : List Item)
    → EachAddress ss
    → Enough (17 * length ss + m) answers
    → (left : List Transferred) × (receive_listeners (length ss) answers (stream_of ss ++ items)
        ≡ some (false, ss, left, items))
      × Enough m left
unfolding receive_listeners
receive_listeners_returns [] m answers items a h =
    (answers, refl, fewer m (17 * 0 + m) answers (omega arith) h)
receive_listeners_returns (s ∷ ss) m answers items a h =
    let behind = descriptor s.fd ∷ (stream_of ss ++ items) in
    let (l1, e1, h1) = readn_returns answers s.addr behind (suc (17 * length ss + m)) (
      fewer (length s.addr + suc (17 * length ss + m)) (17 * suc (length ss) + m) answers
        (omega (arith, a.0)) h) in
    let (l2, e2, h2) = recv_fd_returns s.fd (17 * length ss + m) l1 (stream_of ss ++ items) h1 in
    let (l3, e3, h3) = receive_listeners_returns ss m l2 items a.1 h2 in
    (
      l3,
      ap (λ (l : List Item). behind_address (length ss) (readn answers sockaddr_size l))
            (append_assoc (plain s.addr) (descriptor s.fd ∷ stream_of ss) items)
          ∙ ap (λ (n : ℕ). behind_address (length ss) (readn answers n (plain s.addr ++ behind)))
              (sym a.0)
          ∙ ap (behind_address (length ss)) e1
          ∙ ap (λ o. with_address s.addr o (receive_listeners (length ss))) e2
          ∙ ap (put_first s) e3,
      h3,
    )

from_bytes-u32_bytes : (n : ℕ) → n < 2 ^ 32 → from_bytes (u32_bytes n) ≡ n
from_bytes-u32_bytes n h = omega arith

abbrev behind_count : List HandoffSocket → Bool → OneRead → Option (Bool × List HandoffSocket)
behind_count old shut o = elim o [
  | none ↦ none
  | some (failed, bs, left, behind) ↦ elim failed [
    | true ↦ some (true, old)
    | false ↦ received old shut (receive_listeners (from_bytes bs) left behind)
  ]
]

-- The message of the old server is read, whatever stands behind it.
message_received :
    (ss : List Listening) (old : List HandoffSocket) (shut : Bool) (reads : List Transferred)
    (tail : List Item)
    → AllAddresses ss
    → num_listeners ss < 2 ^ 32
    → Enough (5 + 17 * num_listeners ss) reads
    → (left : List Transferred) × (signal_hand_off old shut reads
          (plain (u32_bytes (num_listeners ss)) ++ (stream_of (passed ss) ++ tail))
        ≡ received old shut (some (false, passed ss, left, tail)))
      × Enough 1 left
unfolding signal_hand_off
message_received ss old shut reads tail a b r =
    let n = num_listeners ss in
    let behind = stream_of (passed ss) ++ tail in
    let (l1, e1, h1) =
      readn_returns reads (u32_bytes n) behind (17 * n + 1)
        (fewer (4 + (17 * n + 1)) (5 + 17 * n) reads (omega arith) r) in
    let (l2, e2, h2) =
      receive_listeners_returns (passed ss) 1 l1 tail (passed-EachAddress ss a) (
        fewer (17 * length (passed ss) + 1) (17 * n + 1) l1 (omega (arith, length-passed ss)) h1) in
    (
      l2,
      ap (behind_count old shut) e1
          ∙ ap (λ (k : ℕ). received old shut (receive_listeners k l1 behind))
              (from_bytes-u32_bytes n b ∙ sym (length-passed ss))
          ∙ ap (received old shut) e2,
      h2,
    )

signal_comes :
    (answers : List Transferred)
    → Enough 1 answers
    → wait_for_signal answers (byte end_char ∷ []) ≡ some false
unfolding wait_for_signal
signal_comes answers h =
    let (left, e, r) = readn_returns answers (end_char ∷ []) [] 0 h in
    ap
      (λ (o : OneRead). elim o as (λ o. Option Bool) [
        | none ↦ none
        | some (failed, bs, left, behind) ↦ elim bs [
          | [] ↦ some true
          | c ∷ cs ↦ some (failed || not (c == end_char))
        ]
      ])
      e

-- `passListeners`, where no call fails, passes all listeners of all servers, and
-- `poTato_signalHandOff` receives them: behind those that it has, each server's last listener first,
-- with their addresses and descriptors, whatever parts `read` and `write` cut the stream into.
pub signal_hand_off-pass_listeners :
    (ss : List Listening) (old : List HandoffSocket) (writes reads : List Transferred)
    → AllAddresses ss
    → num_listeners ss < 2 ^ 32
    → Enough (4 + 17 * num_listeners ss) writes
    → Enough (5 + 17 * num_listeners ss) reads
    → (stream : List Item) × (left : List Transferred) × (pass_listeners ss writes
        ≡ some (false, stream, left))
      × (signal_hand_off old true reads (stream ++ byte end_char ∷ [])
          ≡ some (false, old ++ passed ss))
      × (signal_hand_off old false reads stream ≡ some (false, old ++ passed ss))
unfolding pass_listeners
signal_hand_off-pass_listeners ss old writes reads a b w r =
    let n = num_listeners ss in
    let head = plain (u32_bytes n) in
    let (l1, e1, h1) = writen_returns writes (u32_bytes n) (17 * n) w in
    let (l2, e2, h2) =
      send_servers_returns ss 0 l1 a (fewer (17 * n + 0) (17 * n) l1 (omega arith) h1) in
    let (l3, e3, h3) = message_received ss old true reads (byte end_char ∷ []) a b r in
    let (l4, e4, h4) = message_received ss old false reads [] a b r in
    let count : n % 2 ^ 32 ≡ n = omega arith in
    (
      head ++ stream_of (passed ss),
      l2,
      ap (λ (k : ℕ). then_send (of_writen (writen writes (u32_bytes k))) (send_servers ss)) count
          ∙ ap (λ o. then_send (of_writen o) (send_servers ss)) e1
          ∙ ap (before head) e2,
      ap (signal_hand_off old true reads)
            (append_assoc head (stream_of (passed ss)) (byte end_char ∷ []))
          ∙ e3
          ∙ ap
              (λ (o : Option Bool). elim o as (λ o. Option (Bool × List HandoffSocket)) [
                | none ↦ none
                | some failed ↦ some (failed, old ++ passed ss)
              ])
              (signal_comes l3 h3),
      ap (λ (l : List Item). signal_hand_off old false reads (head ++ l))
            (sym (append-nil (stream_of (passed ss))))
          ∙ e4,
    )

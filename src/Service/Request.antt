-- ===== src/Service/Request.antt =====
-- `TCPRead`, `TLSRead`, `Read` and `Setup` of potato_old/service.c.
pub mod Filling
pub mod Ready
use tidbits.Prelude.{
  ℕ, ◌+◌, ◌-◌, ltb, ◌==◌, if◌then◌else◌, Bool, true, false, Option, none, some, List, [], ◌∷◌, ◌++◌,
  length, take,
}
use tidbits.Service.Io.{Return, done, back, close, error}
use tidbits.Service.Session.{Out, Session, out_queue_pop, chunk_len}

-- The answer to a call that reads: a first byte and more, of which it takes what it has asked for, or
-- the end of the stream, EAGAIN, EINTR, EPIPE or ECONNRESET, any other error.
pub data Input : Type 0 where
  got : ℕ → List ℕ → Input
  ended : Input
  nothing : Input
  signalled : Input
  broken : Input
  unexpected : Input

-- What a read function returns, with `inBuffer` up to `inLen` and `inSize`.
pub record Reading : Type 0 where
  pub ret : Return
  pub bytes : List ℕ
  pub size : ℕ

abbrev pub reading : Return → List ℕ → ℕ → Option Reading
reading r bytes size = some (record { ret = r; bytes = bytes; size = size })

abbrev pub extended : ℕ → List ℕ → List ℕ → List ℕ
extended size bytes xs = bytes ++ take (size - length bytes) xs

-- `TCPRead`. `none` is a list of answers that is too short, or the end of the process by the assertion that
-- an unexpected error fails.
unfoldable pub tcp_read : ℕ → List Input → List ℕ → ℕ → Option Reading
tcp_read most [] bytes size = none
tcp_read most (got x xs ∷ ins) bytes size =
    let bytes' = extended size bytes (x ∷ xs) in
    let more = tcp_read most ins bytes' (size + chunk_len) in
    if ltb (length bytes') size
    then reading back bytes' size
    else (if ltb size most then more else reading close bytes' size)
tcp_read most (ended ∷ ins) bytes size = reading close bytes size
tcp_read most (nothing ∷ ins) bytes size = reading back bytes size
tcp_read most (signalled ∷ ins) bytes size = tcp_read most ins bytes size
tcp_read most (broken ∷ ins) bytes size = reading close bytes size
tcp_read most (unexpected ∷ ins) bytes size = none

-- `TLSRead`: it differs from `TCPRead` in what an error returns.
unfoldable pub tls_read : ℕ → List Input → List ℕ → ℕ → Option Reading
tls_read most [] bytes size = none
tls_read most (got x xs ∷ ins) bytes size =
    let bytes' = extended size bytes (x ∷ xs) in
    let more = tls_read most ins bytes' (size + chunk_len) in
    if ltb (length bytes') size
    then reading back bytes' size
    else (if ltb size most then more else reading close bytes' size)
tls_read most (ended ∷ ins) bytes size = reading close bytes size
tls_read most (nothing ∷ ins) bytes size = reading back bytes size
tls_read most (signalled ∷ ins) bytes size = tls_read most ins bytes size
tls_read most (broken ∷ ins) bytes size = reading close bytes size
tls_read most (unexpected ∷ ins) bytes size = reading close bytes size

-- `enum POServiceReturn`.
pub data ServiceReturn : Type 0 where
  continue : ServiceReturn
  wait : ServiceReturn
  finish : ServiceReturn
  fail : ServiceReturn

-- The user's callback: it gets the message, and may send.
abbrev pub Callback : Type 0
Callback = Session → List ℕ → ServiceReturn × Session

-- The switch of `Read` on what the callback returned.
unfoldable pub after_callback : ServiceReturn → Session → Return × Session
after_callback continue s = (done, record s { in_buffer = [] })
after_callback wait s = (done, s)
after_callback finish s = elim s.queue [
  | [] ↦ (close, s)
  | o ∷ q ↦ (done, record s { read_callback = false })
]
after_callback fail s = (error, s)

abbrev pub filled_in : Session → Reading → Session
filled_in s r = record s { in_buffer = r.bytes; in_size = r.size }

-- `Read` behind the call of `TCPRead` or `TLSRead`.
unfoldable pub use_reading : Callback → Session → Reading → Return × Session
use_reading f s r =
    let s' = filled_in s r in
    elim r.ret [
      | done ↦ (done, s')
      | close ↦ (close, s')
      | error ↦ (error, s')
      | back ↦
          if length r.bytes == 0
          then (done, s')
          else (let (rt, u) = f s' r.bytes in after_callback rt u)
    ]

unfoldable pub read : Callback → List Input → Session → Option (Return × Session)
read f ins s =
    let r =
      if s.tls
      then tls_read s.max_message_length ins s.in_buffer s.in_size
      else tcp_read s.max_message_length ins s.in_buffer s.in_size in
    elim r [ none ↦ none | some x ↦ some (use_reading f s x) ]

abbrev pub new_session : Bool → ℕ → Session
new_session tls most = record {
  tls = tls;
  max_message_length = most;
  in_buffer = [];
  in_size = chunk_len;
  queue = [];
  read_callback = true;
  write_callback = false;
}

abbrev pub with_session : Option (Return × Session) → Option (Return × Option Session)
with_session none = none
with_session (some (r, s)) = some (r, some s)

-- `Setup`, of a service with or without TLS; the flag `secured` says that `poTlsSession_create` makes
-- a TLS session. The session is missing where it fails.
unfoldable pub setup : Callback → List Input → Bool → Bool → ℕ → Option (Return × Option Session)
setup f ins tls secured most =
    let made = with_session (read f ins (new_session tls most)) in
    if tls then (if secured then made else some (error, none)) else made

-- ===== src/Service/Session.antt =====
-- `struct POService_session`, its output queue, `Write` and the send functions of
-- potato_old/service.c. Every `malloc` succeeds.
pub mod Delivery
pub mod Stream
pub mod Returns
pub mod Requests
use tidbits.Prelude.{
  ℕ, zero, suc, ◌+◌, ◌-◌, ltb, leb, ◌==◌, if◌then◌else◌, Bool, true, false, Option, none, some,
  List, [], ◌∷◌, ◌++◌, length, take,
}
use tidbits.Service.Io.{Answer, Return, done, back, close, error, Wrote}
use tidbits.Service.Buffer.{OutBuffer, tcp_write_buffer, tls_write_buffer}
use tidbits.Service.Path.{File, OutPathTls, tcp_write_path, tls_write_path}

-- `struct Out`, with the struct that its type says.
pub data Out : Type 0 where
  out_buffer : OutBuffer → Out
  out_path : File → Out
  out_path_tls : OutPathTls → Out

-- `struct POService_session`, and the callbacks that its connection has. `in_buffer` is the first
-- `inLen` bytes, and `queue` is what `firstOut` leads to.
pub record Session : Type 0 where
  pub tls : Bool
  pub max_message_length : ℕ
  pub in_buffer : List ℕ
  pub in_size : ℕ
  pub queue : List Out
  pub read_callback : Bool
  pub write_callback : Bool

unfoldable pub out_queue_push : Session → Out → Session
out_queue_push s o = record s { queue = s.queue ++ o ∷ [] }

unfoldable pub out_queue_pop : Session → Option Out × Session
out_queue_pop s = elim s.queue [ [] ↦ (none, s) | o ∷ q ↦ (some o, record s { queue = q }) ]

abbrev pub lift_wrote : {T : Type 0} → (T → Out) → Option (Wrote T) → Option (Wrote Out)
lift_wrote f none = none
lift_wrote f (some r) = some (record { ret = r.ret; out = f r.out; wire = r.wire; rest = r.rest })

-- The head of the loop of `Write`. `none` stands for a wrong cast of a path as well.
unfoldable pub write_one : Bool → List Answer → Out → Option (Wrote Out)
write_one t ans (out_buffer b) =
    if t
    then lift_wrote out_buffer (tls_write_buffer ans b)
    else lift_wrote out_buffer (tcp_write_buffer ans b)
write_one t ans (out_path f) = if t then none else lift_wrote out_path (tcp_write_path ans f)
write_one t ans (out_path_tls p) =
    if t then lift_wrote out_path_tls (tls_write_path ans p) else none

-- The loop of `Write`: it ends with `done` where the queue is empty, and else with what the first
-- request returned.
unfoldable pub write_loop : Bool → List Answer → List Out → Option (Wrote (List Out))
write_loop t ans [] = some (record { ret = done; out = []; wire = []; rest = ans })
write_loop t ans (o ∷ q) = elim (write_one t ans o) [
  | none ↦ none
  | some r ↦ elim r.ret [
    | done ↦ elim (write_loop t r.rest q) [
      | none ↦ none
      | some w ↦ some (record w { wire = r.wire ++ w.wire })
    ]
    | back ↦ some (record { ret = back; out = r.out ∷ q; wire = r.wire; rest = r.rest })
    | close ↦ some (record { ret = close; out = r.out ∷ q; wire = r.wire; rest = r.rest })
    | error ↦ some (record { ret = error; out = r.out ∷ q; wire = r.wire; rest = r.rest })
  ]
]

abbrev pub write_end : Session → Wrote (List Out) → Wrote Session
write_end s w = elim w.ret [
  | done ↦ record {
    ret = if s.read_callback then done else close;
    out = record s { queue = w.out; write_callback = false };
    wire = w.wire;
    rest = w.rest;
  }
  | back ↦ record { ret = done; out = record s { queue = w.out }; wire = w.wire; rest = w.rest }
  | close ↦ record { ret = close; out = record s { queue = w.out }; wire = w.wire; rest = w.rest }
  | error ↦ record { ret = error; out = record s { queue = w.out }; wire = w.wire; rest = w.rest }
]

-- `Write`. `none` is an empty queue, whose first request does not exist.
unfoldable pub write : List Answer → Session → Option (Wrote Session)
write ans s = elim s.queue [
  | [] ↦ none
  | o ∷ q ↦ elim (write_loop s.tls ans s.queue) [ none ↦ none | some w ↦ some (write_end s w) ]
]

-- The end of the send functions: the flag says that `poServer_setWriteCallback` is called.
abbrev pub want_write : Session → Bool × Session
want_write s = if s.write_callback then (false, s) else (true, record s { write_callback = true })

abbrev pub request_buffer : List ℕ → ℕ → Out
request_buffer bytes n = out_buffer (record { buffer = bytes; index = 0; len = n })

-- `poService_send`.
unfoldable pub send : Session → List ℕ → Bool × Session
send s bytes = want_write (out_queue_push s (request_buffer bytes (length bytes)))

abbrev pub chunk_len : ℕ
chunk_len = 1023

-- The loop of `poService_sendF`: `vsnprintf` prints `text` into a buffer of `len` bytes, the last of
-- them a '\0', and returns the length of `text`.
unfoldable pub print_text : ℕ → ℕ → List ℕ → Option (List ℕ)
print_text zero len text = none
print_text (suc fuel) len text =
    let again = print_text fuel (length text + 1) text in
    if leb len (length text) then again else some (take (len - 1) text)

abbrev pub queue_text : Session → ℕ → Option (List ℕ) → Option (Bool × Session)
queue_text s n none = none
queue_text s n (some buffer) = some (want_write (out_queue_push s (request_buffer buffer n)))

-- `poService_sendF`, with the text that its arguments print.
unfoldable pub send_f : Session → List ℕ → Option (Bool × Session)
send_f s text = queue_text s (length text) (print_text 2 chunk_len text)

abbrev pub path_of : Session → File → Out
path_of s f =
    if s.tls
    then out_path_tls (record { file = f; buffer = []; i = 0; file_left = 0 })
    else out_path f

-- `poService_sendFD`.
unfoldable pub send_fd : Session → File → Bool × Session
send_fd s f = want_write (out_queue_push s (path_of s f))

-- `poService_sendPath`: `none` is a path that does not open. The result is what the function returns,
-- but for what `poServer_setWriteCallback` returns.
unfoldable pub send_path : Session → Option (List ℕ) → Bool × Session
send_path s none = (true, s)
send_path s (some bytes) =
    want_write (out_queue_push s (path_of s (record { bytes = bytes; offset = 0 })))

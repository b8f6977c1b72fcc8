-- ===== src/Service/Path.antt =====
-- `struct OutPath`, `TCPWrite_path`, `struct OutPathTls` and `TLSWrite_path` of potato_old/service.c, without
-- the file lock: POSERVICE_FLOCK is never defined, since service.h defines PO_SERVICE_FLOCK.
pub mod Delivery
pub mod Chunks
pub mod LastChunk
use Prim.Native.Nat.{min}
use tidbits.Prelude.{
  ℕ, ◌+◌, ◌-◌, ltb, ◌==◌, if◌then◌else◌, Bool, true, false, ◌&&◌, ◌||◌, not, Option, none, some,
  List, [], ◌∷◌, ◌++◌, length, take, drop,
}
use tidbits.Service.Io.{
  Answer, moved, closed, again, interrupted, reset, failed, count, Return, done, back, close, error,
  Wrote, nothing_sent,
}

-- An open file: its bytes and the offset of the descriptor. No one else changes it, and `fstat`
-- succeeds.
pub record File : Type 0 where
  pub bytes : List ℕ
  pub offset : ℕ

abbrev pub unread : File → ℕ
unread f = length f.bytes - f.offset

abbrev pub next_bytes : File → ℕ → List ℕ
next_bytes f n = take n (drop f.offset f.bytes)

abbrev pub skip : File → ℕ → File
skip f n = record f { offset = f.offset + n }

-- `rt >= 0` in `TCPWrite_path`: bytes that have gone out are not sent again, but anything short of
-- the whole file is an error.
unfoldable pub file_sent : File → ℕ → List Answer → Option (Wrote File)
file_sent f rt ans = some (record {
  ret = if rt == length f.bytes then done else error;
  out = skip f rt;
  wire = next_bytes f rt;
  rest = ans;
})

-- `struct OutPath` is its file. The answers are those of `sendfile`.
unfoldable pub tcp_write_path : List Answer → File → Option (Wrote File)
tcp_write_path [] f = if length f.bytes == 0 then nothing_sent error f [] else none
tcp_write_path (a ∷ ans) f =
    let retry = tcp_write_path ans f in
    if length f.bytes == 0 then nothing_sent error f (a ∷ ans) else (elim a [
      | moved n ↦ file_sent f (count n (unread f)) ans
      | closed ↦ file_sent f 0 ans
      | again ↦ nothing_sent back f ans
      | interrupted ↦ retry
      | reset ↦ nothing_sent close f ans
      | failed ↦ nothing_sent error f ans
    ])

-- `struct OutPathTls`; `len` is the length of `buffer`.
pub record OutPathTls : Type 0 where
  pub file : File
  pub buffer : List ℕ
  pub i : ℕ
  pub file_left : ℕ

abbrev pub buffer_size : ℕ
buffer_size = 1024

abbrev pub len : OutPathTls → ℕ
len p = length p.buffer

-- The bytes of the buffer that are still to be sent.
abbrev pub buffered : OutPathTls → List ℕ
buffered p = drop p.i p.buffer

-- A read of `r` bytes, for a positive `r`.
abbrev pub filled : OutPathTls → ℕ → OutPathTls
filled p r = record p {
  file = skip p.file r;
  buffer = p.buffer ++ next_bytes p.file r;
  file_left = p.file_left - r;
}

abbrev pub rlen : OutPathTls → ℕ
rlen p = min (buffer_size - len p) p.file_left

-- How a pass of a loop ends: in the next pass or in a return.
pub data Loop : Type 0 where
  next : OutPathTls → List ℕ → Loop
  stop : Return → OutPathTls → List ℕ → Loop

-- The body of the inner loop. A read of no bytes leaves `errno` as it was, which is taken not to be
-- EINTR.
unfoldable pub fill_pass : Answer → OutPathTls → Loop
fill_pass a p = elim a [
  | moved n ↦
      let r = count n (min (rlen p) (unread p.file)) in
      if r == 0 then stop error p [] else next (filled p r) []
  | closed ↦ stop error p []
  | again ↦ stop error p []
  | interrupted ↦ next p []
  | reset ↦ stop error p []
  | failed ↦ stop error p []
]

-- `r > 0` behind the call of `gnutls_record_send`.
unfoldable pub record_sent : OutPathTls → ℕ → Loop
record_sent p r =
    if r == len p - p.i
    then (let p' = record p { buffer = []; i = 0 } in
        if p.file_left == 0 then stop done p' (buffered p) else next p' (buffered p))
    else stop back (record p { i = p.i + r }) (take r (buffered p))

-- The rest of the body of the outer loop.
unfoldable pub send_pass : Answer → OutPathTls → Loop
send_pass a p = elim a [
  | moved n ↦ let r = count n (len p - p.i) in if r == 0 then stop close p [] else record_sent p r
  | closed ↦ stop close p []
  | again ↦ stop back p []
  | interrupted ↦ next p []
  | reset ↦ stop error p []
  | failed ↦ stop error p []
]

-- Whether the next system call is a read.
unfoldable pub fills : OutPathTls → Bool
fills p = ltb (len p) buffer_size && not (p.file_left == 0)

-- One system call of the nested loops: a read as long as the inner loop runs, then a send. Where either
-- goes on, the condition of the outer loop holds.
unfoldable pub loop_pass : Answer → OutPathTls → Loop
loop_pass a p = if fills p then fill_pass a p else send_pass a p

unfoldable pub tls_loop : List Answer → OutPathTls → Option (Wrote OutPathTls)
tls_loop [] p = none
tls_loop (a ∷ ans) p = elim (loop_pass a p) [
  | next p' sent ↦ elim (tls_loop ans p') [
    | none ↦ none
    | some r ↦ some (record r { wire = sent ++ r.wire })
  ]
  | stop ret p' sent ↦ some (record { ret = ret; out = p'; wire = sent; rest = ans })
]

unfoldable pub tls_write_path : List Answer → OutPathTls → Option (Wrote OutPathTls)
tls_write_path ans p =
    if p.file_left == 0
    then (if length p.file.bytes == 0
        then nothing_sent error p ans
        else tls_loop ans (record p { file_left = length p.file.bytes }))
    else tls_loop ans p

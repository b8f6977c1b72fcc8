-- ===== src/Service/Request/Ready.antt =====
-- `Read`: the session that it leaves is one that it can be called with again.
use Prim.{Unit}
use tidbits.Prelude.{
  ℕ, ◌+◌, ◌<◌, ◌≡◌, ap, false, Option, of_some, inl, inr, ◌==◌, some, List, [], ◌∷◌, length, arith,
  if_cases, Option-cases, if◌then◌else◌,
}
use tidbits.Service.Io.{Return, done, back, close, error}
use tidbits.Service.Session.{Out, Session, chunk_len}
use tidbits.Service.Request.{
  Input, Reading, tcp_read, tls_read, Callback, read, filled_in, use_reading, after_callback,
  ServiceReturn, continue, wait, finish, fail,
}
use tidbits.Service.Request.Filling.{IsFilled, HasRoom, tcp_read-IsFilled, tls_read-IsFilled}

-- The buffer has room for a byte, and its size is bounded.
pub record IsReady (most : ℕ) (s : Session) : Type 0 where
  pub room : length s.in_buffer < s.in_size
  pub bounded : s.in_size < most + chunk_len

-- The user's callback leaves the request buffer alone.
abbrev pub KeepsBuffer : Callback → Type 0
KeepsBuffer f =
    (s : Session) (bytes : List ℕ)
    → (f s bytes).1.in_buffer ≡ s.in_buffer × (f s bytes).1.in_size ≡ s.in_size

abbrev Outcome : ℕ → Return × Session → Type 0
Outcome most (ret, s) = elim ret [
  | done ↦ IsReady most s
  | back ↦ Unit
  | close ↦ Unit
  | error ↦ Unit
]

after_callback-Outcome :
    (most : ℕ) (rt : ServiceReturn) (s : Session)
    → IsReady most s
    → Outcome most (after_callback rt s)
unfolding after_callback
after_callback-Outcome most continue s h = record {
  room = omega (arith, h.room);
  bounded = h.bounded;
}
after_callback-Outcome most wait s h = h
after_callback-Outcome most finish s h = by_queue s.queue
  where
    by_queue :
        (q : List Out)
        → Outcome most
            (elim q [ [] ↦ (close, s) | o ∷ q' ↦ (done, record s { read_callback = false }) ])
    by_queue [] = record {}
    by_queue (o ∷ q) = record { room = h.room; bounded = h.bounded }
after_callback-Outcome most fail s h = record {}

use_reading-Outcome :
    (f : Callback) (s : Session) (ret : Return) (bytes : List ℕ) (size most : ℕ)
    → KeepsBuffer f
    → HasRoom (record { ret = ret; bytes = bytes; size = size })
    → size < most + chunk_len
    → Outcome most (use_reading f s (record { ret = ret; bytes = bytes; size = size }))
unfolding use_reading
use_reading-Outcome f s done bytes size most k h b = record { room = h; bounded = b }
use_reading-Outcome f s back bytes size most k h b =
    if_cases (Outcome most) (length bytes == 0) (λ y. record { room = h; bounded = b })
      (λ n. called)
  where
    s' : Session
    s' = filled_in s (record { ret = back; bytes = bytes; size = size })

    called : Outcome most (after_callback (f s' bytes).0 (f s' bytes).1)
    called =
        let (kb, ks) = k s' bytes in
        after_callback-Outcome most (f s' bytes).0 (f s' bytes).1 (record {
          room = omega (arith, h, ap (λ (l : List ℕ). length l) kb, ks);
          bounded = omega (arith, b, ks);
        })
use_reading-Outcome f s close bytes size most k h b = record {}
use_reading-Outcome f s error bytes size most k h b = record {}

-- `Read` with a user's callback that leaves the request buffer alone: where it returns 0, the buffer
-- has room for the next call, and its size stays below the greatest message length and a chunk.
pub read-IsReady :
    (f : Callback) (ins : List Input) (s s' : Session)
    → KeepsBuffer f
    → IsReady s.max_message_length s
    → read f ins s ≡ some (done, s')
    → IsReady s.max_message_length s'
unfolding read
read-IsReady f ins s s' k h e = elim (Option-cases r) [
  | inl n ↦ absurd (ground arith)
  | inr (w, g) ↦
      of_some (Outcome s.max_message_length) (use_reading f s w) (done, s') (ground arith)
        (let i = filled w g in
          use_reading-Outcome f s w.ret w.bytes w.size s.max_message_length k i.room i.bounded)
]
  where
    r : Option Reading
    r =
        if s.tls
        then tls_read s.max_message_length ins s.in_buffer s.in_size
        else tcp_read s.max_message_length ins s.in_buffer s.in_size

    filled : (w : Reading) → r ≡ some w → IsFilled s.max_message_length s.in_buffer w
    filled w =
        if_cases (λ (o : Option Reading). o ≡ some w → IsFilled s.max_message_length s.in_buffer w)
          s.tls
          (λ y. tls_read-IsFilled s.max_message_length ins s.in_buffer s.in_size w h.room h.bounded)
          (λ n. tcp_read-IsFilled s.max_message_length ins s.in_buffer s.in_size w h.room h.bounded)

-- Where no new byte has come, the callback gets the bytes that wait in the buffer once more.
pub read_again_calls :
    (f : Callback) (ins : List Input) (s : Session)
    → s.tls ≡ false
    → 0 < length s.in_buffer
    → read f (Input.nothing ∷ ins) s ≡ some (after_callback (f s s.in_buffer).0 (f s s.in_buffer).1)
unfolding read tcp_read use_reading
read_again_calls f ins s t h = ground arith

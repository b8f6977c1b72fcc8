-- ===== src/Service/Buffer/Delivery.antt =====
-- The bytes that `TCPWrite_buffer` and `TLSWrite_buffer` send and the bytes that they leave.
use tidbits.Prelude.{
  ℕ, suc, ◌+◌, ◌-◌, ◌≤◌, ◌<◌, ◌≡◌, refl, inl, inr, of_some, some, List, [], ◌∷◌, ◌++◌, take, drop,
  length, take_all, length-take, length-drop, take-drop, take-take, arith, ◌==◌, Bool-cases,
}
use tidbits.Service.Io.{
  Answer, moved, closed, again, interrupted, reset, failed, count, done, back, close, error, Wrote,
}
use tidbits.Service.Buffer.{
  OutBuffer, asked, pending, tcp_sent, tcp_write_buffer, tls_sent, tls_write_buffer,
}

-- Something is left to be sent, and `len` is the size of the buffer.
pub record IsPending (b : OutBuffer) : Type 0 where
  pub below : b.index < b.len
  pub filled : b.len ≡ length b.buffer

pub length-pending : (b : OutBuffer) → IsPending b → length (pending b) ≡ asked b
length-pending b h = omega (
  arith,
  length-take (asked b) (drop b.index b.buffer),
  length-drop b.index b.buffer,
  h.below,
  h.filled,
)

-- What a return of the function promises.
abbrev pub Delivered : OutBuffer → Wrote OutBuffer → Type 0
Delivered b r = elim r.ret [
  | done ↦ r.wire ≡ pending b
  | back ↦ IsPending r.out × r.wire ++ pending r.out ≡ pending b
  | close ↦ r.wire ≡ []
  | error ↦ r.wire ≡ []
]

take_part :
    (b : OutBuffer) (rt : ℕ) → rt < asked b → take rt (pending b) ≡ take rt (drop b.index b.buffer)
take_part b rt l = take-take rt (asked b) (drop b.index b.buffer) (omega arith)

part_pending :
    (b : OutBuffer) (rt : ℕ)
    → rt < asked b
    → take rt (pending b) ++ pending (record b { index = b.index + rt }) ≡ pending b
part_pending b rt l =
    let e : asked b - rt ≡ asked (record b { index = b.index + rt }) = omega arith in
    let f = take-drop rt (asked b) b.index b.buffer (omega arith) in rw (take_part b rt l, f, e)

tcp_sent-Delivered :
    (b : OutBuffer) (rt : ℕ) (ans : List Answer) (r : Wrote OutBuffer)
    → IsPending b
    → rt ≤ asked b
    → tcp_sent b rt ans ≡ some r
    → Delivered b r
unfolding tcp_sent
tcp_sent-Delivered b rt ans r h l e = elim (Bool-cases (rt == 0)) [
  | inl z ↦
      of_some (Delivered b) (record { ret = close; out = b; wire = []; rest = ans }) r
        (ground arith) refl
  | inr z ↦ elim (Bool-cases (rt == asked b)) [
    | inl w ↦
        of_some (Delivered b)
          (record { ret = done; out = b; wire = take rt (pending b); rest = ans }) r (ground arith)
          (take_all rt (pending b) (ground (arith, length-pending b h)))
    | inr w ↦
        of_some (Delivered b)
          (record {
            ret = back;
            out = record b { index = b.index + rt };
            wire = take rt (pending b);
            rest = ans;
          })
          r (ground arith)
          (let l' : rt < asked b = ground arith in
            (record { below = omega arith; filled = h.filled }, part_pending b rt l'))
  ]
]

-- What a call of `TCPWrite_buffer` returns says which bytes went out: all that was pending (0), a
-- part, with the rest still pending (2), or nothing (1 and -1).
pub tcp_write_buffer-Delivered :
    (ans : List Answer) (b : OutBuffer) (r : Wrote OutBuffer)
    → IsPending b
    → tcp_write_buffer ans b ≡ some r
    → Delivered b r
unfolding tcp_write_buffer
tcp_write_buffer-Delivered [] b r h e = absurd (ground arith)
tcp_write_buffer-Delivered (moved n ∷ ans) b r h e =
    tcp_sent-Delivered b (count n (asked b)) ans r h (omega arith) e
tcp_write_buffer-Delivered (closed ∷ ans) b r h e = tcp_sent-Delivered b 0 ans r h (omega arith) e
tcp_write_buffer-Delivered (again ∷ ans) b r h e = of_some (Delivered b) _ r e (h, refl)
tcp_write_buffer-Delivered (interrupted ∷ ans) b r h e = tcp_write_buffer-Delivered ans b r h e
tcp_write_buffer-Delivered (reset ∷ ans) b r h e = of_some (Delivered b) _ r e refl
tcp_write_buffer-Delivered (failed ∷ ans) b r h e = absurd (ground arith)

-- A send of `TLSWrite_buffer` that takes some bytes and not all returns 0: the bytes that are left are
-- dropped with the request.
pub short_record_lost :
    (n : ℕ) (ans : List Answer) (b : OutBuffer) (r : Wrote OutBuffer)
    → IsPending b
    → suc n < asked b
    → tls_write_buffer (moved n ∷ ans) b ≡ some r
    → r.ret ≡ done × length r.wire < length (pending b)
unfolding tls_write_buffer tls_sent
short_record_lost n ans b r h l e =
    let k : count n (asked b) ≡ suc n = omega arith in
    of_some (λ (x : Wrote OutBuffer). x.ret ≡ done × length x.wire < length (pending b))
      (record { ret = done; out = b; wire = take (count n (asked b)) (pending b); rest = ans }) r
      (ground arith)
      (refl, omega (arith, length-take (count n (asked b)) (pending b), length-pending b h))

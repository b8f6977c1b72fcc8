-- ===== src/Service/Path/LastChunk.antt =====
-- A transfer by `TLSWrite_path` that has to come back for the end of its file.
use Prim.Native.Nat.{min}
use tidbits.Prelude.{
  ℕ, ◌-◌, ◌<◌, ◌≡◌, ◌≢◌, of_some, inl, inr, some, List, [], ◌∷◌, ◌++◌, length, arith, ◌==◌,
  if_cases, Option-cases,
}
use tidbits.Service.Io.{
  Answer, moved, closed, again, interrupted, reset, failed, count, done, back, close, error, Wrote,
}
use tidbits.Service.Path.Chunks.{after}
use tidbits.Service.Path.{
  OutPathTls, Loop, next, stop, unread, len, rlen, fill_pass, record_sent, send_pass, fills,
  loop_pass, tls_loop, tls_write_path,
}

-- The whole file has been read, but the counter says that there is more.
pub record IsStuck (p : OutPathTls) : Type 0 where
  pub positive : 0 < p.file_left
  pub at_end : unread p.file ≡ 0

abbrev Unfinished : Loop → Type 0
Unfinished l = elim l [ next p' sent ↦ IsStuck p' | stop ret p' sent ↦ ret ≢ done ]

error-done : error ≢ done
error-done = ground arith

back-done : back ≢ done
back-done = ground arith

close-done : close ≢ done
close-done = ground arith

fill_pass-Unfinished : (a : Answer) (p : OutPathTls) → IsStuck p → Unfinished (fill_pass a p)
unfolding fill_pass
fill_pass-Unfinished (moved n) p h =
    if_cases Unfinished (count n (min (rlen p) (unread p.file)) == 0) (λ y. error-done)
      (λ n. absurd (ground (arith, h.at_end)))
fill_pass-Unfinished closed p h = error-done
fill_pass-Unfinished again p h = error-done
fill_pass-Unfinished interrupted p h = h
fill_pass-Unfinished reset p h = error-done
fill_pass-Unfinished failed p h = error-done

record_sent-Unfinished : (p : OutPathTls) (r : ℕ) → IsStuck p → Unfinished (record_sent p r)
unfolding record_sent
record_sent-Unfinished p r h =
    if_cases Unfinished (r == len p - p.i)
      (λ y.
        if_cases Unfinished (p.file_left == 0) (λ z. absurd (ground (arith, h.positive)))
          (λ z. record { positive = h.positive; at_end = h.at_end }))
      (λ n. back-done)

send_pass-Unfinished : (a : Answer) (p : OutPathTls) → IsStuck p → Unfinished (send_pass a p)
unfolding send_pass
send_pass-Unfinished (moved n) p h =
    if_cases Unfinished (count n (len p - p.i) == 0) (λ y. close-done)
      (λ y. record_sent-Unfinished p (count n (len p - p.i)) h)
send_pass-Unfinished closed p h = close-done
send_pass-Unfinished again p h = back-done
send_pass-Unfinished interrupted p h = h
send_pass-Unfinished reset p h = error-done
send_pass-Unfinished failed p h = error-done

loop_pass-Unfinished : (a : Answer) (p : OutPathTls) → IsStuck p → Unfinished (loop_pass a p)
unfolding loop_pass
loop_pass-Unfinished a p h =
    if_cases Unfinished (fills p) (λ y. fill_pass-Unfinished a p h)
      (λ n. send_pass-Unfinished a p h)

abbrev NotDone : Wrote OutPathTls → Type 0
NotDone r = r.ret ≢ done

after_pass :
    (ans : List Answer) (r : Wrote OutPathTls)
    → ((p' : OutPathTls) (r' : Wrote OutPathTls)
        → IsStuck p'
        → tls_loop ans p' ≡ some r'
        → NotDone r')
    → (l : Loop) → Unfinished l
    → after ans l ≡ some r
    → NotDone r
after_pass ans r ih (stop ret p' sent) k e =
    of_some NotDone (record { ret = ret; out = p'; wire = sent; rest = ans }) r e k
after_pass ans r ih (next p' sent) k e = elim (Option-cases (tls_loop ans p')) [
  | inl n ↦ absurd (ground arith)
  | inr (w, f) ↦ of_some NotDone (record w { wire = sent ++ w.wire }) r (ground arith) (ih p' w k f)
]

tls_loop-NotDone :
    (ans : List Answer) (p : OutPathTls) (r : Wrote OutPathTls)
    → IsStuck p
    → tls_loop ans p ≡ some r
    → NotDone r
unfolding tls_loop
tls_loop-NotDone [] p r h e = absurd (ground arith)
tls_loop-NotDone (a ∷ ans) p r h e =
    after_pass ans r (tls_loop-NotDone ans) (loop_pass a p) (loop_pass-Unfinished a p h) e

-- When `TLSWrite_path` is called again with the whole file read, as after a send that took only a part
-- of the last chunk, it never returns 0, whatever the calls answer.
pub last_chunk_lost :
    (ans : List Answer) (p : OutPathTls) (r : Wrote OutPathTls)
    → p.file_left ≡ 0
    → 0 < length p.file.bytes
    → unread p.file ≡ 0
    → tls_write_path ans p ≡ some r
    → r.ret ≢ done
unfolding tls_write_path
last_chunk_lost ans p r z h u e =
    tls_loop-NotDone ans (record p { file_left = length p.file.bytes }) r
      (record { positive = h; at_end = u }) (ground arith)

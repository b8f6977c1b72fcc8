-- ===== src/Service/Session/Returns.antt =====
-- `Write` without TLS returns, unless signals interrupt the system calls for ever or an unexpected error
-- ends the process.
use tidbits.Prelude.{
  ℕ, suc, ◌≤◌, ◌<◌, ◌≡◌, refl, sym, subst, ap, ◌==◌, if◌then◌else◌, Bool, false, Option, some, List,
  [], ◌∷◌, ◌++◌, length, arith, if_cases,
}
use tidbits.Service.Io.{
  Answer, moved, closed, again, interrupted, reset, failed, count, Return, done, back, close, error,
  Wrote, nothing_sent,
}
use tidbits.Service.Buffer.{OutBuffer, asked, tcp_sent, tcp_write_buffer}
use tidbits.Service.Path.{File, unread, file_sent, tcp_write_path}
use tidbits.Service.Session.{
  Out, out_buffer, out_path, out_path_tls, Session, write_one, write_loop, write_end, write,
}
use tidbits.Service.Session.Delivery.{AllSendable, IsSendable}

-- The number of answers that are not an interruption, up to the first unexpected error.
abbrev pub settled : List Answer → ℕ
settled [] = 0
settled (interrupted ∷ ans) = settled ans
settled (moved n ∷ ans) = suc (settled ans)
settled (closed ∷ ans) = suc (settled ans)
settled (again ∷ ans) = suc (settled ans)
settled (reset ∷ ans) = suc (settled ans)
settled (failed ∷ ans) = 0

-- A call returns, and uses up one such answer at most.
abbrev Returns : {T : Type 0} → ℕ → Option (Wrote T) → Type 0
Returns {T} n o = (r : Wrote T) × (o ≡ some r) × n ≤ suc (settled r.rest)

tcp_sent-Returns :
    (b : OutBuffer) (rt : ℕ) (ans : List Answer) → Returns (suc (settled ans)) (tcp_sent b rt ans)
unfolding tcp_sent
tcp_sent-Returns b rt ans =
    if_cases (Returns (suc (settled ans))) (rt == 0) (λ y. (_, refl, omega arith))
      (λ n.
        if_cases (Returns (suc (settled ans))) (rt == asked b) (λ y. (_, refl, omega arith))
          (λ y. (_, refl, omega arith)))

buffer-Returns :
    (ans : List Answer) (b : OutBuffer)
    → 0 < settled ans
    → Returns (settled ans) (tcp_write_buffer ans b)
unfolding tcp_write_buffer
buffer-Returns [] b h = absurd (omega arith)
buffer-Returns (moved n ∷ ans) b h = tcp_sent-Returns b (count n (asked b)) ans
buffer-Returns (closed ∷ ans) b h = tcp_sent-Returns b 0 ans
buffer-Returns (again ∷ ans) b h = (_, refl, omega arith)
buffer-Returns (interrupted ∷ ans) b h = buffer-Returns ans b h
buffer-Returns (reset ∷ ans) b h = (_, refl, omega arith)
buffer-Returns (failed ∷ ans) b h = absurd (omega arith)

path-Returns :
    (ans : List Answer) (f : File)
    → (length f.bytes == 0) ≡ false
    → 0 < settled ans
    → Returns (settled ans) (tcp_write_path ans f)
unfolding tcp_write_path file_sent
path-Returns [] f z h = absurd (omega arith)
path-Returns (a ∷ ans) f z h =
    subst
      (λ (b : Bool). Returns (settled (a ∷ ans)) (
        if b then nothing_sent error f (a ∷ ans) else elim a [
          | moved n ↦ file_sent f (count n (unread f)) ans
          | closed ↦ file_sent f 0 ans
          | again ↦ nothing_sent back f ans
          | interrupted ↦ tcp_write_path ans f
          | reset ↦ nothing_sent close f ans
          | failed ↦ nothing_sent error f ans
        ]))
      (sym z) (by_answer a (λ g. path-Returns ans f z g) h)
  where
    by_answer :
        (a : Answer)
        → (0 < settled ans → Returns (settled ans) (tcp_write_path ans f))
        → 0 < settled (a ∷ ans)
        → Returns (settled (a ∷ ans)) (elim a [
          | moved n ↦ file_sent f (count n (unread f)) ans
          | closed ↦ file_sent f 0 ans
          | again ↦ nothing_sent back f ans
          | interrupted ↦ tcp_write_path ans f
          | reset ↦ nothing_sent close f ans
          | failed ↦ nothing_sent error f ans
        ])
    by_answer (moved n) ih h = (_, refl, omega arith)
    by_answer closed ih h = (_, refl, omega arith)
    by_answer again ih h = (_, refl, omega arith)
    by_answer interrupted ih h = ih h
    by_answer reset ih h = (_, refl, omega arith)
    by_answer failed ih h = absurd (omega arith)

one-Returns :
    (ans : List Answer) (o : Out)
    → IsSendable o
    → 0 < settled ans
    → Returns (settled ans) (write_one false ans o)
unfolding write_one
one-Returns ans (out_buffer b) k h =
    let (r, e, l) = buffer-Returns ans b h in
    (
      record { ret = r.ret; out = out_buffer r.out; wire = r.wire; rest = r.rest },
      ground (arith, e),
      l,
    )
one-Returns ans (out_path f) k h =
    let (r, e, l) = path-Returns ans f (ground arith) h in
    (
      record { ret = r.ret; out = out_path r.out; wire = r.wire; rest = r.rest },
      ground (arith, e),
      l,
    )
one-Returns ans (out_path_tls p) k h = absurd k

loop_returns :
    (q : List Out) (ans : List Answer)
    → AllSendable q
    → length q ≤ settled ans
    → (w : Wrote (List Out)) × (write_loop false ans q ≡ some w)
unfolding write_loop
loop_returns [] ans k h = (_, refl)
loop_returns (o ∷ q) ans k h =
    let (r, e, l) = one-Returns ans o k.0 (omega arith) in
    let (w, f) = loop_returns q r.rest k.1 (omega (arith, h, l)) in
    by_return r.ret r.out r.wire r.rest w e f
  where
    by_return :
        (ret : Return) (out : Out) (wire : List ℕ) (rest : List Answer) (w : Wrote (List Out))
        → write_one false ans o ≡ some (record { ret = ret; out = out; wire = wire; rest = rest })
        → write_loop false rest q ≡ some w
        → (w : Wrote (List Out)) × (write_loop false ans (o ∷ q) ≡ some w)
    by_return done out wire rest w e f = (record w { wire = wire ++ w.wire }, ground (arith, e, f))
    by_return back out wire rest w e f =
        (record { ret = back; out = out ∷ q; wire = wire; rest = rest }, ground (arith, e))
    by_return close out wire rest w e f =
        (record { ret = close; out = out ∷ q; wire = wire; rest = rest }, ground (arith, e))
    by_return error out wire rest w e f =
        (record { ret = error; out = out ∷ q; wire = wire; rest = rest }, ground (arith, e))

-- `Write` on a session without TLS, whose queue is not empty and whose requests all have something to
-- send, returns once the system calls have answered as often without an interruption as there are
-- requests, and before an unexpected error.
pub write_returns :
    (ans : List Answer) (s : Session)
    → s.tls ≡ false
    → AllSendable s.queue
    → 0 < length s.queue
    → length s.queue ≤ settled ans
    → (r : Wrote Session) × (write ans s ≡ some r)
unfolding write
write_returns ans s t k l h =
    let (w, e) = loop_returns s.queue ans k h in
    let same : write_loop s.tls ans s.queue ≡ write_loop false ans s.queue =
      ap (λ (b : Bool). write_loop b ans s.queue) t in
    (write_end s w, ground (arith, e, same))

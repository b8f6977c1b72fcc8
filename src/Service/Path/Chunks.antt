-- ===== src/Service/Path/Chunks.antt =====
-- The bytes of the file and the buffer through the loops of `TLSWrite_path`.
use Prim.Native.Nat.{min}
use tidbits.Prelude.{
  ℕ, ◌+◌, ◌-◌, ◌≤◌, ◌≡◌, refl, sym, ap, ◌∙◌, Option, of_some, inl, inr, none, some, List, [], ◌∷◌,
  ◌++◌, take, drop, length-append, take-append-drop, drop-drop, drop_all, drop-append_le,
  append_assoc, arith, ◌==◌, if_cases, Option-cases, if◌then◌else◌,
}
use Prim.{Unit}
use tidbits.Service.Io.{
  Answer, moved, closed, again, interrupted, reset, failed, count, done, back, close, error, Wrote,
}
use tidbits.Service.Path.{
  OutPathTls, Loop, next, stop, unread, next_bytes, len, buffered, filled, rlen, fill_pass,
  record_sent, send_pass, fills, loop_pass, tls_loop,
}

-- What is still to be sent: the rest of the buffer, then the rest of the file.
abbrev pub left : OutPathTls → List ℕ
left p = buffered p ++ drop p.file.offset p.file.bytes

-- The counter agrees with the file, and the index lies in the buffer.
pub record IsFilling (p : OutPathTls) : Type 0 where
  pub inside : p.i ≤ len p
  pub counted : p.file_left ≡ unread p.file

abbrev pub Kept : OutPathTls → Loop → Type 0
Kept p l = elim l [
  | next p' sent ↦ IsFilling p' × sent ++ left p' ≡ left p
  | stop ret p' sent ↦ (sent ++ left p' ≡ left p) × elim ret [ done ↦ left p' ≡ [] | _ ↦ Unit ]
]

filled-left : (p : OutPathTls) (r : ℕ) → p.i ≤ len p → left (filled p r) ≡ left p
filled-left p r h =
    let rest = drop p.file.offset p.file.bytes in
    let e = drop-append_le p.i p.buffer (next_bytes p.file r) h in
    let d : drop r rest ≡ drop (p.file.offset + r) p.file.bytes =
      drop-drop r p.file.offset p.file.bytes in
    let t : take r rest ++ drop r rest ≡ rest = take-append-drop r rest in
    ap (λ (l : List ℕ). l ++ drop (p.file.offset + r) p.file.bytes) e
    ∙ append_assoc (buffered p) (take r rest) (drop (p.file.offset + r) p.file.bytes)
    ∙ ap (λ (l : List ℕ). buffered p ++ (take r rest ++ l)) (sym d)
    ∙ ap (λ (l : List ℕ). buffered p ++ l) t

fill_moved :
    (p : OutPathTls) (r : ℕ)
    → IsFilling p
    → IsFilling (filled p r)
    → Kept p (if r == 0 then stop error p [] else next (filled p r) [])
fill_moved p r h ok =
    if_cases (Kept p) (r == 0) (λ y. (refl, record {})) (λ n. (ok, filled-left p r h.inside))

fill_pass-Kept : (a : Answer) (p : OutPathTls) → IsFilling p → Kept p (fill_pass a p)
unfolding fill_pass
fill_pass-Kept (moved n) p h =
    let r = count n (min (rlen p) (unread p.file)) in
    let ok : IsFilling (filled p r) = record {
      inside = omega (arith, length-append p.buffer (next_bytes p.file r), h.inside);
      counted = omega (arith, h.counted);
    } in
    fill_moved p r h ok
fill_pass-Kept closed p h = (refl, record {})
fill_pass-Kept again p h = (refl, record {})
fill_pass-Kept interrupted p h = (h, refl)
fill_pass-Kept reset p h = (refl, record {})
fill_pass-Kept failed p h = (refl, record {})

send_part :
    (p : OutPathTls) (r : ℕ) → take r (buffered p) ++ left (record p { i = p.i + r }) ≡ left p
send_part p r =
    let rest = drop p.file.offset p.file.bytes in
    let d : drop r (buffered p) ≡ drop (p.i + r) p.buffer = drop-drop r p.i p.buffer in
    ap (λ (l : List ℕ). take r (buffered p) ++ (l ++ rest)) (sym d)
    ∙ sym (append_assoc (take r (buffered p)) (drop r (buffered p)) rest)
    ∙ ap (λ (l : List ℕ). l ++ rest) (take-append-drop r (buffered p))

record_sent-Kept :
    (p : OutPathTls) (r : ℕ) → IsFilling p → r ≤ len p - p.i → Kept p (record_sent p r)
unfolding record_sent
record_sent-Kept p r h l = if_cases (Kept p) (r == len p - p.i) (λ y. whole) (λ n. part)
  where
    p' : OutPathTls
    p' = record p { buffer = []; i = 0 }

    short : Loop
    short = stop back (record p { i = p.i + r }) (take r (buffered p))

    whole : Kept p (if p.file_left == 0 then stop done p' (buffered p) else next p' (buffered p))
    whole =
        if_cases (Kept p) (p.file_left == 0)
          (λ y. (refl, drop_all p.file.offset p.file.bytes (ground arith)))
          (λ n. (record { inside = omega arith; counted = h.counted }, refl))

    part : Kept p short
    part = (send_part p r, record {})

sent_moved :
    (p : OutPathTls) (r : ℕ)
    → IsFilling p
    → r ≤ len p - p.i
    → Kept p (if r == 0 then stop close p [] else record_sent p r)
sent_moved p r h l =
    if_cases (Kept p) (r == 0) (λ y. (refl, record {})) (λ n. (record_sent-Kept p r h l))

send_pass-Kept : (a : Answer) (p : OutPathTls) → IsFilling p → Kept p (send_pass a p)
unfolding send_pass
send_pass-Kept (moved n) p h = sent_moved p (count n (len p - p.i)) h (omega arith)
send_pass-Kept closed p h = (refl, record {})
send_pass-Kept again p h = (refl, record {})
send_pass-Kept interrupted p h = (h, refl)
send_pass-Kept reset p h = (refl, record {})
send_pass-Kept failed p h = (refl, record {})

loop_pass-Kept : (a : Answer) (p : OutPathTls) → IsFilling p → Kept p (loop_pass a p)
unfolding loop_pass
loop_pass-Kept a p h =
    if_cases (Kept p) (fills p) (λ y. (fill_pass-Kept a p h)) (λ n. (send_pass-Kept a p h))

-- What a return of `TLSWrite_path` promises.
abbrev pub Chunked : OutPathTls → Wrote OutPathTls → Type 0
Chunked p r = (r.wire ++ left r.out ≡ left p) × elim r.ret [ done ↦ left r.out ≡ [] | _ ↦ Unit ]

-- How the loop goes on behind a pass.
abbrev pub after : List Answer → Loop → Option (Wrote OutPathTls)
after ans l = elim l [
  | next p' sent ↦ elim (tls_loop ans p') [
    | none ↦ none
    | some r ↦ some (record r { wire = sent ++ r.wire })
  ]
  | stop ret p' sent ↦ some (record { ret = ret; out = p'; wire = sent; rest = ans })
]

after_pass :
    (ans : List Answer) (p : OutPathTls) (r : Wrote OutPathTls)
    → ((p' : OutPathTls) (r' : Wrote OutPathTls)
        → IsFilling p'
        → tls_loop ans p' ≡ some r'
        → Chunked p' r')
    → (l : Loop) → Kept p l
    → after ans l ≡ some r
    → Chunked p r
after_pass ans p r ih (stop ret p' sent) k e =
    of_some (Chunked p) (record { ret = ret; out = p'; wire = sent; rest = ans }) r e k
after_pass ans p r ih (next p' sent) k e = elim (Option-cases (tls_loop ans p')) [
  | inl n ↦ absurd (ground arith)
  | inr (w, f) ↦
      let j = ih p' w k.0 f in
      of_some (Chunked p) (record w { wire = sent ++ w.wire }) r (ground arith)
        (append_assoc sent w.wire (left w.out) ∙ ap (λ (l : List ℕ). sent ++ l) j.0 ∙ k.1, j.1)
]

-- Where the index stands in the buffer and `fileLeft` counts the bytes of the file that are not read:
-- whatever `TLSWrite_path` returns from its loops, the bytes sent and those that are left are the
-- bytes that were left before, in order; a return of 0 leaves none.
pub tls_loop-Chunked :
    (ans : List Answer) (p : OutPathTls) (r : Wrote OutPathTls)
    → IsFilling p
    → tls_loop ans p ≡ some r
    → Chunked p r
unfolding tls_loop
tls_loop-Chunked [] p r h e = absurd (ground arith)
tls_loop-Chunked (a ∷ ans) p r h e =
    after_pass ans p r (tls_loop-Chunked ans) (loop_pass a p) (loop_pass-Kept a p h) e

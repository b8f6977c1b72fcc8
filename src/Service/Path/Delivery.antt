-- ===== src/Service/Path/Delivery.antt =====
-- The bytes of the file that `TCPWrite_path` sends, whole or not at all, or else reports an error.
use tidbits.Prelude.{
  ℕ, ◌+◌, ◌≤◌, ◌<◌, ◌≡◌, refl, sym, subst, ◌∙◌, false, of_some, inl, inr, some, List, [], ◌∷◌, ◌++◌,
  take, drop, length, take_all, drop-drop, take-append-drop, ap, length-drop, arith, ◌==◌,
  Bool-cases,
}
use tidbits.Service.Io.{
  Answer, moved, closed, again, interrupted, reset, failed, count, done, back, close, error, Wrote,
}
use tidbits.Service.Path.{File, unread, next_bytes, file_sent, tcp_write_path}

-- What a return of `TCPWrite_path` promises.
abbrev pub FileDelivered : File → Wrote File → Type 0
FileDelivered f r = elim r.ret [
  | done ↦ r.wire ≡ drop f.offset f.bytes × r.wire ≡ f.bytes
  | back ↦ r.out ≡ f × r.wire ≡ []
  | close ↦ r.wire ≡ []
  | error ↦ r.wire ++ drop r.out.offset f.bytes ≡ drop f.offset f.bytes
]

file_sent-FileDelivered :
    (f : File) (rt : ℕ) (ans : List Answer) (r : Wrote File)
    → 0 < length f.bytes
    → rt ≤ unread f
    → file_sent f rt ans ≡ some r
    → FileDelivered f r
unfolding file_sent
file_sent-FileDelivered f rt ans r h l e = elim (Bool-cases (rt == length f.bytes)) [
  | inl w ↦
      let o : f.offset ≡ 0 = ground arith in
      let same : drop f.offset f.bytes ≡ f.bytes =
        subst (λ (i : ℕ). drop i f.bytes ≡ f.bytes) (sym o) refl in
      let whole : next_bytes f rt ≡ drop f.offset f.bytes =
        take_all rt (drop f.offset f.bytes) (ground (arith, length-drop f.offset f.bytes)) in
      of_some (FileDelivered f)
        (record {
          ret = done;
          out = record f { offset = f.offset + rt };
          wire = next_bytes f rt;
          rest = ans;
        })
        r (ground arith) (whole, whole ∙ same)
  | inr w ↦
      of_some (FileDelivered f)
        (record {
          ret = error;
          out = record f { offset = f.offset + rt };
          wire = next_bytes f rt;
          rest = ans;
        })
        r (ground arith)
        (ap (λ (l : List ℕ). take rt (drop f.offset f.bytes) ++ l)
            (sym (drop-drop rt f.offset f.bytes))
          ∙ take-append-drop rt (drop f.offset f.bytes))
]

-- `TCPWrite_path` returns 0 only when the whole file has gone out, and 2 or 1 only when nothing
-- has; at -1 the bytes that went out end where the offset stands.
pub tcp_write_path-FileDelivered :
    (ans : List Answer) (f : File) (r : Wrote File)
    → 0 < length f.bytes
    → tcp_write_path ans f ≡ some r
    → FileDelivered f r
unfolding tcp_write_path
tcp_write_path-FileDelivered ans f r h e =
    let z : (length f.bytes == 0) ≡ false = ground arith in go ans e
  where
    go : (ans : List Answer) → tcp_write_path ans f ≡ some r → FileDelivered f r
    go [] e = absurd (ground arith)
    go (moved n ∷ ans) e =
        file_sent-FileDelivered f (count n (unread f)) ans r h (omega arith) (ground arith)
    go (closed ∷ ans) e = file_sent-FileDelivered f 0 ans r h (omega arith) (ground arith)
    go (again ∷ ans) e =
        of_some (FileDelivered f) (record { ret = back; out = f; wire = []; rest = ans }) r
          (ground arith) (refl, refl)
    go (interrupted ∷ ans) e = go ans (ground arith)
    go (reset ∷ ans) e =
        of_some (FileDelivered f) (record { ret = close; out = f; wire = []; rest = ans }) r
          (ground arith) refl
    go (failed ∷ ans) e =
        of_some (FileDelivered f) (record { ret = error; out = f; wire = []; rest = ans }) r
          (ground arith) refl

-- ===== src/Service/Session/Stream.antt =====
-- What `Write` sends of the output queue of a session without TLS.
use Prim.{Unit}
use tidbits.Prelude.{
  ℕ, ◌≡◌, refl, sym, ap, subst, ◌∙◌, Bool, false, Option, of_some, inl, inr, none, some, List, [],
  ◌∷◌, ◌++◌, arith, if_cases, Option-cases, append_assoc, append-nil,
}
use tidbits.Service.Io.{Answer, Return, done, back, close, error, Wrote}
use tidbits.Service.Session.{Out, Session, write_one, write_loop, write_end, write}
use tidbits.Service.Session.Delivery.{
  AllSendable, to_send, stream, Prefix, OneSent, write_one-OneSent,
}

abbrev Sent : List Out → Wrote (List Out) → Type 0
Sent q w = elim w.ret [
  | done ↦ (w.out ≡ []) × (w.wire ≡ stream q)
  | back ↦ AllSendable w.out × w.wire ++ stream w.out ≡ stream q
  | close ↦ Prefix w.wire (stream q)
  | error ↦ Prefix w.wire (stream q)
]

append-Prefix : (xs ys zs : List ℕ) → Prefix xs ys → Prefix xs (ys ++ zs)
append-Prefix xs ys zs (ws, e) =
    (ws ++ zs, sym (append_assoc xs ws zs) ∙ ap (λ (l : List ℕ). l ++ zs) e)

behind-Prefix : (xs ys zs : List ℕ) → Prefix ys zs → Prefix (xs ++ ys) (xs ++ zs)
behind-Prefix xs ys zs (ws, e) = (ws, append_assoc xs ys ws ∙ ap (λ (l : List ℕ). xs ++ l) e)

-- How the loop goes on behind a request.
abbrev after : List Out → Wrote Out → Option (Wrote (List Out))
after q r = elim r.ret [
  | done ↦ elim (write_loop false r.rest q) [
    | none ↦ none
    | some w ↦ some (record w { wire = r.wire ++ w.wire })
  ]
  | back ↦ some (record { ret = back; out = r.out ∷ q; wire = r.wire; rest = r.rest })
  | close ↦ some (record { ret = close; out = r.out ∷ q; wire = r.wire; rest = r.rest })
  | error ↦ some (record { ret = error; out = r.out ∷ q; wire = r.wire; rest = r.rest })
]

joined-Sent :
    (o : Out) (q : List Out) (wire : List ℕ) (w : Wrote (List Out))
    → wire ≡ to_send o
    → Sent q w
    → Sent (o ∷ q) (record w { wire = wire ++ w.wire })
joined-Sent o q wire w k = by_return w.ret w.out w.wire w.rest
  where
    same : wire ++ stream q ≡ stream (o ∷ q)
    same = ap (λ (l : List ℕ). l ++ stream q) k

    by_return :
        (ret : Return) (out : List Out) (more : List ℕ) (rest : List Answer)
        → Sent q (record { ret = ret; out = out; wire = more; rest = rest })
        → Sent (o ∷ q) (record { ret = ret; out = out; wire = wire ++ more; rest = rest })
    by_return done out more rest j = (j.0, ap (λ (l : List ℕ). wire ++ l) j.1 ∙ same)
    by_return back out more rest j =
        (j.0, append_assoc wire more (stream out) ∙ ap (λ (l : List ℕ). wire ++ l) j.1 ∙ same)
    by_return close out more rest j =
        subst (Prefix (wire ++ more)) same (behind-Prefix wire more (stream q) j)
    by_return error out more rest j =
        subst (Prefix (wire ++ more)) same (behind-Prefix wire more (stream q) j)

after-Sent :
    (o : Out) (q : List Out) (w : Wrote (List Out))
    → AllSendable q
    → ((ans : List Answer) (w' : Wrote (List Out)) → write_loop false ans q ≡ some w' → Sent q w')
    → (ret : Return) (out : Out) (wire : List ℕ) (rest : List Answer)
    → OneSent o (record { ret = ret; out = out; wire = wire; rest = rest })
    → after q (record { ret = ret; out = out; wire = wire; rest = rest }) ≡ some w
    → Sent (o ∷ q) w
after-Sent o q w h ih done out wire rest k e = elim (Option-cases (write_loop false rest q)) [
  | inl n ↦ absurd (ground arith)
  | inr (v, f) ↦
      of_some (Sent (o ∷ q)) (record v { wire = wire ++ v.wire }) w (ground arith)
        (joined-Sent o q wire v k (ih rest v f))
]
after-Sent o q w h ih back out wire rest k e =
    of_some (Sent (o ∷ q)) (record { ret = back; out = out ∷ q; wire = wire; rest = rest }) w e
      (
        (k.0, h),
        sym (append_assoc wire (to_send out) (stream q)) ∙ ap (λ (l : List ℕ). l ++ stream q) k.1,
      )
after-Sent o q w h ih close out wire rest k e =
    of_some (Sent (o ∷ q)) (record { ret = close; out = out ∷ q; wire = wire; rest = rest }) w e
      (append-Prefix wire (to_send o) (stream q) k)
after-Sent o q w h ih error out wire rest k e =
    of_some (Sent (o ∷ q)) (record { ret = error; out = out ∷ q; wire = wire; rest = rest }) w e
      (append-Prefix wire (to_send o) (stream q) k)

write_loop-Sent :
    (q : List Out) (ans : List Answer) (w : Wrote (List Out))
    → AllSendable q
    → write_loop false ans q ≡ some w
    → Sent q w
unfolding write_loop
write_loop-Sent [] ans w h e =
    of_some (Sent []) (record { ret = done; out = []; wire = []; rest = ans }) w e (refl, refl)
write_loop-Sent (o ∷ q) ans w h e = elim (Option-cases (write_one false ans o)) [
  | inl n ↦ absurd (ground arith)
  | inr (r, f) ↦
      after-Sent o q w h.1 (λ ans' w' e'. write_loop-Sent q ans' w' h.1 e') r.ret r.out r.wire
        r.rest (write_one-OneSent ans o r h.0 f) (ground arith)
]

-- What a return of `Write` promises.
abbrev pub StreamKept : Session → Wrote Session → Type 0
StreamKept s r = elim r.ret [
  | done ↦ AllSendable r.out.queue × r.wire ++ stream r.out.queue ≡ stream s.queue
  | back ↦ Unit
  | close ↦ Prefix r.wire (stream s.queue)
  | error ↦ Prefix r.wire (stream s.queue)
]

write_end-StreamKept :
    (s : Session) (ret : Return) (out : List Out) (wire : List ℕ) (rest : List Answer)
    → Sent s.queue (record { ret = ret; out = out; wire = wire; rest = rest })
    → StreamKept s (write_end s (record { ret = ret; out = out; wire = wire; rest = rest }))
write_end-StreamKept s done out wire rest k =
    if_cases
      (λ (ret : Return). StreamKept s (record {
        ret = ret;
        out = record s { queue = out; write_callback = false };
        wire = wire;
        rest = rest;
      }))
      s.read_callback (λ y. kept) (λ n. (stream out, kept.1))
  where
    kept : AllSendable out × wire ++ stream out ≡ stream s.queue
    kept = (
      subst AllSendable (sym k.0) (record {}),
      ap (λ (q : List Out). wire ++ stream q) k.0 ∙ append-nil wire ∙ k.1,
    )
write_end-StreamKept s back out wire rest k = k
write_end-StreamKept s close out wire rest k = k
write_end-StreamKept s error out wire rest k = k

-- `Write` on a session without TLS whose requests all have something to send: at 0 the bytes sent and
-- those of the requests that are left are the bytes that were queued, in order, and at 1 and -1 the
-- bytes sent are a beginning of them.
pub write-StreamKept :
    (ans : List Answer) (s : Session) (r : Wrote Session)
    → s.tls ≡ false
    → AllSendable s.queue
    → write ans s ≡ some r
    → StreamKept s r
unfolding write
write-StreamKept ans s r t h e = elim (Option-cases (write_loop false ans s.queue)) [
  | inl n ↦ absurd (ground (arith, same))
  | inr (w, f) ↦
      of_some (StreamKept s) (write_end s w) r (ground (arith, same))
        (write_end-StreamKept s w.ret w.out w.wire w.rest (write_loop-Sent s.queue ans w h f))
]
  where
    same : write_loop s.tls ans s.queue ≡ write_loop false ans s.queue
    same = ap (λ (b : Bool). write_loop b ans s.queue) t

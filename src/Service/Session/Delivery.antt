-- ===== src/Service/Session/Delivery.antt =====
-- The byte stream of a session without TLS, and what one request of it sends.
use Prim.{Unit}
use tidbits.Prelude.{
  ℕ, ◌<◌, ◌≡◌, sym, ap, subst, ◌∙◌, false, of_some, inl, inr, some, List, [], ◌∷◌, ◌++◌, length,
  drop, arith, Option-cases,
}
use tidbits.Service.Io.{Answer, Return, done, back, close, error, Wrote}
use tidbits.Service.Buffer.{OutBuffer, pending, tcp_write_buffer}
use tidbits.Service.Buffer.Delivery.{IsPending, Delivered, tcp_write_buffer-Delivered}
use tidbits.Service.Path.{File, tcp_write_path}
use tidbits.Service.Path.Delivery.{FileDelivered, tcp_write_path-FileDelivered}
use tidbits.Service.Session.{Out, out_buffer, out_path, out_path_tls, write_one}

-- A request of a session without TLS that has something to send.
abbrev pub IsSendable : Out → Type 0
IsSendable o = elim o [
  | out_buffer b ↦ IsPending b
  | out_path f ↦ 0 < length f.bytes
  | out_path_tls p ↦ ⊥
]

abbrev pub AllSendable : List Out → Type 0
AllSendable [] = Unit
AllSendable (o ∷ q) = IsSendable o × AllSendable q

abbrev pub to_send : Out → List ℕ
to_send o = elim o [
  | out_buffer b ↦ pending b
  | out_path f ↦ drop f.offset f.bytes
  | out_path_tls p ↦ []
]

-- The bytes that the queue has still to send.
abbrev pub stream : List Out → List ℕ
stream [] = []
stream (o ∷ q) = to_send o ++ stream q

abbrev pub Prefix : List ℕ → List ℕ → Type 0
Prefix xs ys = (zs : List ℕ) × (xs ++ zs ≡ ys)

abbrev pub OneSent : Out → Wrote Out → Type 0
OneSent o r = elim r.ret [
  | done ↦ r.wire ≡ to_send o
  | back ↦ IsSendable r.out × r.wire ++ to_send r.out ≡ to_send o
  | close ↦ Prefix r.wire (to_send o)
  | error ↦ Prefix r.wire (to_send o)
]

nothing-Prefix : (xs ys : List ℕ) → xs ≡ [] → Prefix xs ys
nothing-Prefix xs ys e = (ys, ap (λ (l : List ℕ). l ++ ys) e)

buffer-OneSent :
    (b : OutBuffer) (ret : Return) (out : OutBuffer) (wire : List ℕ) (rest : List Answer)
    → Delivered b (record { ret = ret; out = out; wire = wire; rest = rest })
    → OneSent (out_buffer b) (record { ret = ret; out = out_buffer out; wire = wire; rest = rest })
buffer-OneSent b done out wire rest k = k
buffer-OneSent b back out wire rest k = k
buffer-OneSent b close out wire rest k = nothing-Prefix wire (pending b) k
buffer-OneSent b error out wire rest k = nothing-Prefix wire (pending b) k

path-OneSent :
    (f : File) (ret : Return) (out : File) (wire : List ℕ) (rest : List Answer)
    → 0 < length f.bytes
    → FileDelivered f (record { ret = ret; out = out; wire = wire; rest = rest })
    → OneSent (out_path f) (record { ret = ret; out = out_path out; wire = wire; rest = rest })
path-OneSent f done out wire rest h k = k.0
path-OneSent f back out wire rest h k = (
  subst (λ (g : File). 0 < length g.bytes) (sym k.0) h,
  ap (λ (l : List ℕ). l ++ drop out.offset out.bytes) k.1
      ∙ ap (λ (g : File). drop g.offset g.bytes) k.0,
)
path-OneSent f close out wire rest h k = nothing-Prefix wire (drop f.offset f.bytes) k
path-OneSent f error out wire rest h k = (drop out.offset f.bytes, k)

pub write_one-OneSent :
    (ans : List Answer) (o : Out) (r : Wrote Out)
    → IsSendable o
    → write_one false ans o ≡ some r
    → OneSent o r
unfolding write_one
write_one-OneSent ans (out_buffer b) r h e = elim (Option-cases (tcp_write_buffer ans b)) [
  | inl n ↦ absurd (ground arith)
  | inr (w, f) ↦
      of_some (OneSent (out_buffer b))
        (record { ret = w.ret; out = out_buffer w.out; wire = w.wire; rest = w.rest }) r
        (ground arith)
        (buffer-OneSent b w.ret w.out w.wire w.rest (tcp_write_buffer-Delivered ans b w h f))
]
write_one-OneSent ans (out_path f) r h e = elim (Option-cases (tcp_write_path ans f)) [
  | inl n ↦ absurd (ground arith)
  | inr (w, g) ↦
      of_some (OneSent (out_path f))
        (record { ret = w.ret; out = out_path w.out; wire = w.wire; rest = w.rest }) r
        (ground arith)
        (path-OneSent f w.ret w.out w.wire w.rest h (tcp_write_path-FileDelivered ans f w h g))
]
write_one-OneSent ans (out_path_tls p) r h e = absurd h

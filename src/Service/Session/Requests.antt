-- ===== src/Service/Session/Requests.antt =====
-- What the send functions add to the output queue.
use tidbits.Prelude.{
  ℕ, ◌+◌, ◌-◌, ◌<◌, ◌≡◌, refl, sym, ap, subst, ◌∙◌, Bool, false, inl, inr, leb, some, List, [], ◌∷◌,
  ◌++◌, length, take_all, arith, if_cases, Bool-cases, append_assoc, append-nil,
}
use tidbits.Service.Session.{
  Out, out_path, Session, out_queue_push, request_buffer, want_write, send, send_f, chunk_len,
  print_text, queue_text, path_of, send_path,
}
use tidbits.Service.Session.Delivery.{IsSendable, AllSendable, to_send, stream}

push-AllSendable :
    (q : List Out) (o : Out) → AllSendable q → IsSendable o → AllSendable (q ++ o ∷ [])
push-AllSendable [] o h k = (k, record {})
push-AllSendable (x ∷ q) o h k = (h.0, push-AllSendable q o h.1 k)

stream-push : (q : List Out) (o : Out) → stream (q ++ o ∷ []) ≡ stream q ++ to_send o
stream-push [] o = append-nil (to_send o)
stream-push (x ∷ q) o =
    ap (λ (l : List ℕ). to_send x ++ l) (stream-push q o)
    ∙ sym (append_assoc (to_send x) (stream q) (to_send o))

queue-want_write : (s : Session) → (want_write s).1.queue ≡ s.queue
queue-want_write s =
    if_cases (λ (x : Bool × Session). x.1.queue ≡ s.queue) s.write_callback (λ y. refl) (λ n. refl)

-- `poService_send` of some bytes: the queue stays one of requests that have something to send, and its
-- stream ends with the bytes.
pub send-stream :
    (s : Session) (bytes : List ℕ)
    → 0 < length bytes
    → AllSendable s.queue
    → AllSendable (send s bytes).1.queue × stream (send s bytes).1.queue ≡ stream s.queue ++ bytes
unfolding send out_queue_push
send-stream s bytes h k =
    let o = request_buffer bytes (length bytes) in
    let e = queue-want_write (out_queue_push s o) in
    let whole : to_send o ≡ bytes = take_all (length bytes - 0) bytes (omega arith) in
    (
      subst AllSendable (sym e)
          (push-AllSendable s.queue o k (record { below = h; filled = refl })),
      ap stream e ∙ stream-push s.queue o ∙ ap (λ (l : List ℕ). stream s.queue ++ l) whole,
    )

-- `poService_sendPath` of a file that opens and is not empty, on a session without TLS: the queue stays
-- one of requests that have something to send, and its stream ends with the bytes of the file.
pub send_path-stream :
    (s : Session) (bytes : List ℕ)
    → s.tls ≡ false
    → 0 < length bytes
    → AllSendable s.queue
    → AllSendable (send_path s (some bytes)).1.queue
      × stream (send_path s (some bytes)).1.queue ≡ stream s.queue ++ bytes
unfolding send_path out_queue_push
send_path-stream s bytes t h k =
    let o = out_path (record { bytes = bytes; offset = 0 }) in
    let same : path_of s (record { bytes = bytes; offset = 0 }) ≡ o = ground arith in
    let e =
      queue-want_write (out_queue_push s (path_of s (record { bytes = bytes; offset = 0 }))) in
    let q = e ∙ ap (λ (x : Out). s.queue ++ x ∷ []) same in
    (
      subst AllSendable (sym q) (push-AllSendable s.queue o k h),
      ap stream q ∙ stream-push s.queue o,
    )

print_text_lem : (len : ℕ) (text : List ℕ) → 0 < len → print_text 2 len text ≡ some text
unfolding print_text
print_text_lem len text h = elim (Bool-cases (leb len (length text))) [
  | inl y ↦ ground (arith, take_all (length text + 1 - 1) text (omega arith))
  | inr n ↦ ground (arith, take_all (len - 1) text (ground arith))
]

-- `poService_sendF` prints into a buffer of the text's length, at the second try where the text is
-- long: it does what `poService_send` does with the text.
pub send_f-eq-send : (s : Session) (text : List ℕ) → send_f s text ≡ some (send s text)
unfolding send_f send
send_f-eq-send s text =
    ap (queue_text s (length text)) (print_text_lem chunk_len text (omega arith))

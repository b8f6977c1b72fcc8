-- ===== src/Client/Exchange.antt =====
-- What one side of potato_old/sClient.c sends, the other receives.
use Prim.{Unit}
use tidbits.Prelude.{
  ℕ, zero, suc, ◌+◌, ◌-◌, ◌≤◌, ◌<◌, ◌≡◌, refl, sym, ap, ◌∙◌, some, List, [], ◌∷◌, ◌++◌, length,
  take, drop, arith, take-append-drop, length-append, length-drop, append-nil, append_assoc,
  drop-append_le,
}
use tidbits.Potato.Transfer.{
  Item, Transferred, readn, plain, plain-append, at_most, Enough, writen_returns, readn_returns,
}
use tidbits.Client.{
  RecordAnswer, moved, nothing, interrupted, failed, buflen, bytes, behind_sent, tls_send,
  Transport, tcp, tls, tcp_sent, send_text, client_send_f, behind_received, tls_recv, tcp_received,
  recv,
}

-- The calls move bytes, or are interrupted.
abbrev pub AllMove : List RecordAnswer → Type 0
AllMove [] = Unit
AllMove (moved k ∷ answers) = AllMove answers
AllMove (nothing ∷ answers) = ⊥
AllMove (interrupted ∷ answers) = AllMove answers
AllMove (failed ∷ answers) = ⊥

-- How many of them move bytes.
abbrev pub moves : List RecordAnswer → ℕ
moves [] = 0
moves (moved k ∷ answers) = suc (moves answers)
moves (nothing ∷ answers) = moves answers
moves (interrupted ∷ answers) = moves answers
moves (failed ∷ answers) = moves answers

tls_send_returns :
    (total : ℕ) (answers : List RecordAnswer) (bs : List ℕ)
    → AllMove answers
    → length bs ≤ moves answers
    → tls_send total answers bs ≡ some (bytes total, bs)
unfolding tls_send
tls_send_returns total answers [] a h = refl
tls_send_returns total [] (b ∷ bs) a h = absurd (omega arith)
tls_send_returns total (moved k ∷ answers) (b ∷ bs) a h =
    ap (behind_sent (b ∷ take k bs))
      (tls_send_returns total answers (drop k bs) a (omega (arith, length-drop k bs)))
    ∙ ap (λ (l : List ℕ). some (bytes total, b ∷ l)) (take-append-drop k bs)
tls_send_returns total (nothing ∷ answers) (b ∷ bs) a h = absurd a
tls_send_returns total (interrupted ∷ answers) (b ∷ bs) a h =
    tls_send_returns total answers (b ∷ bs) a h
tls_send_returns total (failed ∷ answers) (b ∷ bs) a h = absurd a

take-append_le :
    {A : Type 0} (i : ℕ) (xs ys : List A) → i ≤ length xs → take i (xs ++ ys) ≡ take i xs
take-append_le zero xs ys h = refl
take-append_le (suc i) [] ys h = absurd (omega arith)
take-append_le (suc i) (x ∷ xs) ys h =
    ap (λ (l : List _). x ∷ l) (take-append_le i xs ys (omega arith))

tls_recv_returns :
    (answers : List RecordAnswer) (bs more : List ℕ)
    → AllMove answers
    → length bs ≤ moves answers
    → tls_recv answers (length bs) (bs ++ more) ≡ some (some (bs ++ 0 ∷ []))
unfolding tls_recv
tls_recv_returns answers [] more a h = refl
tls_recv_returns [] (b ∷ bs) more a h = absurd (omega arith)
tls_recv_returns (nothing ∷ answers) (b ∷ bs) more a h = absurd a
tls_recv_returns (failed ∷ answers) (b ∷ bs) more a h = absurd a
tls_recv_returns (interrupted ∷ answers) (b ∷ bs) more a h =
    tls_recv_returns answers (b ∷ bs) more a h
tls_recv_returns (moved k ∷ answers) (b ∷ bs) more a h =
    let j = at_most k (length bs) in
    let small : j ≤ length bs = ground arith in
    let ih = tls_recv_returns answers (drop j bs) more a (omega (arith, length-drop j bs)) in
    let count : length bs - length (take j bs) ≡ length (drop j bs) = omega (
      arith,
      length-append (take j bs) (drop j bs),
      ap (λ (l : List ℕ). length l) (take-append-drop j bs),
    ) in
    ap
      (λ (l : List ℕ).
        behind_received (b ∷ l) (tls_recv answers (length bs - length l) (drop j (bs ++ more))))
      (take-append_le j bs more small)
    ∙ ap
        (λ (l : List ℕ).
          behind_received (b ∷ take j bs) (tls_recv answers (length bs - length (take j bs)) l))
        (drop-append_le j bs more small)
    ∙ ap (λ (n : ℕ). behind_received (b ∷ take j bs) (tls_recv answers n (drop j bs ++ more))) count
    ∙ ap (behind_received (b ∷ take j bs)) ih
    ∙ ap (λ (l : List ℕ). some (some (b ∷ l)))
        (sym (append_assoc (take j bs) (drop j bs) (0 ∷ []))
          ∙ ap (λ (l : List ℕ). l ++ 0 ∷ []) (take-append-drop j bs))

-- No call fails, and the answers are enough for `n` bytes.
abbrev pub Goes : ℕ → Transport → Type 0
Goes n (tcp answers) = Enough n answers
Goes n (tls answers) = AllMove answers × (n ≤ moves answers)

-- The byte 0 stands behind what TLS receives, and behind what TCP receives nothing.
abbrev pub terminator : Transport → List ℕ
terminator (tcp answers) = []
terminator (tls answers) = 0 ∷ []

exactly : (n : ℕ) (answers : List Transferred) → Enough n answers → Enough (n + 0) answers
exactly n answers h = record { good = h.good; many = omega (arith, h.many) }

send_text_returns :
    (transport : Transport) (text : List ℕ)
    → Goes (length text) transport
    → send_text transport text ≡ some (bytes (length text), text)
send_text_returns (tcp answers) text g =
    let (left, e, h) = writen_returns answers text 0 (exactly (length text) answers g) in
    ap (tcp_sent (length text)) e
send_text_returns (tls answers) text g = tls_send_returns (length text) answers text g.0 g.1

recv_returns :
    (transport : Transport) (text more : List ℕ)
    → Goes (length text) transport
    → recv transport (length text) (text ++ more) ≡ some (some (text ++ terminator transport))
unfolding recv
recv_returns (tcp answers) text more g =
    let (left, e, h) =
      readn_returns answers text (plain more) 0 (exactly (length text) answers g) in
    ap (λ (l : List Item). tcp_received (readn answers (length text) l)) (plain-append text more)
    ∙ ap tcp_received e
    ∙ ap (λ (l : List ℕ). some (some l)) (sym (append-nil text))
recv_returns (tls answers) text more g = tls_recv_returns answers text more g.0 g.1

-- Where no call fails, but for interruptions of the GnuTLS calls, `poClient_sendF` sends a text that fits in its buffer,
-- all of it and in order, and returns its length; `poSClient_recv` of this length receives it, whatever
-- parts it comes in and whatever stands behind it. A byte 0 follows in the buffer with TLS only.
pub recv-client_send_f :
    (sender receiver : Transport) (text more : List ℕ)
    → length text < buflen
    → Goes (length text) sender
    → Goes (length text) receiver
    → (client_send_f sender text ≡ some (bytes (length text), text))
      × (recv receiver (length text) (text ++ more) ≡ some (some (text ++ terminator receiver)))
unfolding client_send_f
recv-client_send_f sender receiver text more h s r =
    (ground (arith, send_text_returns sender text s), recv_returns receiver text more r)

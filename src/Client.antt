-- ===== src/Client.antt =====
-- `poClient_sendF` and `poSClient_recv` of potato_old/sClient.c, the blocking client over TCP or TLS. What
-- GnuTLS says stands in a list of answers.
pub mod Exchange
pub mod Tests
use tidbits.Prelude.{
  ℕ, zero, suc, ◌+◌, ◌-◌, ◌≡◌, refl, if◌then◌else◌, leb, ltb, Bool, true, false, Option, none, some,
  List, [], ◌∷◌, ◌++◌, length, take, drop,
}
use tidbits.Potato.Transfer.{Item, Transferred, writen, readn, plain, at_most}

-- What `gnutls_record_send` or `gnutls_record_recv` says: a positive result, at most `k + 1`, 0,
-- GNUTLS_E_INTERRUPTED, or another error.
pub data RecordAnswer : Type 0 where
  moved : ℕ → RecordAnswer
  nothing : RecordAnswer
  interrupted : RecordAnswer
  failed : RecordAnswer

-- PO_SCLIENT_BUFLEN.
abbrev pub buflen : ℕ
buflen = 1024

-- What `poClient_sendF` returns: a number of bytes, or -1.
pub data SendReturn : Type 0 where
  bytes : ℕ → SendReturn
  minus_one : SendReturn

-- A result with the bytes that were sent so far.
abbrev pub behind_sent : List ℕ → Option (SendReturn × List ℕ) → Option (SendReturn × List ℕ)
behind_sent sent none = none
behind_sent sent (some (r, more)) = some (r, sent ++ more)

-- The loop of `poClient_sendF` for TLS, with the bytes that are left of `total`: what it returns and
-- the bytes that it sends. `none` is a list of answers that is too short.
unfoldable pub tls_send : ℕ → List RecordAnswer → List ℕ → Option (SendReturn × List ℕ)
tls_send total answers [] = some (bytes total, [])
tls_send total [] (b ∷ bs) = none
tls_send total (moved k ∷ answers) (b ∷ bs) =
    behind_sent (b ∷ take k bs) (tls_send total answers (drop k bs))
tls_send total (nothing ∷ answers) (b ∷ bs) = some (bytes 0, [])
tls_send total (interrupted ∷ answers) (b ∷ bs) = tls_send total answers (b ∷ bs)
tls_send total (failed ∷ answers) (b ∷ bs) = some (minus_one, [])

-- What the calls of a transfer say, by TCP or by TLS.
pub data Transport : Type 0 where
  tcp : List Transferred → Transport
  tls : List RecordAnswer → Transport

abbrev pub tcp_sent : ℕ → Option (Bool × List ℕ × List Transferred) → Option (SendReturn × List ℕ)
tcp_sent total none = none
tcp_sent total (some (true, sent, left)) = some (minus_one, sent)
tcp_sent total (some (false, sent, left)) = some (bytes total, sent)

abbrev pub send_text : Transport → List ℕ → Option (SendReturn × List ℕ)
send_text (tcp answers) text = tcp_sent (length text) (writen answers text)
send_text (tls answers) text = tls_send (length text) answers text

-- `poClient_sendF` for the text that `vsnprintf` makes. `none` is a list of answers that is too short, or
-- the end of the process by an assertion, where the text is too long.
unfoldable pub client_send_f : Transport → List ℕ → Option (SendReturn × List ℕ)
client_send_f transport text = if leb buflen (length text) then none else send_text transport text

-- What `poSClient_recv` puts into the buffer, or `none` for NULL. An outer `none` is a list of answers
-- that is too short, or a call that waits for bytes.
abbrev pub Buffer : Type 0
Buffer = Option (Option (List ℕ))

abbrev pub behind_received : List ℕ → Buffer → Buffer
behind_received front none = none
behind_received front (some none) = some none
behind_received front (some (some more)) = some (some (front ++ more))

-- The loop of `poSClient_recv` for TLS, and the byte 0 behind it.
unfoldable pub tls_recv : List RecordAnswer → ℕ → List ℕ → Buffer
tls_recv answers zero stream = some (some (0 ∷ []))
tls_recv [] (suc n) stream = none
tls_recv (nothing ∷ answers) (suc n) stream = some none
tls_recv (interrupted ∷ answers) (suc n) stream = tls_recv answers (suc n) stream
tls_recv (failed ∷ answers) (suc n) stream = some none
tls_recv (moved k ∷ answers) (suc n) [] = none
tls_recv (moved k ∷ answers) (suc n) (b ∷ stream) =
    let front = take (at_most k n) stream in
    behind_received (b ∷ front) (tls_recv answers (n - length front) (drop (at_most k n) stream))

abbrev pub tcp_received : Option (Bool × List ℕ × List Transferred × List Item) → Buffer
tcp_received none = none
tcp_received (some (true, bs, left, behind)) = some none
tcp_received (some (false, bs, left, behind)) = some (some bs)

-- `poSClient_recv` of `n` bytes from a stream.
unfoldable pub recv : Transport → ℕ → List ℕ → Buffer
recv (tcp answers) n stream = tcp_received (readn answers n (plain stream))
recv (tls answers) n stream = tls_recv answers n stream

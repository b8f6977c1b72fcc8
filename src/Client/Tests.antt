-- ===== src/Client/Tests.antt =====
-- The client at concrete texts.
use tidbits.Prelude.{ℕ, ◌≡◌, refl, some, List, [], ◌∷◌, ◌++◌, arith}
use tidbits.Potato.Transfer.{got}
use tidbits.Client.{
  moved, interrupted, failed, bytes, minus_one, Transport, tcp, tls, tls_send, client_send_f, recv,
}
use tidbits.Client.Exchange.{terminator, recv-client_send_f}

abbrev hello : List ℕ
hello = 104 ∷ 101 ∷ 108 ∷ 108 ∷ 111 ∷ []

abbrev by_tcp : Transport
by_tcp = tcp (got 1 ∷ got 0 ∷ got 2 ∷ got 0 ∷ got 0 ∷ [])

abbrev by_tls : Transport
by_tls = tls (moved 1 ∷ interrupted ∷ moved 0 ∷ moved 2 ∷ moved 0 ∷ moved 0 ∷ [])

recv-send_f_example :
    (client_send_f by_tls hello ≡ some (bytes 5, hello))
    × (recv by_tcp 5 (hello ++ 33 ∷ []) ≡ some (some (hello ++ terminator by_tcp)))
recv-send_f_example =
    recv-client_send_f by_tls by_tcp hello (33 ∷ []) (omega arith) (record {}, omega arith)
      (record { good = record {}; many = omega arith })

-- Another error ends the loop, with the bytes that were sent so far.
send_fails : client_send_f (tls (moved 1 ∷ failed ∷ [])) hello ≡ some (minus_one, 104 ∷ 101 ∷ [])
unfolding client_send_f tls_send
send_fails = refl

-- ===== src/Service/Buffer.antt =====
-- `struct OutBuffer`, `TCPWrite_buffer` and `TLSWrite_buffer` of potato_old/service.c.
pub mod Delivery
use tidbits.Prelude.{
  ℕ, ◌+◌, ◌-◌, ◌==◌, if◌then◌else◌, Option, none, some, List, [], ◌∷◌, take, drop,
}
use tidbits.Service.Io.{
  Answer, moved, closed, again, interrupted, reset, failed, count, Return, done, back, close, error,
  Wrote, nothing_sent,
}

-- `struct OutBuffer`: the bytes from `index` up to `len` are still to be sent.
pub record OutBuffer : Type 0 where
  pub buffer : List ℕ
  pub index : ℕ
  pub len : ℕ

abbrev pub asked : OutBuffer → ℕ
asked b = b.len - b.index

abbrev pub pending : OutBuffer → List ℕ
pending b = take (asked b) (drop b.index b.buffer)

-- `rt >= 0` in `TCPWrite_buffer`.
unfoldable pub tcp_sent : OutBuffer → ℕ → List Answer → Option (Wrote OutBuffer)
tcp_sent b rt ans =
    if rt == 0
    then nothing_sent close b ans
    else if rt == asked b
    then some (record { ret = done; out = b; wire = take rt (pending b); rest = ans })
    else some (record {
      ret = back;
      out = record b { index = b.index + rt };
      wire = take rt (pending b);
      rest = ans;
    })

-- The calls of `write` get the answers of the list in order; `none` is a list that is too short, or the end
-- of the process by the assertion that an unexpected error fails.
unfoldable pub tcp_write_buffer : List Answer → OutBuffer → Option (Wrote OutBuffer)
tcp_write_buffer [] b = none
tcp_write_buffer (moved n ∷ ans) b = tcp_sent b (count n (asked b)) ans
tcp_write_buffer (closed ∷ ans) b = tcp_sent b 0 ans
tcp_write_buffer (again ∷ ans) b = nothing_sent back b ans
tcp_write_buffer (interrupted ∷ ans) b = tcp_write_buffer ans b
tcp_write_buffer (reset ∷ ans) b = nothing_sent close b ans
tcp_write_buffer (failed ∷ ans) b = none

-- `rt >= 0` in `TLSWrite_buffer`: the test of line 178 ends in a semicolon, so the function returns 0
-- for every positive `rt`.
unfoldable pub tls_sent : OutBuffer → ℕ → List Answer → Option (Wrote OutBuffer)
tls_sent b rt ans =
    if rt == 0
    then nothing_sent close b ans
    else some (record { ret = done; out = b; wire = take rt (pending b); rest = ans })

unfoldable pub tls_write_buffer : List Answer → OutBuffer → Option (Wrote OutBuffer)
tls_write_buffer [] b = none
tls_write_buffer (moved n ∷ ans) b = tls_sent b (count n (asked b)) ans
tls_write_buffer (closed ∷ ans) b = tls_sent b 0 ans
tls_write_buffer (again ∷ ans) b = nothing_sent back b ans
tls_write_buffer (interrupted ∷ ans) b = tls_write_buffer ans b
tls_write_buffer (reset ∷ ans) b = nothing_sent error b ans
tls_write_buffer (failed ∷ ans) b = nothing_sent error b ans

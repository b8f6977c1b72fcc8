-- ===== src/Service/Io.antt =====
-- What `read`, `write`, `sendfile` and the gnutls record calls answer to potato_old/service.c, and what
-- the functions there return to their caller.
use tidbits.Prelude.{ℕ, suc, List, [], Option, some}
use Prim.Native.Nat.{min}

-- The answer to a call that asks for some bytes to be moved. `moved n` is `n + 1` bytes, or all that
-- were asked for, if those are fewer; `closed` is 0; the others are errors: EAGAIN or
-- GNUTLS_E_AGAIN, EINTR or GNUTLS_E_INTERRUPTED, EPIPE or ECONNRESET, any other.
pub data Answer : Type 0 where
  moved : ℕ → Answer
  closed : Answer
  again : Answer
  interrupted : Answer
  reset : Answer
  failed : Answer

-- The bytes that `moved n` moves when `asked` are asked for.
abbrev pub count : ℕ → ℕ → ℕ
count n asked = min (suc n) asked

-- The `int` that a write function returns: 0, 2, 1 and -1.
pub data Return : Type 0 where
  done : Return
  back : Return
  close : Return
  error : Return

-- What a write function returns, the request as it leaves it, the bytes that went out, and the answers
-- that are left for later calls.
pub record Wrote (T : Type 0) : Type 0 where
  pub ret : Return
  pub out : T
  pub wire : List ℕ
  pub rest : List Answer

abbrev pub nothing_sent : {T : Type 0} → Return → T → List Answer → Option (Wrote T)
nothing_sent r b ans = some (record { ret = r; out = b; wire = []; rest = ans })

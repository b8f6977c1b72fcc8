-- ===== src/Service/Tests.antt =====
-- Runs of a session, and the theorems about it at concrete requests.
use mathlib.Core.List.{map}
use tidbits.Prelude.{ℕ, ◌<◌, ◌≡◌, ◌≢◌, refl, true, false, some, List, [], ◌∷◌, arith}
use tidbits.Service.Io.{moved, again, interrupted, done, back, error, Wrote}
use tidbits.Service.Buffer.{OutBuffer, tcp_sent, tcp_write_buffer, tls_sent, tls_write_buffer}
use tidbits.Service.Buffer.Delivery.{short_record_lost}
use tidbits.Service.Path.{
  File, OutPathTls, file_sent, tcp_write_path, fill_pass, record_sent, send_pass, fills, loop_pass,
  tls_loop, tls_write_path,
}
use tidbits.Service.Path.Chunks.{Chunked, tls_loop-Chunked}
use tidbits.Service.Path.LastChunk.{last_chunk_lost}
use tidbits.Service.Session.{Session, out_buffer, out_path, write_one, write_loop, write}
use tidbits.Service.Session.Delivery.{AllSendable}
use tidbits.Service.Session.Stream.{StreamKept, write-StreamKept}
use tidbits.Service.Session.Returns.{write_returns}
use tidbits.Service.Request.{
  Input, got, signalled, Reading, tcp_read, tls_read, Callback, read, use_reading, after_callback,
  new_session, continue, wait,
}
use tidbits.Service.Request.Filling.{IsFilled, softened, tcp_read-IsFilled, tls_read-eq-tcp_read}
use tidbits.Service.Request.Ready.{IsReady, read-IsReady}

abbrev five_bytes : OutBuffer
five_bytes = record { buffer = 10 ∷ 11 ∷ 12 ∷ 13 ∷ 14 ∷ []; index = 1; len = 5 }

-- Two bytes of four go out, at the second try.
abbrev two_sent : Wrote OutBuffer
two_sent = record {
  ret = back;
  out = record five_bytes { index = 3 };
  wire = 11 ∷ 12 ∷ [];
  rest = [];
}

two_sent_run : tcp_write_buffer (interrupted ∷ moved 1 ∷ []) five_bytes ≡ some two_sent
unfolding tcp_write_buffer tcp_sent
two_sent_run = refl

abbrev tls_two_sent : Wrote OutBuffer
tls_two_sent = record { ret = done; out = five_bytes; wire = 11 ∷ 12 ∷ []; rest = [] }

tls_two_sent_run : tls_write_buffer (moved 1 ∷ []) five_bytes ≡ some tls_two_sent
unfolding tls_write_buffer tls_sent
tls_two_sent_run = refl

short_record_lost_example : (done ≡ done) × (2 < 4)
short_record_lost_example =
    short_record_lost 1 [] five_bytes tls_two_sent (record { below = omega arith; filled = refl })
      (omega arith) tls_two_sent_run

abbrev page : File
page = record { bytes = 1 ∷ 2 ∷ 3 ∷ []; offset = 0 }

abbrev page_sent : Wrote File
page_sent = record {
  ret = done;
  out = record page { offset = 3 };
  wire = 1 ∷ 2 ∷ 3 ∷ [];
  rest = [];
}

page_sent_run : tcp_write_path (interrupted ∷ moved 9 ∷ []) page ≡ some page_sent
unfolding tcp_write_path file_sent
page_sent_run = refl

abbrev transfer : OutPathTls
transfer = record { file = page; buffer = []; i = 0; file_left = 3 }

-- The page is read in two pieces, and two of its bytes go out.
abbrev part_sent : Wrote OutPathTls
part_sent = record {
  ret = back;
  out = record { file = record page { offset = 3 }; buffer = 1 ∷ 2 ∷ 3 ∷ []; i = 2; file_left = 0 };
  wire = 1 ∷ 2 ∷ [];
  rest = [];
}

part_sent_run : tls_loop (moved 0 ∷ moved 5 ∷ moved 1 ∷ []) transfer ≡ some part_sent
unfolding tls_loop loop_pass fills fill_pass send_pass record_sent
part_sent_run = refl

tls_loop-Chunked_example : Chunked transfer part_sent
tls_loop-Chunked_example =
    tls_loop-Chunked (moved 0 ∷ moved 5 ∷ moved 1 ∷ []) transfer part_sent
      (record { inside = omega arith; counted = refl }) part_sent_run

-- The call for the last byte of the page.
abbrev resumed : Wrote OutPathTls
resumed = record {
  ret = error;
  out = record part_sent.out { file_left = 3 };
  wire = [];
  rest = moved 0 ∷ [];
}

resumed_run : tls_write_path (moved 0 ∷ moved 0 ∷ []) part_sent.out ≡ some resumed
unfolding tls_write_path tls_loop loop_pass fills fill_pass send_pass record_sent
resumed_run = refl

last_chunk_lost_example : error ≢ done
last_chunk_lost_example =
    last_chunk_lost (moved 0 ∷ moved 0 ∷ []) part_sent.out resumed refl (omega arith) refl
      resumed_run

abbrev busy : Session
busy = record (new_session false 5000) {
  queue = out_buffer five_bytes ∷ out_path page ∷ [];
  write_callback = true;
}

abbrev busy_sent : Wrote Session
busy_sent = record {
  ret = done;
  out = record busy { queue = out_path page ∷ [] };
  wire = 11 ∷ 12 ∷ 13 ∷ 14 ∷ [];
  rest = [];
}

busy-AllSendable : AllSendable busy.queue
busy-AllSendable = (record { below = omega arith; filled = refl }, (omega arith, record {}))

busy_run : write (moved 7 ∷ again ∷ []) busy ≡ some busy_sent
unfolding write write_loop write_one tcp_write_buffer tcp_sent tcp_write_path
busy_run = refl

write-StreamKept_example : StreamKept busy busy_sent
write-StreamKept_example =
    write-StreamKept (moved 7 ∷ again ∷ []) busy busy_sent refl busy-AllSendable busy_run

write_returns_example : (r : Wrote Session) × (write (moved 7 ∷ again ∷ []) busy ≡ some r)
write_returns_example =
    write_returns (moved 7 ∷ again ∷ []) busy refl busy-AllSendable (omega arith) (omega arith)

-- A small buffer that is filled grows, as the greatest length is not reached.
abbrev grown : Reading
grown = record { ret = back; bytes = 1 ∷ 2 ∷ 3 ∷ 4 ∷ []; size = 1026 }

abbrev coming : List Input
coming = signalled ∷ got 2 (3 ∷ []) ∷ got 4 [] ∷ []

grown_run : tcp_read 4 coming (1 ∷ []) 3 ≡ some grown
unfolding tcp_read
grown_run = refl

tcp_read-IsFilled_example : IsFilled 4 (1 ∷ []) grown
tcp_read-IsFilled_example =
    tcp_read-IsFilled 4 coming (1 ∷ []) 3 grown (omega arith) (omega arith) grown_run

tls_read-eq-tcp_read_example :
    tls_read 4 coming (1 ∷ []) 3 ≡ tcp_read 4 (map softened coming) (1 ∷ []) 3
tls_read-eq-tcp_read_example = tls_read-eq-tcp_read 4 coming (1 ∷ []) 3

-- A callback that waits for a message of three bytes.
abbrev three_please : Callback
three_please s bytes = elim bytes [ x ∷ y ∷ z ∷ zs ↦ (continue, s) | _ ↦ (wait, s) ]

abbrev half : Session
half = record (new_session false 5000) { in_buffer = 1 ∷ 2 ∷ [] }

half_run : read three_please (got 1 (2 ∷ []) ∷ []) (new_session false 5000) ≡ some (done, half)
unfolding read tcp_read use_reading after_callback
half_run = refl

read-IsReady_example : IsReady 5000 half
read-IsReady_example =
    read-IsReady three_please (got 1 (2 ∷ []) ∷ []) (new_session false 5000) half keeps
      (record { room = omega arith; bounded = omega arith }) half_run
  where
    keeps :
        (s : Session) (bytes : List ℕ)
        → (three_please s bytes).1.in_buffer ≡ s.in_buffer
          × (three_please s bytes).1.in_size ≡ s.in_size
    keeps s [] = (refl, refl)
    keeps s (x ∷ []) = (refl, refl)
    keeps s (x ∷ y ∷ []) = (refl, refl)
    keeps s (x ∷ y ∷ z ∷ zs) = (refl, refl)

-- ===== src/Server/Pass/Tests.antt =====
-- Passes of a server at concrete states.
use tidbits.Prelude.{
  List, ℕ, ◌+◌, ◌<◌, ◌≡◌, ◌==◌, ◌||◌, ◌⊎◌, ◌++◌, refl, Bool, true, false, Option, none, some, [],
  ◌∷◌, arith, of_some,
}
use tidbits.Server.{WaitingQueue, queue_push, queue_pull, unused_push, unused_pop, update}
use tidbits.Server.Chain.{mem}
use tidbits.Server.Used.{list_add_new, list_remove}
use tidbits.Server.Connection.{Connection, remove_connection, add_connection}
use tidbits.Server.Connection.Run.{push_all}
use tidbits.Server.Callbacks.{Handlers, is_set, serve, serve_read, serve_write}
use tidbits.Server.Callbacks.Quiet.{quiet_read, quiet_write, serve-Quiet}
use tidbits.Server.Events.{
  PoServer, AcceptAnswer, no_client, client, accept, timed_out, replace_old, is_old, Flags,
  listener_event,
}
use tidbits.Server.Events.Kept.{Kept, Good, AllClosed, takes_one}
use tidbits.Server.Events.Replace.{replace_old_returns, accept-Ordered, Ordered}
use tidbits.Server.Pass.{
  LoopPass, interrupted, at_listener, at_connection, ready, remove_old, can_accept, accept_all,
  do_event, do_events, before_poll, do_next_event, wait_for_last, close_listeners, pull_all,
  listeners_shut, shutdown, server_destroy,
}
use tidbits.Server.Pass.Fresh.{Fits, Fitting}
use tidbits.Server.Pass.Limits.{young, remove_old-Kept, accept_all_returns}
use tidbits.Server.Pass.Reach.{
  started, started-Kept, at_start, passed, Reached-Good, shutdown_closes,
}
use tidbits.Server.Pass.Shutdown.{listening, destroy_closes}
use tidbits.Server.Pass.Ends.{quiet_pass, after_passes, shutdown_returns}
use tidbits.Server.Pass.Stale.{stale_event_breaks}
use tidbits.Server.Tests.{three_open, three_open-Open, reading_connection}

-- The callback 9 closes, and the others keep the connection; the calls are counted.
abbrev counting : Handlers ℕ
counting callback v w = record {
  close = callback == 9;
  world = w + 1;
  read = v.read_callback;
  write = v.write_callback;
  cleanup = v.cleanup_callback;
}

-- A connection that can be read and written, with both callbacks.
abbrev both_ready : Connection
both_ready = record (reading_connection 10) {
  write_callback = some 6;
  read_ready = true;
  write_ready = true;
}

kept_open : (serve counting both_ready 0).0 ≡ false
unfolding serve serve_read serve_write
kept_open = refl

serve-Quiet_example :
    (quiet_read (serve counting both_ready 0).2 ≡ true)
    × (quiet_write (serve counting both_ready 0).2 ≡ true)
    × (is_set (serve counting both_ready 0).2.read_callback
          || is_set (serve counting both_ready 0).2.write_callback
        ≡ true)
serve-Quiet_example = serve-Quiet counting (λ callback v w h. h) both_ready 0 kept_open

abbrev one_listens : ℕ → Option ℕ
one_listens = update (λ i. none) 0 (some 5)

abbrev morning : PoServer ℕ
morning = started 2 one_listens (λ l. 7) 0

-- A client comes, and then something to read.
abbrev first_pass : LoopPass
first_pass = record {
  time = 10;
  accepts = client 20 true true 10 ∷ [];
  poll = ready (at_listener 0 10 ∷ []);
}

abbrev reading : Flags
reading = record { input = true; output = false; hangup = false }

abbrev second_pass : LoopPass
second_pass = record {
  time = 11;
  accepts = no_client ∷ [];
  poll = ready (at_connection 0 reading ∷ []);
}

abbrev or_start : Option (PoServer ℕ) → PoServer ℕ
or_start none = morning
or_start (some s) = s

noon : PoServer ℕ
unfolding push_all unused_push unused_pop list_add_new list_remove remove_connection add_connection
    queue_push queue_pull accept accept_all listener_event do_event do_events before_poll
    do_next_event
noon = or_start (do_next_event counting 2 none none first_pass morning)

do_next_event-first : do_next_event counting 2 none none first_pass morning ≡ some noon
unfolding noon
do_next_event-first = refl

-- The connection that came, with the number of callbacks that ran.
at_noon : (noon.server.lists.first ≡ some 0) × (noon.arrived ≡ 20 ∷ []) × (noon.world ≡ 0)
unfolding noon
at_noon = (refl, refl, refl)

first_fits : Fitting counting 2 none first_pass morning
unfolding before_poll accept_all
first_fits s' rest e =
    of_some (λ (r : PoServer ℕ × List AcceptAnswer). Fits counting 2 none first_pass.poll r.0)
      (morning, first_pass.accepts) (s', rest) e
      (record { once = record {}; open_ones = λ z m. absurd (ground arith) })

Reached-Good_example : Good 2 noon
Reached-Good_example =
    Reached-Good counting 2 none 1 morning noon
      ([], 0 ∷ 1 ∷ [], [], started-Kept 2 one_listens (λ l. 7) 0)
      (passed first_pass morning noon at_start first_fits do_next_event-first)

-- One listener waits, and of five connections 4, 1 and 3 are used.
abbrev listener_waits : WaitingQueue
listener_waits = record {
  next = λ x. none;
  waiting = update (λ x. false) 0 true;
  first = some 0;
  last = some 0;
}

abbrev busy : PoServer ℕ
busy = record morning {
  server = three_open;
  waiting = listener_waits;
  accept_time = update (update (update (λ c. 0) 4 1) 1 2) 3 6;
  arrived = 10 ∷ 11 ∷ 12 ∷ [];
}

busy-Kept : Kept 5 busy (4 ∷ 1 ∷ 3 ∷ []) (0 ∷ 2 ∷ []) (0 ∷ [])
busy-Kept = record {
  is_kept = three_open-Open;
  all = refl;
  account = λ z. ground arith;
  queue = record {
    holds = record { chain = (refl, refl); ends = refl; distinct = (refl, record {}) };
    flags = λ x. ground arith;
  };
}

busy-Ordered : Ordered busy.accept_time (4 ∷ 1 ∷ 3 ∷ [])
busy-Ordered = (
  λ z m. ground (arith, m),
  (λ z m. ground (arith, m), (λ z m. absurd (ground arith), record {})),
)

accept-Ordered_example :
    ((takes_one (client 30 true true 8) ≡ false) × (accept busy (client 30 true true 8) ≡ none))
    ⊎ ((takes_one (client 30 true true 8) ≡ true)
        × ((r : Bool × PoServer ℕ) × (used : List ℕ) × (free : List ℕ) × (queued : List ℕ) × (accept
                busy
                (client 30 true true 8)
              ≡ some r)
            × Kept 5 r.1 used free queued
            × Ordered r.1.accept_time used))
accept-Ordered_example =
    accept-Ordered 5 busy (4 ∷ 1 ∷ 3 ∷ []) (2 ∷ []) [] 0 0 (client 30 true true 8) busy-Kept
      busy-Ordered (λ z m. ground (arith, m))

-- With a long timeout of 3, the connections 4 and 1 are very old at 5.
remove_old-Kept_example :
    (gs : List ℕ) × Kept 5
      (remove_old 5 3 5 busy)
      (young (is_old busy 3 5) (4 ∷ 1 ∷ 3 ∷ []))
      gs
      (0 ∷ [])
    × ((z : ℕ)
        → mem z (young (is_old busy 3 5) (4 ∷ 1 ∷ 3 ∷ [])) ≡ true
        → 5 < busy.accept_time z + 3)
remove_old-Kept_example =
    remove_old-Kept 5 3 5 busy (4 ∷ 1 ∷ 3 ∷ []) (0 ∷ 2 ∷ []) (0 ∷ []) busy-Kept busy-Ordered

abbrev two_clients : List AcceptAnswer
two_clients = client 30 true true 8 ∷ client 31 true true 8 ∷ no_client ∷ []

accept_all_returns_example :
    (s : PoServer ℕ) × (left : List AcceptAnswer) × (accept_all two_clients busy ≡ some (s, left))
    × (can_accept s ≡ false)
accept_all_returns_example =
    accept_all_returns 5 two_clients busy (4 ∷ 1 ∷ 3 ∷ []) (0 ∷ 2 ∷ []) (0 ∷ []) busy-Kept
      (refl, (refl, (refl, record {}))) (omega arith)

replace_old_returns_example :
    (s : PoServer ℕ) × (left : List AcceptAnswer) × (replace_old two_clients 3 5 busy
      ≡ some (s, left))
    × (timed_out s 3 5 ≡ none)
replace_old_returns_example =
    replace_old_returns 5 two_clients 3 5 busy (4 ∷ 1 ∷ 3 ∷ []) (0 ∷ 2 ∷ []) (0 ∷ []) busy-Kept
      (refl, (refl, (refl, record {}))) (omega arith, (omega arith, (record {}, record {})))
      (omega arith)

destroy_closes_example :
    ((fd : ℕ) × (fds : List ℕ) × (listening busy.listener_fd 1 0 ≡ fd ∷ fds)
      × (server_destroy 1 5 busy ≡ none))
    ⊎ ((listening busy.listener_fd 1 0 ≡ [])
        × ((s : PoServer ℕ) × (server_destroy 1 5 busy ≡ some s) × AllClosed 5 s))
destroy_closes_example = destroy_closes 5 1 busy (4 ∷ 1 ∷ 3 ∷ []) (0 ∷ 2 ∷ []) (0 ∷ []) busy-Kept

-- The listening socket is closed, and no listener waits.
abbrev evening : PoServer ℕ
evening = record busy {
  waiting = record {
    next = λ x. none;
    waiting = update listener_waits.waiting 0 false;
    first = none;
    last = none;
  };
  listener_fd = update one_listens 0 none;
  listeners_down = true;
  listeners_closed = 5 ∷ [];
}

evening-Kept : Kept 5 evening (4 ∷ 1 ∷ 3 ∷ []) (0 ∷ 2 ∷ []) []
evening-Kept = record {
  is_kept = three_open-Open;
  all = refl;
  account = λ z. ground arith;
  queue = record {
    holds = record { chain = refl; ends = refl; distinct = record {} };
    flags = λ x. ground arith;
  };
}

-- In a first pass `epoll_wait` is interrupted.
abbrev signalled_pass : LoopPass
signalled_pass = record { time = 2; accepts = []; poll = interrupted }

shut-busy : listeners_shut 1 busy ≡ some evening
unfolding listeners_shut pull_all close_listeners queue_pull
shut-busy = refl

passed-evening : after_passes counting 5 none 3 (signalled_pass ∷ []) evening ≡ some evening
unfolding do_next_event before_poll remove_old accept_all
passed-evening = refl

shutdown_returns_example :
    (s : PoServer ℕ) × (shutdown counting 1 5 none
        (some 3)
        ((signalled_pass ∷ []) ++ quiet_pass 9 ∷ [])
        busy
      ≡ some s)
    × AllClosed 5 s
shutdown_returns_example =
    shutdown_returns counting 5 none 3 1 9 (signalled_pass ∷ []) busy evening evening
      (4 ∷ 1 ∷ 3 ∷ []) (0 ∷ 2 ∷ []) shut-busy passed-evening evening-Kept (λ z m. ground (arith, m))

night : PoServer ℕ
unfolding push_all unused_push unused_pop list_add_new list_remove remove_connection add_connection
    queue_pull accept accept_all replace_old do_events before_poll do_next_event remove_old
    close_listeners pull_all listeners_shut wait_for_last shutdown
night = or_start (shutdown counting 1 5 none (some 3) (quiet_pass 9 ∷ []) busy)

shutdown-busy : shutdown counting 1 5 none (some 3) (quiet_pass 9 ∷ []) busy ≡ some night
unfolding night
shutdown-busy = refl

shutdown_closes_example : AllClosed 5 night
shutdown_closes_example =
    shutdown_closes counting 5 (some 3) 1 (quiet_pass 9 ∷ []) busy night
      (4 ∷ 1 ∷ 3 ∷ [], 0 ∷ 2 ∷ [], 0 ∷ [], busy-Kept)
      (λ v e. ((λ s' rest e. record {}), (λ s' e. record {}))) shutdown-busy

-- The only connection is used since the time 1.
abbrev full : PoServer ℕ
full = record morning {
  server = record {
    lists = record {
      prev = λ c. none;
      first = some 0;
      last = some 0;
      unused = record { next = λ c. none; front = none; back = none };
    };
    conn = update (λ c. record (reading_connection 10) { fd = none }) 0 (reading_connection 10);
    cleaned = [];
    closed = [];
    ended = false;
  };
  accept_time = λ c. 1;
  arrived = 10 ∷ [];
}

full-Kept : Kept 1 full (0 ∷ []) [] []
full-Kept = record {
  is_kept = record {
    lists = record {
      used = (refl, refl, refl);
      ends = refl;
      unused = record { chain = refl; ends = refl; distinct = record {} };
      distinct = (refl, record {});
      apart = λ z m. refl;
    };
    descriptors = λ z. ground arith;
    running = refl;
  };
  all = refl;
  account = λ z. ground arith;
  queue = record {
    holds = record { chain = refl; ends = refl; distinct = record {} };
    flags = λ x. refl;
  };
}

stale_event_breaks_example :
    (full.server.ended ≡ false)
    × ((s : PoServer ℕ) × (do_events counting 1
            (some 2000)
            none
            (at_listener 0 2001 ∷ at_connection 0 reading ∷ [])
            (no_client ∷ [])
            full
          ≡ some (s, []))
        × (s.server.ended ≡ true))
stale_event_breaks_example =
    stale_event_breaks counting 1 2000 none full 0 0 2001 [] reading [] full-Kept refl refl

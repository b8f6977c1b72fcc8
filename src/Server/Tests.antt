-- ===== src/Server/Tests.antt =====
-- The queues of the server at concrete states.
use tidbits.Prelude.{List, ℕ, ◌≡◌, refl, true, false, none, some, [], ◌∷◌, arith}
use tidbits.Server.{WaitingQueue, unused_pop, unused_push, update}
use tidbits.Server.Used.{Connections, list_add_new, list_remove}
use tidbits.Server.Used.Lists.{Lists}
use tidbits.Server.Used.Remove.{list_remove-Lists}
use tidbits.Server.Connection.{Connection, Server, remove_connection, add_connection}
use tidbits.Server.Connection.Open.{Open}
use tidbits.Server.Connection.Run.{create, push_all, Event, accepted, removal, step, run}
use tidbits.Server.Queues.{Waits}

abbrev two_waiting : WaitingQueue
two_waiting = record {
  next = update (λ x. none) 3 (some 1);
  waiting = update (update (λ x. false) 1 true) 3 true;
  first = some 3;
  last = some 1;
}

two_waiting-Waits : Waits two_waiting (3 ∷ 1 ∷ [])
two_waiting-Waits = record {
  holds = record {
    chain = (refl, (refl, refl));
    ends = refl;
    distinct = (refl, (refl, record {}));
  };
  flags = λ x. ground arith;
}

-- Of six connections, 4, 1 and 3 are used in this order, and 0 and 2 are not.
abbrev three_used : Connections
three_used = record {
  prev = update (update (λ x. none) 1 (some 4)) 3 (some 1);
  first = some 4;
  last = some 3;
  unused = record {
    next = update (update (update (λ x. none) 0 (some 2)) 4 (some 1)) 1 (some 3);
    front = some 0;
    back = some 2;
  };
}

three_used-Lists : Lists three_used (4 ∷ 1 ∷ 3 ∷ []) (0 ∷ 2 ∷ [])
three_used-Lists = record {
  used = (refl, refl, (refl, refl, (refl, refl, refl)));
  ends = refl;
  unused = record {
    chain = (refl, (refl, refl));
    ends = refl;
    distinct = (refl, (refl, record {}));
  };
  distinct = (refl, (refl, (refl, record {})));
  apart = λ z h. ground (arith, h);
}

list_remove-Lists_example : Lists (list_remove three_used 1) (4 ∷ 3 ∷ []) (0 ∷ 2 ∷ 1 ∷ [])
list_remove-Lists_example =
    list_remove-Lists three_used (4 ∷ []) (3 ∷ []) (0 ∷ 2 ∷ []) 1 three_used-Lists

abbrev idle_connection : Connection
idle_connection = record {
  fd = none;
  read_callback = none;
  write_callback = none;
  cleanup_callback = none;
  read_ready = false;
  write_ready = false;
}

abbrev pub reading_connection : ℕ → Connection
reading_connection n = record idle_connection {
  fd = some n;
  read_callback = some 7;
  cleanup_callback = some 8;
}

abbrev pub three_open : Server
three_open = record {
  lists = three_used;
  conn =
      update
        (update (update (λ c. idle_connection) 4 (reading_connection 10)) 1 (reading_connection 11))
        3 (reading_connection 12);
  cleaned = [];
  closed = [];
  ended = false;
}

pub three_open-Open : Open three_open (4 ∷ 1 ∷ 3 ∷ []) (0 ∷ 2 ∷ [])
three_open-Open = record {
  lists = three_used-Lists;
  descriptors = λ z. ground arith;
  running = refl;
}

-- Of two connections, both are opened, and then removed and opened again.
abbrev busy_day : List Event
busy_day =
    accepted 20 7 true true
    ∷ accepted 21 7 true true
    ∷ removal 1
    ∷ accepted 22 7 true true
    ∷ removal 0
    ∷ []

evening : Server
unfolding push_all unused_push unused_pop list_add_new list_remove remove_connection add_connection
    step run
evening = elim (run busy_day (create 2)) [ none ↦ create 2 | some s ↦ s ]

run-busy_day : run busy_day (create 2) ≡ some evening
unfolding evening
run-busy_day = refl

all_closed : evening.closed ≡ 21 ∷ 20 ∷ []
unfolding evening
all_closed = refl

-- ===== src/Potato/Tests.antt =====
-- The process side of a potato server at concrete states.
use tidbits.Prelude.{
  zero, suc, ℕ, ◌+◌, ◌≡◌, refl, if◌then◌else◌, true, false, none, some, List, [], ◌∷◌, ◌++◌, arith,
}
use tidbits.Server.{update}
use tidbits.Server.Chain.{mem}
use tidbits.Potato.Options.{
  Options, Actions, get_opt_string, choose, strtol, take_option, option_loop, do_options,
}
use tidbits.Potato.Options.Printed.{
  all_flags, Written, in_two, with_equals, forks, copies, replaces, print, perform_all,
  option_loop-print,
}
use tidbits.Potato.Transfer.{Item, byte, Transferred, got}
use tidbits.Potato.HandOff.{Listening, pass_listeners, signal_hand_off, end_char}
use tidbits.Potato.HandOff.Received.{passed, signal_hand_off-pass_listeners}
use tidbits.Potato.HandOff.Sockets.{HandoffSlot, get_port, find_listener_fd, handoff_cleanup, count}
use tidbits.Potato.Children.{remove_children, exited}
use tidbits.Potato.Children.Status.{exit_status_lost}
use tidbits.Server.Setup.{SetupCalls, listener_setup}
use tidbits.Server.Setup.Account.{SetupCall, set_up, not_set_up, Progress, held, set_up_accounts}
use tidbits.Potato.Fork.{ForkCalls, no_fork, parent, fork_loop, fork_parent, fork_calling}
use tidbits.Potato.Fork.Ends.{Grown, fork_loop-Grown}
use tidbits.Potato.Servers.{Servers, term_handler}
use tidbits.Potato.Servers.Stopped.{term_handler_stops}

-- The hand-offs are counted, and every other option is an error.
abbrev counted : Actions ℕ
counted = record { signal_hand_off = λ pid shut w. (false, w + 1); do_other_opts = none }

abbrev at_first : Options ℕ
at_first = record { num_forks = 0; world = 0 }

-- "--fork 12 --copy=7 --replace 8".
abbrev three_options : List Written
three_options =
    in_two (forks (49 ∷ 50 ∷ []))
    ∷ with_equals (copies (55 ∷ []))
    ∷ in_two (replaces (56 ∷ []))
    ∷ []

option_loop-print_example :
    option_loop counted all_flags (print three_options) at_first
    ≡ perform_all counted three_options at_first
option_loop-print_example = option_loop-print counted three_options at_first (record {}, record {})

twelve_forks :
    do_options counted all_flags (print three_options) at_first
    ≡ (false, record { num_forks = 12; world = 2 })
unfolding do_options option_loop take_option choose get_opt_string strtol
twelve_forks = refl

-- "--fork" without a value is an error.
no_value :
    do_options counted all_flags ((45 ∷ 45 ∷ 102 ∷ 111 ∷ 114 ∷ 107 ∷ []) ∷ []) at_first
    ≡ (true, at_first)
unfolding do_options option_loop take_option choose get_opt_string
no_value = refl

-- An address of AF_INET with a port.
abbrev at_port : ℕ → List ℕ
at_port p = 2 ∷ 0 ∷ 0 ∷ p ∷ 127 ∷ 0 ∷ 0 ∷ 1 ∷ 0 ∷ 0 ∷ 0 ∷ 0 ∷ 0 ∷ 0 ∷ 0 ∷ 0 ∷ []

abbrev two_listeners : Listening
two_listeners = record {
  num_listeners = 2;
  listener = λ i. record { addr = at_port (80 + i); fd = 5 + i };
}

abbrev many : ℕ → List Transferred
many zero = []
many (suc n) = got 2 ∷ many n

signal_hand_off-pass_listeners_example :
    (stream : List Item) × (left : List Transferred) × (pass_listeners
        (two_listeners ∷ [])
        (many 40)
      ≡ some (false, stream, left))
    × (signal_hand_off [] true (many 40) (stream ++ byte end_char ∷ [])
        ≡ some (false, passed (two_listeners ∷ [])))
    × (signal_hand_off [] false (many 40) stream ≡ some (false, passed (two_listeners ∷ [])))
signal_hand_off-pass_listeners_example =
    signal_hand_off-pass_listeners (two_listeners ∷ []) [] (many 40) (many 40)
      ((λ i. refl), record {}) (omega arith) (record { good = record {}; many = omega arith })
      (record { good = record {}; many = omega arith })

-- The port 80 with another address, and the port 81.
abbrev two_slots : List HandoffSlot
two_slots =
    record { addr = 2 ∷ 0 ∷ 0 ∷ 80 ∷ 10 ∷ []; fd = some 5 }
    ∷ record { addr = at_port 81; fd = some 6 }
    ∷ []

exit_status_lost_example :
    (remove_children
      (λ i. record { around_kill = []; in_wait = (exited, 31) ∷ []; status = some 7 })
      (record { child_pids = some 31 ∷ []; exit_status = 1 })).0
    ≡ 1
exit_status_lost_example = exit_status_lost 31 7 1

abbrev two_servers : Servers
two_servers = record {
  next = update (λ s. none) 1 (some 0);
  prev = update (λ s. none) 0 (some 1);
  first = some 1;
  is_running = λ s. true;
  terminating = false;
}

term_handler_stops_example :
    (p : Servers) × (term_handler 3 two_servers ≡ some p)
    × ((z : ℕ) → p.is_running z ≡ (if mem z (1 ∷ 0 ∷ []) then false else true))
    × (term_handler 3 p ≡ none)
term_handler_stops_example =
    term_handler_stops two_servers (1 ∷ 0 ∷ []) 3 (refl, (refl, refl)) (refl, (refl, record {}))
      (omega arith) refl (λ z m. refl)

abbrev good_calls : SetupCalls
good_calls = record {
  address = true;
  socket = some 9;
  setsockopt = true;
  nonblocking = true;
  bind = true;
  listen = true;
  epoll = true;
}

abbrev two_setups : List SetupCall
two_setups =
    record { calls = good_calls; addr = at_port 80; callback = 7 }
    ∷ record { calls = good_calls; addr = at_port 81; callback = 8 }
    ∷ []

set_up_accounts_example :
    Progress 2 (set_up 2 two_setups (not_set_up two_slots)).1
    × (held 6 (set_up 2 two_setups (not_set_up two_slots)).1
        ≡ count 6 (handoff_cleanup two_slots)
          + count 6 (set_up 2 two_setups (not_set_up two_slots)).0)
set_up_accounts_example = set_up_accounts 6 2 two_setups two_slots (omega arith)

-- The socket of port 80 had another address and is closed; a new one is opened.
two_set_up : set_up 2 two_setups (not_set_up two_slots) ≡ (
  9 ∷ [],
  record { listeners = (9, 7) ∷ (6, 8) ∷ []; is_running = true; slots = []; closed = 5 ∷ [] },
)
unfolding set_up listener_setup find_listener_fd handoff_cleanup get_port
two_set_up = refl

-- Two children that start, and then no more processes.
abbrev two_then_none : ℕ → ForkCalls
two_then_none zero = no_fork
two_then_none (suc n) =
    parent (40 + n) (record { close_writer = true; read = some 99; close_reader = true })

fork_loop-Grown_example :
    Grown 3
      (record { child_pids = none ∷ []; exit_status = 0 })
      (fork_loop 3 two_then_none (record { child_pids = none ∷ []; exit_status = 0 }))
fork_loop-Grown_example =
    fork_loop-Grown 3 two_then_none (record { child_pids = none ∷ []; exit_status = 0 })

two_forked :
    fork_loop 3 two_then_none (record { child_pids = none ∷ []; exit_status = 0 })
    ≡ (true, record { child_pids = none ∷ some 41 ∷ some 40 ∷ []; exit_status = 0 })
unfolding fork_loop fork_calling fork_parent
two_forked = refl

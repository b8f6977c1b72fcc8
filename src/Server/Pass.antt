-- ===== src/Server/Pass.antt =====
-- `_poServer_doNextEvent`, `poServer_doNextEvents`, `poServer_shutdown` and `poServer_destroy` of
-- potato_old/server.c without a thread pool.
pub mod Batch
pub mod Fresh
pub mod Limits
pub mod Reach
pub mod Shutdown
pub mod Ends
pub mod Stale
pub mod Tests
use tidbits.Prelude.{
  ℕ, zero, suc, ◌+◌, if◌then◌else◌, Bool, true, false, ◌&&◌, Option, none, some, List, [], ◌∷◌,
  ◌++◌,
}
use tidbits.Server.{update, WaitingQueue, queue_pull}
use tidbits.Server.Connection.{Connection, Server, append_if}
use tidbits.Server.Chain.{mem}
use tidbits.Server.Callbacks.{Handlers, is_set}
use tidbits.Server.Events.{
  PoServer, AcceptAnswer, accepting, used_first, removing, is_old, look_for_accept, listener_event,
  Flags, connection_event,
}

-- `struct epoll_event`: one of a listener, with the time when it is handled, or of a connection.
pub data EpollEvent : Type 0 where
  at_listener : ℕ → ℕ → EpollEvent
  at_connection : ℕ → Flags → EpollEvent

-- What `epoll_wait` says: it timed out, EINTR, another error, or events.
pub data Poll : Type 0 where
  no_events : Poll
  interrupted : Poll
  poll_error : Poll
  ready : List EpollEvent → Poll

-- What the calls of one `_poServer_doNextEvent` say: the time, `accept` and `epoll_wait`.
pub record LoopPass : Type 0 where
  pub time : ℕ
  pub accepts : List AcceptAnswer
  pub poll : Poll

module _ {W : Type 0} where
  -- The condition of the loop that removes very old connections: the connection to be removed.
  abbrev pub very_old : PoServer W → ℕ → ℕ → Option ℕ
  very_old s long t = elim (used_first s) [
    | none ↦ none
    | some c ↦ if is_old s long t c then some c else none
  ]

  -- The loop that removes very old connections, for a number of passes.
  unfoldable pub remove_old : ℕ → ℕ → ℕ → PoServer W → PoServer W
  remove_old zero long t s = s
  remove_old (suc n) long t s = elim (very_old s long t) [
    | none ↦ s
    | some c ↦ remove_old n long t (removing s c)
  ]

  -- The same where the timeout may be -1.
  abbrev pub remove_very_old : ℕ → Option ℕ → ℕ → PoServer W → PoServer W
  remove_very_old n none t s = s
  remove_very_old n (some long) t s = remove_old n long t s

  abbrev pub can_accept : PoServer W → Bool
  can_accept s = is_set s.waiting.first && is_set s.server.lists.unused.back

  -- The loop of `_poServer_accept`, over what the calls of `accept` say. `none` is a NULL pointer, the end
  -- of the process, or a list of answers that is too short.
  unfoldable pub accept_all :
      List AcceptAnswer → PoServer W → Option (PoServer W × List AcceptAnswer)
  accept_all [] s = elim (can_accept s) [ true ↦ none | false ↦ some (s, []) ]
  accept_all (a ∷ rest) s = elim (can_accept s) [
    | true ↦ elim (accepting s a) [ none ↦ none | some s' ↦ accept_all rest s' ]
    | false ↦ some (s, a ∷ rest)
  ]

-- `n` is PO_SERVER_MAX_CONNECTIONS, and `wait` and `long` are the two timeouts.
module _ {W : Type 0} (user : Handlers W) (n : ℕ) (wait long : Option ℕ) where
  -- `doEvent`.
  unfoldable pub do_event :
      EpollEvent → List AcceptAnswer → PoServer W → Option (PoServer W × List AcceptAnswer)
  do_event (at_listener l t) rest s = listener_event wait l t rest s
  do_event (at_connection c f) rest s =
      let (server, world) = connection_event user c f s.server s.world in
      some (record s { server = server; world = world }, rest)

  -- The loop over the events.
  unfoldable pub do_events :
      List EpollEvent → List AcceptAnswer → PoServer W → Option (PoServer W × List AcceptAnswer)
  do_events [] rest s = some (s, rest)
  do_events (e ∷ es) rest s = elim (do_event e rest s) [
    | none ↦ none
    | some (s', rest') ↦ do_events es rest' s'
  ]

  -- `_poServer_doNextEvent` up to `epoll_wait`.
  unfoldable pub before_poll : LoopPass → PoServer W → Option (PoServer W × List AcceptAnswer)
  before_poll p s = elim (accept_all p.accepts (remove_very_old n long p.time s)) [
    | none ↦ none
    | some (s', rest) ↦ look_for_accept wait p.time rest s'
  ]

  -- `_poServer_doNextEvent` behind `epoll_wait`.
  abbrev pub after_poll :
      Poll → List AcceptAnswer → PoServer W → Option (PoServer W × List AcceptAnswer)
  after_poll no_events rest s = some (s, rest)
  after_poll interrupted rest s = some (s, rest)
  after_poll poll_error rest s = some (s, rest)
  after_poll (ready es) rest s = do_events es rest s

  -- `_poServer_doNextEvent`.
  unfoldable pub do_next_event : LoopPass → PoServer W → Option (PoServer W)
  do_next_event p s = elim (before_poll p s) [
    | none ↦ none
    | some (s', rest) ↦ elim (after_poll p.poll rest s') [
      | none ↦ none
      | some (s'', left) ↦ some s''
    ]
  ]

  -- The loop of `poServer_shutdown`: passes as long as a connection is used.
  unfoldable pub wait_for_last : List LoopPass → PoServer W → Option (PoServer W)
  wait_for_last [] s = elim (used_first s) [ none ↦ some s | some c ↦ none ]
  wait_for_last (p ∷ ps) s = elim (used_first s) [
    | none ↦ some s
    | some c ↦ elim (do_next_event p s) [ none ↦ none | some s' ↦ wait_for_last ps s' ]
  ]

-- The loop that empties the waiting queue, for a number of passes. `none` is a NULL pointer.
unfoldable pub pull_all : ℕ → WaitingQueue → Option WaitingQueue
pull_all zero q = some q
pull_all (suc m) q = elim q.first [
  | none ↦ some q
  | some l ↦ elim (queue_pull q) [ none ↦ none | some q' ↦ pull_all m q' ]
]

module _ {W : Type 0} where
  -- The loop that closes the listening sockets, from listener `i` on, in `poServer_shutdown`.
  unfoldable pub close_listeners : ℕ → ℕ → PoServer W → PoServer W
  close_listeners zero i s = s
  close_listeners (suc m) i s = close_listeners m (i + 1) (record s {
    listener_fd = update s.listener_fd i none;
    listeners_closed = append_if s.listeners_closed (s.listener_fd i);
  })

  -- `poServer_shutdown` of a server with `m` listeners, up to the loop.
  unfoldable pub listeners_shut : ℕ → PoServer W → Option (PoServer W)
  listeners_shut m s = elim (pull_all m s.waiting) [
    | none ↦ none
    | some q ↦ some (record (close_listeners m 0 s) { waiting = q; listeners_down = true })
  ]

  -- The first loop of `poServer_destroy` that closes the listening sockets, and leaves their descriptors.
  unfoldable pub close_again : ℕ → ℕ → PoServer W → PoServer W
  close_again zero i s = s
  close_again (suc m) i s =
      close_again m (i + 1)
        (record s { listeners_closed = append_if s.listeners_closed (s.listener_fd i) })

  -- The loop of `poServer_destroy` that removes the used connections, for a number of passes.
  unfoldable pub remove_used : ℕ → PoServer W → PoServer W
  remove_used zero s = s
  remove_used (suc n) s = elim (used_first s) [ none ↦ s | some c ↦ remove_used n (removing s c) ]

  -- The second one, where `close` stands in an assertion: `none` is the end of the process, because the
  -- descriptor is closed already.
  unfoldable pub close_checked : ℕ → ℕ → PoServer W → Option (PoServer W)
  close_checked zero i s = some s
  close_checked (suc m) i s = elim (s.listener_fd i) [
    | none ↦ close_checked m (i + 1) s
    | some fd ↦ elim (mem fd s.listeners_closed) [
      | true ↦ none
      | false ↦
          close_checked m (i + 1) (record s { listeners_closed = s.listeners_closed ++ fd ∷ [] })
    ]
  ]

  -- `poServer_destroy` of a server with `m` listeners and `n` connections.
  unfoldable pub server_destroy : ℕ → ℕ → PoServer W → Option (PoServer W)
  server_destroy m n s = close_checked m 0 (remove_used n (close_again m 0 s))

-- `poServer_shutdown`.
unfoldable pub shutdown :
    {W : Type 0}
    → Handlers W
    → ℕ
    → ℕ
    → Option ℕ
    → Option ℕ
    → List LoopPass
    → PoServer W
    → Option (PoServer W)
shutdown user m n wait long ps s = elim (listeners_shut m s) [
  | none ↦ none
  | some s' ↦ wait_for_last user n wait long ps s'
]

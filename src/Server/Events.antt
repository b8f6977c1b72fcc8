-- ===== src/Server/Events.antt =====
-- `_poServer_accept`, `lookForAcceptFromTimedOutConns` and `doEvent` of potato_old/server.c without a
-- thread pool: the mutexes are empty macros, and `checkTryRemoveConnection` is `removeConnection`.
pub mod Kept
pub mod Loop
pub mod Serve
pub mod Replace
use tidbits.Prelude.{
  ℕ, zero, suc, ◌+◌, if◌then◌else◌, leb, Bool, true, false, not, ◌&&◌, ◌||◌, Option, none, some,
  List, [], ◌∷◌, ◌++◌,
}
use tidbits.Server.{update, WaitingQueue, queue_pull, queue_push}
use tidbits.Server.Connection.{Connection, Server, remove_connection, add_connection}
use tidbits.Server.Connection.Open.{is_open}
use tidbits.Server.Callbacks.{Handlers, is_set, stored, service_connection}

-- `struct POServer` with its listeners, the accept times of its connections in milliseconds, and the
-- state of the user. `arrived` are the descriptors that `accept` returned, and
-- `listeners_closed` are the descriptors of listeners that were closed, oldest first.
pub record PoServer (W : Type 0) : Type 0 where
  pub server : Server
  pub waiting : WaitingQueue
  pub listener_fd : ℕ → Option ℕ
  pub listener_callback : ℕ → ℕ
  pub accept_time : ℕ → ℕ
  pub is_running : Bool
  pub listeners_down : Bool
  pub world : W
  pub arrived : List ℕ
  pub listeners_closed : List ℕ

-- What `accept` says: EAGAIN, another error, or a descriptor, with what `setNonblocking` and
-- `epoll_ctl` then say of it and the time.
pub data AcceptAnswer : Type 0 where
  no_client : AcceptAnswer
  accept_error : AcceptAnswer
  client : ℕ → Bool → Bool → ℕ → AcceptAnswer

module _ {W : Type 0} where
  -- Behind `addConnection`, which has set the accept time.
  abbrev pub connected : PoServer W → ℕ → ℕ → Option (ℕ × Server) → Option (Bool × PoServer W)
  connected s fd t none = none
  connected s fd t (some (c, server)) = some (
    false,
    record s {
      server = server;
      accept_time = update s.accept_time c t;
      arrived = s.arrived ++ fd ∷ [];
    },
  )

  abbrev pub pulled : PoServer W → Option WaitingQueue → Option (Bool × PoServer W)
  pulled s none = none
  pulled s (some q) = some (false, record s { waiting = q })

  -- `_poServer_accept` for the first waiting listener. Another error than EAGAIN is a failing assertion,
  -- which ends the process.
  abbrev pub accept_at : PoServer W → ℕ → AcceptAnswer → Option (Bool × PoServer W)
  accept_at s l no_client = pulled s (queue_pull s.waiting)
  accept_at s l accept_error = none
  accept_at s l (client fd nonblocking polled t) =
      connected s fd t (add_connection s.server fd (s.listener_callback l) nonblocking polled)

  -- `_poServer_accept`, `true` for an error. `none` is an access through a NULL pointer, or the end of the
  -- process.
  unfoldable pub accept : PoServer W → AcceptAnswer → Option (Bool × PoServer W)
  accept s a = elim s.waiting.first [ none ↦ none | some l ↦ accept_at s l a ]

  -- The state behind an `_poServer_accept` whose return value is not looked at.
  abbrev pub accepting : PoServer W → AcceptAnswer → Option (PoServer W)
  accepting s a = elim (accept s a) [ none ↦ none | some (failed, s') ↦ some s' ]

  abbrev pub used_first : PoServer W → Option ℕ
  used_first s = s.server.lists.first

  abbrev pub removing : PoServer W → ℕ → PoServer W
  removing s c = record s { server = remove_connection s.server c }

  -- `t - acceptTime >= timeout`.
  abbrev pub is_old : PoServer W → ℕ → ℕ → ℕ → Bool
  is_old s timeout t c = leb (s.accept_time c + timeout) t

  -- The condition of the loop of `lookForAcceptFromTimedOutConns`: the connection to be removed.
  abbrev pub timed_out : PoServer W → ℕ → ℕ → Option ℕ
  timed_out s wait t = elim (used_first s) [
    | none ↦ none
    | some c ↦ if is_set s.waiting.first && is_old s wait t c then some c else none
  ]

  -- The loop of `lookForAcceptFromTimedOutConns`, over what the calls of `accept` say: the state and
  -- the answers that are left. `none` is a NULL pointer, the end of the process, or a list of answers that is
  -- too short.
  unfoldable pub replace_old :
      List AcceptAnswer → ℕ → ℕ → PoServer W → Option (PoServer W × List AcceptAnswer)
  replace_old [] wait t s = elim (timed_out s wait t) [ none ↦ some (s, []) | some c ↦ none ]
  replace_old (a ∷ rest) wait t s = elim (timed_out s wait t) [
    | none ↦ some (s, a ∷ rest)
    | some c ↦ elim (accepting (removing s c) a) [
      | none ↦ none
      | some s' ↦ replace_old rest wait t s'
    ]
  ]

  -- `lookForAcceptFromTimedOutConns`; the timeout -1 is `none`.
  abbrev pub look_for_accept :
      Option ℕ → ℕ → List AcceptAnswer → PoServer W → Option (PoServer W × List AcceptAnswer)
  look_for_accept none t rest s = some (s, rest)
  look_for_accept (some wait) t rest s = replace_old rest wait t s

  -- One `_poServer_accept`, with the first answer.
  abbrev pub accept_one : List AcceptAnswer → PoServer W → Option (PoServer W × List AcceptAnswer)
  accept_one [] s = none
  accept_one (a ∷ rest) s = elim (accepting s a) [ none ↦ none | some s' ↦ some (s', rest) ]

  -- `doEvent` at a listener.
  unfoldable pub listener_event :
      Option ℕ → ℕ → ℕ → List AcceptAnswer → PoServer W → Option (PoServer W × List AcceptAnswer)
  listener_event wait l t rest s =
      let s' = record s { waiting = queue_push s.waiting l } in
      if not s.is_running && not (is_open (s.listener_fd l))
      then some (s, rest)
      else if is_set s.server.lists.unused.back
      then accept_one rest s'
      else look_for_accept wait t rest s'

-- The flags of an event at a connection.
pub record Flags : Type 0 where
  pub input : Bool
  pub output : Bool
  pub hangup : Bool

-- The flags EPOLLIN and EPOLLOUT make the connection ready.
abbrev pub made_ready : Flags → Connection → Connection
made_ready f v = record v {
  read_ready = f.input || v.read_ready;
  write_ready = f.output || v.write_ready;
}

-- `callIt` of `doEvent`.
abbrev pub call_it : Connection → Bool
call_it v = v.read_ready && is_set v.read_callback || v.write_ready && is_set v.write_callback

-- The end of `doEvent` at a connection: EPOLLRDHUP or EPOLLERR.
abbrev pub hangup_event : ℕ → Flags → Server → Server
hangup_event c f s = if is_open (s.conn c).fd && f.hangup then remove_connection s c else s

module _ {W : Type 0} (user : Handlers W) where
  -- The middle part of `doEvent` at a connection, for EPOLLIN or EPOLLOUT.
  unfoldable pub ready_event : ℕ → Flags → Server → W → Server × W
  ready_event c f s w =
      let v = made_ready f (s.conn c) in
      if f.input || f.output
      then (if call_it v then service_connection user (stored s c v) c w else (stored s c v, w))
      else (s, w)

  -- `doEvent` at a connection.
  unfoldable pub connection_event : ℕ → Flags → Server → W → Server × W
  connection_event c f s w =
      let (s', w') = ready_event c f s w in
      if is_set (s.conn c).read_callback || is_set (s.conn c).write_callback
      then (hangup_event c f s', w')
      else (remove_connection s c, w)

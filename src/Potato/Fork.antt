-- ===== src/Potato/Fork.antt =====
-- `poTato_fork` and `poTato_doOptionsFork` of potato_old/potato.c. What the calls say is an argument, `true`
-- where they succeed; a failing call goes on with the lines behind its assertion.
pub mod Ends
use tidbits.Prelude.{
  ℕ, zero, suc, ◌+◌, ◌==◌, if◌then◌else◌, Bool, true, false, ◌&&◌, Option, none, some, List, [],
  ◌∷◌, ◌++◌,
}
use tidbits.Potato.Children.{Children}

-- The ends of the pipe.
pub data End : Type 0 where
  reader : End
  writer : End

-- What the calls of the parent say: `close` of the writer, `read` with its byte, and `close` of the
-- reader. `realloc` succeeds.
pub record ParentCalls : Type 0 where
  pub close_writer : Bool
  pub read : Option ℕ
  pub close_reader : Bool

-- A result of `poTato_fork` in a process that goes on: the pid that it returns, `none` for -1, the ends
-- of the pipe that it closed, the child that it signalled with SIGINT, and its children.
pub record Forked : Type 0 where
  pub returned : Option ℕ
  pub ends : List End
  pub signalled : Option ℕ
  pub children : Children

abbrev pub forked : Option ℕ → List End → Option ℕ → Children → Forked
forked returned ends signalled c = record {
  returned = returned;
  ends = ends;
  signalled = signalled;
  children = c;
}

-- The labels `parentFail1` and `parentFail2`, with the ends that are closed before.
abbrev pub parent_fail1 : ℕ → List End → Children → Forked
parent_fail1 pid ends c = forked none (ends ++ reader ∷ []) (some pid) c

abbrev pub parent_fail2 : ℕ → List End → Children → Forked
parent_fail2 pid ends c = forked none ends (some pid) c

-- Whether `read` gave the byte 'c'.
abbrev pub got_signal : Option ℕ → Bool
got_signal none = false
got_signal (some b) = b == 99

-- The part of the parent.
unfoldable pub fork_parent : ℕ → ParentCalls → Children → Forked
fork_parent pid calls c =
    if calls.close_writer
    then (if got_signal calls.read
        then (if calls.close_reader
            then forked (some pid) (writer ∷ reader ∷ []) none
                (record c { child_pids = c.child_pids ++ some pid ∷ [] })
            else parent_fail2 pid (writer ∷ reader ∷ []) c)
        else parent_fail1 pid (writer ∷ []) c)
    else parent_fail1 pid (writer ∷ []) c

-- The epoll descriptor of a server, and the descriptors that are registered there, oldest first.
pub record ServerPoll : Type 0 where
  pub efd : ℕ
  pub registered : List ℕ

-- What the calls for one server say: `close`, `epoll_create1`, and `_poServer_addListenerToEpoll` for each
-- listener.
pub record PollCalls : Type 0 where
  pub close : Bool
  pub create : Option ℕ
  pub add : ℕ → Bool

-- The loop over the listeners below `i`, the last one first. `none` is a failed call.
unfoldable pub add_listeners : (ℕ → Bool) → (ℕ → ℕ) → ℕ → ServerPoll → Option ServerPoll
add_listeners add fds zero p = some p
add_listeners add fds (suc i) p = elim (add i) [
  | true ↦ add_listeners add fds i (record p { registered = p.registered ++ fds i ∷ [] })
  | false ↦ none
]

-- The body of the loop over the servers, for one with `n` listeners.
unfoldable pub renew_poll : PollCalls → (ℕ → ℕ) → ℕ → Option ServerPoll
renew_poll calls fds n =
    if calls.close
    then (elim calls.create [
      | none ↦ none
      | some efd ↦ add_listeners calls.add fds n (record { efd = efd; registered = [] })
    ])
    else none

-- A server in the child: the calls, the descriptors of its listeners, and their number.
pub record ChildServer : Type 0 where
  pub calls : PollCalls
  pub fds : ℕ → ℕ
  pub num_listeners : ℕ

unfoldable pub renew_all : List ChildServer → Option (List ServerPoll)
renew_all [] = some []
renew_all (s ∷ ss) = elim (renew_poll s.calls s.fds s.num_listeners) [
  | none ↦ none
  | some p ↦ elim (renew_all ss) [ none ↦ none | some ps ↦ some (p ∷ ps) ]
]

-- What the calls of the child for the pipe say.
pub record ChildCalls : Type 0 where
  pub close_reader : Bool
  pub write : Bool
  pub close_writer : Bool

-- The child: `exit(1)`, or a new server process with its epoll descriptors and its children; and the ends
-- of the pipe that it closed.
pub data Child : Type 0 where
  exits : List End → Child
  runs : List End → List ServerPoll → Children → Child

abbrev pub no_children : Children
no_children = record { child_pids = []; exit_status = 0 }

-- The end of the child, behind the loop.
abbrev pub child_started : ChildCalls → Option (List ServerPoll) → Child
child_started calls none = exits (reader ∷ writer ∷ [])
child_started calls (some ps) =
    if calls.write
    then (if calls.close_writer
        then runs (reader ∷ writer ∷ []) ps no_children
        else exits (reader ∷ writer ∷ []))
    else exits (reader ∷ writer ∷ [])

-- The part of the child.
unfoldable pub fork_child : ChildCalls → List ChildServer → Child
fork_child calls ss =
    if calls.close_reader then child_started calls (renew_all ss) else exits (reader ∷ [])

-- What `poTato_fork` meets in the parent: `setSignal` or `pipe` fails, `fork` fails, or there is a child.
pub data ForkCalls : Type 0 where
  no_pipe : ForkCalls
  no_fork : ForkCalls
  parent : ℕ → ParentCalls → ForkCalls

-- `poTato_fork` in the process that calls it.
unfoldable pub fork_calling : ForkCalls → Children → Forked
fork_calling no_pipe c = forked none [] none c
fork_calling no_fork c = forked none (reader ∷ writer ∷ []) none c
fork_calling (parent pid calls) c = fork_parent pid calls c

-- `poTato_doOptionsFork` in the parent for `n` forks, where no SIGCHLD comes meanwhile: whether it returns
-- an error, and the children. The function gives what the calls of the fork say after which so many
-- are left.
unfoldable pub fork_loop : ℕ → (ℕ → ForkCalls) → Children → Bool × Children
fork_loop zero calls c = (false, c)
fork_loop (suc n) calls c =
    let r = fork_calling (calls n) c in
    elim r.returned [ none ↦ (true, r.children) | some pid ↦ fork_loop n calls r.children ]

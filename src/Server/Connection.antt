-- ===== src/Server/Connection.antt =====
-- `removeConnection` and `addConnection` of potato_old/server.c.
pub mod Held
pub mod Open
pub mod Run
pub mod Account
use tidbits.Prelude.{
  ℕ, ◌||◌, if◌then◌else◌, Bool, true, false, Option, none, some, List, [], ◌∷◌, ◌++◌,
}
use tidbits.Server.{update}
use tidbits.Server.Used.{Connections, list_add_new, list_remove}

-- The fields of `struct POServer_connection` without a thread pool, but its links, data pointers and
-- accept time. A callback is known by a number.
pub record Connection : Type 0 where
  pub fd : Option ℕ
  pub read_callback : Option ℕ
  pub write_callback : Option ℕ
  pub cleanup_callback : Option ℕ
  pub read_ready : Bool
  pub write_ready : Bool

-- `struct POServer`, with the cleanup callbacks that were called and the descriptors that were closed
-- so far, oldest first. A failing assertion sets `ended`: the process ends there, and the fields are
-- then not those of a state that the program reaches.
pub record Server : Type 0 where
  pub lists : Connections
  pub conn : ℕ → Connection
  pub cleaned : List ℕ
  pub closed : List ℕ
  pub ended : Bool

abbrev pub append_if : List ℕ → Option ℕ → List ℕ
append_if xs none = xs
append_if xs (some x) = xs ++ x ∷ []

abbrev pub emptied : Connection
emptied = record {
  fd = none;
  read_callback = none;
  write_callback = none;
  cleanup_callback = none;
  read_ready = false;
  write_ready = false;
}

-- `close` of the descriptor fails for -1.
abbrev pub close_fails : Option ℕ → Bool
close_fails none = true
close_fails (some fd) = false

-- `removeConnection`. The cleanup callback succeeds, and so does `close` of a descriptor that is not -1.
unfoldable pub remove_connection : Server → ℕ → Server
remove_connection s c = record {
  lists = list_remove s.lists c;
  conn = update s.conn c emptied;
  cleaned = append_if s.cleaned (s.conn c).cleanup_callback;
  closed = append_if s.closed (s.conn c).fd;
  ended = s.ended || close_fails (s.conn c).fd;
}

abbrev pub opened : Server → Connections → ℕ → ℕ → ℕ → Server
opened s lists c fd callback = record s {
  lists = lists;
  conn = update s.conn c (record (s.conn c) { fd = some fd; read_callback = some callback });
}

-- `addConnection`, with what `setNonblocking` and `epoll_ctl` say, for a listener with a callback: the
-- connection. `none` is an access through a NULL pointer, or the end of the process: both calls stand in
-- assertions, so the lines behind a failing one are never run.
unfoldable pub add_connection : Server → ℕ → ℕ → Bool → Bool → Option (ℕ × Server)
add_connection s fd callback nonblocking polled =
    let made = elim (list_add_new s.lists) as (λ o. Option (ℕ × Server)) [
      | none ↦ none
      | some (c, lists) ↦ if polled then some (c, opened s lists c fd callback) else none
    ] in
    if nonblocking then made else none

-- ===== src/Server/Callbacks.antt =====
-- The callbacks of a connection: `poServer_setReadCallback`, `poServer_setWriteCallback`,
-- `poServer_setCleanupCallback` and `ServiceConnection` of potato_old/server.c without a thread pool.
pub mod Quiet
use tidbits.Prelude.{
  ℕ, ◌+◌, ◌≡◌, refl, if◌then◌else◌, Bool, true, false, not, ◌&&◌, ◌||◌, Option, none, some,
}
use tidbits.Server.{update}
use tidbits.Server.Connection.{Connection, Server, remove_connection}

-- What a call of a user's callback returned, not 0 for `true`, with the user's state behind it and
-- the callbacks that it set on its connection.
pub record Reply (W : Type 0) : Type 0 where
  pub close : Bool
  pub world : W
  pub read : Option ℕ
  pub write : Option ℕ
  pub cleanup : Option ℕ

-- The user's callbacks, by their numbers. A callback may change its connection's callbacks and the
-- user's state, and no other part of the server.
abbrev pub Handlers : Type 0 → Type 0
Handlers W = ℕ → Connection → W → Reply W

-- The connection behind a call.
abbrev pub called : {W : Type 0} → Connection → Reply W → Connection
called v r = record v {
  read_callback = r.read;
  write_callback = r.write;
  cleanup_callback = r.cleanup;
}

abbrev pub is_set : Option ℕ → Bool
is_set none = false
is_set (some x) = true

-- Both callbacks are reset.
abbrev pub silenced : Connection → Connection
silenced v = record v { read_callback = none; write_callback = none }

-- Behind a call of the read callback: `removeMe`, the user's state and the connection.
abbrev pub read_called : {W : Type 0} → Bool × W × Connection → Bool × W × Connection
read_called r =
    let (close, w, v) = r in
    if close
    then (true, w, silenced v)
    else (false, w, if is_set v.read_callback then record v { read_ready = false } else v)

abbrev pub write_called : {W : Type 0} → Bool × W × Connection → Bool × W × Connection
write_called r =
    let (close, w, v) = r in
    if close
    then (true, w, silenced v)
    else (false, w, if is_set v.write_callback then record v { write_ready = false } else v)

abbrev pub stored : Server → ℕ → Connection → Server
stored s c v = record s { conn = update s.conn c v }

-- `poServer_setCleanupCallback`.
unfoldable pub set_cleanup_callback : Option ℕ → Connection → Connection
set_cleanup_callback callback v = record v { cleanup_callback = callback }

module _ {W : Type 0} (user : Handlers W) where
  -- `callback(conn, data)`, which returns, with the state behind it.
  abbrev pub call : ℕ → Connection → W → Bool × W × Connection
  call callback v w = let r = user callback v w in (r.close, r.world, called v r)

  -- The call at the end of the two setters, if the callback is new and the connection is ready.
  abbrev pub call_now : Option ℕ → Option ℕ → Bool → Connection → W → Bool × W × Connection
  call_now none (some callback) true v w = call callback v w
  call_now none (some callback) false v w = (false, w, v)
  call_now none none ready v w = (false, w, v)
  call_now (some old) callback ready v w = (false, w, v)

  unfoldable pub set_read_callback : Option ℕ → Connection → W → Bool × W × Connection
  set_read_callback callback v w =
      call_now v.read_callback callback v.read_ready (record v { read_callback = callback }) w

  unfoldable pub set_write_callback : Option ℕ → Connection → W → Bool × W × Connection
  set_write_callback callback v w =
      call_now v.write_callback callback v.write_ready (record v { write_callback = callback }) w

  -- The first part of `ServiceConnection`.
  unfoldable pub serve_read : Connection → W → Bool × W × Connection
  serve_read v w = elim v.read_callback [
    | none ↦ (false, w, v)
    | some callback ↦ if v.read_ready then read_called (call callback v w) else (false, w, v)
  ]

  -- The second part of `ServiceConnection`.
  unfoldable pub serve_write : Connection → W → Bool × W × Connection
  serve_write v w = elim v.write_callback [
    | none ↦ (false, w, v)
    | some callback ↦ if v.write_ready then write_called (call callback v w) else (false, w, v)
  ]

  -- `ServiceConnection` up to the removal: `removeMe`, the user's state and the connection.
  unfoldable pub serve : Connection → W → Bool × W × Connection
  serve v w =
      let (first, w', v') = serve_read v w in
      let (second, w'', v'') = serve_write v' w' in
      (
        first || second || (not (is_set v''.read_callback) && not (is_set v''.write_callback)),
        w'',
        v'',
      )

  -- `ServiceConnection`.
  unfoldable pub service_connection : Server → ℕ → W → Server × W
  service_connection s c w =
      let (remove_me, w', v) = serve (s.conn c) w in
      let s' = stored s c v in (if remove_me then remove_connection s' c else s', w')

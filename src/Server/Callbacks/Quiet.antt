-- ===== src/Server/Callbacks/Quiet.antt =====
-- What `ServiceConnection` of potato_old/server.c leaves, and what the setters do.
use tidbits.Prelude.{
  ℕ, ◌≡◌, Bool, Bool-cases, true, false, not, ◌&&◌, ◌||◌, Option-cases, inl, inr, arith,
}
use tidbits.Server.Connection.{Connection}
use tidbits.Server.Callbacks.{
  Handlers, is_set, call, read_called, write_called, serve_read, serve_write, serve,
}

-- No callback is set for something that is ready.
abbrev pub quiet_read : Connection → Bool
quiet_read v = not (is_set v.read_callback && v.read_ready)

abbrev pub quiet_write : Connection → Bool
quiet_write v = not (is_set v.write_callback && v.write_ready)

read_called_quiet : {W : Type 0} (r : Bool × W × Connection) → quiet_read (read_called r).2 ≡ true
read_called_quiet (true, w, v) = ground arith
read_called_quiet (false, w, v) = ground (arith, Bool-cases (is_set v.read_callback))

write_called_quiet :
    {W : Type 0} (r : Bool × W × Connection) → quiet_write (write_called r).2 ≡ true
write_called_quiet (true, w, v) = ground arith
write_called_quiet (false, w, v) = ground (arith, Bool-cases (is_set v.write_callback))

module _ {W : Type 0} (user : Handlers W) where
  serve_read_quiet : (v : Connection) (w : W) → quiet_read (serve_read user v w).2 ≡ true
  unfolding serve_read
  serve_read_quiet v w = elim (Option-cases v.read_callback) [
    | inl n ↦ ground (arith, n)
    | inr (callback, e) ↦ ground (arith, e, read_called_quiet (call user callback v w))
  ]

  serve_write_quiet : (v : Connection) (w : W) → quiet_write (serve_write user v w).2 ≡ true
  unfolding serve_write
  serve_write_quiet v w = elim (Option-cases v.write_callback) [
    | inl n ↦ ground (arith, n)
    | inr (callback, e) ↦ ground (arith, e, write_called_quiet (call user callback v w))
  ]

  module _
      (keeps : (callback : ℕ) (v : Connection) (w : W)
        → is_set v.read_callback ≡ false
        → is_set (user callback v w).read ≡ false) where
    write_called_read :
        (callback : ℕ) (v : Connection) (w : W)
        → quiet_read v ≡ true
        → quiet_read (write_called (call user callback v w)).2 ≡ true
    write_called_read callback v w q = ground (
      arith,
      Bool-cases (user callback v w).close,
      Bool-cases (is_set v.read_callback),
      Bool-cases (is_set (user callback v w).write),
      keeps callback v w,
    )

    serve_write_read :
        (v : Connection) (w : W) → quiet_read v ≡ true → quiet_read (serve_write user v w).2 ≡ true
    unfolding serve_write
    serve_write_read v w q = elim (Option-cases v.write_callback) [
      | inl n ↦ ground (arith, n)
      | inr (callback, e) ↦ ground (arith, e, write_called_read callback v w q)
    ]

    -- `ServiceConnection` of a connection that it does not remove leaves it with a callback, and without
    -- a callback that is set for something ready, if no callback sets a read callback where none is set.
    pub serve-Quiet :
        (v : Connection) (w : W)
        → (serve user v w).0 ≡ false
        → (quiet_read (serve user v w).2 ≡ true)
          × (quiet_write (serve user v w).2 ≡ true)
          × (is_set (serve user v w).2.read_callback || is_set (serve user v w).2.write_callback
              ≡ true)
    unfolding serve
    serve-Quiet v w h =
        let (first, w', v') = serve_read user v w in
        (
          serve_write_read v' w' (serve_read_quiet v w),
          serve_write_quiet v' w',
          ground (
            arith,
            Bool-cases (is_set (serve_write user v' w').2.read_callback),
            Bool-cases (is_set (serve_write user v' w').2.write_callback),
          ),
        )

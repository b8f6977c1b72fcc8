-- ===== src/Server/Pass/Stale.antt =====
-- An event of a connection that potato_old/server.c has removed for a waiting listener in the same
-- batch of events.
use tidbits.Prelude.{ℕ, ◌≡◌, ◌||◌, true, false, Option, some, List, [], ◌∷◌, arith, ==_refl}
use tidbits.Server.{queue_push, WaitingQueue}
use tidbits.Server.Queues.{Waits, queue_pull-Waits, queue_push-Waits}
use tidbits.Server.Connection.{Server, remove_connection}
use tidbits.Server.Callbacks.{Handlers, is_set}
use tidbits.Server.Events.{
  PoServer, AcceptAnswer, no_client, accept, accepting, is_old, replace_old, removing, Flags,
  connection_event, timed_out, listener_event,
}
use tidbits.Server.Events.Replace.{replace_old_stops}
use tidbits.Server.Events.Kept.{Kept, removing-Kept}
use tidbits.Server.Events.Loop.{queued}
use tidbits.Server.Pass.{at_listener, at_connection, do_event, do_events}

-- A connection without callbacks is removed.
no_callbacks :
    {W : Type 0} (user : Handlers W) (c : ℕ) (f : Flags) (s : Server) (w : W)
    → is_set (s.conn c).read_callback || is_set (s.conn c).write_callback ≡ false
    → connection_event user c f s w ≡ (remove_connection s c, w)
unfolding connection_event
no_callbacks user c f s w e = ground (arith, e)

module _ {W : Type 0} (user : Handlers W) (n : ℕ) (wait : ℕ) (long : Option ℕ) where
  -- The one pass of `lookForAcceptFromTimedOutConns`, where the client is gone.
  replaced_once :
      (s : PoServer W) (c l t : ℕ) (us : List ℕ) (rest : List AcceptAnswer)
      → Kept n s (c ∷ us) [] (l ∷ [])
      → is_old s wait t c ≡ true
      → (q : WaitingQueue) × Waits q []
        × (replace_old (no_client ∷ rest) wait t s
            ≡ some (record (removing s c) { waiting = q }, rest))
  unfolding replace_old accept
  replaced_once s c l t us rest k o =
      let (q, e, w) = queue_pull-Waits s.waiting l [] k.queue in
      let first : timed_out s wait t ≡ some c =
        ground (arith, k.is_kept.lists.used.0, k.queue.holds.chain.0, o) in
      let v : PoServer W = record (removing s c) { waiting = q } in
      let taken : accepting (removing s c) no_client ≡ some v =
        ground (arith, k.queue.holds.chain.0, e) in
      (q, w, ground (arith, first, taken, replace_old_stops rest wait t v w.holds.chain))

  -- In a state of the invariant all connections are used, and the oldest one has timed out. Then `epoll_wait` says events of a
  -- listener and of this connection, and the client that made the first one is gone again. The listener
  -- makes the server remove the connection, and its own event removes it once more: `close` of -1 fails an
  -- assertion there, and the process ends. Before, no assertion had failed.
  pub stale_event_breaks :
      (s : PoServer W) (c l t : ℕ) (us : List ℕ) (f : Flags) (rest : List AcceptAnswer)
      → Kept n s (c ∷ us) [] []
      → s.is_running ≡ true
      → is_old s wait t c ≡ true
      → (s.server.ended ≡ false)
        × ((s' : PoServer W) × (do_events user n
                (some wait)
                long
                (at_listener l t ∷ at_connection c f ∷ [])
                (no_client ∷ rest)
                s
              ≡ some (s', rest))
            × (s'.server.ended ≡ true))
  unfolding do_events do_event listener_event remove_connection
  stale_event_breaks s c l t us f rest k r o =
      let w : Waits (queue_push s.waiting l) (l ∷ []) = queue_push-Waits s.waiting [] l k.queue in
      let k' : Kept n (queued s l) (c ∷ us) [] (l ∷ []) = record {
        is_kept = k.is_kept;
        all = k.all;
        account = k.account;
        queue = w;
      } in
      let (q, w', e) = replaced_once (queued s l) c l t us rest k' o in
      let v : PoServer W = record (removing (queued s l) c) { waiting = q } in
      let d = removing-Kept n (queued s l) [] us [] (l ∷ []) c k' in
      let gone : is_set (v.server.conn c).read_callback || is_set (v.server.conn c).write_callback
          ≡ false =
        ground (arith, ==_refl c) in
      (
        k.is_kept.running,
        (
          record v { server = remove_connection v.server c },
          ground (
            arith,
            r,
            k.is_kept.lists.unused.ends,
            e,
            no_callbacks user c f v.server v.world gone,
          ),
          ground (arith, ==_refl c, d.is_kept.running),
        ),
      )

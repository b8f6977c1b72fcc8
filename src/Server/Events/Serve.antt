-- ===== src/Server/Events/Serve.antt =====
-- `doEvent` of potato_old/server.c at a connection keeps the lists and the descriptors.
use tidbits.Prelude.{
  ℕ, ◌≡◌, ◌==◌, refl, sym, ap, ◌∙◌, List, Bool, Bool-cases, inl, inr, true, false, ◌&&◌, ◌||◌,
  Option-cases, arith, if_cases, ==_iff, ==_refl,
}
use tidbits.Server.{update}
use tidbits.Server.Chain.{mem}
use tidbits.Server.Connection.{Connection, Server, remove_connection}
use tidbits.Server.Connection.Held.{held_same}
use tidbits.Server.Connection.Open.{is_open, open_update}
use tidbits.Server.Connection.Run.{Sound}
use tidbits.Server.Connection.Account.{removed-Sound}
use tidbits.Server.Callbacks.{
  Handlers, is_set, call, read_called, write_called, serve_read, serve_write, serve, stored,
  service_connection,
}
use tidbits.Server.Events.{Flags, made_ready, call_it, ready_event, hangup_event, connection_event}

-- A connection is changed, but for its descriptor.
stored-Sound :
    (n : ℕ) (arrived : List ℕ) (s : Server) (c : ℕ) (v : Connection)
    → v.fd ≡ (s.conn c).fd
    → Sound n arrived s
    → Sound n arrived (stored s c v)
stored-Sound n arrived s c v e k = record {
  used = k.used;
  free = k.free;
  all = k.all;
  account = λ z.
      omega
        (arith, k.account z, held_same z (update s.conn c v) s.conn k.used (λ u m. stored_fd u));
  is_kept = record {
    lists = k.is_kept.lists;
    descriptors = λ z. stored_open z;
    running = k.is_kept.running;
  };
}
  where
    stored_fd : (u : ℕ) → (update s.conn c v u).fd ≡ (s.conn u).fd
    stored_fd u = elim (Bool-cases (u == c)) [
      | inl y ↦
          let same : u ≡ c = (==_iff u c).0 y in
          let here : (update s.conn c v u).fd ≡ v.fd = ground (arith, y) in
          here ∙ e ∙ ap (λ (i : ℕ). (s.conn i).fd) (sym same)
      | inr m ↦ ground (arith, m)
    ]

    stored_open : (z : ℕ) → is_open (update s.conn c v z).fd ≡ mem z k.used
    stored_open z = elim (Bool-cases (z == c)) [
      | inl y ↦
          let same : z ≡ c = (==_iff z c).0 y in
          ground (
            arith,
            open_update s.conn c v z,
            ap is_open e,
            k.is_kept.descriptors c,
            ap (λ (i : ℕ). mem i k.used) same,
          )
      | inr m ↦ ground (arith, open_update s.conn c v z, k.is_kept.descriptors z)
    ]

read_called_fd : {W : Type 0} (r : Bool × W × Connection) → (read_called r).2.fd ≡ r.2.fd
read_called_fd (true, w, v) = refl
read_called_fd (false, w, v) = ground (arith, Bool-cases (is_set v.read_callback))

write_called_fd : {W : Type 0} (r : Bool × W × Connection) → (write_called r).2.fd ≡ r.2.fd
write_called_fd (true, w, v) = refl
write_called_fd (false, w, v) = ground (arith, Bool-cases (is_set v.write_callback))

hangup_event-Sound :
    (n : ℕ) (arrived : List ℕ) (c : ℕ) (f : Flags) (s : Server)
    → Sound n arrived s
    → Sound n arrived (hangup_event c f s)
hangup_event-Sound n arrived c f s k =
    if_cases (Sound n arrived) (is_open (s.conn c).fd && f.hangup)
      (λ y. removed-Sound n arrived s c k (ground arith)) (λ m. k)

-- The other connections stay as they are.
removed_frame :
    (s : Server) (c z : ℕ) → (z == c) ≡ false → (remove_connection s c).conn z ≡ s.conn z
unfolding remove_connection
removed_frame s c z m = ground arith

module _ {W : Type 0} (user : Handlers W) where
  serve_read_fd : (v : Connection) (w : W) → (serve_read user v w).2.fd ≡ v.fd
  unfolding serve_read
  serve_read_fd v w = elim (Option-cases v.read_callback) [
    | inl n ↦ ground (arith, n)
    | inr (callback, e) ↦ ground (arith, e, read_called_fd (call user callback v w))
  ]

  serve_write_fd : (v : Connection) (w : W) → (serve_write user v w).2.fd ≡ v.fd
  unfolding serve_write
  serve_write_fd v w = elim (Option-cases v.write_callback) [
    | inl n ↦ ground (arith, n)
    | inr (callback, e) ↦ ground (arith, e, write_called_fd (call user callback v w))
  ]

  serve_fd : (v : Connection) (w : W) → (serve user v w).2.fd ≡ v.fd
  unfolding serve
  serve_fd v w =
      let (first, w', v') = serve_read user v w in serve_write_fd v' w' ∙ serve_read_fd v w

  -- `ServiceConnection`.
  service_connection-Sound :
      (n : ℕ) (arrived : List ℕ) (s : Server) (c : ℕ) (w : W)
      → Sound n arrived s
      → is_open (s.conn c).fd ≡ true
      → Sound n arrived (service_connection user s c w).0
  unfolding service_connection
  service_connection-Sound n arrived s c w k o =
      let (remove_me, w', v) = serve user (s.conn c) w in
      let k' = stored-Sound n arrived s c v (serve_fd (s.conn c) w) k in
      if_cases (Sound n arrived) remove_me
        (λ y.
          removed-Sound n arrived (stored s c v) c k' (
            ground
              (arith, open_update s.conn c v c, ==_refl c, ap is_open (serve_fd (s.conn c) w))))
        (λ m. k')

  ready_event-Sound :
      (n : ℕ) (arrived : List ℕ) (c : ℕ) (f : Flags) (s : Server) (w : W)
      → Sound n arrived s
      → is_open (s.conn c).fd ≡ true
      → Sound n arrived (ready_event user c f s w).0
  unfolding ready_event
  ready_event-Sound n arrived c f s w k o =
      let v = made_ready f (s.conn c) in
      let k' = stored-Sound n arrived s c v refl k in
      if_cases (λ (r : Server × W). Sound n arrived r.0) (f.input || f.output)
        (λ y.
          if_cases (λ (r : Server × W). Sound n arrived r.0) (call_it v)
            (λ y.
              service_connection-Sound n arrived (stored s c v) c w k'
                (ground (arith, open_update s.conn c v c, ==_refl c)))
            (λ m. k'))
        (λ m. k)

  -- `doEvent` at an open connection.
  pub connection_event-Sound :
      (n : ℕ) (arrived : List ℕ) (c : ℕ) (f : Flags) (s : Server) (w : W)
      → Sound n arrived s
      → is_open (s.conn c).fd ≡ true
      → Sound n arrived (connection_event user c f s w).0
  unfolding connection_event
  connection_event-Sound n arrived c f s w k o =
      if_cases (λ (r : Server × W). Sound n arrived r.0)
        (is_set (s.conn c).read_callback || is_set (s.conn c).write_callback)
        (λ y.
          hangup_event-Sound n arrived c f (ready_event user c f s w).0
            (ready_event-Sound n arrived c f s w k o))
        (λ m. removed-Sound n arrived s c k o)

  service_connection_frame :
      (s : Server) (c z : ℕ) (w : W)
      → (z == c) ≡ false
      → (service_connection user s c w).0.conn z ≡ s.conn z
  unfolding service_connection
  service_connection_frame s c z w m =
      let (remove_me, w', v) = serve user (s.conn c) w in
      if_cases (λ (r : Server). r.conn z ≡ s.conn z) remove_me
        (λ y. removed_frame (stored s c v) c z m ∙ ground arith) (λ y. ground arith)

  ready_event_frame :
      (c z : ℕ) (f : Flags) (s : Server) (w : W)
      → (z == c) ≡ false
      → (ready_event user c f s w).0.conn z ≡ s.conn z
  unfolding ready_event
  ready_event_frame c z f s w m =
      let v = made_ready f (s.conn c) in
      let same : (stored s c v).conn z ≡ s.conn z = ground arith in
      if_cases (λ (r : Server × W). r.0.conn z ≡ s.conn z) (f.input || f.output)
        (λ y.
          if_cases (λ (r : Server × W). r.0.conn z ≡ s.conn z) (call_it v)
            (λ y. service_connection_frame (stored s c v) c z w m ∙ same) (λ n. same))
        (λ n. refl)

  pub connection_event_frame :
      (c z : ℕ) (f : Flags) (s : Server) (w : W)
      → (z == c) ≡ false
      → (connection_event user c f s w).0.conn z ≡ s.conn z
  unfolding connection_event
  connection_event_frame c z f s w m =
      let s' = (ready_event user c f s w).0 in
      if_cases (λ (r : Server × W). r.0.conn z ≡ s.conn z)
        (is_set (s.conn c).read_callback || is_set (s.conn c).write_callback)
        (λ y.
          if_cases (λ (r : Server). r.conn z ≡ s.conn z) (is_open (s'.conn c).fd && f.hangup)
            (λ y. removed_frame s' c z m ∙ ready_event_frame c z f s w m)
            (λ n. ready_event_frame c z f s w m))
        (λ n. removed_frame s c z m)

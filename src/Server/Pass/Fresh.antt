-- ===== src/Server/Pass/Fresh.antt =====
-- `_poServer_doNextEvent` of potato_old/server.c where no connection is removed for a waiting listener.
use Prim.{Unit}
use tidbits.Prelude.{
  ℕ, ◌≡◌, ◌==◌, ap, ◌∙◌, Bool-cases, inl, inr, true, false, Option-cases, Option, none, some, List,
  [], ◌∷◌, arith, of_some, ==_iff, ==_refl,
}
use tidbits.Server.Chain.{mem, Distinct}
use tidbits.Server.Connection.Open.{is_open}
use tidbits.Server.Callbacks.{Handlers}
use tidbits.Server.Events.{PoServer, AcceptAnswer, Flags, connection_event}
use tidbits.Server.Events.Kept.{Good}
use tidbits.Server.Events.Loop.{listener_event-stay}
use tidbits.Server.Events.Serve.{connection_event_frame}
use tidbits.Server.Pass.{
  EpollEvent, at_listener, at_connection, Poll, no_events, interrupted, poll_error, ready, LoopPass,
  do_event, before_poll, after_poll, do_next_event,
}
use tidbits.Server.Pass.Batch.{Live, do_event-Good, do_events-Good, before_poll-Good}

-- The connections that have an event.
abbrev pub connections_of : List EpollEvent → List ℕ
connections_of [] = []
connections_of (at_listener l t ∷ es) = connections_of es
connections_of (at_connection c f ∷ es) = c ∷ connections_of es

-- What epoll_wait promises: events of open connections, and one for each at most.
pub record Fresh {W : Type 0} (es : List EpollEvent) (s : PoServer W) : Type 0 where
  pub once : Distinct (connections_of es)
  pub open_ones : (z : ℕ) → mem z (connections_of es) ≡ true → is_open (s.server.conn z).fd ≡ true

other : (z c : ℕ) (xs : List ℕ) → mem z xs ≡ true → mem c xs ≡ false → (z == c) ≡ false
other z c xs m a = elim (Bool-cases (z == c)) [
  | inl y ↦
      let e : mem z xs ≡ mem c xs = ap (λ (i : ℕ). mem i xs) ((==_iff z c).0 y) in
      absurd (ground arith)
  | inr b ↦ b
]

module _ {W : Type 0} (user : Handlers W) (n : ℕ) (long : Option ℕ) where
  event_stay :
      (c z : ℕ) (f : Flags) (rest left : List AcceptAnswer) (s s' : PoServer W)
      → (z == c) ≡ false
      → do_event user n none long (at_connection c f) rest s ≡ some (s', left)
      → is_open (s.server.conn z).fd ≡ true
      → is_open (s'.server.conn z).fd ≡ true
  unfolding do_event
  event_stay c z f rest left s s' m e o =
      let (server, world) = connection_event user c f s.server s.world in
      of_some (λ (r : PoServer W × List AcceptAnswer). is_open (r.0.server.conn z).fd ≡ true)
        (record s { server = server; world = world }, rest) (s', left) e
        (ap (λ v. is_open v.fd) (connection_event_frame user c z f s.server s.world m) ∙ o)

  at_listener_stay :
      (l t z : ℕ) (rest left : List AcceptAnswer) (s s' : PoServer W)
      → Good n s
      → do_event user n none long (at_listener l t) rest s ≡ some (s', left)
      → is_open (s.server.conn z).fd ≡ true
      → is_open (s'.server.conn z).fd ≡ true
  unfolding do_event
  at_listener_stay l t z rest left s s' g e o = listener_event-stay n l t z rest left s s' g e o

  Fresh-Live :
      (es : List EpollEvent) (rest : List AcceptAnswer) (s : PoServer W)
      → Good n s
      → Fresh es s
      → Live user n none long es rest s
  Fresh-Live [] rest s g h = record {}
  Fresh-Live (at_listener l t ∷ es) rest s g h = (
    record {},
    λ s' left e.
        Fresh-Live es left s'
          (do_event-Good user n none long (at_listener l t) rest left s s' g (record {}) e)
          (record {
            once = h.once;
            open_ones = λ z m. at_listener_stay l t z rest left s s' g e (h.open_ones z m);
          }),
  )
  Fresh-Live (at_connection c f ∷ es) rest s g h =
      let o : is_open (s.server.conn c).fd ≡ true = h.open_ones c (ground (arith, ==_refl c)) in
      (
        o,
        λ s' left e.
            Fresh-Live es left s'
              (do_event-Good user n none long (at_connection c f) rest left s s' g o e)
              (record {
                once = h.once.1;
                open_ones = λ z m.
                    event_stay c z f rest left s s' (other z c (connections_of es) m h.once.0) e
                      (h.open_ones z (ground (arith, m)));
              }),
      )

  -- What `epoll_wait` says in a state that fits it.
  abbrev pub Fits : Poll → PoServer W → Type 0
  Fits no_events s = Unit
  Fits interrupted s = Unit
  Fits poll_error s = Unit
  Fits (ready es) s = Fresh es s

  after_poll-Good :
      (p : Poll) (rest left : List AcceptAnswer) (s s' : PoServer W)
      → Good n s
      → Fits p s
      → after_poll user n none long p rest s ≡ some (s', left)
      → Good n s'
  after_poll-Good no_events rest left s s' g h e =
      of_some (λ (r : PoServer W × List AcceptAnswer). Good n r.0) (s, rest) (s', left) e g
  after_poll-Good interrupted rest left s s' g h e =
      of_some (λ (r : PoServer W × List AcceptAnswer). Good n r.0) (s, rest) (s', left) e g
  after_poll-Good poll_error rest left s s' g h e =
      of_some (λ (r : PoServer W × List AcceptAnswer). Good n r.0) (s, rest) (s', left) e g
  after_poll-Good (ready es) rest left s s' g h e =
      do_events-Good user n none long es rest left s s' g (Fresh-Live es rest s g h) e

  -- The answer of `epoll_wait` fits the state in which it is called.
  abbrev pub Fitting : LoopPass → PoServer W → Type 0
  Fitting p s =
      (s' : PoServer W) (rest : List AcceptAnswer)
      → before_poll user n none long p s ≡ some (s', rest)
      → Fits p.poll s'

  -- One `_poServer_doNextEvent`.
  pub do_next_event-Good :
      (p : LoopPass) (s s' : PoServer W)
      → Good n s
      → Fitting p s
      → do_next_event user n none long p s ≡ some s'
      → Good n s'
  unfolding do_next_event
  do_next_event-Good p s s' g h e = elim (Option-cases (before_poll user n none long p s)) [
    | inl m ↦ absurd (ground (arith, m))
    | inr ((v, rest), f) ↦ elim (Option-cases (after_poll user n none long p.poll rest v)) [
      | inl m ↦ absurd (ground (arith, m, f))
      | inr ((w, left), k) ↦ of_some (Good n) w s' (ground (arith, f, k)) (
          after_poll-Good p.poll rest left v w (before_poll-Good user n none long p s v rest g f)
            (h v rest f) k)
    ]
  ]

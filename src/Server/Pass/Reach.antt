-- ===== src/Server/Pass/Reach.antt =====
-- The states that a server of potato_old/server.c reaches, where no connection is removed for a waiting
-- listener.
use Prim.{Unit}
use tidbits.Prelude.{
  drop, ℕ, ◌≡◌, refl, inl, inr, true, false, Option-cases, Option, none, some, List, [], ◌∷◌, arith,
  of_some,
}
use tidbits.Server.{WaitingQueue}
use tidbits.Server.Connection.Run.{create, range, length-range, create-Open}
use tidbits.Server.Callbacks.{Handlers}
use tidbits.Server.Events.{PoServer, used_first}
use tidbits.Server.Events.Kept.{Kept, Good, AllClosed, none_used-AllClosed}
use tidbits.Server.Pass.{
  LoopPass, do_next_event, close_listeners, listeners_shut, wait_for_last, shutdown,
}
use tidbits.Server.Pass.Shutdown.{pull_all-Waits, close_listeners-Kept}
use tidbits.Server.Pass.Fresh.{Fitting, do_next_event-Good}

abbrev pub empty_waiting : WaitingQueue
empty_waiting = record { next = λ x. none; waiting = λ x. false; first = none; last = none }

-- A server with `n` connections behind `poServer_create` and `poServer_listenerSetup`.
abbrev pub started : {W : Type 0} → ℕ → (ℕ → Option ℕ) → (ℕ → ℕ) → W → PoServer W
started n fds callbacks w = record {
  server = create n;
  waiting = empty_waiting;
  listener_fd = fds;
  listener_callback = callbacks;
  accept_time = λ c. 0;
  is_running = true;
  listeners_down = false;
  world = w;
  arrived = [];
  listeners_closed = [];
}

pub started-Kept :
    {W : Type 0} (n : ℕ) (fds : ℕ → Option ℕ) (callbacks : ℕ → ℕ) (w : W)
    → Kept n (started n fds callbacks w) [] (range n 0) []
started-Kept n fds callbacks w = record {
  is_kept = create-Open n;
  all = omega (arith, length-range n 0);
  account = λ z. refl;
  queue = record {
    holds = record { chain = refl; ends = refl; distinct = record {} };
    flags = λ x. refl;
  };
}

-- Passes of the loop, and the begin of `poServer_shutdown` of a server with `m` listeners.
pub data Reached {W : Type 0} (user : Handlers W) (n m : ℕ) (long : Option ℕ) (start : PoServer W)
    : PoServer W → Type 0 where
  at_start : Reached user n m long start start
  passed :
      (p : LoopPass) (s s' : PoServer W)
      → Reached user n m long start s
      → Fitting user n long p s
      → do_next_event user n none long p s ≡ some s'
      → Reached user n m long start s'
  shut :
      (s s' : PoServer W)
      → Reached user n m long start s
      → listeners_shut m s ≡ some s'
      → Reached user n m long start s'

none_used : {W : Type 0} (n : ℕ) (s : PoServer W) → Good n s → used_first s ≡ none → AllClosed n s
none_used n s ([], fs, ls, k) e = none_used-AllClosed n s fs ls k
none_used n s (u ∷ us, fs, ls, k) e = absurd (ground (arith, k.is_kept.lists.used.0))

module _ {W : Type 0} (user : Handlers W) (n : ℕ) (long : Option ℕ) where
  shut-Good : (m : ℕ) (s s' : PoServer W) → Good n s → listeners_shut m s ≡ some s' → Good n s'
  unfolding listeners_shut
  shut-Good m s s' (us, fs, ls, k) e =
      let (q, f, w) = pull_all-Waits m s.waiting ls k.queue in
      let c = close_listeners-Kept n m 0 s us fs ls k in
      of_some (Good n) (record (close_listeners m 0 s) { waiting = q; listeners_down = true }) s'
        (ground (arith, f, e))
        (
          us,
          fs,
          drop m ls,
          record { is_kept = c.is_kept; all = c.all; account = c.account; queue = w },
        )

  -- In every state that passes of the loop and the begin of `poServer_shutdown` reach from a good one,
  -- each connection is used or unused, the lists are well linked, a descriptor stands in exactly the
  -- used ones, each descriptor that `accept` returned is closed or that of a used connection, as often as
  -- it was returned, no assertion has failed, and the waiting listeners
  -- stand in their queue; if no connection is removed for a waiting listener, and `epoll_wait` says
  -- events of open connections only, at most one for each.
  pub Reached-Good :
      (m : ℕ) (start s : PoServer W) → Good n start → Reached user n m long start s → Good n s
  Reached-Good m start _ g at_start = g
  Reached-Good m start _ g (passed p v s r h e) =
      do_next_event-Good user n long p v s (Reached-Good m start v g r) h e
  Reached-Good m start _ g (shut v s r e) = shut-Good m v s (Reached-Good m start v g r) e

  -- `epoll_wait` fits in each pass.
  abbrev pub AllFitting : List LoopPass → PoServer W → Type 0
  AllFitting [] s = Unit
  AllFitting (p ∷ ps) s =
      Fitting user n long p s
      × ((s' : PoServer W) → do_next_event user n none long p s ≡ some s' → AllFitting ps s')

  wait_for_last_closes :
      (ps : List LoopPass) (s s' : PoServer W)
      → Good n s
      → AllFitting ps s
      → wait_for_last user n none long ps s ≡ some s'
      → AllClosed n s'
  unfolding wait_for_last
  wait_for_last_closes [] s s' g a e = elim (Option-cases (used_first s)) [
    | inl f ↦ of_some (AllClosed n) s s' (ground (arith, f, e)) (none_used n s g f)
    | inr (c, f) ↦ absurd (ground (arith, f))
  ]
  wait_for_last_closes (p ∷ ps) s s' g a e = elim (Option-cases (used_first s)) [
    | inl f ↦ of_some (AllClosed n) s s' (ground (arith, f, e)) (none_used n s g f)
    | inr (c, f) ↦ elim (Option-cases (do_next_event user n none long p s)) [
      | inl m ↦ absurd (ground (arith, f, m))
      | inr (v, m) ↦
          wait_for_last_closes ps v s' (do_next_event-Good user n long p s v g a.0 m) (a.1 v m)
            (ground (arith, f, m))
    ]
  ]

  -- When `poServer_shutdown` returns, no connection is used, and every descriptor that `accept` returned
  -- is closed, as often as it was returned; under the same conditions.
  pub shutdown_closes :
      (m : ℕ) (ps : List LoopPass) (s s' : PoServer W)
      → Good n s
      → ((v : PoServer W) → listeners_shut m s ≡ some v → AllFitting ps v)
      → shutdown user m n none long ps s ≡ some s'
      → AllClosed n s'
  unfolding shutdown
  shutdown_closes m ps s s' g a e = elim (Option-cases (listeners_shut m s)) [
    | inl f ↦ absurd (ground (arith, f))
    | inr (v, f) ↦ wait_for_last_closes ps v s' (shut-Good m s v g f) (a v f) (ground (arith, f))
  ]

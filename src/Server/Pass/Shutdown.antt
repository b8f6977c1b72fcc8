-- ===== src/Server/Pass/Shutdown.antt =====
-- What `poServer_shutdown` and `poServer_destroy` of potato_old/server.c leave.
use tidbits.Prelude.{
  ℕ, zero, suc, ◌+◌, ◌≤◌, ◌<◌, ◌==◌, ◌⊎◌, ◌≡◌, refl, sym, subst, ap, ◌∙◌, Bool-cases, inl, inr,
  true, Option, none, some, List, [], ◌∷◌, ◌++◌, arith, length, drop, drop_all, append_assoc,
  append-nil, Option-cases, ==_refl,
}
use tidbits.Server.{update, WaitingQueue}
use tidbits.Server.Queues.{Waits, queue_pull-Waits}
use tidbits.Server.Chain.{mem, mem-append_list}
use tidbits.Server.Connection.{append_if}
use tidbits.Server.Events.{PoServer, removing}
use tidbits.Server.Events.Kept.{Kept, AllClosed, none_used-AllClosed}
use tidbits.Server.Pass.{
  close_listeners, pull_all, listeners_shut, close_again, close_checked, remove_used,
  server_destroy,
}
use tidbits.Server.Pass.Batch.{first_removed-Kept}

-- The descriptors of the listeners from `i` on.
abbrev pub listening : (ℕ → Option ℕ) → ℕ → ℕ → List ℕ
listening fds zero i = []
listening fds (suc m) i = append_if [] (fds i) ++ listening fds m (i + 1)

pub pull_all-Waits :
    (m : ℕ) (q : WaitingQueue) (xs : List ℕ)
    → Waits q xs
    → (q' : WaitingQueue) × (pull_all m q ≡ some q') × Waits q' (drop m xs)
unfolding pull_all
pull_all-Waits zero q xs h = (q, refl, h)
pull_all-Waits (suc m) q [] h = (q, ground (arith, h.holds.chain), h)
pull_all-Waits (suc m) q (x ∷ xs) h =
    let (v, e, g) = queue_pull-Waits q x xs h in
    let (q', f, r) = pull_all-Waits m v xs g in (q', ground (arith, h.holds.chain.0, e, f), r)

append_if-append : (xs : List ℕ) (o : Option ℕ) → append_if xs o ≡ xs ++ append_if [] o
append_if-append xs none = sym (append-nil xs)
append_if-append xs (some x) = refl

module _ {W : Type 0} (n : ℕ) where
  pub close_listeners-Kept :
      (m i : ℕ) (s : PoServer W) (us fs ls : List ℕ)
      → Kept n s us fs ls
      → Kept n (close_listeners m i s) us fs ls
  unfolding close_listeners
  close_listeners-Kept zero i s us fs ls k = k
  close_listeners-Kept (suc m) i s us fs ls k =
      close_listeners-Kept m (i + 1) _ us fs ls
        (record { is_kept = k.is_kept; all = k.all; account = k.account; queue = k.queue })

  close_again-Kept :
      (m i : ℕ) (s : PoServer W) (us fs ls : List ℕ)
      → Kept n s us fs ls
      → Kept n (close_again m i s) us fs ls
  unfolding close_again
  close_again-Kept zero i s us fs ls k = k
  close_again-Kept (suc m) i s us fs ls k =
      close_again-Kept m (i + 1) _ us fs ls
        (record { is_kept = k.is_kept; all = k.all; account = k.account; queue = k.queue })

close_again_closes :
    {W : Type 0} (m i : ℕ) (s : PoServer W)
    → (close_again m i s).listeners_closed ≡ s.listeners_closed ++ listening s.listener_fd m i
unfolding close_again
close_again_closes zero i s = sym (append-nil s.listeners_closed)
close_again_closes (suc m) i s =
    close_again_closes m (i + 1) _
    ∙ ap (λ (xs : List ℕ). xs ++ listening s.listener_fd m (i + 1))
        (append_if-append s.listeners_closed (s.listener_fd i))
    ∙ append_assoc s.listeners_closed (append_if [] (s.listener_fd i))
        (listening s.listener_fd m (i + 1))

close_again_same :
    {W : Type 0} (m i : ℕ) (s : PoServer W)
    → ((close_again m i s).listener_fd ≡ s.listener_fd) × ((close_again m i s).arrived ≡ s.arrived)
unfolding close_again
close_again_same zero i s = (refl, refl)
close_again_same (suc m) i s = close_again_same m (i + 1) _

listening-update :
    (fds : ℕ → Option ℕ) (m i j : ℕ) (v : Option ℕ)
    → j < i
    → listening (update fds j v) m i ≡ listening fds m i
listening-update fds zero i j v h = refl
listening-update fds (suc m) i j v h =
    let same : update fds j v i ≡ fds i = ground arith in
    ap (λ (o : Option ℕ). append_if [] o ++ listening (update fds j v) m (i + 1)) same
    ∙ ap (λ (xs : List ℕ). append_if [] (fds i) ++ xs)
        (listening-update fds m (i + 1) j v (omega arith))

close_listeners_closes :
    {W : Type 0} (m i : ℕ) (s : PoServer W)
    → (close_listeners m i s).listeners_closed ≡ s.listeners_closed ++ listening s.listener_fd m i
unfolding close_listeners
close_listeners_closes zero i s = sym (append-nil s.listeners_closed)
close_listeners_closes (suc m) i s =
    close_listeners_closes m (i + 1) _
    ∙ ap (λ (xs : List ℕ). append_if s.listeners_closed (s.listener_fd i) ++ xs)
        (listening-update s.listener_fd m (i + 1) i none (omega arith))
    ∙ ap (λ (xs : List ℕ). xs ++ listening s.listener_fd m (i + 1))
        (append_if-append s.listeners_closed (s.listener_fd i))
    ∙ append_assoc s.listeners_closed (append_if [] (s.listener_fd i))
        (listening s.listener_fd m (i + 1))

close_listeners_times :
    {W : Type 0} (m i : ℕ) (s : PoServer W) → (close_listeners m i s).accept_time ≡ s.accept_time
unfolding close_listeners
close_listeners_times zero i s = refl
close_listeners_times (suc m) i s = close_listeners_times m (i + 1) _

close_listeners_resets :
    {W : Type 0} (m i j : ℕ) (s : PoServer W)
    → (s.listener_fd j ≡ none) ⊎ ((i ≤ j) × (j < i + m))
    → (close_listeners m i s).listener_fd j ≡ none
unfolding close_listeners
close_listeners_resets zero i j s (inl e) = e
close_listeners_resets zero i j s (inr (a, b)) = absurd (omega arith)
close_listeners_resets (suc m) i j s h = close_listeners_resets m (i + 1) j _ (next h)
  where
    next :
        (s.listener_fd j ≡ none) ⊎ ((i ≤ j) × (j < i + suc m))
        → (update s.listener_fd i none j ≡ none) ⊎ ((i + 1 ≤ j) × (j < i + 1 + m))
    next (inl e) = inl (ground (arith, e))
    next (inr (a, b)) = elim (Bool-cases (j == i)) [
      | inl y ↦ inl (ground (arith, y))
      | inr c ↦ inr (ground (arith, c), omega arith)
    ]

module _ {W : Type 0} (n : ℕ) where
  -- The begin of `poServer_shutdown`, with at most as many waiting listeners as there are: each
  -- listening socket is closed, in order and once, no listener waits, and the connections stay as they are.
  pub listeners_shut-Kept :
      (m : ℕ) (s : PoServer W) (us fs ls : List ℕ)
      → Kept n s us fs ls
      → length ls ≤ m
      → (s' : PoServer W) × (listeners_shut m s ≡ some s')
        × Kept n s' us fs []
        × (s'.listeners_closed ≡ s.listeners_closed ++ listening s.listener_fd m 0)
        × ((j : ℕ) → j < m → s'.listener_fd j ≡ none)
        × (s'.accept_time ≡ s.accept_time)
  unfolding listeners_shut
  listeners_shut-Kept m s us fs ls k h =
      let (q, e, w) = pull_all-Waits m s.waiting ls k.queue in
      let c = close_listeners-Kept n m 0 s us fs ls k in
      (
        record (close_listeners m 0 s) { waiting = q; listeners_down = true },
        ground (arith, e),
        record {
          is_kept = c.is_kept;
          all = c.all;
          account = c.account;
          queue = subst (Waits q) (drop_all m ls h) w;
        },
        close_listeners_closes m 0 s,
        λ j l. close_listeners_resets m 0 j s (inr (omega arith, omega arith)),
        close_listeners_times m 0 s,
      )

  remove_used-Kept :
      (m : ℕ) (s : PoServer W) (us fs ls : List ℕ)
      → Kept n s us fs ls
      → length us ≤ m
      → (gs : List ℕ) × Kept n (remove_used m s) [] gs ls
        × ((remove_used m s).listeners_closed ≡ s.listeners_closed)
        × ((remove_used m s).listener_fd ≡ s.listener_fd)
        × ((remove_used m s).arrived ≡ s.arrived)
  unfolding remove_used
  remove_used-Kept zero s [] fs ls k h = (fs, k, refl, refl, refl)
  remove_used-Kept zero s (u ∷ us) fs ls k h = absurd (omega arith)
  remove_used-Kept (suc m) s [] fs ls k h =
      let same : remove_used (suc m) s ≡ s = ground (arith, k.is_kept.lists.used) in
      subst
        (λ (v : PoServer W).
          (gs : List ℕ) × Kept n v [] gs ls
          × (v.listeners_closed ≡ s.listeners_closed)
          × (v.listener_fd ≡ s.listener_fd)
          × (v.arrived ≡ s.arrived))
        (sym same) (fs, k, refl, refl, refl)
  remove_used-Kept (suc m) s (u ∷ us) fs ls k h =
      let same : remove_used (suc m) s ≡ remove_used m (removing s u) =
        ground (arith, k.is_kept.lists.used.0) in
      subst
        (λ (v : PoServer W).
          (gs : List ℕ) × Kept n v [] gs ls
          × (v.listeners_closed ≡ s.listeners_closed)
          × (v.listener_fd ≡ s.listener_fd)
          × (v.arrived ≡ s.arrived))
        (sym same)
        (remove_used-Kept m (removing s u) us (fs ++ u ∷ []) ls
          (first_removed-Kept n s (u ∷ us) us fs ls u refl k) (omega arith))

module _ {W : Type 0} where
  -- An open listener whose descriptor is closed already ends the process.
  close_checked_ends :
      (m i : ℕ) (s : PoServer W) (fd : ℕ) (fds : List ℕ)
      → listening s.listener_fd m i ≡ fd ∷ fds
      → ((z : ℕ) → mem z (listening s.listener_fd m i) ≡ true → mem z s.listeners_closed ≡ true)
      → close_checked m i s ≡ none
  unfolding close_checked
  close_checked_ends zero i s fd fds e h = absurd (ground (arith, e))
  close_checked_ends (suc m) i s fd fds e h = elim (Option-cases (s.listener_fd i)) [
    | inl n ↦
        let same : listening s.listener_fd (suc m) i ≡ listening s.listener_fd m (i + 1) =
          ground (arith, n) in
        let ih =
          close_checked_ends m (i + 1) s fd fds (sym same ∙ e) (λ z y. h z (ap (mem z) same ∙ y)) in
        ground (arith, n, ih)
    | inr (x, n) ↦
        let there : mem x (listening s.listener_fd (suc m) i) ≡ true =
          ground (arith, n, ==_refl x) in
        ground (arith, n, h x there)
  ]

  close_checked_passes :
      (m i : ℕ) (s : PoServer W) → listening s.listener_fd m i ≡ [] → close_checked m i s ≡ some s
  unfolding close_checked
  close_checked_passes zero i s e = refl
  close_checked_passes (suc m) i s e = elim (Option-cases (s.listener_fd i)) [
    | inl n ↦
        let same : listening s.listener_fd (suc m) i ≡ listening s.listener_fd m (i + 1) =
          ground (arith, n) in
        let ih = close_checked_passes m (i + 1) s (sym same ∙ e) in ground (arith, n, ih)
    | inr (x, n) ↦ absurd (ground (arith, n, e))
  ]

  -- From a state of the invariant: `poServer_destroy` where a listening socket is open closes it twice, and the process ends
  -- at the second `close`, which fails. Where none is open, it returns; then no connection is used, and each
  -- descriptor that `accept` returned is closed, as often as it was returned.
  pub destroy_closes :
      (n m : ℕ) (s : PoServer W) (us fs ls : List ℕ)
      → Kept n s us fs ls
      → ((fd : ℕ) × (fds : List ℕ) × (listening s.listener_fd m 0 ≡ fd ∷ fds)
          × (server_destroy m n s ≡ none))
        ⊎ ((listening s.listener_fd m 0 ≡ [])
            × ((s' : PoServer W) × (server_destroy m n s ≡ some s') × AllClosed n s'))
  unfolding server_destroy
  destroy_closes n m s us fs ls k =
      let s1 = close_again m 0 s in
      let s2 = remove_used n s1 in
      let (fds1, count1) = close_again_same m 0 s in
      let (gs, r, closed, fds, count) =
        remove_used-Kept n n s1 us fs ls (close_again-Kept n m 0 s us fs ls k)
          (omega (arith, k.all)) in
      let same : listening s2.listener_fd m 0 ≡ listening s.listener_fd m 0 =
        ap (λ (f : ℕ → Option ℕ). listening f m 0) (fds ∙ fds1) in
      let all : s2.listeners_closed ≡ s.listeners_closed ++ listening s.listener_fd m 0 =
        closed ∙ close_again_closes m 0 s in
      elim (List-cases (listening s.listener_fd m 0)) [
        | inl e ↦
            inr (e, (s2, close_checked_passes m 0 s2 (same ∙ e), none_used-AllClosed n s2 gs ls r))
        | inr (fd, xs, e) ↦ inl (
          fd,
          xs,
          e,
          close_checked_ends m 0 s2 fd xs (same ∙ e) (λ z y. ground (
            arith,
            ap (mem z) same,
            ap (mem z) all,
            mem-append_list z s.listeners_closed (listening s.listener_fd m 0),
          )),
        )
      ]
    where
      List-cases : (xs : List ℕ) → (xs ≡ []) ⊎ ((x : ℕ) × (ys : List ℕ) × (xs ≡ x ∷ ys))
      List-cases [] = inl refl
      List-cases (x ∷ xs) = inr (x, xs, refl)

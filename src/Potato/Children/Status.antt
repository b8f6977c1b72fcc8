-- ===== src/Potato/Children/Status.antt =====
-- The exit status that `poTato_removeChildren` of potato_old/potato.c returns.
use tidbits.Prelude.{
  ℕ, zero, suc, ◌+◌, ◌≤◌, ◌≡◌, Option, none, some, List, [], ◌∷◌, length, get_or, if_cases, ==_refl,
  arith,
}
use tidbits.Potato.Children.{
  Children, capped, ChildCode, killed, dumped, trapped, exited, stopped, continued, SigChild,
  remove_pid, sig_child_handler, handle_all, Reaped, add_status, reap, reap_below, remove_children,
  is_there,
}

-- A loop in which no signal comes.
abbrev pub quietly : (ℕ → Option ℕ) → ℕ → Reaped
quietly status i = record { around_kill = []; in_wait = []; status = status i }

-- What `waitpid` gives for a child, 0 for one that is removed already.
abbrev pub status_of : Option ℕ → Option ℕ → ℕ
status_of status none = 0
status_of none (some pid) = 0
status_of (some k) (some pid) = k

-- The sum for the children below `i`.
abbrev pub sum_below : ℕ → (ℕ → Option ℕ) → List (Option ℕ) → ℕ
sum_below zero status pids = 0
sum_below (suc i) status pids = status_of (status i) (get_or pids i none) + sum_below i status pids

add_status-capped :
    (k p : Option ℕ) (s : ℕ) → s ≤ 255 → add_status k p s ≡ capped (s + status_of k p)
add_status-capped none none s h = ground arith
add_status-capped none (some p) s h = ground arith
add_status-capped (some k) none s h = ground arith
add_status-capped (some k) (some p) s h = ground arith

-- The handler of a child that exits before `waitpid` returns takes it off the list and does not add its
-- status, and neither does `poTato_removeChildren`.
pub exit_status_lost :
    (p k s : ℕ)
    → (remove_children
        (λ i. record { around_kill = []; in_wait = (exited, p) ∷ []; status = some k })
        (record { child_pids = some p ∷ []; exit_status = s })).0
      ≡ s
unfolding remove_children reap_below reap handle_all sig_child_handler remove_pid
exit_status_lost p k s = ground (arith, ==_refl p)

handler_bounded :
    (code : ChildCode) (pid : ℕ) (c : Children)
    → c.exit_status ≤ 255
    → (sig_child_handler code pid c).exit_status ≤ 255
unfolding sig_child_handler
handler_bounded killed pid c h = ground arith
handler_bounded dumped pid c h = ground arith
handler_bounded trapped pid c h = ground arith
handler_bounded exited pid c h = h
handler_bounded stopped pid c h = h
handler_bounded continued pid c h = h

handle_all_bounded :
    (signals : List SigChild) (c : Children)
    → c.exit_status ≤ 255
    → (handle_all signals c).exit_status ≤ 255
unfolding handle_all
handle_all_bounded [] c h = h
handle_all_bounded ((code, pid) ∷ signals) c h =
    handle_all_bounded signals (sig_child_handler code pid c) (handler_bounded code pid c h)

add_status_bounded : (k p : Option ℕ) (s : ℕ) → s ≤ 255 → add_status k p s ≤ 255
add_status_bounded k p s h = ground (arith, add_status-capped k p s h)

reap_bounded :
    (i : ℕ) (r : Reaped) (c : Children) → c.exit_status ≤ 255 → (reap i r c).exit_status ≤ 255
unfolding reap
reap_bounded i r c h =
    let signalled = handle_all r.around_kill c in
    let s = handle_all_bounded r.around_kill c h in
    let w = handle_all r.in_wait signalled in
    if_cases (λ (v : Children). v.exit_status ≤ 255) (is_there (get_or c.child_pids i none))
      (λ y.
        if_cases (λ (v : Children). v.exit_status ≤ 255)
          (is_there (get_or signalled.child_pids i none))
          (λ y.
            add_status_bounded r.status (get_or w.child_pids i none) w.exit_status
              (handle_all_bounded r.in_wait signalled s))
          (λ n. s))
      (λ n. h)

reap_below_bounded :
    (i : ℕ) (r : ℕ → Reaped) (c : Children)
    → c.exit_status ≤ 255
    → (reap_below i r c).exit_status ≤ 255
unfolding reap_below
reap_below_bounded zero r c h = h
reap_below_bounded (suc i) r c h =
    reap_below_bounded i r (reap i (r i) c) (reap_bounded i (r i) c h)

-- Whatever signals come, `poTato_removeChildren` returns at most 255.
pub remove_children_bounded :
    (r : ℕ → Reaped) (c : Children) → c.exit_status ≤ 255 → (remove_children r c).0 ≤ 255
unfolding remove_children
remove_children_bounded r c h = by_list c.child_pids
  where
    by_list :
        (ps : List (Option ℕ))
        → (elim ps as (λ ps. ℕ × Children) [
          | [] ↦ (0, c)
          | p ∷ qs ↦ (
            (reap_below (length c.child_pids) r c).exit_status,
            record {
              child_pids = [];
              exit_status = (reap_below (length c.child_pids) r c).exit_status;
            },
          )
        ]).0
          ≤ 255
    by_list [] = omega arith
    by_list (p ∷ qs) = reap_below_bounded (length c.child_pids) r c h

-- ===== src/Potato/Children.antt =====
-- The children of a potato server in potato_old/potato.c: `sigChildHandler`, `removePidFromChildList` and
-- `poTato_removeChildren`.
pub mod Status
use tidbits.Prelude.{
  ℕ, zero, suc, ◌+◌, ◌≡◌, refl, ◌==◌, ltb, if◌then◌else◌, Bool, true, false, Option, none, some,
  List, [], ◌∷◌, ◌++◌, length, get_or, set,
}

-- The fields of `struct POTato` for the children; a pid of -1 is `none`.
pub record Children : Type 0 where
  pub child_pids : List (Option ℕ)
  pub exit_status : ℕ

abbrev pub is_pid : ℕ → Option ℕ → Bool
is_pid pid none = false
is_pid pid (some p) = p == pid

-- `removePidFromChildList`.
unfoldable pub remove_pid : ℕ → List (Option ℕ) → List (Option ℕ)
remove_pid pid [] = []
remove_pid pid (p ∷ ps) =
    let rest = p ∷ remove_pid pid ps in if is_pid pid p then none ∷ ps else rest

-- The status stops at 255.
abbrev pub capped : ℕ → ℕ
capped n = if ltb 255 n then 255 else n

-- `si_code` of SIGCHLD.
pub data ChildCode : Type 0 where
  killed : ChildCode
  dumped : ChildCode
  trapped : ChildCode
  exited : ChildCode
  stopped : ChildCode
  continued : ChildCode

abbrev pub abnormal : ℕ → Children → Children
abnormal pid c = record {
  child_pids = remove_pid pid c.child_pids;
  exit_status = capped (c.exit_status + 1);
}

-- `sigChildHandler`.
unfoldable pub sig_child_handler : ChildCode → ℕ → Children → Children
sig_child_handler killed pid c = abnormal pid c
sig_child_handler dumped pid c = abnormal pid c
sig_child_handler trapped pid c = abnormal pid c
sig_child_handler exited pid c = record c { child_pids = remove_pid pid c.child_pids }
sig_child_handler stopped pid c = c
sig_child_handler continued pid c = c

-- The signals that come at some point.
abbrev pub SigChild : Type 0
SigChild = ChildCode × ℕ

unfoldable pub handle_all : List SigChild → Children → Children
handle_all [] c = c
handle_all ((code, pid) ∷ signals) c = handle_all signals (sig_child_handler code pid c)

-- What happens to a child in the loop of `poTato_removeChildren`: the signals that come around `kill`,
-- those that come in `waitpid`, and the exit status that `waitpid` gives, if it returns the pid.
pub record Reaped : Type 0 where
  pub around_kill : List SigChild
  pub in_wait : List SigChild
  pub status : Option ℕ

abbrev pub is_there : Option ℕ → Bool
is_there none = false
is_there (some pid) = true

-- The status is added if the handler has not removed the child.
abbrev pub add_status : Option ℕ → Option ℕ → ℕ → ℕ
add_status (some status) (some pid) total = if status == 0 then total else capped (total + status)
add_status (some status) none total = total
add_status none (some pid) total = total
add_status none none total = total

abbrev pub waited : ℕ → Option ℕ → Children → Children
waited i status c = record {
  child_pids = set c.child_pids i none;
  exit_status = add_status status (get_or c.child_pids i none) c.exit_status;
}

-- The body of the loop for the child `i`.
unfoldable pub reap : ℕ → Reaped → Children → Children
reap i r c =
    let signalled = handle_all r.around_kill c in
    if is_there (get_or c.child_pids i none)
    then (if is_there (get_or signalled.child_pids i none)
        then waited i r.status (handle_all r.in_wait signalled)
        else signalled)
    else c

-- The loop for the children below `i`, the last one first.
unfoldable pub reap_below : ℕ → (ℕ → Reaped) → Children → Children
reap_below zero r c = c
reap_below (suc i) r c = reap_below i r (reap i (r i) c)

-- `poTato_removeChildren`: the exit status, and no child is left.
unfoldable pub remove_children : (ℕ → Reaped) → Children → ℕ × Children
remove_children r c =
    let c' = reap_below (length c.child_pids) r c in
    elim c.child_pids [
      | [] ↦ (0, c)
      | p ∷ ps ↦ (c'.exit_status, record { child_pids = []; exit_status = c'.exit_status })
    ]

-- ===== src/ThreadPool/Tests.antt =====
-- Runs of the pool, and the theorems about it at concrete states.
use tidbits.Prelude.{ℕ, ◌≡◌, refl, none, some, List, [], ◌∷◌, ◌++◌, arith, length, zero, suc}
use tidbits.ThreadPool.TaskQueue.{Task, TaskQueue, queue_get_next, queue_make_new_entry}
use tidbits.ThreadPool.TaskQueue.Refine.{
  IsValid, contents, fifo_put, fifo_get, make_new_entry_refines, get_next_refines,
}
use tidbits.ThreadPool.WorkerList.{
  Links, WorkerList, list_push, list_pop, list_pull, link_workers, create_unused,
}
use tidbits.ThreadPool.WorkerList.Create.{indices}
use tidbits.ThreadPool.WorkerList.Pair.{Pair}
use tidbits.ThreadPool.Pool.{
  Config, Pool, create, worker_begin, worker_finish, worker_wake, look_for_work, leave, go_idle,
  check_thread_timeout, run_task_pass, destroy_pop,
}
use tidbits.ThreadPool.System.{
  System, Event, submit, check_idle, shut_down, resume, begin, finish, wake, start, run, step,
  submit_step, check_idle_step, shut_down_step, resume_step, begin_step, finish_step, wake_step,
  run_task, after_turn, destroy, destroy_rest, take_at, draining, unblocked,
}
use tidbits.ThreadPool.System.Counting.{total}
use tidbits.ThreadPool.System.Invariant.{Inv, IsUsable}
use tidbits.ThreadPool.System.Reach.{start-Inv}
use tidbits.ThreadPool.System.Safety.{reached-Inv, destroyed_all_called, blocked_unblocks}
use tidbits.ThreadPool.System.Total.{calls_go_through}
use tidbits.ThreadPool.System.Hang.{lost_signal_hangs, spurious_wake_breaks}

abbrev three_threads : Config
three_threads = record { queue_length = 2; max_num_threads = 3; max_idle_time = 1000 }

three_threads-IsUsable : IsUsable three_threads
three_threads-IsUsable = omega arith

abbrev job : ℕ → Task
job n = record { user_callback = 7; user_data = n }

abbrev spawn : ℕ → List Event
spawn n = submit (job n) 0 ∷ begin 0 ∷ resume 0 ∷ []

abbrev all_busy : List Event
all_busy = spawn 1 ++ spawn 2 ++ spawn 3

abbrev all_idle : List Event
all_idle = all_busy ++ finish 0 0 ∷ finish 0 0 ∷ finish 0 0 ∷ []

-- The fourth and fifth task are queued, and the sixth blocks the master.
abbrev blocking : List Event
blocking = all_busy ++ submit (job 4) 0 ∷ submit (job 5) 0 ∷ submit (job 6) 0 ∷ []

-- One thread, idle, is joined.
abbrev orderly : List Event
orderly = spawn 1 ++ finish 0 0 ∷ shut_down ∷ wake 0 ∷ resume 0 ∷ []

-- The thread that was idle too long goes on last.
abbrev late : List Event
late = all_idle ++ check_idle 2000 ∷ shut_down ∷ wake 0 ∷ resume 2000 ∷ wake 0 ∷ resume 2000 ∷ []

after : List Event → System
unfolding start create create_unused link_workers run step submit_step check_idle_step
    shut_down_step resume_step begin_step finish_step wake_step run_task after_turn destroy
    destroy_rest take_at worker_begin worker_finish worker_wake look_for_work leave go_idle
    check_thread_timeout run_task_pass destroy_pop queue_get_next queue_make_new_entry list_push
    list_pop list_pull
after es = elim (run three_threads (start three_threads) es) [
  | none ↦ start three_threads
  | some s ↦ s
]

run-after : run three_threads (start three_threads) blocking ≡ some (after blocking)
unfolding after
run-after = refl

run-orderly : run three_threads (start three_threads) orderly ≡ some (after orderly)
unfolding after
run-orderly = refl

reached-Inv_example : (is : List ℕ) × (us : List ℕ) × Inv three_threads (after blocking) is us
reached-Inv_example =
    reached-Inv three_threads three_threads-IsUsable blocking (after blocking) run-after

destroyed_all_called_example :
    ((after orderly).pool.num_threads ≡ 0)
    × (length (after orderly).busy ≡ 0)
    × ((f : Task → ℕ) → total f (after orderly).submitted ≡ total f (after orderly).calls)
unfolding after
destroyed_all_called_example =
    destroyed_all_called three_threads three_threads-IsUsable orderly (after orderly) run-orderly
      refl

blocked_unblocks_example :
    (s' : System) × (step three_threads (after blocking) (finish 1 5) ≡ some s')
    × (s'.master ≡ unblocked (job 6))
    × (length s'.busy ≡ length (after blocking).busy)
    × (suc s'.pool.task.num ≡ 2)
unfolding after
blocked_unblocks_example =
    blocked_unblocks three_threads three_threads-IsUsable blocking (after blocking) run-after
      (job 6) 1 5 refl (omega arith)

calls_go_through_example :
    ((t : Task) (now : ℕ)
      → (s' : System) × (step three_threads (start three_threads) (submit t now) ≡ some s'))
    × ((now : ℕ)
        → (s' : System) × (step three_threads (start three_threads) (check_idle now) ≡ some s'))
    × ((s' : System) × (step three_threads (start three_threads) shut_down ≡ some s'))
unfolding after
calls_go_through_example =
    calls_go_through three_threads (start three_threads) [] (indices 0 3)
      (start-Inv three_threads three_threads-IsUsable) refl

lost_signal_hangs_example :
    (s' : System) × (step three_threads (after late) (wake 0) ≡ some s')
    × (s'.pool.num_threads ≡ 0)
    × (s'.master ≡ draining)
    × ((e : Event) → step three_threads s' e ≡ none)
unfolding after
lost_signal_hangs_example =
    lost_signal_hangs three_threads (after late) 2 (omega arith) refl refl refl refl refl refl refl

-- A new thread that has not had the lock yet.
newborn : System
unfolding after
newborn = after (submit (job 1) 0 ∷ [])

run-newborn : run three_threads (start three_threads) (submit (job 1) 0 ∷ []) ≡ some newborn
unfolding newborn
run-newborn = refl

-- Worker 2 above worker 0 in the first list, worker 1 in the second.
abbrev two_lists : Links
two_lists = record {
  next = elim [ zero ↦ none | suc n ↦ elim n [ zero ↦ none | suc m ↦ some 0 ] ];
  prev = elim [ zero ↦ some 2 | suc n ↦ none ];
}

abbrev first_list : WorkerList
first_list = record { top = some 2; bottom = some 0 }

abbrev second_list : WorkerList
second_list = record { top = some 1; bottom = some 1 }

two_lists-Pair : Pair two_lists first_list (2 ∷ 0 ∷ []) second_list (1 ∷ [])
two_lists-Pair = (
  ((refl, refl, (refl, refl, (refl, refl))), ((omega arith, tt), (tt, tt))),
  ((refl, refl, (refl, refl)), (tt, tt)),
  ((omega arith, tt), ((omega arith, tt), tt)),
)

-- The array of two slots, its second slot in use.
abbrev half_full : TaskQueue
half_full = record { task = job 1 ∷ job 2 ∷ []; next_read_index = 1; num = 1 }

half_full-IsValid : IsValid 2 half_full
half_full-IsValid = omega arith

make_new_entry_refines_example :
    let (made, q') = queue_make_new_entry 2 half_full (job 3) in
    ((made, contents 2 q') ≡ fifo_put 2 (job 2 ∷ []) (job 3)) × IsValid 2 q'
make_new_entry_refines_example = make_new_entry_refines 2 half_full (job 3) half_full-IsValid

get_next_refines_example :
    let (t, q') = queue_get_next 2 half_full in
    ((t, contents 2 q') ≡ fifo_get 2 (job 2 ∷ [])) × IsValid 2 q'
get_next_refines_example = get_next_refines 2 half_full half_full-IsValid

one_idle : Pool
unfolding create create_unused link_workers
one_idle = record (create three_threads) {
  links = two_lists;
  idle = first_list;
  unused = second_list;
}

spurious_wake_breaks_example :
    let p' = (worker_wake three_threads one_idle 2).pool in
    ¬ Pair p'.links p'.idle (2 ∷ 0 ∷ []) p'.unused (2 ∷ 1 ∷ [])
unfolding one_idle
spurious_wake_breaks_example =
    spurious_wake_breaks three_threads one_idle 2 (0 ∷ []) (1 ∷ []) two_lists-Pair (omega arith)
      refl refl (2 ∷ 0 ∷ []) (2 ∷ 1 ∷ [])

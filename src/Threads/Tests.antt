-- ===== src/Threads/Tests.antt =====
-- Two threads on two nodes; the report of one overtakes the reply to its request.
use dstm_p.Common.{
  ◌==◌, List, Bool, ℕ, ◌+◌, ◌<◌, ◌≡◌, refl, arith, true, false, none, some, [], ◌∷◌, find, insert,
}
use dstm_p.Balancer
use dstm_p.Threads.Races.{sees_runnable, write_started, exit_lost}
use dstm_p.Threads.{
  runnable, Application, threadexited_shrthandler, spawnthread_succ_medhandler, NewThread,
  spawnthread_succ, threadexited, exited, join_thread, Child, spawnthread,
}
use dstm_p.Threads.System.{
  System, start, create, deliver, end_routine, here, delivers, finishes, Reached, starts, creates,
  moves,
}
use dstm_p.Threads.System.Stages.{total, ends, asks, runs, IsCreated}
use dstm_p.Threads.System.Joins.{join_ended}

abbrev first : NewThread
first = record { new_thread = 0x100; start_routine = 97 ∷ []; arg = 1 }

abbrev second : NewThread
second = record { new_thread = 0x108; start_routine = 98 ∷ []; arg = 2 }

abbrev child : Child
child = record { main_node = 0; gtid = 1; func = 97 ∷ []; arg = 1 }

-- The first thread is asked for, runs, returns, and is reported while its reply is still under way.
abbrev created : System
created = create first (start 2)

abbrev running_one : System
running_one = record created {
  apps = λ n. elim (deliver (spawnthread 0 first 1) (record created { sent = [] })) [
    | none ↦ created.apps n
    | some t ↦ t.apps n
  ];
  sent = spawnthread_succ 0 first 1 ∷ [];
  running = child ∷ [];
}

abbrev reported : System
reported = end_routine child (record running_one { running = [] })

abbrev joined : System
joined = record reported {
  apps = λ n.
      elim (deliver (threadexited 0 1 exited)
        (record reported { sent = spawnthread_succ 0 first 1 ∷ [] })) [
          | none ↦ created.apps n
          | some t ↦ t.apps n
        ];
  sent = spawnthread_succ 0 first 1 ∷ [];
}

joined-Reached : Reached 2 joined
unfolding create deliver end_routine Balancer.get_victim Balancer.new find insert
joined-Reached =
    moves
      (moves
        (moves (creates first starts) (delivers (spawnthread 0 first 1) [] running_one here refl))
        (finishes child [] here))
      (delivers (threadexited 0 1 exited) (spawnthread_succ 0 first 1 ∷ []) joined here refl)

first-IsCreated : IsCreated joined.spawner.gtid 1
unfolding create end_routine
first-IsCreated = (omega arith, omega arith)

joined_now : join_thread 1 (joined.apps 0) ≡ true
unfolding create deliver end_routine Balancer.get_victim Balancer.new find insert join_thread
joined_now = refl

join_ended_example :
    ((join_thread 1 (joined.apps 0) ≡ true)
      → (total (ends 1) joined.finished ≡ 1)
        × (total (asks 1) joined.sent ≡ 0)
        × (total (runs 1) joined.running ≡ 0))
    × (0 < total (asks 1) joined.sent + total (runs 1) joined.running
        → join_thread 1 (joined.apps 0) ≡ false)
join_ended_example = join_ended 2 joined 1 joined-Reached first-IsCreated

-- The first thread, asked for by node 0 and on node 1.
abbrev asked : Application
asked = record {
  local_threads = [];
  remote_threads = (1, record { ltid = 0; state = runnable }) ∷ [];
  current_ltid = 0;
}

exit_lost_example :
    (reported : Application) × (threadexited_shrthandler 1 exited asked ≡ some reported)
    × ((in_turn : Application) × (spawnthread_succ_medhandler (λ _. 1) first 1 reported
          ≡ some in_turn)
        × (join_thread 1 in_turn ≡ true))
    × ((raced : Application) × (write_started (sees_runnable 1 asked) 1 1 reported ≡ some raced)
        × (join_thread 1 raced ≡ false))
unfolding find
exit_lost_example =
    exit_lost (λ _. 1) first 1 1 asked (record { ltid = 0; state = runnable }) refl refl refl refl

-- A module with the routine `b` alone: the job of `a` runs nothing, and the next `a` runs `b`.
abbrev has_b : List ℕ → Bool
has_b [] = false
has_b (x ∷ xs) = x == 98

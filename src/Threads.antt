-- ===== src/Threads.antt =====
-- Threads of the application: their tables (src/application.h, dstm_gasnet_application.cpp), how they are
-- spawned, run and joined (gasnet_thread_spawner.cpp, dstm_pthread/dstm_pthread.cpp), and the handlers of the
-- messages about them (gasnet_handlers.cpp). Integers of type int are natural numbers.
pub mod System
pub mod Races
mod Tests
use dstm_p.Common.{
  ℕ, ◌+◌, Bool, true, false, ◌&&◌, not, Option, none, some, List, ◌==◌, if◌then◌else◌, find, insert,
  is_some,
}
use dstm_p.Balancer.{Balancer, get_victim}

pub data ThreadState : Type 0 where
  runnable running dead exited terminated : ThreadState

-- ApplicationThread
pub record ApplicationThread : Type 0 where
  pub ltid : ℕ
  pub state : ThreadState

abbrev pub Threads : Type 0
Threads = List (ℕ × ApplicationThread)

-- DSTMGASNetApplication: `localThreads`, `remoteThreads` and `currentLTID`.
pub record Application : Type 0 where
  pub local_threads : Threads
  pub remote_threads : Threads
  pub current_ltid : ℕ

-- newthread_t: the address of the caller's dstm_pthread_t, the name of the routine, and its argument.
pub record NewThread : Type 0 where
  pub new_thread : ℕ
  pub start_routine : List ℕ
  pub arg : ℕ

-- thread_arg_t
pub record Child : Type 0 where
  pub main_node : ℕ
  pub gtid : ℕ
  pub func : List ℕ
  pub arg : ℕ

-- The messages about threads, each with the node that it goes to.
pub data Message : Type 0 where
  spawnthread : (node : ℕ) (buf : NewThread) (gtid : ℕ) → Message
  spawnthread_succ : (node : ℕ) (buf : NewThread) (ltid : ℕ) → Message
  threadexited : (node gtid : ℕ) (state : ThreadState) → Message

-- GASNetThreadSpawner
pub record Spawner : Type 0 where
  pub balancer : Balancer
  pub gtid : ℕ

-- `addLocalThread` and `addRemoteThread`
unfoldable pub add_local_thread : ℕ → ℕ → ThreadState → Application → Application
add_local_thread gtid ltid state app = record app {
  local_threads = insert gtid (record { ltid = ltid; state = state }) app.local_threads;
}

unfoldable pub add_remote_thread : ℕ → ℕ → ThreadState → Application → Application
add_remote_thread gtid ltid state app = record app {
  remote_threads = insert gtid (record { ltid = ltid; state = state }) app.remote_threads;
}

-- `inLocalThreads` and `inRemoteThreads`
unfoldable pub in_local_threads : ℕ → Application → Bool
in_local_threads gtid app = is_some (find gtid app.local_threads)

unfoldable pub in_remote_threads : ℕ → Application → Bool
in_remote_threads gtid app = is_some (find gtid app.remote_threads)

-- A write through the pointer that `getLocalThread` or `getRemoteThread` gives; `none` where it is null.
unfoldable pub on_local_thread :
    ℕ → (ApplicationThread → ApplicationThread) → Application → Option Application
on_local_thread gtid f app = elim (find gtid app.local_threads) [
  | none ↦ none
  | some t ↦ some (record app { local_threads = insert gtid (f t) app.local_threads })
]

unfoldable pub on_remote_thread :
    ℕ → (ApplicationThread → ApplicationThread) → Application → Option Application
on_remote_thread gtid f app = elim (find gtid app.remote_threads) [
  | none ↦ none
  | some t ↦ some (record app { remote_threads = insert gtid (f t) app.remote_threads })
]

-- `state == Application::EXITED` through such a pointer.
abbrev pub is_final : ThreadState → Bool
is_final exited = true
is_final _ = false

abbrev pub is_exited : Option ApplicationThread → Bool
is_exited none = false
is_exited (some t) = is_final t.state

abbrev pub is_runnable : ThreadState → Bool
is_runnable runnable = true
is_runnable _ = false

-- `getNextGTID`
unfoldable pub get_next_gtid : Spawner → ℕ × Spawner
get_next_gtid s = (s.gtid, record s { gtid = s.gtid + 1 })

-- `getNextLTID`
unfoldable pub get_next_ltid : Application → ℕ × Application
get_next_ltid app = (app.current_ltid + 1, record app { current_ltid = app.current_ltid + 1 })

-- What `spawnThread` leaves: the spawner, the tables, memory of the dstm_pthread_t variables, and the
-- message it sends.
pub record Spawned : Type 0 where
  pub spawner : Spawner
  pub app : Application
  pub variables : ℕ → ℕ
  pub message : Message

-- `spawnThread`
unfoldable pub spawn_thread : ℕ → NewThread → Spawner → Application → (ℕ → ℕ) → Spawned
unfolding get_next_gtid add_local_thread add_remote_thread
spawn_thread mynode new_thread spawner app variables =
    let (gtid, spawner1) = get_next_gtid spawner in
    let (victim, balancer) = get_victim spawner1.balancer in
    record {
      spawner = record spawner1 { balancer = balancer };
      app =
          if victim == mynode
          then add_local_thread gtid 0 runnable app
          else add_remote_thread gtid 0 runnable app;
      variables = λ a. if a == new_thread.new_thread then gtid else variables a;
      message = spawnthread victim new_thread gtid;
    }

-- Whether nothing keeps `joinThread` of a thread from its return: each GASNET_BLOCKUNTIL that it comes to
-- finds EXITED.
unfoldable pub join_thread : ℕ → Application → Bool
unfolding in_local_threads in_remote_threads
join_thread gtid app =
    (if in_local_threads gtid app then is_exited (find gtid app.local_threads) else true)
    && (if in_remote_threads gtid app then is_exited (find gtid app.remote_threads) else true)

-- `runChildThread`: the local identifier, the tables, and the thread it starts.
unfoldable pub run_child_thread : ℕ → NewThread → ℕ → ℕ → Application → ℕ × Application × Child
unfolding get_next_ltid add_local_thread
run_child_thread mynode new_thread main_node gtid app =
    let (ltid, app1) = get_next_ltid app in
    (
      ltid,
      if not (mynode == main_node) then add_local_thread gtid ltid running app1 else app1,
      record {
        main_node = main_node;
        gtid = gtid;
        func = new_thread.start_routine;
        arg = new_thread.arg;
      },
    )

-- The report of `jobChild` at its end; what it has run is in Races.
unfoldable pub job_child : Child → Message
job_child c = threadexited c.main_node c.gtid exited

-- `spawnthread_medhandler` on node `mynode`, for a message from `node`.
unfoldable pub spawnthread_medhandler :
    ℕ → ℕ → NewThread → ℕ → Application → Application × Child × Message
unfolding run_child_thread
spawnthread_medhandler mynode node buf gtid app =
    let (ltid, app1, child) = run_child_thread mynode buf node gtid app in
    (app1, child, spawnthread_succ node buf ltid)

-- What `spawnthread_succ_medhandler` writes in the thread's record.
abbrev pub started : ℕ → ApplicationThread → ApplicationThread
started ltid t = record { ltid = ltid; state = if is_runnable t.state then running else t.state }

-- `spawnthread_succ_medhandler`, given the dstm_pthread_t variables; `none` where it follows a null
-- pointer.
unfoldable pub spawnthread_succ_medhandler :
    (ℕ → ℕ) → NewThread → ℕ → Application → Option Application
unfolding in_local_threads in_remote_threads on_local_thread on_remote_thread
spawnthread_succ_medhandler variables buf ltid app =
    let gtid = variables buf.new_thread in
    if in_local_threads gtid app
    then on_local_thread gtid (started ltid) app
    else (if in_remote_threads gtid app then on_remote_thread gtid (started ltid) app else none)

-- `threadexited_shrthandler`
unfoldable pub threadexited_shrthandler : ℕ → ThreadState → Application → Option Application
unfolding in_local_threads on_local_thread on_remote_thread
threadexited_shrthandler gtid state app =
    if in_local_threads gtid app
    then on_local_thread gtid (λ t. record t { state = state }) app
    else on_remote_thread gtid (λ t. record t { state = state }) app

-- ===== src/Threads/System.antt =====
-- All nodes together, and the messages between them. The program runs on node 0, which alone spawns; messages
-- arrive in any order. Here the handlers of a node take turns, and each is one step; GASNET_PAR also lets them
-- run at the same time (Races has what is lost then).
pub mod Tables
pub mod Stages
pub mod Preserved
pub mod Joins
use dstm_p.Common.{
  ℕ, ◌≡◌, Bool, true, false, Option, none, some, List, [], ◌∷◌, ◌==◌, if◌then◌else◌,
}
use dstm_p.Balancer
use dstm_p.Threads.{
  running, Application, NewThread, Child, Message, spawnthread, spawnthread_succ, threadexited,
  Spawner, spawn_thread, job_child, spawnthread_medhandler, spawnthread_succ_medhandler,
  threadexited_shrthandler,
}

-- The tables of each node, the spawner of node 0, its dstm_pthread_t variables, the messages under way, the
-- threads in `jobChild`, and, as a record of the run, those that have come to its end, whatever routine it ran.
pub record System : Type 0 where
  pub apps : ℕ → Application
  pub spawner : Spawner
  pub variables : ℕ → ℕ
  pub sent : List Message
  pub running : List Child
  pub finished : List ℕ

abbrev pub set_app : ℕ → Application → (ℕ → Application) → ℕ → Application
set_app node app apps n = if n == node then app else apps n

-- `jobMain` and `runMainThread`: a new spawner, and the main thread in the table of node 0.
abbrev pub start : ℕ → System
start nodes = record {
  apps = λ n. record {
    local_threads = if n == 0 then (0, record { ltid = 0; state = running }) ∷ [] else [];
    remote_threads = [];
    current_ltid = 0;
  };
  spawner = record { balancer = Balancer.new nodes; gtid = 1 };
  variables = λ _. 0;
  sent = [];
  running = [];
  finished = [];
}

-- `dstm_pthread_create` by the program.
unfoldable pub create : NewThread → System → System
unfolding spawn_thread
create new_thread s =
    let r = spawn_thread 0 new_thread s.spawner (s.apps 0) s.variables in
    record s {
      apps = set_app 0 r.app s.apps;
      spawner = r.spawner;
      variables = r.variables;
      sent = r.message ∷ s.sent;
    }

-- The tables of a node after a handler; `none` where the handler follows a null pointer.
abbrev pub handled : ℕ → System → Option Application → Option System
handled node s none = none
handled node s (some app) = some (record s { apps = set_app node app s.apps })

-- The handler of a message. All requests to spawn come from node 0.
unfoldable pub deliver : Message → System → Option System
unfolding spawnthread_medhandler spawnthread_succ_medhandler threadexited_shrthandler
deliver (spawnthread node buf gtid) s =
    let (app, child, reply) = spawnthread_medhandler node 0 buf gtid (s.apps node) in
    some (record s {
      apps = set_app node app s.apps;
      sent = reply ∷ s.sent;
      running = child ∷ s.running;
    })
deliver (spawnthread_succ node buf ltid) s =
    handled node s (spawnthread_succ_medhandler s.variables buf ltid (s.apps node))
deliver (threadexited node gtid state) s =
    handled node s (threadexited_shrthandler gtid state (s.apps node))

-- `jobChild` of a thread comes to its end, and reports it.
unfoldable pub end_routine : Child → System → System
unfolding job_child
end_routine c s = record s { sent = job_child c ∷ s.sent; finished = c.gtid ∷ s.finished }

-- The list without one of its elements.
pub data Picked {A : Type 0} (x : A) : List A → List A → Type 0 where
  here : {xs : List A} → Picked x (x ∷ xs) xs
  there : {y : A} {xs ys : List A} → Picked x xs ys → Picked x (y ∷ xs) (y ∷ ys)

-- A step of the system that is no call by the program: a message arrives, or the job of a thread ends.
pub data Moves (s : System) : System → Type 0 where
  delivers :
      (m : Message) (rest : List Message) (t : System)
      → Picked m s.sent rest
      → deliver m (record s { sent = rest }) ≡ some t
      → Moves s t
  finishes :
      (c : Child) (rest : List Child)
      → Picked c s.running rest
      → Moves s (end_routine c (record s { running = rest }))

-- The states that the program reaches.
pub data Reached (nodes : ℕ) : System → Type 0 where
  starts : Reached nodes (start nodes)
  creates :
      {s : System} (new_thread : NewThread) → Reached nodes s → Reached nodes (create new_thread s)
  moves : {s t : System} → Reached nodes s → Moves s t → Reached nodes t

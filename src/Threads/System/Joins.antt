-- ===== src/Threads/System/Joins.antt =====
-- What the program can rely on of the threads that it creates.
use dstm_p.Common.{ℕ, ◌+◌, ◌<◌, ◌≡◌, sym, ◌∙◌, subst, true, false, some, arith, find}
use dstm_p.Threads.{
  Child, Message, spawnthread, spawnthread_succ, threadexited, in_local_threads, in_remote_threads,
  join_thread,
}
use dstm_p.Threads.System.{
  System, start, Moves, delivers, finishes, Reached, starts, creates, moves,
}
use dstm_p.Threads.System.Tables.{join_thread-done}
use dstm_p.Threads.System.Stages.{total, asks, reports, runs, ends, IsCreated, Ordered}
use dstm_p.Threads.System.Preserved.{create-Ordered, deliver-Ordered, end_routine-Ordered}

start-Ordered : (nodes : ℕ) → Ordered (start nodes)
unfolding in_local_threads in_remote_threads find
start-Ordered nodes = record {
  positive = omega arith;
  unborn = λ g le. (ground arith, ground arith, ground arith);
  known = λ g lt. ground arith;
  once = λ g lt. absurd (omega arith);
  ended = λ g. ground arith;
  messages = tt;
  children = tt;
}

some-value : (u t : System) → some u ≡ some t → u ≡ t
some-value u t h = cc

Moves-Ordered : {s t : System} → Ordered s → Moves s t → Ordered t
Moves-Ordered {s = s} o (delivers m rest t picked e) =
    let (u, (k, after)) = deliver-Ordered m s rest picked o in
    subst Ordered (some-value u t (sym k ∙ e)) after
Moves-Ordered {s = s} o (finishes c rest picked) = end_routine-Ordered c s rest picked o

-- In every state that the program reaches, each thread that it has created is in exactly one place: a
-- request under way, running, a report under way, or marked as exited; the tables of node 0 have it in one
-- of the two; and its routine has ended as often as it is reported or marked.
pub Reached-Ordered : (nodes : ℕ) (s : System) → Reached nodes s → Ordered s
Reached-Ordered nodes _ starts = start-Ordered nodes
Reached-Ordered nodes _ (creates {s = s} new_thread r) =
    create-Ordered new_thread s (Reached-Ordered nodes s r)
Reached-Ordered nodes _ (moves {s = s} r m) = Moves-Ordered (Reached-Ordered nodes s r) m

-- When the handlers of a node take turns: when a join of a created thread can return, `jobChild` of the thread has come
-- to its end, once, whatever routine it ran, and the thread is not asked for and not running; when the thread is
-- asked for or running, the join cannot return.
pub join_ended :
    (nodes : ℕ) (s : System) (g : ℕ)
    → Reached nodes s
    → IsCreated s.spawner.gtid g
    → ((join_thread g (s.apps 0) ≡ true)
        → (total (ends g) s.finished ≡ 1)
          × (total (asks g) s.sent ≡ 0)
          × (total (runs g) s.running ≡ 0))
      × (0 < total (asks g) s.sent + total (runs g) s.running → join_thread g (s.apps 0) ≡ false)
join_ended nodes s g r is =
    let o = Reached-Ordered nodes s r in
    let same = join_thread-done g (s.apps 0) (o.known g is.1) in
    (
      λ returns.
          let done = sym same ∙ returns in
          (
            ground (arith, o.once g is, o.ended g),
            ground (arith, o.once g is),
            ground (arith, o.once g is),
          ),
      λ busy. same ∙ ground (arith, o.once g is),
    )

-- The moves that messages and threads under way can still lead to.
abbrev weight : Message → ℕ
weight (spawnthread node buf h) = 4
weight (spawnthread_succ node buf ltid) = 1
weight (threadexited node h state) = 1

abbrev cost : Child → ℕ
cost c = 2

abbrev pub work : System → ℕ
work s = total weight s.sent + total cost s.running

-- What a handler leaves alone, and what work it leaves.
abbrev Handles : ℕ → System → System → Type 0
Handles w s t =
    (t.finished ≡ s.finished)
    × (t.spawner ≡ s.spawner)
    × ((g : ℕ) → total (reports g) t.sent ≡ total (reports g) s.sent)
    × (work t < w + work s)

-- A run of `k` moves.
pub data Runs (s : System) : ℕ → System → Type 0 where
  no_move : Runs s 0 s
  and_move : {k : ℕ} {t u : System} → Runs s k t → Moves t u → Runs s (k + 1) u

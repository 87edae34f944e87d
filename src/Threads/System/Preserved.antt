-- ===== src/Threads/System/Preserved.antt =====
-- Each step leaves each thread in one place.
use dstm_p.Common.{
  ℕ, ◌+◌, ◌<◌, ◌≡◌, refl, ◌∙◌, Bool, true, false, some, List, ◌∷◌, ◌==◌, if◌then◌else◌, arith, All,
  Bool-cases, inl, inr, ◌&&◌,
}
use dstm_p.Threads.{
  Application, NewThread, Child, Message, spawnthread, spawnthread_succ, threadexited,
  run_child_thread, get_next_ltid, job_child, spawnthread_medhandler,
}
use dstm_p.Threads.System.{System, set_app, create, deliver, end_routine, Picked}
use dstm_p.Threads.System.Tables.{
  Marks, threadexited-Marks, spawnthread_succ-Marks, spawnthread-Marks, spawn-Adds,
}
use dstm_p.Threads.System.Stages.{
  one, total-Picked, All-Picked, All-weaken, asks, reports, runs, IsCreated, IsSent, IsChild,
  Ordered,
}

IsSent-later :
    (variables : ℕ → ℕ) (n a : ℕ)
    → 0 < n
    → (m : Message) → IsSent variables n m
    → IsSent (λ x. if x == a then n else variables x) (n + 1) m
IsSent-later variables n a pos (spawnthread node buf g) k =
    ((k.0.0, omega arith), (ground arith, ground arith))
IsSent-later variables n a pos (spawnthread_succ node buf ltid) k =
    (k.0, (ground arith, ground arith))
IsSent-later variables n a pos (threadexited node g state) k = (k.0, (k.1.0, omega arith), k.2)

pub create-Ordered :
    (new_thread : NewThread) (s : System) → Ordered s → Ordered (create new_thread s)
unfolding create
create-Ordered new_thread s h =
    let born = h.unborn s.spawner.gtid (omega arith) in
    let adds = spawn-Adds new_thread s.spawner (s.apps 0) s.variables born.1 born.2 in
    record {
      positive = omega arith;
      unborn = λ g le.
          let old = h.unborn g (omega arith) in
          let other : (s.spawner.gtid == g) ≡ false = ground arith in
          (
            ground (arith, old, adds.done g other),
            adds.locals g other ∙ old.1,
            adds.remotes g other ∙ old.2,
          );
      known = λ g lt. elim (Bool-cases (s.spawner.gtid == g)) [
        | inl e ↦ ground (arith, adds.known)
        | inr e ↦ ground (arith, adds.locals g e, adds.remotes g e, h.known g)
      ];
      once = λ g lt. elim (Bool-cases (s.spawner.gtid == g)) [
        | inl e ↦
            let old = h.unborn g (ground arith) in rw e (ground (arith, adds.undone g e, old.0))
        | inr e ↦ rw e (ground (arith, adds.done g e, h.once g))
      ];
      ended = λ g. elim (Bool-cases (s.spawner.gtid == g)) [
        | inl e ↦
            let old = h.unborn g (ground arith) in ground (arith, adds.undone g e, old.0, h.ended g)
        | inr e ↦ ground (arith, adds.done g e, h.ended g)
      ];
      messages = (
        ((h.positive, omega arith), (ground arith, ground arith)),
        All-weaken (IsSent-later s.variables s.spawner.gtid new_thread.new_thread h.positive) s.sent
            h.messages,
      );
      children = All-weaken (λ c k. (k.0, (k.1.0, omega arith))) s.running h.children;
    }

-- A change of places that moves each thread within them, leaving the tables and variables as they were.
module _ (m : Message) (s : System) (rest : List Message) (picked : Picked m s.sent rest)
    (h : Ordered s) where
  valid : IsSent s.variables s.spawner.gtid m × All (IsSent s.variables s.spawner.gtid) rest
  valid = All-Picked (IsSent s.variables s.spawner.gtid) picked h.messages

  -- A message that marks a thread of node 0, as exited if the message was its report.
  marked :
      (t : ℕ) (ended : Bool) (app : Application)
      → IsCreated s.spawner.gtid t
      → Marks t ended (s.apps 0) app
      → ((g : ℕ) → asks g m ≡ 0)
      → ((g : ℕ) → reports g m ≡ one (t == g && ended))
      → Ordered (record s { sent = rest; apps = set_app 0 app s.apps })
  marked t ended app created marks no_ask report = record {
    positive = h.positive;
    unborn = λ g le.
        let old = h.unborn g le in
        (
          ground (
            arith,
            old.0,
            marks.done g,
            total-Picked (asks g) picked,
            total-Picked (reports g) picked,
            no_ask g,
            report g,
          ),
          marks.locals g ∙ old.1,
          marks.remotes g ∙ old.2,
        );
    known = λ g lt. ground (arith, marks.locals g, marks.remotes g, h.known g lt);
    once = λ g lt. ground (
      arith,
      h.once g lt,
      marks.done g,
      total-Picked (asks g) picked,
      total-Picked (reports g) picked,
      no_ask g,
      report g,
    );
    ended = λ g. elim (Bool-cases (t == g)) [
      | inl e ↦
          let is : IsCreated s.spawner.gtid g = (ground arith, ground arith) in
          ground
            (arith, h.ended g, h.once g is, marks.done g, total-Picked (reports g) picked, report g)
      | inr e ↦ ground (arith, h.ended g, marks.done g, total-Picked (reports g) picked, report g)
    ];
    messages = valid.1;
    children = h.children;
  }

-- A request to spawn is answered, and the thread runs.
spawned-Ordered :
    (node : ℕ) (buf : NewThread) (h : ℕ) (s : System) (rest : List Message)
    → Picked (spawnthread node buf h) s.sent rest
    → Ordered s
    → let (app, child, reply) = spawnthread_medhandler node 0 buf h (s.apps node) in
      Ordered (record s {
        apps = set_app node app s.apps;
        sent = reply ∷ rest;
        running = child ∷ s.running;
      })
unfolding spawnthread_medhandler run_child_thread get_next_ltid
spawned-Ordered node buf h s rest picked o =
    let (v, others) = valid _ s rest picked o in
    let marks = spawnthread-Marks node h buf s.apps in
    record {
      positive = o.positive;
      unborn = λ g le.
          let old = o.unborn g le in
          (
            ground (
              arith,
              old.0,
              marks.done g,
              total-Picked (asks g) picked,
              total-Picked (reports g) picked,
            ),
            marks.locals g ∙ old.1,
            marks.remotes g ∙ old.2,
          );
      known = λ g lt. ground (arith, marks.locals g, marks.remotes g, o.known g lt);
      once = λ g lt. ground (
        arith,
        o.once g lt,
        marks.done g,
        total-Picked (asks g) picked,
        total-Picked (reports g) picked,
      );
      ended = λ g. ground (arith, o.ended g, marks.done g, total-Picked (reports g) picked);
      messages = ((refl, v.1), others);
      children = ((refl, v.0), o.children);
    }

-- The handler of a message on its way follows no null pointer, and leaves each thread in one place.
pub deliver-Ordered :
    (m : Message) (s : System) (rest : List Message)
    → Picked m s.sent rest
    → Ordered s
    → (t : System) × ((deliver m (record s { sent = rest }) ≡ some t) × Ordered t)
unfolding deliver
deliver-Ordered (spawnthread node buf h) s rest picked o =
    (_, (refl, spawned-Ordered node buf h s rest picked o))
deliver-Ordered (spawnthread_succ node buf ltid) s rest picked o =
    let v = (valid _ s rest picked o).0 in
    let t = s.variables buf.new_thread in
    let (app, (e, marks)) =
      spawnthread_succ-Marks s.variables buf ltid (s.apps 0) (o.known t v.1.1) in
    (
      record s { sent = rest; apps = set_app 0 app s.apps },
      (
        rw (v.0, e) refl,
        marked _ s rest picked o t false app v.1 marks (λ g. refl) λ g. ground arith,
      ),
    )
deliver-Ordered (threadexited node h state) s rest picked o =
    let v = (valid _ s rest picked o).0 in
    let (app, (e, marks)) = threadexited-Marks h (s.apps 0) (o.known h v.1.1) in
    (
      record s { sent = rest; apps = set_app 0 app s.apps },
      (
        rw (v.0, v.2, e) refl,
        marked _ s rest picked o h true app v.1 marks (λ g. refl) λ g. ground arith,
      ),
    )

-- A thread whose routine returns sends its report.
pub end_routine-Ordered :
    (c : Child) (s : System) (rest : List Child)
    → Picked c s.running rest
    → Ordered s
    → Ordered (end_routine c (record s { running = rest }))
unfolding end_routine job_child
end_routine-Ordered c s rest picked o =
    let (v, others) = All-Picked (IsChild s.spawner.gtid) picked o.children in
    record {
      positive = o.positive;
      unborn = λ g le.
          let old = o.unborn g le in
          (ground (arith, old.0, total-Picked (runs g) picked), old.1, old.2);
      known = o.known;
      once = λ g lt. ground (arith, o.once g lt, total-Picked (runs g) picked);
      ended = λ g. ground (arith, o.ended g);
      messages = ((v.0, v.1, refl), o.messages);
      children = others;
    }

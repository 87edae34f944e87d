-- ===== src/Threads/Races.antt =====
-- Two things that the handlers and jobs of a node share: the record of a thread, when handlers run at the same
-- time, as GASNET_PAR lets them (gasnet_handlers.cpp), and the routine that `jobChild` keeps
-- (dstm_gasnet_application.cpp).
use dstm_p.Common.{
  ℕ, ◌≡◌, refl, ◌∙◌, ap, Bool, true, false, Option, none, some, List, [], ◌∷◌, find, insert,
  find-insert_self, if◌then◌else◌,
}
use dstm_p.Threads.{
  exited, runnable, running, ApplicationThread, Application, NewThread, Child, is_runnable, started,
  in_local_threads, in_remote_threads, on_remote_thread, join_thread, spawnthread_succ_medhandler,
  threadexited_shrthandler,
}

-- The test of `spawnthread_succ_medhandler`, for a thread of another node, and its writes when the test has come
-- out as `runs`.
unfoldable pub sees_runnable : ℕ → Application → Bool
sees_runnable gtid app = elim (find gtid app.remote_threads) [
  | none ↦ false
  | some t ↦ is_runnable t.state
]

unfoldable pub write_started : (runs : Bool) (gtid ltid : ℕ) → Application → Option Application
unfolding on_remote_thread
write_started runs gtid ltid app =
    on_remote_thread gtid (λ t. record { ltid = ltid; state = if runs then running else t.state })
      app

-- The routine that `jobChild` finds: the one found before for any thread of the node, or else that of its
-- thread, if the module has it. What it leaves in `pfn_c` and what it runs are the same.
unfoldable pub child_routine : (List ℕ → Bool) → Option (List ℕ) → Child → Option (List ℕ)
child_routine found (some routine) c = some routine
child_routine found none c = if found c.func then some c.func else none

-- The routines that the jobs of a node run, one after the other; `none` where a job runs nothing and
-- reports its thread as exited.
unfoldable pub routines_run :
    (List ℕ → Bool) → Option (List ℕ) → List Child → List (Option (List ℕ))
unfolding child_routine
routines_run found pfn [] = []
routines_run found pfn (c ∷ cs) =
    let pfn1 = child_routine found pfn c in pfn1 ∷ routines_run found pfn1 cs

on_remote_there :
    (gtid : ℕ) (f : ApplicationThread → ApplicationThread) (app : Application)
    (t : ApplicationThread)
    → find gtid app.remote_threads ≡ some t
    → on_remote_thread gtid f app
      ≡ some (record app { remote_threads = insert gtid (f t) app.remote_threads })
unfolding on_remote_thread
on_remote_there gtid f app t there = rw (there, on_remote_thread) refl

sees_fresh :
    (gtid : ℕ) (app : Application) (t : ApplicationThread)
    → find gtid app.remote_threads ≡ some t
    → t.state ≡ runnable
    → sees_runnable gtid app ≡ true
unfolding sees_runnable
sees_fresh gtid app t there fresh = rw (there, sees_runnable) (rw fresh refl)

-- The report that a thread of another node has exited, and the reply to its request: if the report comes first, or
-- between the test and the write of the reply's handler. In the first case its join can return after both; in the
-- second RUNNING has replaced EXITED, and it cannot.
pub exit_lost :
    (variables : ℕ → ℕ) (buf : NewThread) (gtid ltid : ℕ) (app : Application)
    (t : ApplicationThread)
    → variables buf.new_thread ≡ gtid
    → find gtid app.local_threads ≡ none
    → find gtid app.remote_threads ≡ some t
    → t.state ≡ runnable
    → (reported : Application) × (threadexited_shrthandler gtid exited app ≡ some reported)
      × ((in_turn : Application) × (spawnthread_succ_medhandler variables buf ltid reported
            ≡ some in_turn)
          × (join_thread gtid in_turn ≡ true))
      × ((raced : Application) × (write_started (sees_runnable gtid app) gtid ltid reported
            ≡ some raced)
          × (join_thread gtid raced ≡ false))
unfolding threadexited_shrthandler spawnthread_succ_medhandler in_local_threads in_remote_threads
    join_thread write_started
exit_lost variables buf gtid ltid app t at not_local there fresh =
    let done = record t { state = exited } in
    let after = insert gtid done app.remote_threads in
    let found = find-insert_self gtid done app.remote_threads in
    let late : ApplicationThread = record { ltid = ltid; state = exited } in
    let lost : ApplicationThread = record { ltid = ltid; state = running } in
    let reported = record app { remote_threads = after } in
    (
      reported,
      rw not_local (on_remote_there gtid (λ u. record u { state = exited }) app t there),
      (
        record reported { remote_threads = insert gtid late after },
        rw (at, not_local, found) (on_remote_there gtid (started ltid) reported done found),
        rw (not_local, find-insert_self gtid late after) refl,
      ),
      (
        record reported { remote_threads = insert gtid lost after },
        ap (λ b. write_started b gtid ltid reported) (sees_fresh gtid app t there fresh)
            ∙ on_remote_there gtid (λ u. record { ltid = ltid; state = running }) reported done
                found,
        rw (not_local, find-insert_self gtid lost after) refl,
      ),
    )

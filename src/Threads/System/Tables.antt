-- ===== src/Threads/System/Tables.antt =====
-- What the handlers make of the tables of node 0.
use dstm_p.Common.{
  ℕ, ◌≡◌, refl, Bool, true, false, not, ◌&&◌, ◌||◌, some, ◌==◌, if◌then◌else◌, arith, find, insert,
  find-insert, Bool-cases, inl, inr, Option-cases,
}
use dstm_p.Balancer.{get_victim}
use dstm_p.Threads.System.{set_app}
use dstm_p.Threads.{
  ApplicationThread, ThreadState, runnable, running, dead, exited, terminated, Application,
  NewThread, Spawner, is_final, is_exited, is_runnable, started, in_local_threads,
  in_remote_threads, add_local_thread, add_remote_thread, on_local_thread, on_remote_thread,
  join_thread, spawn_thread, spawnthread_medhandler, run_child_thread, get_next_ltid,
  spawnthread_succ_medhandler, threadexited_shrthandler,
}

-- Whether the tables say that the thread has exited.
abbrev pub is_done : ℕ → Application → Bool
unfolding in_local_threads
is_done g app =
    if in_local_threads g app
    then is_exited (find g app.local_threads)
    else is_exited (find g app.remote_threads)

-- The thread is in one of the two tables.
abbrev pub Known : ℕ → Application → Type 0
Known g app = in_local_threads g app ≡ not (in_remote_threads g app)

-- The tables `app'` say of all threads what `app` says, except that `h` has exited if `ended`.
pub record Marks (h : ℕ) (ended : Bool) (app app' : Application) : Type 0 where
  pub locals : (g : ℕ) → in_local_threads g app' ≡ in_local_threads g app
  pub remotes : (g : ℕ) → in_remote_threads g app' ≡ in_remote_threads g app
  pub done : (g : ℕ) → is_done g app' ≡ (h == g && ended || is_done g app)

-- A write to the record of a known thread, through the pointer to it.
write-Marks :
    (h : ℕ) (ended : Bool) (f : ApplicationThread → ApplicationThread) (app : Application)
    → ((t : ApplicationThread) → is_final (f t).state ≡ (ended || is_final t.state))
    → Known h app
    → (app' : Application) × (((if in_local_threads h app
            then on_local_thread h f app
            else on_remote_thread h f app)
          ≡ some app')
        × Marks h ended app app')
unfolding in_local_threads in_remote_threads on_local_thread on_remote_thread is_done
write-Marks h ended f app final known = elim (Option-cases (find h app.local_threads)) [
  | inr (t, e) ↦ (
    record app { local_threads = insert h (f t) app.local_threads },
    (
      rw (e, on_local_thread) refl,
      record {
        locals = λ g. ground (arith, find-insert h g (f t) app.local_threads);
        remotes = λ g. refl;
        done = λ g. ground (arith, find-insert h g (f t) app.local_threads, final t);
      },
    ),
  )
  | inl e ↦ elim (Option-cases (find h app.remote_threads)) [
    | inr (t, k) ↦ (
      record app { remote_threads = insert h (f t) app.remote_threads },
      (
        rw (e, on_remote_thread, k) refl,
        record {
          locals = λ g. refl;
          remotes = λ g. ground (arith, find-insert h g (f t) app.remote_threads);
          done = λ g. ground (arith, find-insert h g (f t) app.remote_threads, final t);
        },
      ),
    )
    | inl k ↦ absurd (ground arith)
  ]
]

pub threadexited-Marks :
    (h : ℕ) (app : Application)
    → Known h app
    → (app' : Application) × ((threadexited_shrthandler h exited app ≡ some app')
        × Marks h true app app')
unfolding threadexited_shrthandler
threadexited-Marks h app known = write-Marks h true _ app (λ t. refl) known

started-final :
    (ltid : ℕ) (t : ApplicationThread) → is_final (started ltid t).state ≡ is_final t.state
started-final ltid t = by_state t.state
  where
    by_state : (s : ThreadState) → is_final (if is_runnable s then running else s) ≡ is_final s
    by_state runnable = refl
    by_state running = refl
    by_state dead = refl
    by_state exited = refl
    by_state terminated = refl

pub spawnthread_succ-Marks :
    (variables : ℕ → ℕ) (buf : NewThread) (ltid : ℕ) (app : Application)
    → Known (variables buf.new_thread) app
    → (app' : Application) × ((spawnthread_succ_medhandler variables buf ltid app ≡ some app')
        × Marks (variables buf.new_thread) false app app')
unfolding spawnthread_succ_medhandler in_local_threads in_remote_threads
spawnthread_succ-Marks variables buf ltid app known =
    let (app', (e, marks)) =
      write-Marks (variables buf.new_thread) false (started ltid) app (started-final ltid) known in
    (app', (ground (arith, e), marks))

-- The tables `app'` have a new thread `h`, which has not exited.
pub record Adds (h : ℕ) (app app' : Application) : Type 0 where
  pub known : Known h app'
  pub undone : (g : ℕ) → (h == g) ≡ true → is_done g app' ≡ false
  pub locals : (g : ℕ) → (h == g) ≡ false → in_local_threads g app' ≡ in_local_threads g app
  pub remotes : (g : ℕ) → (h == g) ≡ false → in_remote_threads g app' ≡ in_remote_threads g app
  pub done : (g : ℕ) → (h == g) ≡ false → is_done g app' ≡ is_done g app

pub spawn-Adds :
    (new_thread : NewThread) (spawner : Spawner) (app : Application) (variables : ℕ → ℕ)
    → in_local_threads spawner.gtid app ≡ false
    → in_remote_threads spawner.gtid app ≡ false
    → Adds spawner.gtid app (spawn_thread 0 new_thread spawner app variables).app
unfolding spawn_thread in_local_threads in_remote_threads is_done add_local_thread add_remote_thread
spawn-Adds new_thread spawner app variables no_local no_remote =
    elim (Bool-cases ((get_victim spawner.balancer).0 == 0)) [
      | inl e ↦ rw e (record {
        known = ground (arith, at_local h);
        undone = λ g same. ground (arith, at_local g);
        locals = λ g other. ground (arith, at_local g);
        remotes = λ g other. refl;
        done = λ g other. ground (arith, at_local g);
      })
      | inr e ↦ rw e (record {
        known = ground (arith, at_remote h);
        undone = λ g same. ground (arith, at_remote g);
        locals = λ g other. refl;
        remotes = λ g other. ground (arith, at_remote g);
        done = λ g other. ground (arith, at_remote g);
      })
    ]
  where
    h : ℕ
    h = spawner.gtid

    new : ApplicationThread
    new = record { ltid = 0; state = runnable }

    at_local :
        (g : ℕ)
        → find g (insert h new app.local_threads)
          ≡ (if h == g then some new else find g app.local_threads)
    at_local g = find-insert h g new app.local_threads

    at_remote :
        (g : ℕ)
        → find g (insert h new app.remote_threads)
          ≡ (if h == g then some new else find g app.remote_threads)
    at_remote g = find-insert h g new app.remote_threads

-- A join of a known thread returns if the thread has exited, and only then.
pub join_thread-done : (g : ℕ) (app : Application) → Known g app → join_thread g app ≡ is_done g app
unfolding join_thread in_local_threads in_remote_threads is_done
join_thread-done g app known = ground arith

-- A node's handler of a request to spawn leaves the tables of node 0.
pub spawnthread-Marks :
    (node h : ℕ) (buf : NewThread) (apps : ℕ → Application)
    → Marks h false
        (apps 0)
        (set_app node (spawnthread_medhandler node 0 buf h (apps node)).0 apps 0)
unfolding spawnthread_medhandler run_child_thread get_next_ltid in_local_threads in_remote_threads
    is_done
spawnthread-Marks node h buf apps = elim (Bool-cases (node == 0)) [
  | inl e ↦
      let home : node ≡ 0 = ground arith in
      rw home (record { locals = λ g. refl; remotes = λ g. refl; done = λ g. ground arith })
  | inr e ↦
      let away : (0 == node) ≡ false = ground arith in
      rw away (record { locals = λ g. refl; remotes = λ g. refl; done = λ g. ground arith })
]

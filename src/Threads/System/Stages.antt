-- ===== src/Threads/System/Stages.antt =====
-- Where each thread stands: asked for, running, reported, or known to have exited.
use dstm_p.Common.{ℕ, ◌+◌, ◌≤◌, ◌<◌, ◌≡◌, refl, Bool, true, false, List, [], ◌∷◌, ◌==◌, arith, All}
use dstm_p.Threads.{
  exited, Child, Message, spawnthread, spawnthread_succ, threadexited, in_local_threads,
  in_remote_threads,
}
use dstm_p.Threads.System.{System, Picked, here, there}
use dstm_p.Threads.System.Tables.{is_done, Known}

abbrev pub one : Bool → ℕ
one true = 1
one false = 0

abbrev pub total : {A : Type 0} → (A → ℕ) → List A → ℕ
total f [] = 0
total f (x ∷ xs) = f x + total f xs

pub total-Picked :
    {A : Type 0} (f : A → ℕ) {x : A} {xs ys : List A}
    → Picked x xs ys
    → total f xs ≡ f x + total f ys
total-Picked f here = refl
total-Picked f (there {y = y} p) = omega (arith, total-Picked f p)

pub All-Picked :
    {A : Type 0} (P : A → Type 0) {x : A} {xs ys : List A}
    → Picked x xs ys
    → All P xs
    → P x × All P ys
All-Picked P here h = h
All-Picked P (there p) h = let (px, rest) = All-Picked P p h.1 in (px, (h.0, rest))

pub All-weaken :
    {A : Type 0} {P Q : A → Type 0} → ((x : A) → P x → Q x) → (xs : List A) → All P xs → All Q xs
All-weaken f [] h = tt
All-weaken f (x ∷ xs) h = (f x h.0, All-weaken f xs h.1)

-- The messages that ask for a thread, and those that report its end; whether a child is the thread.
abbrev pub asks : ℕ → Message → ℕ
asks g (spawnthread node buf h) = one (h == g)
asks g (spawnthread_succ node buf ltid) = 0
asks g (threadexited node h state) = 0

abbrev pub reports : ℕ → Message → ℕ
reports g (spawnthread node buf h) = 0
reports g (spawnthread_succ node buf ltid) = 0
reports g (threadexited node h state) = one (h == g)

abbrev pub runs : ℕ → Child → ℕ
runs g c = one (c.gtid == g)

abbrev pub ends : ℕ → ℕ → ℕ
ends g h = one (h == g)

-- The places where a thread is found.
abbrev pub places : ℕ → System → ℕ
places g s =
    total (asks g) s.sent
    + total (runs g) s.running
    + total (reports g) s.sent
    + one (is_done g (s.apps 0))

-- A thread that has been created, of `n` minus one.
abbrev pub IsCreated : ℕ → ℕ → Type 0
IsCreated n g = (0 < g) × (g < n)

-- The message is about a thread that was created, its variable holds such a thread, and it is addressed as the
-- code addresses it.
abbrev pub IsSent : (ℕ → ℕ) → ℕ → Message → Type 0
IsSent variables n (spawnthread node buf g) = IsCreated n g × IsCreated n (variables buf.new_thread)
IsSent variables n (spawnthread_succ node buf ltid) =
    (node ≡ 0) × IsCreated n (variables buf.new_thread)
IsSent variables n (threadexited node g state) = (node ≡ 0) × IsCreated n g × (state ≡ exited)

abbrev pub IsChild : ℕ → Child → Type 0
IsChild n c = (c.main_node ≡ 0) × IsCreated n c.gtid

-- Each created thread is in one place, and its routine has ended at most once.
pub record Ordered (s : System) : Type 0 where
  pub positive : 0 < s.spawner.gtid
  pub unborn :
      (g : ℕ)
      → s.spawner.gtid ≤ g
      → (places g s ≡ 0)
        × (in_local_threads g (s.apps 0) ≡ false)
        × (in_remote_threads g (s.apps 0) ≡ false)
  pub known : (g : ℕ) → g < s.spawner.gtid → Known g (s.apps 0)
  pub once : (g : ℕ) → IsCreated s.spawner.gtid g → places g s ≡ 1
  pub ended :
      (g : ℕ) → total (ends g) s.finished ≡ total (reports g) s.sent + one (is_done g (s.apps 0))
  pub messages : All (IsSent s.variables s.spawner.gtid) s.sent
  pub children : All (IsChild s.spawner.gtid) s.running

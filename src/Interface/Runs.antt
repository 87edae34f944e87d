-- ===== src/Interface/Runs.antt =====
-- How the calls of a block end.
use dstm_p.Common.{ℕ, ◌<◌, ◌≡◌, refl, some}
use dstm_p.Network.{Segments}
use dstm_p.Tx.State.{Config, State, Run, Cmd}
use dstm_p.Tx.Access
use dstm_p.Tx.Access.{read, write}
use dstm_p.Tx.Commit.{commit}
use dstm_p.Tx.Gives.{Gives, gives, quits, starves}
use dstm_p.Tx.Completes.{Completes, left_by_abort, commit-Completes}
use dstm_p.Tx.Accesses.{read-Completes, write-Completes}
use dstm_p.Interface.{
  Thread, Call, returned, jumped, unfinished, then_call, descriptor, get_tx, on_tx, back,
  begin_transaction, load, store, commit_transaction, Body, result, loads, stores, run_body,
  attempt,
}

-- If the call returns, then with `P`; if it jumps, then with `Q`.
pub data Ran {A : Type 0} (P : A → Thread → Type 0) (Q : Thread → Type 0) : Call A → Type 0 where
  ran : {a : A} {t : Thread} → P a t → Ran P Q (returned a t)
  back_at : {r : ℕ} {t : Thread} → Q t → Ran P Q (jumped r t)
  open_ended : Ran P Q unfinished

pub Ran-bind :
    {A B : Type 0} {P : A → Thread → Type 0} {R : B → Thread → Type 0} {Q : Thread → Type 0}
    {r : Call A} {k : A → Thread → Call B}
    → Ran P Q r
    → ((a : A) (t : Thread) → P a t → Ran R Q (k a t))
    → Ran R Q (then_call r k)
Ran-bind (ran p) next = next _ _ p
Ran-bind (back_at q) next = back_at q
Ran-bind open_ended next = open_ended

-- The state that a method of the thread's transaction starts in.
abbrev pub state_of : Thread → State
state_of t = record { tx = descriptor t.key; world = t.world }

-- A method of the transaction leaves the counts of the node.
pub on_tx-Ran :
    {A : Type 0} {P : A → State → Type 0} {Q : State → Type 0} {R : A → Thread → Type 0}
    {J : Thread → Type 0} (c : Cmd A) (t : Thread)
    → Gives P Q (c (state_of t))
    → ((a : A) (t1 : Thread) → P a (state_of t1) → t1.node_stats ≡ t.node_stats → R a t1)
    → ((t1 : Thread) → Q (state_of t1) → t1.node_stats ≡ t.node_stats → J t1)
    → Ran R J (on_tx c t)
unfolding get_tx
on_tx-Ran {A = A} {P = P} {Q = Q} {R = R} {J = J} c t h ends jumps = go h
  where
    go : {r : Run A} → Gives P Q r → Ran R J (back (record t { key = some (descriptor t.key) }) r)
    go (gives p) = ran (ends _ _ p refl)
    go (quits q) = back_at (jumps _ q refl)
    go starves = open_ended

-- The call returns or jumps.
pub data Over {A : Type 0} : Call A → Type 0 where
  over : {a : A} {t : Thread} → Over (returned a t)
  cut : {r : ℕ} {t : Thread} → Over (jumped r t)

Over-bind :
    {A B : Type 0} {r : Call A} {k : A → Thread → Call B}
    → Over r
    → ((a : A) (t : Thread) → Over (k a t))
    → Over (then_call r k)
Over-bind over next = next _ _
Over-bind cut next = cut

on_tx-Over : {A : Type 0} (c : Cmd A) (t : Thread) → Completes (c (state_of t)) → Over (on_tx c t)
unfolding get_tx
on_tx-Over {A = A} c t h = go h
  where
    go : {r : Run A} → Completes r → Over (back (record t { key = some (descriptor t.key) }) r)
    go Completes.returned = over
    go left_by_abort = cut

-- The call returns with `P`, or jumps with `Q`.
pub data Attempted {A : Type 0} (P : A → Thread → Type 0) (Q : Thread → Type 0)
    : Call A → Type 0 where
  committed : {a : A} {t : Thread} → P a t → Attempted P Q (returned a t)
  undone : {r : ℕ} {t : Thread} → Q t → Attempted P Q (jumped r t)

pub Attempted-Ran :
    {A : Type 0} {P : A → Thread → Type 0} {Q : Thread → Type 0} {r : Call A}
    → Over r
    → Ran P Q r
    → Attempted P Q r
Attempted-Ran over (ran p) = committed p
Attempted-Ran cut (back_at q) = undone q

module _ (cfg : Config) (quiet : (u : ℕ) (m : Segments) → cfg.env u m ≡ m)
    (calm : (u c : ℕ) → cfg.env_clock u c ≡ c) (some_rounds : 0 < cfg.rounds) where
  run_body-Over : {A : Type 0} (b : Body A) (t : Thread) → Over (run_body cfg b t)
  unfolding run_body load store get_tx
  run_body-Over (result a) t = over
  run_body-Over (loads addr k) t =
      Over-bind
        (on_tx-Over (read cfg addr) t (read-Completes cfg calm quiet some_rounds addr (state_of t)))
        λ v t1. run_body-Over (k v) t1
  run_body-Over (stores addr value b) t =
      Over-bind
        (on_tx-Over (write cfg addr value) t
          (write-Completes cfg calm quiet some_rounds addr value (state_of t)))
        λ _ t1. run_body-Over b t1

  pub attempt-Over : {A : Type 0} (b : Body A) (t : Thread) → Over (attempt cfg b t)
  unfolding attempt begin_transaction commit_transaction Access.begin get_tx
  attempt-Over b t = Over-bind (run_body-Over b _) λ a t2.
      Over-bind
        (Over-bind
          (on_tx-Over (commit cfg) t2 (commit-Completes cfg (state_of t2) calm some_rounds))
          λ _ t3. over)
        λ _ t4. over

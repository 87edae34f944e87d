-- ===== src/Tx/Completes.antt =====
-- A commit comes to an end.
use dstm_p.Common.{
  ℕ, zero, suc, ◌+◌, ◌-◌, ◌^◌, ◌%◌, ◌/◌, ◌≤◌, ◌<◌, ◌≡◌, refl, Bool, true, false, Option, none, some,
  List, [], ◌∷◌, find, if◌then◌else◌, take, contains, length, arith, insert, is_some, ltb,
}
use dstm_p.Clock
use dstm_p.Tx.State.{
  Entry, Entries, Config, State, Run, ok, aborted, Cmd, pure, and_then, abort, add_version,
  get_version, get_cached, get_next_clock,
}
use dstm_p.Tx.Validate.{
  outdated, is_current, check_cached, check_entry, validate_entries, validate_all,
}
use dstm_p.Tx.Commit.{
  request_for, add_object, Requests, collect, request, request_all, wait_replies, restore,
  restore_all, release_locks, cache_changed, give_up, lock_rounds, get_locks, put_values,
  put_versions, release_locks_with_new_clock, is_empty, publish, reject, finish, commit,
}

-- The run returns or aborts.
pub data Completes {A : Type 0} : Run A → Type 0 where
  returned : {a : A} {s : State} → Completes (ok a s)
  left_by_abort : {r : ℕ} {s : State} → Completes (aborted r s)

pub Completes-bind :
    {A B : Type 0} {r : Run A} {k : A → Cmd B}
    → Completes r
    → ((a : A) (s : State) → Completes (k a s))
    → Completes (and_then r k)
Completes-bind returned next = next _ _
Completes-bind left_by_abort next = left_by_abort

pub Completes-if :
    {A : Type 0} (b : Bool) (m n : Cmd A) (s : State)
    → Completes (m s)
    → Completes (n s)
    → Completes ((if b then m else n) s)
Completes-if true m n s h k = h
Completes-if false m n s h k = k

-- A round asks for an entry at least.
collect-le :
    (cfg : Config) (es : Entries) (rs : Requests) → length (collect cfg es rs).1 ≤ length es
unfolding collect
collect-le cfg [] rs = omega arith
collect-le cfg ((b, e) ∷ es) rs = ground (
  arith,
  collect-le cfg es (
      insert (b / 2 ^ 48 % 2 ^ 15)
        (add_object cfg b e.ts (request_for cfg (b / 2 ^ 48 % 2 ^ 15) rs)) rs),
)

pub collect-lt :
    (cfg : Config) (p : ℕ × Entry) (es : Entries)
    → length (collect cfg (p ∷ es) []).1 < length (p ∷ es)
unfolding collect
collect-lt cfg (b, e) es = ground (
  arith,
  collect-le cfg es (
      insert (b / 2 ^ 48 % 2 ^ 15)
        (add_object cfg b e.ts (request_for cfg (b / 2 ^ 48 % 2 ^ 15) [])) []),
)

module _ (cfg : Config) where
  is_current-Completes : (b ts : ℕ) (s : State) → Completes (is_current cfg b ts s)
  unfolding is_current get_version outdated add_version
  is_current-Completes b ts s = Completes-if _ (outdated cfg b _) (pure true) _ returned returned

  pub check_entry-Completes : (b ts : ℕ) (s : State) → Completes (check_entry cfg b ts s)
  unfolding check_entry check_cached get_cached
  check_entry-Completes b ts s =
      Completes-if cfg.cache (check_cached cfg b ts) (is_current cfg b ts) s
        (Completes-if _ (pure false) (is_current cfg b ts) _ returned (is_current-Completes b ts _))
        (is_current-Completes b ts s)

  validate_entries-Completes : (es : Entries) (s : State) → Completes (validate_entries cfg es s)
  unfolding validate_entries
  validate_entries-Completes [] s = returned
  validate_entries-Completes ((b, e) ∷ es) s =
      Completes-bind (check_entry-Completes b e.ts s) λ good s1.
        Completes-if good (validate_entries cfg es) (pure false) s1
          (validate_entries-Completes es s1) returned

  -- All requests of a round are answered.
  pub request_all-replies :
      (rs : Requests) (s : State)
      → (s1 : State) × (request_all cfg rs s ≡ ok tt s1)
        × (s1.tx.rl_nodes ≡ s.tx.rl_nodes + length rs)
  unfolding request_all request
  request_all-replies [] s = (s, refl, omega arith)
  request_all-replies ((node, array) ∷ rs) s =
      let (s1, e, count) = request_all-replies rs _ in (s1, e, omega (arith, count))

  -- So the wait for the replies ends.
  pub wait_replies-ends : (n : ℕ) (s : State) → n ≤ s.tx.rl_nodes → wait_replies cfg n s ≡ ok tt s
  unfolding wait_replies
  wait_replies-ends n s le = let there : ltb s.tx.rl_nodes n ≡ false = ground arith in rw there refl

  restore_all-Completes : (es : Entries) (s : State) → Completes (restore_all cfg es s)
  unfolding restore_all restore
  restore_all-Completes [] s = returned
  restore_all-Completes ((b, e) ∷ es) s =
      Completes-bind
        (Completes-if (contains b s.tx.rl_changed_objects) (pure tt) _ s returned returned)
        λ _ s1. restore_all-Completes es s1

  release_locks-Completes : (es : Entries) (s : State) → Completes (release_locks cfg es s)
  unfolding release_locks
  release_locks-Completes es s = Completes-bind (restore_all-Completes es s) λ _ s1. returned

  cache_changed-Completes : (bs : List ℕ) (s : State) → Completes (cache_changed cfg bs s)
  unfolding cache_changed add_version
  cache_changed-Completes [] s = returned
  cache_changed-Completes (b ∷ bs) s =
      Completes-bind (cached (find b s.tx.write_set)) λ _ s1. cache_changed-Completes bs s1
    where
      cached :
          (o : Option Entry)
          → Completes (
              (elim o as (λ _. Cmd (Unit {0})) [ some e ↦ add_version cfg b e.ts | none ↦ pure tt ])
                s)
      cached none = returned
      cached (some e) = returned

  give_up-Completes : (left : Entries) (s : State) → Completes (give_up cfg left s)
  unfolding give_up
  give_up-Completes left s =
      Completes-bind
        (release_locks-Completes (take (length s.tx.write_set - length left) s.tx.write_set) s)
        λ _ s1.
          Completes-bind (cache_changed-Completes s1.tx.rl_changed_objects s1) λ _ s2. returned

  lock_rounds-Completes :
      (fuel : ℕ) (es : Entries) (s : State)
      → length es < fuel
      → Completes (lock_rounds cfg fuel es s)
  unfolding lock_rounds
  lock_rounds-Completes zero es s lt = absurd (omega arith)
  lock_rounds-Completes (suc fuel) [] s lt = returned
  lock_rounds-Completes (suc fuel) (e ∷ es) s lt =
      let rs = (collect cfg (e ∷ es) []).0 in
      let (s1, answered, count) =
        request_all-replies rs (record s { tx = record (s.tx) { rl_nodes = 0 } }) in
      rw (answered, wait_replies-ends (length rs) s1 (omega (arith, count)))
        (next (λ s2. lock_rounds-Completes fuel (collect cfg (e ∷ es) []).1 s2 fewer)
          s1.tx.rl_changed_objects s1)
    where
      fewer : length (collect cfg (e ∷ es) []).1 < fuel
      fewer = omega (arith, collect-lt cfg e es)

      next :
          ((s2 : State) → Completes (lock_rounds cfg fuel (collect cfg (e ∷ es) []).1 s2))
          → (bs : List ℕ) (s1 : State)
          → Completes (
              (elim bs as (λ _. Cmd Bool) [
                | [] ↦ lock_rounds cfg fuel (collect cfg (e ∷ es) []).1
                | b ∷ bs ↦ give_up cfg (collect cfg (e ∷ es) []).1
              ])
                s1)
      next more [] s1 = more s1
      next more (b ∷ bs) s1 = give_up-Completes (collect cfg (e ∷ es) []).1 s1

  put_values-Completes : (es : Entries) (s : State) → Completes (put_values cfg es s)
  unfolding put_values
  put_values-Completes [] s = returned
  put_values-Completes ((b, e) ∷ es) s = put_values-Completes es _

  put_versions-Completes : (v : ℕ) (es : Entries) (s : State) → Completes (put_versions cfg v es s)
  unfolding put_versions add_version
  put_versions-Completes v [] s = returned
  put_versions-Completes v ((b, e) ∷ es) s = put_versions-Completes v es _

  reject-Completes : (s : State) → Completes (reject cfg s)
  unfolding reject abort
  reject-Completes s =
      Completes-bind
        (Completes-if (is_empty cfg s.tx.write_set) (pure tt) (release_locks cfg s.tx.write_set) s
          returned (release_locks-Completes s.tx.write_set s))
        λ _ s1. left_by_abort

  module _ (calm : (t c : ℕ) → cfg.env_clock t c ≡ c) (some_rounds : 0 < cfg.rounds) where
    pub next_clock :
        (fuel c now : ℕ)
        → 0 < fuel
        → is_some (Clock.get_next_clock cfg.gasnet cfg.env_clock fuel c now) ≡ true
    unfolding Clock.get_next_clock
    next_clock zero c now lt = absurd (omega arith)
    next_clock (suc fuel) c now lt =
        rw (calm now c, calm (now + 1) c)
          (ground (arith, cfg.gasnet.cas_law c c ((c + 1) % 2 ^ 64)))

    get_next_clock-Completes : (s : State) → Completes (get_next_clock cfg s)
    unfolding get_next_clock
    get_next_clock-Completes s =
        go (Clock.get_next_clock cfg.gasnet cfg.env_clock cfg.rounds s.world.clock s.world.now) refl
      where
        go :
            (o : Option (Clock.Ticked ℕ))
            → Clock.get_next_clock cfg.gasnet cfg.env_clock cfg.rounds s.world.clock s.world.now ≡ o
            → Completes (get_next_clock cfg s)
        go none e =
            absurd (ground (arith, next_clock cfg.rounds s.world.clock s.world.now some_rounds))
        go (some r) e = rw (e, get_next_clock) returned

    finish-Completes : (s : State) → Completes (finish cfg s)
    unfolding finish validate_all publish release_locks_with_new_clock
    finish-Completes s = Completes-bind (validate_entries-Completes s.tx.read_set s) λ good s1.
        Completes-if good (publish cfg) (reject cfg) s1
          (Completes-bind (put_values-Completes s1.tx.write_set s1) λ _ s2.
            Completes-bind
              (Completes-bind (get_next_clock-Completes s2)
                λ c s3. put_versions-Completes _ s3.tx.write_set s3)
              λ _ s4. returned)
          (reject-Completes s1)

-- A commit returns or aborts, whatever others do to memory, when other threads leave the clock alone
-- and the loops on the clock may take a round; the handlers answer each request, and its waits for the replies end.
pub commit-Completes :
    (cfg : Config) (s : State)
    → ((t c : ℕ) → cfg.env_clock t c ≡ c)
    → 0 < cfg.rounds
    → Completes (commit cfg s)
unfolding commit get_locks abort
commit-Completes cfg s calm some_rounds =
    Completes-bind
      (Completes-if (is_empty cfg s.tx.write_set) (pure true) (get_locks cfg) s returned
        (lock_rounds-Completes cfg (length s.tx.write_set + 1) s.tx.write_set s (omega arith)))
      λ locked s1.
        Completes-if locked (finish cfg) (abort _) s1 (finish-Completes cfg calm some_rounds s1)
          left_by_abort

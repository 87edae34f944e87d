-- ===== src/Cache/Snapshot.antt =====
-- Why a block that `readCell` copies while other nodes commit is one state of the object.
use dstm_p.Common.{
  ℕ, zero, suc, ◌+◌, ◌-◌, ◌≤◌, ◌<◌, ◌≡◌, refl, sym, ap, ◌∙◌, true, false, arith, ltb, Bool-cases,
  inl, inr,
}
use dstm_p.Timestamp.{version_ts, is_locked, locked_word}
use dstm_p.Timestamp.Words.{locked_word-eq}
use dstm_p.Network.{Block}

-- An object as its owner holds it: its lock word and its contents.
pub record Object : Type 0 where
  pub lock : ℕ
  pub cell : Block

-- Who works on it: nobody, a committer that has not written it, or one that may have.
pub data Phase : Type 0 where
  idle held dirty : Phase

-- What one access of any node can do to an object, by the commit protocol: nothing; a grant of its
-- lock (`processLocksRequest`), which locks it with the version sent, no lower as a word than the
-- lock word met, and here no older than it either; the write of its contents under the lock
-- (`commitWriteSetValues`); a release by a committer that wrote nothing (`releaseLocks`), which puts
-- back the version sent; and a release with a new and higher version (`releaseLocksWithNewClock`).
pub data Step (o : Object) (p : Phase) (o' : Object) (p' : Phase) : Type 0 where
  stay : o'.lock ≡ o.lock → o'.cell ≡ o.cell → p' ≡ p → Step o p o' p'
  grant :
      (sent : ℕ)
      → is_locked sent ≡ false
      → o.lock ≤ sent
      → version_ts o.lock ≤ version_ts sent
      → p ≡ idle
      → o'.lock ≡ locked_word sent
      → o'.cell ≡ o.cell
      → p' ≡ held
      → Step o p o' p'
  write : ¬ (p ≡ idle) → o'.lock ≡ o.lock → p' ≡ dirty → Step o p o' p'
  restore :
      p ≡ held
      → is_locked o'.lock ≡ false
      → o.lock ≡ locked_word o'.lock
      → o'.cell ≡ o.cell
      → p' ≡ idle
      → Step o p o' p'
  publish :
      ¬ (p ≡ idle)
      → is_locked o'.lock ≡ false
      → version_ts o.lock < version_ts o'.lock
      → p' ≡ idle
      → Step o p o' p'

-- A history of an object: every access is a step, and at first nobody works on it while its lock
-- bit is clear.
pub record History (obj : ℕ → Object) (phase : ℕ → Phase) : Type 0 where
  pub start : is_locked (obj 0).lock ≡ false → phase 0 ≡ idle
  pub step : (t : ℕ) → Step (obj t) (phase t) (obj (suc t)) (phase (suc t))

-- Seen from a time when the object had version `v` and contents `c`: still so, or spoiled, with a
-- writer at work or a higher version.
data Since (v : ℕ) (c : Block) (o : Object) (p : Phase) : Type 0 where
  same : version_ts o.lock ≡ v → o.cell ≡ c → ¬ (p ≡ dirty) → Since v c o p
  writing : version_ts o.lock ≡ v → p ≡ dirty → Since v c o p
  newer : v < version_ts o.lock → Since v c o p

locked_word-version : (w : ℕ) → is_locked w ≡ false → version_ts (locked_word w) ≡ version_ts w
locked_word-version w h = ground (arith, locked_word-eq w)

locked_word-is_locked : (w : ℕ) → is_locked w ≡ false → is_locked (locked_word w) ≡ true
locked_word-is_locked w h = ground (arith, locked_word-eq w)

-- The version put back is that of the lock word.
restored : (l l' : ℕ) → is_locked l' ≡ false → l ≡ locked_word l' → version_ts l' ≡ version_ts l
restored l l' free e = sym (ap version_ts e ∙ locked_word-version l' free)

Step-Since :
    {v : ℕ} {c : Block} {o o' : Object} {p p' : Phase}
    → Step o p o' p'
    → Since v c o p
    → Since v c o' p'
Step-Since (stay l k q) (same a b d) = same (cc) (cc) (rw q d)
Step-Since (stay l k q) (writing a b) = writing (cc) (cc)
Step-Since (stay l k q) (newer a) = newer (rw l a)
Step-Since {v = v} (grant w f le fresh i l k q) (same a b d) =
    let there = ap version_ts l ∙ locked_word-version w f in
    elim (Bool-cases (ltb v (version_ts w))) [
      | inl more ↦ newer (ground arith)
      | inr no_more ↦ same (ground arith) (k ∙ b) (λ e. cc)
    ]
Step-Since (grant w f le fresh i l k q) (writing a b) = cc
Step-Since (grant w f le fresh i l k q) (newer a) =
    let there = ap version_ts l ∙ locked_word-version w f in newer (omega arith)
Step-Since (write n l q) (same a b d) = writing (rw l a) q
Step-Since (write n l q) (writing a b) = writing (rw l a) q
Step-Since (write n l q) (newer a) = newer (rw l a)
Step-Since (restore h f l k q) (same a b d) = same (restored _ _ f l ∙ a) (k ∙ b) (λ e. cc)
Step-Since (restore h f l k q) (writing a b) = cc
Step-Since (restore h f l k q) (newer a) = newer (rw (restored _ _ f l) a)
Step-Since (publish n f l q) (same a b d) = newer (rw (← a) l)
Step-Since (publish n f l q) (writing a b) = newer (rw (← a) l)
Step-Since (publish n f l q) (newer a) = newer (omega arith)

-- What has gone wrong stays wrong.
data Spoiled (v : ℕ) (o : Object) (p : Phase) : Type 0 where
  writing : version_ts o.lock ≡ v → p ≡ dirty → Spoiled v o p
  newer : v < version_ts o.lock → Spoiled v o p

Step-Spoiled :
    {v : ℕ} {o o' : Object} {p p' : Phase} → Step o p o' p' → Spoiled v o p → Spoiled v o' p'
Step-Spoiled (stay l k q) (writing a b) = writing (cc) (cc)
Step-Spoiled (stay l k q) (newer a) = newer (rw l a)
Step-Spoiled (grant w f le fresh i l k q) (writing a b) = cc
Step-Spoiled (grant w f le fresh i l k q) (newer a) =
    let there = ap version_ts l ∙ locked_word-version w f in newer (omega arith)
Step-Spoiled (write n l q) (writing a b) = writing (rw l a) q
Step-Spoiled (write n l q) (newer a) = newer (rw l a)
Step-Spoiled (restore h f l k q) (writing a b) = cc
Step-Spoiled (restore h f l k q) (newer a) = newer (rw (restored _ _ f l) a)
Step-Spoiled (publish n f l q) (writing a b) = newer (rw (← a) l)
Step-Spoiled (publish n f l q) (newer a) = newer (omega arith)

Step-guarded :
    {o o' : Object} {p p' : Phase}
    → Step o p o' p'
    → (is_locked o.lock ≡ false → p ≡ idle)
    → is_locked o'.lock ≡ false
    → p' ≡ idle
Step-guarded (stay l k q) g free = q ∙ g (rw (← l) free)
Step-guarded (grant w f le fresh i l k q) g free = ground (arith, locked_word-is_locked w f)
Step-guarded (write n l q) g free = absurd (n (g (rw (← l) free)))
Step-guarded (restore h f l k q) g free = q
Step-guarded (publish n f l q) g free = q

-- `d` accesses after `t`.
abbrev after : ℕ → ℕ → ℕ
after t zero = t
after t (suc d) = suc (after t d)

module _ {obj : ℕ → Object} {phase : ℕ → Phase} (h : History obj phase) where
  guarded : (t : ℕ) → is_locked (obj t).lock ≡ false → phase t ≡ idle
  guarded zero = h.start
  guarded (suc t) = Step-guarded (h.step t) (guarded t)

  since :
      (t d : ℕ)
      → is_locked (obj t).lock ≡ false
      → Since (version_ts (obj t).lock) (obj t).cell (obj (after t d)) (phase (after t d))
  since t zero free = same refl refl (λ e. cc (guarded t free))
  since t (suc d) free = Step-Since (h.step (after t d)) (since t d free)

  spoiled :
      (v t d : ℕ) → Spoiled v (obj t) (phase t) → Spoiled v (obj (after t d)) (phase (after t d))
  spoiled v t zero s = s
  spoiled v t (suc d) s = Step-Spoiled (h.step (after t d)) (spoiled v t d s)

  not-Spoiled :
      (v t : ℕ)
      → is_locked (obj t).lock ≡ false
      → version_ts (obj t).lock ≡ v
      → ¬ Spoiled v (obj t) (phase t)
  not-Spoiled v t free e (writing a b) = cc (guarded t free)
  not-Spoiled v t free e (newer a) = omega arith

  unspoiled :
      {v : ℕ} {c : Block} (t : ℕ)
      → Since v c (obj t) (phase t)
      → ¬ Spoiled v (obj t) (phase t)
      → (obj t).cell ≡ c
  unspoiled t (same a b d) n = b
  unspoiled t (writing a b) n = absurd (n (writing a b))
  unspoiled t (newer a) n = absurd (n (newer a))

  -- Between two moments at which an object is unlocked and has one version, its contents are at all
  -- times what they were at the first.
  pub unchanged_between :
      (t d e : ℕ)
      → is_locked (obj t).lock ≡ false
      → is_locked (obj (after (after t d) e)).lock ≡ false
      → version_ts (obj (after (after t d) e)).lock ≡ version_ts (obj t).lock
      → (obj (after t d)).cell ≡ (obj t).cell
  unchanged_between t d e free free' v = unspoiled (after t d) (since t d free) (λ s.
      not-Spoiled (version_ts (obj t).lock) (after (after t d) e) free' v
        (spoiled (version_ts (obj t).lock) (after t d) e s))

  after-eq : (t d : ℕ) → after t d ≡ t + d
  after-eq t zero = omega arith
  after-eq t (suc d) = omega (arith, after-eq t d)

  -- The same at three moments `t ≤ u ≤ w`.
  pub unchanged :
      (t u w : ℕ)
      → t ≤ u
      → u ≤ w
      → is_locked (obj t).lock ≡ false
      → is_locked (obj w).lock ≡ false
      → version_ts (obj w).lock ≡ version_ts (obj t).lock
      → (obj u).cell ≡ (obj t).cell
  unchanged t u w tu uw free free' v =
      let eu : after t (u - t) ≡ u = omega (arith, after-eq t (u - t)) in
      let ew : after u (w - u) ≡ w = omega (arith, after-eq u (w - u)) in
      rw eu at (unchanged_between t (u - t) (w - u) free (rw (eu, ew) free') (rw (eu, ew) v))

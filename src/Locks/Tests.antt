-- ===== src/Locks/Tests.antt =====
-- Lock requests for one object, at different versions.
use dstm_p.Common.{ℕ, ◌≡◌, refl, true, false, [], ◌∷◌, arith}
use dstm_p.Timestamp.{is_timestamp_greater}
use dstm_p.Network.{Segments, flat}
use dstm_p.MemMgr.{MemMgr}
use dstm_p.Locks.{Mem, grant}
use dstm_p.Locks.Grant.{grant_held, grant_stale}

abbrev mgr : MemMgr
mgr = record { locks_addr = 0x10000 ∷ []; objects_addr = 0x210040 ∷ [] }

abbrev quiet : ℕ → Segments → Segments
quiet t s = s

-- Version 5 of node 1, at every lock.
abbrev five : ℕ
five = 0x1000000000005

abbrev mem : Mem
mem = record { seg = λ n a. five; now = 0 }

grant_held_example :
    (grant
      (flat 0)
      mgr
      quiet
      0
      0x210048
      0x3000000000009
      (grant (flat 0) mgr quiet 0 0x210048 five mem).1).0
    ≡ true
unfolding grant
grant_held_example =
    grant_held (flat 0) mgr quiet 0 0x210048 five 0x3000000000009 mem (omega arith) (omega arith)
      (λ t s. refl) refl

-- The object is at version 5 of node 1; the request has version 4 of node 2.
grant_stale_example : (grant (flat 0) mgr quiet 0 0x210048 0x2000000000004 mem).0 ≡ false
unfolding is_timestamp_greater
grant_stale_example =
    grant_stale (flat 0) mgr quiet 0 0x210048 0x2000000000004 mem (λ t s. refl) (omega arith)
      (omega arith) refl (omega arith)

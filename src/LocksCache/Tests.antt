-- ===== src/LocksCache/Tests.antt =====
-- Reads of lock words of two nodes through lines of 64 bytes.
use dstm_p.Common.{◌+◌, ◌≡◌, refl, [], arith, find}
use dstm_p.Network.{Segments, flat}
use dstm_p.LocksCache.{LocksCache, fill, get}
use dstm_p.LocksCache.Lookup.{get_again}

abbrev empty : LocksCache
empty = record { cl_pow = 6; i_map = [] }

abbrev before : Segments
before n a = n + a

abbrev later : Segments
later n a = n + a + 100

get_again_example :
    (get (flat 2) later 0x1000000010048 (get (flat 2) before 0x1000000010048 empty).1).0
    ≡ (fill (flat 2) later 0x1000000010048 empty).0
unfolding find
get_again_example =
    get_again (flat 2) before later 0x1000000010048 empty (omega arith) (omega arith) refl

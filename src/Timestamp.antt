-- ===== src/Timestamp.antt =====
-- src/dstm_lib_p1/dstm_timestamps.h and src/dstm_timestamps.cpp: the 64-bit lock words of objects
-- (bit 63 the lock bit, bits 48 to 62 a node, bits 0 to 47 a version), and the macros of
-- src/dstm_malloc/dstm_malloc.h that split a global address into its node and its local address.
-- A uint64_t is a number below 2 ^ 64; `>>` is `/`, `&` with a mask of ones is `%`.
pub mod Words
mod Tests
use dstm_p.Common.{ℕ, ◌*◌, ◌/◌, ◌%◌, ◌^◌, Bool, true, false, not, ltb, ◌==◌, if◌then◌else◌, bit_or}

-- LOCKBIT_TS
abbrev pub lockbit_ts : ℕ → ℕ
lockbit_ts x = x / 2 ^ 63

-- NODE_TS
abbrev pub node_ts : ℕ → ℕ
node_ts x = x / 2 ^ 48 % 2 ^ 15

-- VERSION_TS
abbrev pub version_ts : ℕ → ℕ
version_ts x = x % 2 ^ 48

-- TO_NODE_TS
abbrev pub to_node_ts : ℕ → ℕ
to_node_ts x = x % 2 ^ 15 * 2 ^ 48

-- `if (LOCKBIT_TS(x))`
abbrev pub is_locked : ℕ → Bool
is_locked x = ltb 0 (lockbit_ts x)

-- NODE_FROM_ADDRESS
abbrev pub node_from_address : ℕ → ℕ
node_from_address x = x / 2 ^ 48 % 2 ^ 15

-- ADDR_FROM_ADDRESS
abbrev pub addr_from_address : ℕ → ℕ
addr_from_address x = x % 2 ^ 48

unfoldable pub is_timestamps_equivalent : ℕ → ℕ → Bool
is_timestamps_equivalent ts1 ts2 =
    if node_ts ts1 == node_ts ts2
    then (if version_ts ts1 == version_ts ts2 then true else false)
    else false

unfoldable pub is_timestamps_equal : ℕ → ℕ → Bool
is_timestamps_equal ts1 ts2 = if version_ts ts1 == version_ts ts2 then true else false

unfoldable pub is_timestamp_greater : ℕ → ℕ → Bool
is_timestamp_greater ts1 ts2 = if ltb (version_ts ts2) (version_ts ts1) then true else false

-- `TO_NODE_TS(gasnet_mynode()) | new_clock`, the version that a commit gives to its objects.
unfoldable pub new_version : ℕ → ℕ → ℕ
new_version node clock = bit_or (to_node_ts node) clock

-- `version | ((uint64_t)1 << 63)`, the word that a granted lock holds.
unfoldable pub locked_word : ℕ → ℕ
locked_word version = bit_or version (1 * 2 ^ 63)

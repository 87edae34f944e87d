-- ===== src/Timestamp/Words.antt =====
-- What the fields of a lock word say.
use dstm_p.Common.{
  ℕ, ◌+◌, ◌%◌, ◌^◌, ◌<◌, ◌≡◌, ◌↔◌, true, false, arith, bit_or-disjoint, disjoint-bit_or,
}
use dstm_p.Timestamp.{
  node_ts, version_ts, is_locked, is_timestamps_equivalent, is_timestamp_greater, new_version,
  locked_word,
}

-- A new version of a node below 2 ^ 15 and a clock below 2 ^ 48 is unlocked, and its fields are
-- that node and that clock.
pub new_version_fields :
    (node clock : ℕ)
    → node < 2 ^ 15
    → clock < 2 ^ 48
    → (is_locked (new_version node clock) ≡ false)
      × (node_ts (new_version node clock) ≡ node)
      × (version_ts (new_version node clock) ≡ clock)
unfolding new_version
new_version_fields node clock hn hc = ground (arith, disjoint-bit_or 48 clock (node % 2 ^ 15) hc)

-- Locking an unlocked word sets the lock bit and leaves its node and its version; and a locked
-- word is greater, as a number, than every unlocked one.
pub locked_word_fields :
    (v w : ℕ)
    → v < 2 ^ 63
    → w < 2 ^ 63
    → (is_locked (locked_word v) ≡ true)
      × (node_ts (locked_word v) ≡ node_ts v)
      × (version_ts (locked_word v) ≡ version_ts v)
      × (w < locked_word v)
unfolding locked_word
locked_word_fields v w hv hw = ground (arith, bit_or-disjoint 63 v 1 hv)

pub locked_word-eq : (v : ℕ) → v < 2 ^ 63 → locked_word v ≡ v + 2 ^ 63
unfolding locked_word
locked_word-eq v hv = omega (arith, bit_or-disjoint 63 v 1 hv)

-- Two unlocked words are equivalent exactly when they are equal: the node and the version
-- together are the whole word.
pub equivalent_iff_eq :
    (a b : ℕ) → a < 2 ^ 63 → b < 2 ^ 63 → (is_timestamps_equivalent a b ≡ true) ↔ (a ≡ b)
unfolding is_timestamps_equivalent
equivalent_iff_eq a b ha hb = ground arith

pub greater_iff : (a b : ℕ) → (is_timestamp_greater a b ≡ true) ↔ (version_ts b < version_ts a)
unfolding is_timestamp_greater
greater_iff a b = ground arith

pub not_locked_iff : (a : ℕ) → (is_locked a ≡ false) ↔ (a < 2 ^ 63)
not_locked_iff a = ground arith

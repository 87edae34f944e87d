-- ===== src/Timestamp/Tests.antt =====
-- Lock words at concrete values.
use dstm_p.Common.{ℕ, ◌≡◌, false, arith}
use dstm_p.Timestamp.{node_ts, version_ts, is_locked, new_version}
use dstm_p.Timestamp.Words.{new_version_fields}

new_version_fields_example :
    (is_locked (new_version 3 77) ≡ false)
    × (node_ts (new_version 3 77) ≡ 3)
    × (version_ts (new_version 3 77) ≡ 77)
new_version_fields_example = new_version_fields 3 77 (omega arith) (omega arith)

-- Version 77 of nodes 3 and 4.
abbrev of_node_3 : ℕ
of_node_3 = 0x300000000004d

abbrev of_node_4 : ℕ
of_node_4 = 0x400000000004d

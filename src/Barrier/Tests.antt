-- ===== src/Barrier/Tests.antt =====
-- A round of three threads.
use dstm_p.Barrier.{Barrier}

-- Two threads of node 0, and its main thread.
abbrev three : Barrier
three = record { count = 3; crossing = 0; waiting = 0; woken = 0; opened = 4 }

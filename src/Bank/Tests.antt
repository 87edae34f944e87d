-- ===== src/Bank/Tests.antt =====
-- A bank of two nodes with three accounts each.
use dstm_p.Common.{◌≡◌, arith}
use dstm_p.Bank.{Bank, transfer, total}
use dstm_p.Bank.Total.{total-transfer}

abbrev tens : Bank
tens j i = 10

-- 25 from an account with 10.
total-transfer_example : total 2 6 (transfer 2 1 2 0 0 25 tens) ≡ total 2 6 tens
total-transfer_example =
    total-transfer 2 6 1 2 0 0 25 tens (omega arith) (omega arith) (omega arith) (omega arith)
      (omega arith)

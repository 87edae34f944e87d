-- ===== src/Tx.antt =====
-- DSTMTransaction of src/dstm_lib_p1/dstm_transaction.h, dstm_transaction_impl.h and
-- dstm_transaction.cpp, in the build with VARIANT1 and TRANSACTIONS_STATS; CACHE is the flag `cache`
-- of a configuration.
pub mod State
pub mod Validate
pub mod Access
pub mod Commit
pub mod Frame
pub mod Hidden
pub mod Own
pub mod Again
pub mod Placed
pub mod Publish
pub mod Same
pub mod Requests
pub mod Atomic
pub mod Completes
pub mod Checked
pub mod Gives
pub mod Sim
pub mod Steps
pub mod Accesses
pub mod Alone
mod Tests

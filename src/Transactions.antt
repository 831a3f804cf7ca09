-- ===== src/Transactions.antt =====
-- The table `transactions` (app/models/balance.py) and `TransactionRepository` of
-- app/repositories/balance.py.
pub mod Store
pub mod Save
pub mod Batch
pub mod Query
pub mod Invariant
pub mod Safe
pub mod UpdateLaws
pub mod SaveLaws
pub mod BatchLaws
pub mod NotifyLaws
mod Tests

-- ===== src/Balances.antt =====
-- Balances: app/services/balance_integrity.py and `BalanceRepository` of
-- app/repositories/balance.py.
pub mod Store
pub mod Integrity
pub mod ShapeLaws
pub mod ChangeLaws
pub mod IntegrityLaws
pub mod Repository
pub mod SaveLaws
mod Tests

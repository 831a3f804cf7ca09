-- ===== src/Entitlements.antt =====
-- What an organisation's plan allows: app/services/entitlements_service.py.
pub mod Policy
pub mod Resolve
pub mod Refresh
pub mod Limits
pub mod PolicyLaws
pub mod RefreshLaws
pub mod EffectiveLaws
pub mod Effective
pub mod LimitLaws
mod Tests

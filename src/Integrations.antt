-- ===== src/Integrations.antt =====
-- `IntegrationService` of app/services/integration_service.py on the tables `integrations` and
-- `integration_secrets` (app/models/balance.py).
pub mod Store
pub mod Service
pub mod PlanLaws
pub mod Planned
pub mod Requests
pub mod SecretLaws
mod Tests

-- ===== src/Billing.antt =====
-- Money and plans: app/services/ledger_service.py, billing_service.py, promo_service.py and the
-- invoice handling of crypto_bot_service.py, over the tables of app/models/balance.py.
-- Amounts are whole hundredths of the currency: the services round prices to two decimals.
pub mod Store
pub mod Ledger
pub mod Plans
pub mod WebhookLaws
pub mod Renewal
pub mod Invariant
pub mod SwitchLaws
pub mod LedgerLaws
pub mod ChargeLaws
pub mod Reconciled
pub mod RenewalLaws
pub mod Promo
pub mod PromoCodes
pub mod PromoFrame
pub mod PromoLaws
pub mod PromoLimits
pub mod Invoice
pub mod InvoiceLaws
pub mod InvoiceValid
pub mod InvoiceOnce
pub mod Topup
mod Tests
mod PaymentTests

-- ===== src/Delivery.antt =====
-- packages/delivery/src/index.ts: preview environments, their admission within a budget, and
-- promotion proposals. Texts such as "admitted" are constructors.
pub mod Doubles
pub mod Quantities
pub mod Previews
pub mod Admissions
pub mod Environments
pub mod Promotion
pub mod Numbers
pub mod Reserved
pub mod Budget
pub mod Refusals
pub mod Reconciled
pub mod Justified

-- ===== src/Core.antt =====
-- packages/core: what the other packages share.
pub mod External
pub mod Amounts
pub mod Schemas
pub mod Quotes

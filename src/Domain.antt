-- ===== src/Domain.antt =====
-- The rules of the domain: src/domain.
pub mod ImportStatus
pub mod Errors
pub mod ParseLine
pub mod Transaction
pub mod Validate
pub mod Fingerprint
pub mod RiskScore

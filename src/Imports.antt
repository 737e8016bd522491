-- ===== src/Imports.antt =====
-- The use cases of the HTTP interface in src/application/use-cases, and the limit on uploads.
pub mod Cancellation
pub mod Creation
pub mod UploadLimit
pub mod Reports

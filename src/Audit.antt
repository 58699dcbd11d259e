-- ===== src/Audit.antt =====
-- backend/app_db/audit_integrity.py: signatures on audit rows, and the gaps in their sequence.
pub mod Signature
pub mod Sequence
mod Examples

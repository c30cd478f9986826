-- ===== src/Refdata.antt =====
-- src/ismet/refdata/: the check digits of identifiers.
pub mod Identifiers

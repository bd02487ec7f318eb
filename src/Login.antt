-- ===== src/Login.antt =====
-- The second factor of a login.
pub mod Factors

-- ===== src/Schema.antt =====
-- Names, data types and the values of fields, as the tables of the apps declare them.
pub mod Numbers
pub mod Identifiers
pub mod DataTypes
pub mod Validation

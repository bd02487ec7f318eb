-- ===== src/Security.antt =====
-- internal/db/SecurityRules.go: the rules by which an app's tables, forms and pages decide who may
-- read and write which records and fields, with the parts of AppDefinition.go and AppRuntime.go
-- that they rest on.
pub mod Model
pub mod Roles
pub mod Decision
pub mod Access
pub mod Loading
pub mod Records
pub mod Previews
pub mod Shadowing
pub mod Validation

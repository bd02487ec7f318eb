-- ===== src/App.antt =====
-- What an app declares, and how its declarations are looked up: internal/db/AppDefinition.go,
-- AppRuntime.go, AppPublish.go, OOTBApp.go, ScriptScope.go and AutoNumber.go.
pub mod Definition
pub mod Registry
pub mod Identifiers
pub mod Inheritance
pub mod Descendants
pub mod EntryPoints
pub mod Methods
pub mod Triggers

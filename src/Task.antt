-- ===== src/Task.antt =====
-- internal/db/TaskEngine.go: tasks made from definitions, their states, and the follow-on tasks that
-- a closed task spawns. The tables of PostgreSQL are lists of rows and an operation is a function of
-- them; a transaction that fails leaves them as they were.
pub mod States
pub mod Model
pub mod Scope
pub mod Spawning
pub mod Engine

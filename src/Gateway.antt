-- ===== src/Gateway.antt =====
-- Who reaches a handler: internal/auth, internal/authz, security.WithAppScope and the chains of
-- cmd/server/routes.go.
pub mod Model
pub mod Redirects
pub mod Tokens
pub mod Layers

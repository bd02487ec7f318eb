-- ===== src/Provider.antt =====
-- Calls of outside AI providers: the addresses that are refused (Addresses), the checks of a URL and
-- the dialer (Destinations), and the call for the list of models (Client).
pub mod Addresses
pub mod Destinations
pub mod Client

-- ===== src/Routing.antt =====
-- Choosing the virtual host and the route of a request.
pub mod Matcher
pub mod ServerName
pub mod Router
mod Tests

-- ===== src/Invocation.antt =====
-- src/invocation.c, which decides whether a method call is let through.
pub mod Clients
pub mod Callers
pub mod Authorize
pub mod Filter

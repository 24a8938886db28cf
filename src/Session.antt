-- ===== src/Session.antt =====
-- include/zenoh/api/session.hxx, and the operations of publisher.hxx, querier.hxx and scout.hxx that
-- have the same shape: what they hand to the C library, and the code around its call.
pub mod Options
pub mod Forwarding
pub mod Requests
pub mod Callbacks
pub mod Handlers
pub mod Operations
pub mod Info
pub mod Release
pub mod Carried
pub mod Usable
pub mod Modes
pub mod Refusing
mod InfoTests
mod Tests

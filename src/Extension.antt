-- ===== src/Extension.antt =====
-- include/zenoh/api/ext: session_ext.hxx, advanced_publisher.hxx, advanced_subscriber.hxx,
-- querying_subscriber.hxx, publication_cache.hxx and miss.hxx, the extension of Session.
pub mod Options
pub mod Forwarding
pub mod Callbacks
pub mod Channels
pub mod Miscast
pub mod Operations
pub mod Usable
mod Tests

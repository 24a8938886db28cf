-- ===== src/Shm.antt =====
-- include/zenoh/api/shm: the results of the allocations, the receivers of the asynchronous ones, the
-- storage of SHM clients, and the C++ backends, clients and segments behind the contexts of C.
pub mod Alloc
pub mod Async
pub mod Backend
pub mod Calls
pub mod ClientStorage
pub mod Histories
pub mod Objects
pub mod Received
pub mod Formed
pub mod Virtuals
pub mod Served
pub mod Standing
mod HistoryTests
mod Tests

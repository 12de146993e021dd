-- ===== src/Executor.antt =====
-- backend/app/executor_manager.py: the daemons that are connected, and the runs that they are given.
pub mod Answers
pub mod Defs
pub mod Pointers
pub mod Requests
pub mod Results
pub mod Listing
pub mod ListingEnds
pub mod Later
pub mod PointerPages
pub mod Exchanges
pub mod Dispatch
pub mod Handlers
pub mod Termination
pub mod Connections
mod Examples

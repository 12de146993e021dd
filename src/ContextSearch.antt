-- ===== src/ContextSearch.antt =====
-- backend/app/context_search.py, of which connector/pocage/context_search.py is a copy but for how it
-- resolves the root: the files and folders that a query finds.
pub mod Matching
pub mod Matches
pub mod Order
pub mod Search
pub mod Ranking
mod Examples

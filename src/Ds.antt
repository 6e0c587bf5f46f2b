-- ===== src/Ds.antt =====
-- ds: the concurrent sets.
pub mod HmList
pub mod HashTable
pub mod LazyList

-- ===== src/Blocks.antt =====
-- common/recordmgr: the containers of object pointers that reclaimers and pools are built on.
pub mod Cells
pub mod Block
pub mod Pool
pub mod Bag
pub mod ArrayList

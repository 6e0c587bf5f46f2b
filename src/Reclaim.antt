-- ===== src/Reclaim.antt =====
-- common/recordmgr/reclaimer_*.h: safe memory reclamation.
pub mod Sweep
pub mod Bags
pub mod Slots
pub mod Hp
pub mod Pop
pub mod Epochs
pub mod Rcu
pub mod Eras
pub mod Ibr
pub mod Qsbr
pub mod He

-- ===== src/Tests.antt =====
-- Runs of the models at fixed inputs, and the theorems at inputs that meet their hypotheses.
mod Rcu
mod Hp
mod Pop
mod Ibr
mod He
mod Qsbr
mod Blocks
mod ArrayList
mod HmList
mod HashTable
mod LazyList

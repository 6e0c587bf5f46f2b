-- ===== src/Blocks/Pool.antt =====
-- common/recordmgr/blockpool.h: a thread's stack of empty blocks, in front of `new` and `delete`.
use pop_setbench.Base.{
  ℕ, ◌≤◌, ◌≡◌, refl, inl, inr, Bool-cases, Option, none, some, List, [], ◌∷◌, arith, ◌==◌,
  if◌then◌else◌, length,
}
use pop_setbench.Blocks.Block.{Block, is_empty}

-- MAX_BLOCK_POOL_SIZE
abbrev pub max_block_pool_size : ℕ
max_block_pool_size = 32

-- The blocks in the pool, the top of the stack first; `poolSize` is their number.
pub record BlockPool : Type 0 where
  pub pool : List Block

-- `raw` is what `operator new` returns: its address, and what its cells hold. A block from the pool
-- is overwritten by a new one, its address apart.
unfoldable pub allocate_block : Block → BlockPool → Block × BlockPool
allocate_block raw p = elim p.pool [
  | [] ↦ (record raw { size = 0 }, p)
  | b ∷ bs ↦ (record raw { addr = b.addr; size = 0 }, record { pool = bs })
]

-- A full pool deletes the block.
unfoldable pub deallocate_block : Block → BlockPool → Option BlockPool
deallocate_block b p =
    if is_empty b
    then (if length p.pool == max_block_pool_size
        then some p
        else some (record { pool = b ∷ p.pool }))
    else none

-- A block that is allocated is empty.
pub allocate_block-empty : (raw : Block) (p : BlockPool) → (allocate_block raw p).0.size ≡ 0
unfolding allocate_block
allocate_block-empty raw p = by_cases p.pool refl
  where
    by_cases : (bs : List Block) → p.pool ≡ bs → (allocate_block raw p).0.size ≡ 0
    by_cases [] e = rw e
    by_cases (b ∷ bs) e = rw e

pub deallocate_block-some :
    (b : Block) (p : BlockPool) → b.size ≡ 0 → (q : BlockPool) × (deallocate_block b p ≡ some q)
unfolding deallocate_block
deallocate_block-some b p e = elim (Bool-cases (length p.pool == max_block_pool_size)) [
  | inl full ↦ (p, rw (e, full))
  | inr room ↦ (record { pool = b ∷ p.pool }, rw (e, room))
]

-- Giving a block to a pool that does not exceed its array leaves a pool that does not exceed it.
pub deallocate_block-bound :
    (b : Block) (p q : BlockPool)
    → length p.pool ≤ max_block_pool_size
    → deallocate_block b p ≡ some q
    → length q.pool ≤ max_block_pool_size
unfolding deallocate_block
deallocate_block-bound b p q le h = ground arith

-- ===== src/Tests/Blocks.antt =====
-- Runs of common/recordmgr/blockbag.h.
use pop_setbench.Base.{ℕ, ◌+◌, ◌≡◌, refl, [], ◌∷◌, arith, some}
use pop_setbench.Blocks.Block.{Block}
use pop_setbench.Blocks.Pool.{BlockPool, allocate_block, deallocate_block}
use pop_setbench.Blocks.Bag.{Bag, add, remove, chain_length, compute_size, compute_size_fast}
use pop_setbench.Blocks.Bag.Valid.{IsValid, compute_size_fast-exact}
use pop_setbench.Blocks.Bag.Rounds.{Addition, Removal, add-IsValid, remove-IsValid, remove-add}
use pop_setbench.Blocks.Bag.Move.{BlocksMoved, append_move_full_blocks-IsValid}

abbrev block_at : ℕ → ℕ → Block
block_at a n = record { addr = a; size = n; cells = λ i. 100 + i }

-- An empty head in front of a full block.
abbrev one_full : Bag
one_full = record { head = block_at 1 0; rest = block_at 5 40 ∷ []; tail = 5; size_in_blocks = 2 }

one_full-IsValid : IsValid one_full
unfolding chain_length
one_full-IsValid = record {
  room = omega arith;
  full = (refl, tt);
  counted = refl;
  ends = omega arith;
}

-- One object short of a full head, in front of two full blocks.
abbrev nearly : Bag
nearly = record {
  head = block_at 2 39;
  rest = block_at 7 40 ∷ block_at 8 40 ∷ [];
  tail = 8;
  size_in_blocks = 3;
}

nearly-IsValid : IsValid nearly
unfolding chain_length
nearly-IsValid = record {
  room = omega arith;
  full = (refl, (refl, tt));
  counted = refl;
  ends = omega arith;
}

abbrev no_blocks : BlockPool
no_blocks = record { pool = [] }

fresh : (allocate_block (block_at 9 77) no_blocks).0.addr ≡ 9
unfolding allocate_block
fresh = refl

add-IsValid_example : Addition (block_at 9 77) 6 nearly no_blocks
add-IsValid_example =
    add-IsValid (block_at 9 77) 6 nearly no_blocks nearly-IsValid (omega (arith, fresh))

remove-IsValid_example : Removal one_full no_blocks
remove-IsValid_example = remove-IsValid one_full no_blocks one_full-IsValid refl

remove-add_example :
    (after last : Bag) × (pool1 pool2 : BlockPool) × (add (block_at 9 77) 6 nearly no_blocks
      ≡ some (after, pool1))
    × (remove after pool1 ≡ some (6, last, pool2))
remove-add_example =
    remove-add (block_at 9 77) 6 nearly no_blocks nearly-IsValid (omega (arith, fresh))

compute_size_fast-exact_example : compute_size_fast nearly ≡ compute_size nearly
compute_size_fast-exact_example = compute_size_fast-exact nearly nearly-IsValid

append_move_full_blocks-IsValid_example : BlocksMoved one_full nearly
append_move_full_blocks-IsValid_example =
    append_move_full_blocks-IsValid one_full nearly one_full-IsValid nearly-IsValid (omega arith)

abbrev one_block : BlockPool
one_block = record { pool = block_at 1 0 ∷ [] }

one_block_given : deallocate_block (block_at 1 0) no_blocks ≡ some one_block
unfolding deallocate_block
one_block_given = refl

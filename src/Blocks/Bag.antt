-- ===== src/Blocks/Bag.antt =====
-- common/recordmgr/blockbag.h, `class blockbag`: a bag of objects in a chain of blocks, of which only
-- the head is not full. An operation whose assertion fails returns none.
pub mod Valid
pub mod Rounds
pub mod Move
use pop_setbench.Base.{
  ℕ, zero, suc, ◌+◌, ◌-◌, ◌*◌, ◌≡◌, Bool, true, false, ◌&&◌, not, Option, none, some, List, [], ◌∷◌,
  ◌++◌, ◌==◌, ◌>>=◌, if◌then◌else◌,
}
use pop_setbench.Blocks.Block.{
  Block, block_size, is_full, is_empty, push, pop, replace, erase_ix,
  clear_without_freeing_elements, items,
}
use pop_setbench.Blocks.Pool.{BlockPool, allocate_block, deallocate_block}

-- The chain is `head` and the blocks `rest` behind it; `tail` is a pointer, the address of a block.
-- The blockpool, which the bags of a thread share, is passed along.
pub record Bag : Type 0 where
  pub head : Block
  pub rest : List Block
  pub tail : ℕ
  pub size_in_blocks : ℕ

unfoldable pub create : Block → BlockPool → Bag × BlockPool
create raw pool =
    let (b, pool') = allocate_block raw pool in
    (record { head = b; rest = []; tail = b.addr; size_in_blocks = 1 }, pool')

abbrev pub is_nil : List Block → Bool
is_nil [] = true
is_nil (b ∷ bs) = false

-- `isEmpty`
abbrev pub bag_is_empty : Bag → Bool
bag_is_empty bag = is_nil bag.rest && is_empty bag.head

-- What `add` does once the object is in the head block.
unfoldable pub add_head : Block → Block → Bag → BlockPool → Bag × BlockPool
add_head raw h bag pool =
    let (newblock, pool') = allocate_block raw pool in
    let full = record bag {
      head = newblock;
      rest = h ∷ bag.rest;
      size_in_blocks = bag.size_in_blocks + 1;
    } in
    if is_full h then (full, pool') else (record bag { head = h }, pool)

unfoldable pub add : Block → ℕ → Bag → BlockPool → Option (Bag × BlockPool)
add raw obj bag pool = elim (push obj bag.head) [
  | none ↦ none
  | some h ↦ some (add_head raw h bag pool)
]

-- `remove` when the head block is empty: pop from the block behind it and drop the head.
unfoldable pub remove_next : Bag → BlockPool → Option (ℕ × Bag × BlockPool)
remove_next bag pool = elim bag.rest [
  | [] ↦ none
  | b ∷ bs ↦ do
    (result, b') ← pop b
    pool' ← deallocate_block bag.head pool
    some (
      result,
      record bag { head = b'; rest = bs; size_in_blocks = bag.size_in_blocks - 1 },
      pool',
    )
]

unfoldable pub remove : Bag → BlockPool → Option (ℕ × Bag × BlockPool)
remove bag pool =
    if bag_is_empty bag
    then none
    else if is_empty bag.head
    then remove_next bag pool
    else do (result, h) ← pop bag.head; some (result, record bag { head = h }, pool)

-- `removeFullBlock`: the second block, if there is a third.
unfoldable pub remove_full_block : Bag → Option Block × Bag
remove_full_block bag = elim bag.rest [
  | [] ↦ (none, bag)
  | second ∷ bs ↦ elim bs [
    | [] ↦ (none, bag)
    | third ∷ cs ↦
        (some second, record bag { rest = third ∷ cs; size_in_blocks = bag.size_in_blocks - 1 })
  ]
]

-- `p->next = new_next` for the block at address `p` of a chain.
unfoldable pub link_after : ℕ → List Block → List Block → List Block
link_after p new_next [] = []
link_after p new_next (b ∷ bs) =
    let deeper = link_after p new_next bs in if b.addr == p then b ∷ new_next else b ∷ deeper

-- The chain behind the head after such a write.
abbrev pub relinked : ℕ → List Block → Bag → List Block
relinked p new_next bag = if bag.head.addr == p then new_next else link_after p new_next bag.rest

-- `addFullBlock`
unfoldable pub add_full_block : Block → Bag → Option Bag
add_full_block b bag =
    if is_full b
    then some (record bag {
      rest = relinked bag.tail (b ∷ []) bag;
      tail = b.addr;
      size_in_blocks = bag.size_in_blocks + 1;
    })
    else none

-- `computeSizeInBlocks`
unfoldable pub chain_length : List Block → ℕ
chain_length [] = 0
chain_length (b ∷ bs) = 1 + chain_length bs

abbrev pub compute_size_in_blocks : Bag → ℕ
compute_size_in_blocks bag = chain_length (bag.head ∷ bag.rest)

-- `appendMoveFullBlocks(other, other->head)`: all blocks of `other` behind its head.
unfoldable pub append_move_full_blocks : Bag → Bag → Option (Bag × Bag)
append_move_full_blocks bag other = elim other.rest [
  | [] ↦ some (bag, other)
  | b ∷ bs ↦
      let this = record bag { rest = relinked bag.tail (b ∷ bs) bag; tail = other.tail } in
      let that = record other { rest = []; tail = other.head.addr } in
      if is_full b
      then some (
        record this { size_in_blocks = compute_size_in_blocks this },
        record that { size_in_blocks = compute_size_in_blocks that },
      )
      else none
]

-- The loop of `appendMoveAll`, on fuel; `raws` are the blocks that `new` returns.
unfoldable pub move_loop : ℕ → (ℕ → Block) → Bag → Bag → BlockPool → Option (Bag × Bag × BlockPool)
move_loop zero raws bag other pool = none
move_loop (suc fuel) raws bag other pool = elim (bag_is_empty other) [
  | true ↦ some (bag, other, pool)
  | false ↦ do
    (obj, other', pool1) ← remove other pool
    (bag', pool2) ← add (raws fuel) obj bag pool1
    move_loop fuel raws bag' other' pool2
]

unfoldable pub append_move_all :
    ℕ → (ℕ → Block) → Bag → Bag → BlockPool → Option (Bag × Bag × BlockPool)
append_move_all fuel raws bag other pool = do
  (bag1, other1) ← append_move_full_blocks bag other
  (bag2, other2, pool') ← move_loop fuel raws bag1 other1 pool
  some (record bag2 { size_in_blocks = compute_size_in_blocks bag2 }, other2, pool')

-- `computeSize`
unfoldable pub sum_sizes : List Block → ℕ
sum_sizes [] = 0
sum_sizes (b ∷ bs) = b.size + sum_sizes bs

abbrev pub compute_size : Bag → ℕ
compute_size bag = sum_sizes (bag.head ∷ bag.rest)

abbrev pub compute_size_fast : Bag → ℕ
compute_size_fast bag = (bag.size_in_blocks - 1) * block_size + bag.head.size

-- The loop of `clearWithoutFreeingElements`.
unfoldable pub clear_loop : List Block → BlockPool → Option BlockPool
clear_loop [] pool = some pool
clear_loop (b ∷ bs) pool = do
  pool' ← deallocate_block (clear_without_freeing_elements b) pool
  clear_loop bs pool'

unfoldable pub bag_clear_without_freeing_elements : Bag → BlockPool → Option (Bag × BlockPool)
bag_clear_without_freeing_elements bag pool = do
  pool' ← clear_loop bag.rest pool
  some (
    record bag {
      head = clear_without_freeing_elements bag.head;
      rest = [];
      tail = bag.head.addr;
      size_in_blocks = 1;
    },
    pool',
  )

-- ===== src/Blocks/Block.antt =====
-- common/recordmgr/blockbag.h, `class block`: a stack in an array of fixed size. An operation whose
-- assertion fails returns none.
use pop_setbench.Base.{
  ℕ, suc, ◌+◌, ◌-◌, ◌*◌, ◌/◌, ◌<◌, ◌≡◌, inl, inr, Bool, true, false, not, ◌&&◌, Option, none, some,
  Bool-cases, List, arith, ltb, ◌==◌, ==_refl, ==_iff, if◌then◌else◌, load, update,
}
use pop_setbench.Blocks.Cells.{hit, tally, tally-suc, tally-update, tally-above, find_index}

-- BLOCK_SIZE, with pointers and `size_t` of 8 bytes
abbrev pub block_size : ℕ
block_size = 512 / 8 - 3 * 8

-- `addr` is the address of the block; `next` is kept by the chain that holds the block.
pub record Block : Type 0 where
  pub addr : ℕ
  pub size : ℕ
  pub cells : ℕ → ℕ

abbrev pub is_full : Block → Bool
is_full b = b.size == block_size

abbrev pub is_empty : Block → Bool
is_empty b = b.size == 0

unfoldable pub push : ℕ → Block → Option Block
push obj b =
    if ltb b.size block_size
    then some (record b { cells = update b.cells b.size obj; size = suc b.size })
    else none

unfoldable pub pop : Block → Option (ℕ × Block)
pop b = if b.size == 0 then none else some (b.cells (b.size - 1), record b { size = b.size - 1 })

unfoldable pub replace : ℕ → ℕ → Block → Option Block
replace ix obj b =
    if ltb ix b.size && not (obj == 0)
    then some (record b { cells = update b.cells ix obj })
    else none

-- `erase(const int ix)`: the last item takes the place of the erased one.
unfoldable pub erase_ix : ℕ → Block → Block
erase_ix ix b =
    if b.size == 0
    then b
    else if ix == b.size - 1
    then record b { size = b.size - 1 }
    else record b { cells = update b.cells ix (b.cells (b.size - 1)); size = b.size - 1 }

-- `erase(T * const obj)`: first the last item, then the others from the front.
unfoldable pub erase_obj : ℕ → Block → Block
erase_obj obj b =
    if b.size == 0
    then b
    else if b.cells (b.size - 1) == obj
    then record b { size = b.size - 1 }
    else elim (find_index (b.size - 1) b.cells obj) [
      | none ↦ b
      | some i ↦ record b { cells = update b.cells i (b.cells (b.size - 1)); size = b.size - 1 }
    ]

unfoldable pub contains : ℕ → Block → Bool
contains obj b = elim (find_index b.size b.cells obj) [ some i ↦ true | none ↦ false ]

abbrev pub clear_without_freeing_elements : Block → Block
clear_without_freeing_elements b = record b { size = 0 }

-- The objects in the block, the oldest first.
abbrev pub items : Block → List ℕ
items b = load b.size b.cells

abbrev pub copies : ℕ → Block → ℕ
copies p b = tally p b.size b.cells

-- What a block that is not full looks like after a push.
abbrev pub pushed : ℕ → Block → Block
pushed obj b = record b { cells = update b.cells b.size obj; size = suc b.size }

pub push-some : (obj : ℕ) (b : Block) → b.size < block_size → push obj b ≡ some (pushed obj b)
unfolding push
push-some obj b lt = ground arith

pub copies-pushed : (p obj : ℕ) (b : Block) → copies p (pushed obj b) ≡ copies p b + hit p obj
copies-pushed p obj b =
    let e : hit p (update b.cells b.size obj b.size) ≡ hit p obj = rw (==_refl b.size) in
    let t : copies p (pushed obj b)
        ≡ tally p b.size (update b.cells b.size obj) + hit p (update b.cells b.size obj b.size) =
      tally-suc p b.size (update b.cells b.size obj) in
    omega (arith, e, t, tally-above p b.size b.size b.cells obj (omega arith))

-- What a non-empty block looks like after a pop.
abbrev pub popped : Block → Block
popped b = record b { size = b.size - 1 }

abbrev pub top : Block → ℕ
top b = b.cells (b.size - 1)

pub pop-some : (b : Block) → 0 < b.size → pop b ≡ some (top b, popped b)
unfolding pop
pop-some b pos = ground arith

pub copies-popped :
    (p : ℕ) (b : Block) → 0 < b.size → copies p b ≡ copies p (popped b) + hit p (top b)
copies-popped p b pos =
    let s : suc (b.size - 1) ≡ b.size = omega arith in
    let t = tally-suc p (b.size - 1) b.cells in rw s at t

-- Erasing by an index in use takes the object at that index away from the block, and no other.
pub erase_ix-copies :
    (p ix : ℕ) (b : Block)
    → ix < b.size
    → copies p b ≡ copies p (erase_ix ix b) + hit p (b.cells ix)
unfolding erase_ix
erase_ix-copies p ix b lt =
    let pos : 0 < b.size = omega arith in
    let none_in : (b.size == 0) ≡ false = ground arith in
    let whole = copies-popped p b pos in
    elim (Bool-cases (ix == b.size - 1)) [
      | inl last ↦ rw (none_in, last, (==_iff ix (b.size - 1)).0 last) whole
      | inr inner ↦
          let below : ix < b.size - 1 = ground arith in
          rw (none_in, inner)
            (omega (arith, whole, tally-update p (b.size - 1) ix b.cells (top b) below))
    ]

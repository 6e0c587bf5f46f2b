-- ===== src/Blocks/Bag/Rounds.antt =====
-- `add` and `remove`: neither fails on a valid bag, and each moves one object.
use pop_setbench.Base.{
  ℕ, suc, ◌+◌, ◌-◌, ◌<◌, ◌≡◌, ◌≢◌, refl, inl, inr, List, [], ◌∷◌, arith, true, false, some, ◌&&◌,
  ==_refl, Bool-cases, count,
}
use pop_setbench.Blocks.Cells.{hit, tally}
use pop_setbench.Blocks.Block.{
  Block, block_size, is_full, is_empty, copies, pushed, push-some, copies-pushed, popped, top,
  pop-some, copies-popped,
}
use pop_setbench.Blocks.Pool.{
  BlockPool, allocate_block, allocate_block-empty, deallocate_block-some,
}
use pop_setbench.Blocks.Bag.{
  Bag, add_head, add, remove_next, remove, bag_is_empty, is_nil, chain_length,
}
use pop_setbench.Blocks.Bag.Valid.{EndsAt, IsValid, bag_copies}

-- An empty block holds nothing.
copies-empty : (p : ℕ) (b : Block) → b.size ≡ 0 → copies p b ≡ 0
unfolding tally count
copies-empty p b e = rw e

-- The end of a chain does not depend on what the first block holds.
EndsAt-same :
    (t : ℕ) (g h : Block) (bs : List Block)
    → h.addr ≡ g.addr
    → EndsAt t (g ∷ bs)
    → EndsAt t (h ∷ bs)
EndsAt-same t g h [] e at = rw e at
EndsAt-same t g h (b ∷ bs) e at = (rw e at.0, at.1)

EndsAt-tail : (t : ℕ) (g b : Block) (bs : List Block) → EndsAt t (g ∷ b ∷ bs) → EndsAt t (b ∷ bs)
EndsAt-tail t g b bs at = at.1

-- The bag after an object has been added: valid, with one copy more of it.
pub record Addition (raw : Block) (obj : ℕ) (bag : Bag) (pool : BlockPool) : Type 0 where
  pub after : Bag
  pub pool_after : BlockPool
  pub returned : add raw obj bag pool ≡ some (after, pool_after)
  pub valid : IsValid after
  pub moved : (p : ℕ) → bag_copies p after ≡ bag_copies p bag + hit p obj

add-head :
    (raw : Block) (obj : ℕ) (bag : Bag) (pool : BlockPool)
    → bag.head.size < block_size
    → add raw obj bag pool ≡ some (add_head raw (pushed obj bag.head) bag pool)
unfolding add
add-head raw obj bag pool lt = rw (push-some obj bag.head lt, add)

-- Adding an object to a valid bag does not fail, if the block that the pool would allocate is not
-- the last one of the chain; the bag stays valid, and holds one copy more of this object and as
-- many as before of every other.
pub add-IsValid :
    (raw : Block) (obj : ℕ) (bag : Bag) (pool : BlockPool)
    → IsValid bag
    → (allocate_block raw pool).0.addr ≢ bag.tail
    → Addition raw obj bag pool
add-IsValid raw obj bag pool v fresh =
    let h = pushed obj bag.head in
    let returned = add-head raw obj bag pool v.room in
    let here = EndsAt-same bag.tail bag.head h bag.rest refl v.ends in
    elim (Bool-cases (is_full h)) [
      | inr room ↦ record {
        after = record bag { head = h };
        pool_after = pool;
        returned = unfold add_head in (rw room at returned);
        valid = record {
          room = ground (arith, v.room);
          full = v.full;
          counted = unfold chain_length in v.counted;
          ends = here;
        };
        moved = λ p. omega (arith, copies-pushed p obj bag.head);
      }
      | inl full ↦
          let nb = (allocate_block raw pool).0 in
          let none_in = allocate_block-empty raw pool in
          record {
            after = record bag {
              head = nb;
              rest = h ∷ bag.rest;
              size_in_blocks = bag.size_in_blocks + 1;
            };
            pool_after = (allocate_block raw pool).1;
            returned = unfold add_head in (rw full at returned);
            valid = record {
              room = omega arith;
              full = (ground arith, v.full);
              counted = unfold chain_length in (omega (arith, v.counted));
              ends = (fresh, here);
            };
            moved = λ p. omega (arith, copies-pushed p obj bag.head, copies-empty p nb none_in);
          }
    ]

-- The bag after an object has been removed: valid, with one copy less of it.
pub record Removal (bag : Bag) (pool : BlockPool) : Type 0 where
  pub obj : ℕ
  pub after : Bag
  pub pool_after : BlockPool
  pub returned : remove bag pool ≡ some (obj, after, pool_after)
  pub valid : IsValid after
  pub moved : (p : ℕ) → bag_copies p bag ≡ bag_copies p after + hit p obj

remove-head :
    (bag : Bag) (pool : BlockPool) → IsValid bag → is_empty bag.head ≡ false → Removal bag pool
remove-head bag pool v some_in =
    let pos : 0 < bag.head.size = ground arith in
    let no : bag_is_empty bag ≡ false = ground arith in
    record {
      obj = top bag.head;
      after = record bag { head = popped bag.head };
      pool_after = pool;
      returned = unfold remove in (rw (no, some_in, pop-some bag.head pos));
      valid = record {
        room = omega (arith, v.room);
        full = v.full;
        counted = unfold chain_length in v.counted;
        ends = EndsAt-same bag.tail bag.head (popped bag.head) bag.rest refl v.ends;
      };
      moved = λ p. omega (arith, copies-popped p bag.head pos);
    }

remove-behind :
    (h b : Block) (bs : List Block) (t n : ℕ) (pool : BlockPool)
    → IsValid (record { head = h; rest = b ∷ bs; tail = t; size_in_blocks = n })
    → is_empty h ≡ true
    → Removal (record { head = h; rest = b ∷ bs; tail = t; size_in_blocks = n }) pool
remove-behind h b bs t n pool v none_in =
    let zero_in : h.size ≡ 0 = ground arith in
    let pos : 0 < b.size = omega (arith, v.full.0) in
    let (pool', e) = deallocate_block-some h pool zero_in in
    record {
      obj = top b;
      after = record { head = popped b; rest = bs; tail = t; size_in_blocks = n - 1 };
      pool_after = pool';
      returned = unfold remove remove_next in (rw (none_in, pop-some b pos, e));
      valid = record {
        room = omega (arith, v.full.0);
        full = v.full.1;
        counted = unfold chain_length in (omega (arith, v.counted));
        ends = EndsAt-same t b (popped b) bs refl (EndsAt-tail t h b bs v.ends);
      };
      moved = λ p. omega (arith, copies-popped p b pos, copies-empty p h zero_in);
    }

-- Removing from a valid bag that is not empty returns an object; the bag stays valid, and held one
-- copy more of this object and as many as now of every other.
pub remove-IsValid :
    (bag : Bag) (pool : BlockPool) → IsValid bag → bag_is_empty bag ≡ false → Removal bag pool
remove-IsValid bag pool v some_in = elim (Bool-cases (is_empty bag.head)) [
  | inr holds ↦ remove-head bag pool v holds
  | inl none_in ↦
      by_cases bag.head bag.rest bag.tail bag.size_in_blocks v none_in (rw none_in at some_in)
]
  where
    by_cases :
        (h : Block) (bs : List Block) (t n : ℕ)
        → IsValid (record { head = h; rest = bs; tail = t; size_in_blocks = n })
        → is_empty h ≡ true
        → (is_nil bs && true) ≡ false
        → Removal (record { head = h; rest = bs; tail = t; size_in_blocks = n }) pool
    by_cases h [] t n v none_in some_in = absurd (cc)
    by_cases h (b ∷ bs) t n v none_in some_in = remove-behind h b bs t n pool v none_in

top-pushed : (obj : ℕ) (b : Block) → top (pushed obj b) ≡ obj
top-pushed obj b = let e : suc b.size - 1 ≡ b.size = omega arith in rw (e, ==_refl b.size)

-- An object that is added to a valid bag (whose last block is not the one that the pool would
-- allocate) is the one that a removal straight after it returns.
pub remove-add :
    (raw : Block) (obj : ℕ) (bag : Bag) (pool : BlockPool)
    → IsValid bag
    → (allocate_block raw pool).0.addr ≢ bag.tail
    → (after last : Bag) × (pool1 pool2 : BlockPool) × (add raw obj bag pool ≡ some (after, pool1))
      × (remove after pool1 ≡ some (obj, last, pool2))
remove-add raw obj bag pool v fresh =
    let h = pushed obj bag.head in
    let returned = add-head raw obj bag pool v.room in
    let got = top-pushed obj bag.head in
    let pos : 0 < h.size = omega arith in
    let holds : is_empty h ≡ false = ground arith in
    elim (Bool-cases (is_full h)) [
      | inr room ↦
          let no : bag_is_empty (record bag { head = h }) ≡ false = ground arith in
          (
            record bag { head = h },
            record bag { head = popped h },
            pool,
            pool,
            unfold add_head in (rw room at returned),
            unfold remove in (rw (no, holds, pop-some h pos, got)),
          )
      | inl full ↦
          let nb = (allocate_block raw pool).0 in
          let pool1 = (allocate_block raw pool).1 in
          let zero_in = allocate_block-empty raw pool in
          let yes : is_empty nb ≡ true = ground arith in
          let (pool2, freed) = deallocate_block-some nb pool1 zero_in in
          let n = bag.size_in_blocks + 1 in
          (
            record bag { head = nb; rest = h ∷ bag.rest; size_in_blocks = n },
            record bag { head = popped h; size_in_blocks = n - 1 },
            pool1,
            pool2,
            unfold add_head in (rw full at returned),
            unfold remove remove_next in (rw (yes, pop-some h pos, freed, got)),
          )
    ]

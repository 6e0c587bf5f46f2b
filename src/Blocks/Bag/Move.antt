-- ===== src/Blocks/Bag/Move.antt =====
-- The operations that move whole blocks between bags.
use pop_setbench.Base.{ℕ, ◌+◌, ◌≡◌, refl, List, [], ◌∷◌, ◌++◌, arith, true, Option, none, some}
use pop_setbench.Blocks.Block.{Block, block_size, is_full, copies}
use pop_setbench.Blocks.Bag.{
  Bag, add_full_block, remove_full_block, append_move_full_blocks, chain_length,
}
use pop_setbench.Blocks.Bag.Valid.{
  EndsAt, Absent, IsValid, bag_copies, chain_copies-append, chain_length-append, AllFull-append,
  EndsAt-append, relinked-append,
}

-- A full block that is not in the chain is appended: the bag is valid and holds its objects too.
pub add_full_block-IsValid :
    (b : Block) (bag : Bag)
    → IsValid bag
    → b.size ≡ block_size
    → Absent b.addr (bag.head ∷ bag.rest)
    → (after : Bag) × (add_full_block b bag ≡ some after)
      × IsValid after
      × ((p : ℕ) → bag_copies p after ≡ bag_copies p bag + copies p b)
add_full_block-IsValid b bag v full new =
    let linked = relinked-append (b ∷ []) bag v.ends in
    let after = record bag {
      rest = bag.rest ++ b ∷ [];
      tail = b.addr;
      size_in_blocks = bag.size_in_blocks + 1;
    } in
    let yes : is_full b ≡ true = ground arith in
    (
      after,
      unfold add_full_block in (rw (yes, linked)),
      record {
        room = v.room;
        full = AllFull-append bag.rest (b ∷ []) v.full (full, tt);
        counted =
            unfold chain_length in
            (omega (arith, v.counted, chain_length-append bag.rest (b ∷ [])));
        ends = EndsAt-append b.addr (bag.head ∷ bag.rest) (b ∷ []) new refl;
      },
      λ p. omega (arith, chain_copies-append p bag.rest (b ∷ [])),
    )

abbrev pub FullTaken : Option Block → Type 0
FullTaken none = Unit {0}
FullTaken (some b) = b.size ≡ block_size

abbrev pub taken_copies : ℕ → Option Block → ℕ
taken_copies p none = 0
taken_copies p (some b) = copies p b

-- What `remove_full_block` returns and leaves: a full block and a valid bag, or nothing and the bag.
pub record BlockRemoval (bag : Bag) (after : Bag) (taken : Option Block) : Type 0 where
  pub valid : IsValid after
  pub full : FullTaken taken
  pub moved : (p : ℕ) → bag_copies p bag ≡ bag_copies p after + taken_copies p taken

-- Taking a block from a valid bag leaves a valid bag; the block, if there is one, is full, and
-- together they hold what the bag held.
pub remove_full_block-IsValid :
    (bag : Bag) → IsValid bag → BlockRemoval bag (remove_full_block bag).1 (remove_full_block bag).0
unfolding remove_full_block chain_length
remove_full_block-IsValid bag v = by_cases bag.head bag.rest bag.tail bag.size_in_blocks v
  where
    by_cases :
        (h : Block) (bs : List Block) (t n : ℕ)
        → IsValid (record { head = h; rest = bs; tail = t; size_in_blocks = n })
        → BlockRemoval
            (record { head = h; rest = bs; tail = t; size_in_blocks = n })
            (remove_full_block (record { head = h; rest = bs; tail = t; size_in_blocks = n })).1
            (remove_full_block (record { head = h; rest = bs; tail = t; size_in_blocks = n })).0
    by_cases h [] t n v = record { valid = v; full = tt; moved = λ p. omega arith }
    by_cases h (b ∷ []) t n v = record { valid = v; full = tt; moved = λ p. omega arith }
    by_cases h (b ∷ c ∷ bs) t n v = record {
      valid = record {
        room = v.room;
        full = v.full.1;
        counted = omega (arith, v.counted);
        ends = (v.ends.0, v.ends.1.1);
      };
      full = v.full.0;
      moved = λ p. omega arith;
    }

EndsAt-behind : (t : ℕ) (h b : Block) (bs : List Block) → EndsAt t (h ∷ b ∷ bs) → EndsAt t (b ∷ bs)
EndsAt-behind t h b bs e = e.1

-- What stands after `append_move_full_blocks`: both bags valid, and every block behind the head of
-- the other one moved.
pub record BlocksMoved (bag other : Bag) : Type 0 where
  pub after : Bag
  pub left : Bag
  pub returned : append_move_full_blocks bag other ≡ some (after, left)
  pub valid : IsValid after
  pub left_valid : IsValid left
  pub only_head : (p : ℕ) → bag_copies p left ≡ copies p other.head
  pub moved :
      (p : ℕ) → bag_copies p after + bag_copies p left ≡ bag_copies p bag + bag_copies p other

-- Moving the full blocks of one valid bag to another, which does not hold the last block of the
-- first, does not fail; both are valid afterwards, the first keeps its head block only, and together
-- they hold what they held.
pub append_move_full_blocks-IsValid :
    (bag other : Bag)
    → IsValid bag
    → IsValid other
    → Absent other.tail (bag.head ∷ bag.rest)
    → BlocksMoved bag other
unfolding append_move_full_blocks
append_move_full_blocks-IsValid bag other v w apart =
    by_cases other.head other.rest other.tail other.size_in_blocks w apart
  where
    by_cases :
        (h : Block) (bs : List Block) (t n : ℕ)
        → IsValid (record { head = h; rest = bs; tail = t; size_in_blocks = n })
        → Absent t (bag.head ∷ bag.rest)
        → BlocksMoved bag (record { head = h; rest = bs; tail = t; size_in_blocks = n })
    by_cases h [] t n w apart = record {
      after = bag;
      left = record { head = h; rest = []; tail = t; size_in_blocks = n };
      returned = refl;
      valid = v;
      left_valid = w;
      only_head = λ p. omega arith;
      moved = λ p. omega arith;
    }
    by_cases h (b ∷ bs) t n w apart =
        let linked = relinked-append (b ∷ bs) bag v.ends in
        let yes : is_full b ≡ true = ground (arith, w.full.0) in
        let chain = bag.rest ++ b ∷ bs in
        record {
          after = record {
            head = bag.head;
            rest = chain;
            tail = t;
            size_in_blocks = chain_length (bag.head ∷ chain);
          };
          left = record {
            head = h;
            rest = [];
            tail = h.addr;
            size_in_blocks = chain_length (h ∷ []);
          };
          returned = rw (yes, linked);
          valid = record {
            room = v.room;
            full = AllFull-append bag.rest (b ∷ bs) v.full w.full;
            counted = refl;
            ends =
                EndsAt-append t (bag.head ∷ bag.rest) (b ∷ bs) apart
                  (EndsAt-behind t h b bs w.ends);
          };
          left_valid = record { room = w.room; full = tt; counted = refl; ends = refl };
          only_head = λ p. omega arith;
          moved = λ p. omega (arith, chain_copies-append p bag.rest (b ∷ bs));
        }

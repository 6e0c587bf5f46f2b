-- ===== src/Blocks/Bag/Valid.antt =====
-- The invariant of a bag, what it holds, and its size.
use pop_setbench.Base.{
  ℕ, ◌+◌, ◌*◌, ◌<◌, ◌≡◌, ◌≢◌, List, [], ◌∷◌, ◌++◌, arith, ◌==◌, if◌then◌else◌, false,
}
use pop_setbench.Blocks.Block.{Block, block_size, copies}
use pop_setbench.Blocks.Bag.{
  Bag, chain_length, link_after, relinked, sum_sizes, compute_size, compute_size_fast,
}

abbrev pub AllFull : List Block → Type 0
AllFull [] = Unit {0}
AllFull (b ∷ bs) = (b.size ≡ block_size) × AllFull bs

-- The last block of the chain is the one at address `t`, and no other.
abbrev pub EndsAt : ℕ → List Block → Type 0
EndsAt t [] = ⊥
EndsAt t (b ∷ []) = b.addr ≡ t
EndsAt t (b ∷ c ∷ bs) = (b.addr ≢ t) × EndsAt t (c ∷ bs)

-- No block of the chain is at address `t`.
abbrev pub Absent : ℕ → List Block → Type 0
Absent t [] = Unit {0}
Absent t (b ∷ bs) = (b.addr ≢ t) × Absent t bs

-- The invariants that `validate` and the comment at the class list.
pub record IsValid (bag : Bag) : Type 0 where
  pub room : bag.head.size < block_size
  pub full : AllFull bag.rest
  pub counted : bag.size_in_blocks ≡ chain_length (bag.head ∷ bag.rest)
  pub ends : EndsAt bag.tail (bag.head ∷ bag.rest)

-- How often the object `p` stands in the blocks.
abbrev pub chain_copies : ℕ → List Block → ℕ
chain_copies p [] = 0
chain_copies p (b ∷ bs) = copies p b + chain_copies p bs

abbrev pub bag_copies : ℕ → Bag → ℕ
bag_copies p bag = chain_copies p (bag.head ∷ bag.rest)

pub chain_copies-append :
    (p : ℕ) (xs ys : List Block) → chain_copies p (xs ++ ys) ≡ chain_copies p xs + chain_copies p ys
chain_copies-append p [] ys = omega arith
chain_copies-append p (x ∷ xs) ys = omega (arith, chain_copies-append p xs ys)

pub chain_length-append :
    (xs ys : List Block) → chain_length (xs ++ ys) ≡ chain_length xs + chain_length ys
unfolding chain_length
chain_length-append [] ys = omega arith
chain_length-append (x ∷ xs) ys = omega (arith, chain_length-append xs ys)

pub AllFull-append : (xs ys : List Block) → AllFull xs → AllFull ys → AllFull (xs ++ ys)
AllFull-append [] ys fx fy = fy
AllFull-append (x ∷ xs) ys fx fy = (fx.0, AllFull-append xs ys fx.1 fy)

-- A chain that does not hold the block at `t` before its new end.
pub EndsAt-append : (t : ℕ) (xs ys : List Block) → Absent t xs → EndsAt t ys → EndsAt t (xs ++ ys)
EndsAt-append t [] ys out e = e
EndsAt-append t (x ∷ []) [] out e = absurd e
EndsAt-append t (x ∷ []) (y ∷ ys) out e = (out.0, e)
EndsAt-append t (x ∷ z ∷ xs) ys out e = (out.0, EndsAt-append t (z ∷ xs) ys out.1 e)

link_after_end :
    (t : ℕ) (new_next bs : List Block) → EndsAt t bs → link_after t new_next bs ≡ bs ++ new_next
unfolding link_after
link_after_end t new_next [] e = absurd e
link_after_end t new_next (b ∷ []) e = ground arith
link_after_end t new_next (b ∷ c ∷ bs) e =
    let no : (b.addr == t) ≡ false = ground (arith, e.0) in
    rw (no, link_after_end t new_next (c ∷ bs) e.1)

-- A write to `tail->next` appends to the chain.
pub relinked-append :
    (new_next : List Block) (bag : Bag)
    → EndsAt bag.tail (bag.head ∷ bag.rest)
    → relinked bag.tail new_next bag ≡ bag.rest ++ new_next
relinked-append new_next bag e = by_cases bag.head bag.rest e
  where
    by_cases :
        (h : Block) (bs : List Block)
        → EndsAt bag.tail (h ∷ bs)
        → (if h.addr == bag.tail then new_next else link_after bag.tail new_next bs)
          ≡ bs ++ new_next
    by_cases h [] e = ground arith
    by_cases h (c ∷ bs) e =
        let no : (h.addr == bag.tail) ≡ false = ground (arith, e.0) in
        rw (no, link_after_end bag.tail new_next (c ∷ bs) e.1)

sum_sizes-full : (bs : List Block) → AllFull bs → sum_sizes bs ≡ chain_length bs * block_size
unfolding sum_sizes chain_length
sum_sizes-full [] f = omega arith
sum_sizes-full (b ∷ bs) f = omega (arith, f.0, sum_sizes-full bs f.1)

-- In a valid bag the size that computeSizeFast reads off the number of blocks is the sum of the
-- sizes of all blocks, which computeSize adds up.
pub compute_size_fast-exact : (bag : Bag) → IsValid bag → compute_size_fast bag ≡ compute_size bag
unfolding sum_sizes chain_length
compute_size_fast-exact bag v = omega (arith, v.counted, sum_sizes-full bag.rest v.full)

-- ===== src/Ds/HmList/Contents.antt =====
-- The keys and values that a list holds, and what each write to memory does to them.
use pop_setbench.Base.{
  ℕ, suc, ◌%◌, ◌<◌, ◌≡◌, ◌≢◌, sym, ap, subst, ◌∙◌, inl, inr, arith, false, ◌==◌, ◌↔◌,
}
use pop_setbench.Ds.HmList.{get_ptr, Config, Memory}
use pop_setbench.Ds.HmList.Paths.{Chain, Chain-between, Chain-past, Chain-rank, Chain-unique}
use pop_setbench.Ds.HmList.Shape.{Linked, rank, Shape}

-- The map holds `v` for `k`: a linked node that is not marked has them.
pub record Entry (m : Memory) (k v : ℕ) : Type 0 where
  pub node : ℕ
  pub is_linked : Linked m node
  pub is_node : node ≢ 0
  pub unmarked : m.link node % 2 ≡ 0
  pub has_key : m.key node ≡ k
  pub has_val : m.val node ≡ v

-- Two memories hold the same.
abbrev pub Same : Memory → Memory → Type 0
Same m m' = (k v : ℕ) → Entry m k v ↔ Entry m' k v

-- The key is in the map no more, or not yet.
abbrev pub Absent : Memory → ℕ → Type 0
Absent m k = (v : ℕ) → ¬ Entry m k v

-- The second memory holds `v` for `k`, for which the first holds nothing, and else the same.
pub record Adds (m m' : Memory) (k v : ℕ) : Type 0 where
  pub was_absent : Absent m k
  pub is_there : Entry m' k v
  pub keeps : (k' v' : ℕ) → k' ≢ k → Entry m k' v' ↔ Entry m' k' v'

-- The first memory holds `v` for `k`, for which the second holds nothing, and else the same.
pub record Takes (m m' : Memory) (k v : ℕ) : Type 0 where
  pub was_there : Entry m k v
  pub is_absent : Absent m' k
  pub keeps : (k' v' : ℕ) → k' ≢ k → Entry m k' v' ↔ Entry m' k' v'

-- Memories that agree at the linked nodes hold the same.
pub frame-Same :
    (m m' : Memory)
    → ((n : ℕ) → Linked m n → Linked m' n)
    → ((n : ℕ) → Linked m' n → Linked m n)
    → ((n : ℕ) → Linked m n → m.link n % 2 ≡ m'.link n % 2)
    → ((n : ℕ) → Linked m n → m.key n ≡ m'.key n)
    → ((n : ℕ) → Linked m n → m.val n ≡ m'.val n)
    → Same m m'
frame-Same m m' to from link key val k v = (
  λ e. record {
    node = e.node;
    is_linked = to e.node e.is_linked;
    is_node = e.is_node;
    unmarked = sym (link e.node e.is_linked) ∙ e.unmarked;
    has_key = sym (key e.node e.is_linked) ∙ e.has_key;
    has_val = sym (val e.node e.is_linked) ∙ e.has_val;
  },
  λ e.
      let l = from e.node e.is_linked in
      record {
        node = e.node;
        is_linked = l;
        is_node = e.is_node;
        unmarked = link e.node l ∙ e.unmarked;
        has_key = key e.node l ∙ e.has_key;
        has_val = val e.node l ∙ e.has_val;
      },
)

module _ (cf : Config) (m : Memory) (sh : Shape cf m) where
  -- At most one node that is not marked has a key.
  pub one_node :
      (a b : ℕ)
      → Linked m a
      → Linked m b
      → a ≢ 0
      → b ≢ 0
      → m.link a % 2 ≡ 0
      → m.link b % 2 ≡ 0
      → m.key a ≡ m.key b
      → a ≡ b
  one_node a b la lb za zb ua ub e =
      let a0 : (a == 0) ≡ false = ground (arith, za) in
      let b0 : (b == 0) ≡ false = ground (arith, zb) in
      let same : rank m a ≡ rank m b = rw (a0, b0) (ap suc e) in
      Chain-unique cf.tail (Linked m) (rank m) m.link sh.order 0 a b sh.root same (sh.reach a la ua)
        (sh.reach b lb ub)

  -- The map holds at most one value for a key.
  pub Entry-unique : (k v v' : ℕ) → Entry m k v → Entry m k v' → v ≡ v'
  Entry-unique k v v' e e' =
      let same : e.node ≡ e'.node =
        one_node e.node e'.node e.is_linked e'.is_linked e.is_node e'.is_node e.unmarked e'.unmarked
          (e.has_key ∙ sym e'.has_key) in
      sym e.has_val ∙ ap m.val same ∙ e'.has_val

  -- Between two neighbours of which the first is not marked there is no key.
  pub gap-Absent :
      (p c k : ℕ)
      → Linked m p
      → m.link p ≡ c
      → c % 2 ≡ 0
      → rank m p < suc k
      → suc k < rank m c
      → Absent m k
  gap-Absent p c k lp at ce low high v e =
      let n0 : (e.node == 0) ≡ false = let z = e.is_node in ground (arith, z) in
      let rk : rank m e.node ≡ suc k = rw n0 (ap suc e.has_key) in
      let q =
        Chain-between cf.tail (Linked m) (rank m) m.link sh.order 0 p e.node sh.root (omega arith)
          (sh.reach p lp (omega arith)) (sh.reach e.node e.is_linked e.unmarked) in
      let (pt, past) =
        Chain-past cf.tail (Linked m) (rank m) m.link sh.order p e.node (omega arith) q in
      let to_c : get_ptr (m.link p) ≡ c = omega arith in
      let lc : Linked m c = subst (Linked m) to_c (sh.order p lp pt).0 in
      let from_c : Chain cf.tail m.link e.node c = subst (Chain cf.tail m.link e.node) to_c past in
      elim (Chain-rank cf.tail (Linked m) (rank m) m.link sh.order e.node from_c lc) [
        | inl same ↦ omega (arith, rk, high, ap (rank m) same)
        | inr up ↦ omega (arith, rk, high, up)
      ]

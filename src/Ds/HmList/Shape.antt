-- ===== src/Ds/HmList/Shape.antt =====
-- The invariant of the nodes: the links lead upwards in the order of the keys, every node that is not
-- marked is on the way from the head, and what has been retired is on it no more.
pub mod Cut
pub mod Put
pub mod Frame
pub mod Outside
use pop_setbench.Base.{
  ℕ, suc, ◌+◌, ◌*◌, ◌/◌, ◌%◌, ◌≤◌, ◌<◌, ◌≡◌, ◌≢◌, ◌⊎◌, refl, sym, ap, subst, ◌∙◌, inl, inr, arith,
  true, false, ◌==◌, ==_iff, ==_refl, if◌then◌else◌, Bool-cases, update, In, Distinct, List, ◌∷◌,
  ℕ_discrete,
}
use pop_setbench.Ds.HmList.{
  get_ptr, Config, Status, unused, in_list, dropped, owned, Memory, writes, unlinks, links,
  new_node, drops,
}
use pop_setbench.Ds.HmList.Paths.{
  Chain, here, follow, Chain-fork, Chain-ext, Chain-snoc, Ordered, Chain-rank, Chain-end,
  Chain-between, Chain-unique, Chain-past, cut-Chain, uncut-Chain, put-Chain, unput-Chain,
  Chain-agree,
}

abbrev pub Linked : Memory → ℕ → Type 0
Linked m n = m.status n ≡ in_list

-- The order of the nodes; `&head` comes before them all.
abbrev pub rank_of : (ℕ → ℕ) → ℕ → ℕ
rank_of key n = if n == 0 then 0 else suc (key n)

abbrev pub rank : Memory → ℕ → ℕ
rank m = rank_of m.key

module _ (cf : Config) where
  -- The node is on the way from the head.
  abbrev pub Reached : Memory → ℕ → Type 0
  Reached m n = Chain cf.tail m.link n 0

  pub record Shape (m : Memory) : Type 0 where
    pub order : Ordered cf.tail (Linked m) (rank m) m.link
    pub even : (n : ℕ) → Linked m n → n % 2 ≡ 0
    pub root : Linked m 0
    pub tail_linked : Linked m cf.tail
    pub tail_node : cf.tail ≢ 0
    pub tail_last : m.link cf.tail ≡ 0
    pub tail_key : m.key cf.tail ≡ cf.key_max
    pub top : (n : ℕ) → Linked m n → m.key n ≤ cf.key_max
    pub reach : (n : ℕ) → Linked m n → m.link n % 2 ≡ 0 → Reached m n
    pub gone : (n : ℕ) → In n m.retired → Linked m n × (m.link n % 2 ≡ 1) × ¬ Reached m n
    pub once : Distinct m.retired

-- ===== src/Ds/LazyList/Words.antt =====
-- The memory of the lazy list in the words of the Harris-Michael list, where the mark is bit 0 of a
-- link: the invariant of the nodes and the map that they hold are those of that list.
use pop_setbench.Base.{
  ℕ, suc, ◌+◌, ◌%◌, ◌<◌, ◌≡◌, ◌≢◌, refl, sym, ap, subst, ◌∙◌, inl, inr, arith, true, false, Bool,
  ◌==◌, if◌then◌else◌, Bool-cases,
}
use pop_setbench.Ds.HmList.{get_ptr, Config, in_list}
use pop_setbench.Ds.HmList.Paths.{
  Chain, Chain-between, Chain-past, Chain-rank, Chain-snoc, Chain-unique,
}
use pop_setbench.Ds.HmList.Shape.{Linked, rank, Reached, Shape}
use pop_setbench.Ds.HmList.Threads.{Before, Node}
use pop_setbench.Ds.HmList.Contents.{Absent}
use pop_setbench.Ds.LazyList.{Memory}

abbrev pub bit : Bool → ℕ
bit b = if b then 1 else 0

abbrev pub words : Memory → pop_setbench.Ds.HmList.Memory
words m = record {
  link = λ n. m.next n + bit (m.marked n);
  key = m.key;
  val = m.val;
  status = m.status;
  retired = m.retired;
}

-- The word of an even link without and with the mark.
pub free_word : (m : Memory) (n : ℕ) → m.marked n ≡ false → (words m).link n ≡ m.next n
free_word m n f = rw f (omega arith)

pub marked_word : (m : Memory) (n : ℕ) → m.marked n ≡ true → (words m).link n ≡ m.next n + 1
marked_word m n f = rw f (omega arith)

pub even_free :
    (m : Memory) (n : ℕ) → m.next n % 2 ≡ 0 → (words m).link n % 2 ≡ 0 → m.marked n ≡ false
even_free m n e u = elim (Bool-cases (m.marked n)) [
  | inl y ↦ absurd (let h = marked_word m n y in omega (arith, h, e, u))
  | inr f ↦ f
]

module _ (cf : Config) where
  pub record Sound (m : Memory) : Type 0 where
    pub shape : Shape cf (words m)
    pub straight : (n : ℕ) → m.status n ≡ in_list → m.next n % 2 ≡ 0
    pub valued :
        (n : ℕ)
        → m.status n ≡ in_list
        → n ≢ 0
        → cf.key_min < m.key n
        → m.key n < cf.key_max
        → m.val n ≢ cf.no_value
    pub first : Before cf (words m) (suc cf.key_min) (m.next 0)
    pub first_node : m.next 0 ≢ 0

  -- The node stands in the list, marked or not, in front of `c` and with a lower key than `k`.
  pub record Met (m : Memory) (k c : ℕ) : Type 0 where
    pub node : ℕ
    pub before : Before cf (words m) k node
    pub reached : Reached cf (words m) node
    pub leads : m.next node ≡ c

  module _ (m : Memory) (so : Sound m) where
    pub to_next : (n : ℕ) → Linked (words m) n → get_ptr ((words m).link n) ≡ m.next n
    to_next n l =
        let e = so.straight n l in
        elim (Bool-cases (m.marked n)) [
          | inl y ↦ let h = marked_word m n y in omega (arith, h, e)
          | inr f ↦ let h = free_word m n f in omega (arith, h, e)
        ]

    pub onward :
        (n : ℕ)
        → Linked (words m) n
        → n ≢ cf.tail
        → Node cf (words m) (m.next n) × (rank (words m) n < rank (words m) (m.next n))
    onward n l nt =
        let (l', up) = so.shape.order n l nt in
        let up' = subst (λ x. rank (words m) n < rank (words m) x) (to_next n l) up in
        (
          (
            subst (Linked (words m)) (to_next n l) l',
            λ e. omega (arith, up', ap (rank (words m)) e),
          ),
          up',
        )

    pub unmarked-Reached :
        (n : ℕ) → Linked (words m) n → m.marked n ≡ false → Reached cf (words m) n
    unmarked-Reached n l f =
        let e = so.straight n l in
        let h = free_word m n f in so.shape.reach n l (omega (arith, e, h))

    pub node_rank : (n : ℕ) → n ≢ 0 → rank (words m) n ≡ suc (m.key n)
    node_rank n z = let f : (n == 0) ≡ false = ground (arith, z) in rw f refl

    -- What lies behind a node of the list.
    pub Met-Node : (k c : ℕ) → Met m k c → Node cf (words m) c
    Met-Node k c t = subst (Node cf (words m)) t.leads (onward t.node t.before.0 t.before.1).0

    pub Met-Reached : (k c : ℕ) → Met m k c → Reached cf (words m) c
    Met-Reached k c t =
        Chain-snoc cf.tail (words m).link t.node c t.before.1 (to_next t.node t.before.0 ∙ t.leads)
          t.reached

    -- Between a node with a lower key and the one behind it there is no key.
    pub Met-Absent : (k c : ℕ) → Met m k c → suc k < rank (words m) c → Absent (words m) k
    Met-Absent k c t high v e =
        let w = words m in
        let sh = so.shape in
        let rk : rank w e.node ≡ suc k = node_rank e.node e.is_node ∙ ap suc e.has_key in
        let low = t.before.2 in
        let q =
          Chain-between cf.tail (Linked w) (rank w) w.link sh.order 0 t.node e.node sh.root
            (omega (arith, low, rk)) t.reached (sh.reach e.node e.is_linked e.unmarked) in
        let past =
          (Chain-past cf.tail (Linked w) (rank w) w.link sh.order t.node e.node
            (omega (arith, low, rk)) q).1 in
        let from_c : Chain cf.tail w.link e.node c =
          subst (Chain cf.tail w.link e.node) (to_next t.node t.before.0 ∙ t.leads) past in
        elim (Chain-rank cf.tail (Linked w) (rank w) w.link sh.order e.node from_c
          (Met-Node k c t).0) [
            | inl same ↦ omega (arith, rk, high, ap (rank w) same)
            | inr up ↦ omega (arith, rk, high, up)
          ]

    -- The key of a marked node that is still in the list is gone.
    pub marked-Absent :
        (n : ℕ)
        → Node cf (words m) n
        → m.marked n ≡ true
        → Reached cf (words m) n
        → Absent (words m) (m.key n)
    marked-Absent n (l, z) mk on v e =
        let w = words m in
        let sh = so.shape in
        let same : n ≡ e.node =
          Chain-unique cf.tail (Linked w) (rank w) w.link sh.order 0 n e.node sh.root
            (node_rank n z ∙ ap suc (sym e.has_key) ∙ sym (node_rank e.node e.is_node)) on
            (sh.reach e.node e.is_linked e.unmarked) in
        let u = e.unmarked in
        let even = so.straight n l in
        let h = marked_word m n mk in omega (arith, h, even, u, ap w.link same)

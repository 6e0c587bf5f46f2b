-- ===== src/Ds/HmList/Shape/Frame.antt =====
-- Marking a node, and writes to nodes that are not linked, keep the invariant.
use pop_setbench.Base.{
  ℕ, suc, ◌+◌, ◌%◌, ◌<◌, ◌≡◌, ◌≢◌, sym, ap, subst, ◌∙◌, inl, inr, arith, false, ◌==◌, ==_iff,
  if◌then◌else◌, Bool-cases, update, In, Distinct,
}
use pop_setbench.Ds.HmList.{get_ptr, Config, Memory, writes}
use pop_setbench.Ds.HmList.Paths.{Chain, Chain-ext, Ordered, Chain-agree}
use pop_setbench.Ds.HmList.Shape.{Linked, rank, Reached, Shape}

module _ (cf : Config) where
  -- `m'` differs from `m` at nodes that are not linked.
  pub frame-Shape :
      (m m' : Memory)
      → ((n : ℕ) → Linked m n → Linked m' n)
      → ((n : ℕ) → Linked m' n → Linked m n)
      → ((n : ℕ) → Linked m n → m.link n ≡ m'.link n)
      → ((n : ℕ) → Linked m n → m.key n ≡ m'.key n)
      → m.retired ≡ m'.retired
      → Shape cf m
      → Shape cf m'
  frame-Shape m m' to from link key ret s = record {
    order = λ n l nt.
        let l0 = from n l in
        let (a, b) = order' n l0 nt in
        (to _ a, omega (arith, same_rank n l0, same_rank (get_ptr (m'.link n)) a, b));
    even = λ n l. s.even n (from n l);
    root = to 0 s.root;
    tail_linked = to cf.tail s.tail_linked;
    tail_node = s.tail_node;
    tail_last = sym (link cf.tail s.tail_linked) ∙ s.tail_last;
    tail_key = sym (key cf.tail s.tail_linked) ∙ s.tail_key;
    top = λ n l. let l0 = from n l in omega (arith, key n l0, s.top n l0);
    reach = λ n l unmarked.
        let l0 = from n l in
        Chain-agree cf.tail (Linked m) (rank m) m.link m'.link s.order link n
          (s.reach n l0 (rw (link n l0) unmarked)) s.root;
    gone = λ n h.
        let (l, odd, off) = s.gone n (subst (In n) (sym ret) h) in
        (to n l, rw (← link n l) odd, λ q. off (back n q));
    once = subst Distinct ret s.once;
  }
    where
      same_rank : (n : ℕ) → Linked m n → rank m n ≡ rank m' n
      same_rank n l = ap (λ k. if n == 0 then 0 else suc k) (key n l)

      order' : Ordered cf.tail (Linked m) (rank m) m'.link
      order' n l nt =
          let (a, b) = s.order n l nt in
          let e = link n l in
          (subst (λ x. Linked m (get_ptr x)) e a, subst (λ x. rank m n < rank m (get_ptr x)) e b)

      back : (n : ℕ) → Chain cf.tail m'.link n 0 → Reached cf m n
      back n q =
          Chain-agree cf.tail (Linked m) (rank m) m'.link m.link order' (λ x l. sym (link x l)) n q
            s.root

  -- Setting the mark of a node.
  pub mark-Shape :
      (c nx : ℕ) (m : Memory)
      → Shape cf m
      → Linked m c
      → c ≢ cf.tail
      → m.link c ≡ nx
      → nx % 2 ≡ 0
      → Shape cf (writes c (nx + 1) m)
  mark-Shape c nx m s l ct cn ne = record {
    order = λ n ln nt. rw (← same n) (s.order n ln nt);
    even = s.even;
    root = s.root;
    tail_linked = s.tail_linked;
    tail_node = s.tail_node;
    tail_last = let away : (c == cf.tail) ≡ false = ground arith in rw away s.tail_last;
    tail_key = s.tail_key;
    top = s.top;
    reach = λ n ln unmarked. Chain-ext cf.tail m.link g n same (
        s.reach n ln (elim (Bool-cases (c == n)) [
          | inl e ↦ absurd (let h : (nx + 1) % 2 ≡ 0 = rw e at unmarked in omega arith)
          | inr f ↦ rw f at unmarked
        ]));
    gone = λ n h.
        let (ln, odd, off) = s.gone n h in
        let away : (c == n) ≡ false = elim (Bool-cases (c == n)) [
          | inl e ↦ absurd (let e' : c ≡ n = (==_iff c n).0 e in omega (arith, ap m.link e'))
          | inr f ↦ f
        ] in
        (ln, rw away odd, λ q. off (Chain-ext cf.tail g m.link n (λ k. sym (same k)) q));
    once = s.once;
  }
    where
      g : ℕ → ℕ
      g = update m.link c (nx + 1)

      same : (n : ℕ) → get_ptr (m.link n) ≡ get_ptr (update m.link c (nx + 1) n)
      same n = elim (Bool-cases (c == n)) [
        | inl e ↦ let e' : c ≡ n = (==_iff c n).0 e in rw e (omega (arith, ap m.link e'))
        | inr f ↦ rw f
      ]

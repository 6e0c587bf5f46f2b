-- ===== src/Ds/HmList/Shape/Cut.antt =====
-- The swap that unlinks a marked node keeps the invariant.
use pop_setbench.Base.{
  ℕ, ◌+◌, ◌%◌, ◌<◌, ◌≡◌, ◌≢◌, ap, subst, inl, inr, arith, false, ◌==◌, ==_iff, ==_refl, Bool-cases,
  update, In, ◌∷◌,
}
use pop_setbench.Ds.HmList.{get_ptr, Config, Memory, unlinks}
use pop_setbench.Ds.HmList.Paths.{
  Chain, Chain-snoc, Ordered, Chain-rank, Chain-between, Chain-past, cut-Chain, uncut-Chain,
}
use pop_setbench.Ds.HmList.Shape.{Linked, rank, Reached, Shape}

module _ (cf : Config) where
  -- Cutting the marked node `c` out from behind `p`.
  module _ (p c nx : ℕ) (m : Memory) (s : Shape cf m) (lp : Linked m p) (pt : p ≢ cf.tail)
      (pc : m.link p ≡ c) (ce : c % 2 ≡ 0) (cn : m.link c ≡ nx + 1) (ne : nx % 2 ≡ 0) where
    to_c : get_ptr (m.link p) ≡ c
    to_c = omega arith

    to_nx : get_ptr (m.link c) ≡ nx
    to_nx = omega arith

    same_nx : get_ptr nx ≡ nx
    same_nx = omega arith

    lc : Linked m c
    lc = subst (Linked m) to_c (s.order p lp pt).0

    up : rank m p < rank m c
    up = subst (λ x. rank m p < rank m x) to_c (s.order p lp pt).1

    ct : c ≢ cf.tail
    ct e = let h : m.link c ≡ 0 = rw e s.tail_last in omega arith

    p_ne_c : (p == c) ≡ false
    p_ne_c = elim (Bool-cases (p == c)) [
      | inr f ↦ f
      | inl e ↦ absurd (let same : p ≡ c = (==_iff p c).0 e in omega (arith, ap (rank m) same, up))
    ]

    lnx : Linked m nx
    lnx = subst (Linked m) to_nx (s.order c lc ct).0

    up' : rank m c < rank m nx
    up' = subst (λ x. rank m c < rank m x) to_nx (s.order c lc ct).1

    cut-order : Ordered cf.tail (Linked m) (rank m) (update m.link p nx)
    cut-order n l nt = elim (Bool-cases (p == n)) [
      | inl here_p ↦
          let e : p ≡ n = (==_iff p n).0 here_p in
          rw (here_p, same_nx) (lnx, rw (← e) (omega (arith, up, up')))
      | inr away ↦ rw away (s.order n l nt)
    ]

    Reached-p : Reached cf m p
    Reached-p = s.reach p lp (omega arith)

    c_gone : ¬ Chain cf.tail (update m.link p nx) c 0
    c_gone q =
        let p_stays =
          cut-Chain cf.tail m.link p c nx to_c to_nx same_nx p
            (λ e. omega (arith, ap (rank m) e, up)) Reached-p in
        let g = update m.link p nx in
        let between =
          Chain-between cf.tail (Linked m) (rank m) g cut-order 0 p c s.root up p_stays q in
        let at_p : get_ptr (g p) ≡ nx = rw (==_refl p, same_nx) in
        let past =
          subst (Chain cf.tail g c) at_p
            (Chain-past cf.tail (Linked m) (rank m) g cut-order p c up between).1 in
        elim (Chain-rank cf.tail (Linked m) (rank m) g cut-order c past lnx) [
          | inl e ↦ omega (arith, ap (rank m) e, up')
          | inr above ↦ omega (arith, above, up')
        ]

    other_link : (n : ℕ) → m.link n % 2 ≡ 1 → update m.link p nx n ≡ m.link n
    other_link n odd = elim (Bool-cases (p == n)) [
      | inl e ↦ absurd (let same : p ≡ n = (==_iff p n).0 e in omega (arith, ap m.link same))
      | inr f ↦ rw f
    ]

    still_reached :
        (n : ℕ) → Linked m n → update m.link p nx n % 2 ≡ 0 → Chain cf.tail (update m.link p nx) n 0
    still_reached n l unmarked =
        let n_ne_c : n ≢ c =
          λ e. let h = other_link n (omega (arith, ap m.link e)) in omega (arith, ap m.link e) in
        let was : m.link n % 2 ≡ 0 = elim (Bool-cases (p == n)) [
          | inl e ↦ let same : p ≡ n = (==_iff p n).0 e in omega (arith, ap m.link same)
          | inr f ↦ rw f at unmarked
        ] in
        cut-Chain cf.tail m.link p c nx to_c to_nx same_nx n n_ne_c (s.reach n l was)

    still_gone :
        (n : ℕ)
        → In n (c ∷ m.retired)
        → Linked m n × (update m.link p nx n % 2 ≡ 1) × ¬ Chain cf.tail (update m.link p nx) n 0
    still_gone n (inl e) = rw e (lc, omega (arith, other_link c (omega arith)), c_gone)
    still_gone n (inr h) =
        let (l, odd, out) = s.gone n h in
        (
          l,
          omega (arith, other_link n odd),
          λ q. out (uncut-Chain cf.tail m.link p c nx to_c to_nx same_nx ct n q),
        )

    new : ¬ In c m.retired
    new h = (s.gone c h).2 (Chain-snoc cf.tail m.link p c pt to_c Reached-p)

    pub cut-Shape : Shape cf (unlinks p c nx m)
    unfolding unlinks
    cut-Shape = record {
      order = cut-order;
      even = s.even;
      root = s.root;
      tail_linked = s.tail_linked;
      tail_node = s.tail_node;
      tail_last = let away : (p == cf.tail) ≡ false = ground arith in rw away s.tail_last;
      tail_key = s.tail_key;
      top = s.top;
      reach = still_reached;
      gone = still_gone;
      once = (new, s.once);
    }

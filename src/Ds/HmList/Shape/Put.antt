-- ===== src/Ds/HmList/Shape/Put.antt =====
-- The swap that links a new node keeps the invariant.
use pop_setbench.Base.{
  ℕ, suc, ◌%◌, ◌≤◌, ◌<◌, ◌≡◌, ◌≢◌, ◌⊎◌, ap, subst, inl, inr, arith, false, ◌==◌, ==_iff, ==_refl,
  Bool-cases, update, In,
}
use pop_setbench.Ds.HmList.{get_ptr, Config, in_list, Memory, links}
use pop_setbench.Ds.HmList.Paths.{Chain, Chain-snoc, put-Chain, unput-Chain}
use pop_setbench.Ds.HmList.Shape.{Linked, rank, Shape}

module _ (cf : Config) where
  -- Putting the node `new` in between `p` and `c`.
  module _ (p c new : ℕ) (m : Memory) (s : Shape cf m) (lp : Linked m p) (pt : p ≢ cf.tail)
      (pc : m.link p ≡ c) (ce : c % 2 ≡ 0) (out : m.status new ≢ in_list) (cn : m.link new ≡ c)
      (even : new % 2 ≡ 0) (low : rank m p < rank m new) (high : rank m new < rank m c) where
    to_c : get_ptr (m.link p) ≡ c
    to_c = omega arith

    new_to_c : get_ptr (m.link new) ≡ c
    new_to_c = omega arith

    same_new : get_ptr new ≡ new
    same_new = omega arith

    lc : Linked m c
    lc = subst (Linked m) to_c (s.order p lp pt).0

    p_ne_new : p ≢ new
    p_ne_new e = out (rw e at lp)

    new_ne_tail : new ≢ cf.tail
    new_ne_tail e = out (rw e s.tail_linked)

    p_new : (p == new) ≡ false
    p_new = ground (arith, p_ne_new)

    abbrev L : ℕ → Type 0
    L n = update m.status new in_list n ≡ in_list

    old : (n : ℕ) → Linked m n → update m.status new in_list n ≡ in_list
    old n l = ground arith

    older : (n : ℕ) → update m.status new in_list n ≡ in_list → (new ≡ n) ⊎ Linked m n
    older n l = elim (Bool-cases (new == n)) [
      | inl e ↦ inl ((==_iff new n).0 e)
      | inr f ↦ inr (rw f at l)
    ]

    abbrev g : ℕ → ℕ
    g = update m.link p new

    put-order :
        (n : ℕ) → L n → n ≢ cf.tail → L (get_ptr (g n)) × (rank m n < rank m (get_ptr (g n)))
    put-order n l nt = elim (Bool-cases (p == n)) [
      | inl here_p ↦
          let e : p ≡ n = (==_iff p n).0 here_p in
          rw (here_p, same_new) (rw (==_refl new), rw (← e) low)
      | inr away ↦ elim (older n l) [
        | inl e ↦ rw (away, ← e, new_to_c) (old c lc, high)
        | inr l' ↦ let (a, b) = s.order n l' nt in rw away (old (get_ptr (m.link n)) a, b)
      ]
    ]

    put-even : (n : ℕ) → L n → n % 2 ≡ 0
    put-even n l = elim (older n l) [ inl e ↦ rw (← e) even | inr l' ↦ s.even n l' ]

    -- The key of the new node is below that of the node behind it.
    c_ne_0 : (c == 0) ≡ false
    c_ne_0 = elim (Bool-cases (c == 0)) [
      | inl e ↦ absurd (let h : rank m new < 0 = rw e at high in omega arith)
      | inr f ↦ f
    ]

    new_ne_0 : (new == 0) ≡ false
    new_ne_0 = elim (Bool-cases (new == 0)) [
      | inl e ↦ absurd (let h : rank m p < 0 = rw e at low in omega arith)
      | inr f ↦ f
    ]

    put-top : (n : ℕ) → L n → m.key n ≤ cf.key_max
    put-top n l = elim (older n l) [
      | inl e ↦
          let h : suc (m.key new) < rank m c = rw new_ne_0 at high in
          let h' : suc (m.key new) < suc (m.key c) = rw c_ne_0 at h in
          rw (← e) (omega (arith, h', s.top c lc))
      | inr l' ↦ s.top n l'
    ]

    put-reach : (n : ℕ) → L n → g n % 2 ≡ 0 → Chain cf.tail g n 0
    put-reach n l unmarked =
        let stays = λ (b : ℕ) (q : Chain cf.tail m.link b 0).
          put-Chain cf.tail m.link p c new to_c new_to_c same_new p_ne_new new_ne_tail b q in
        elim (older n l) [
          | inl e ↦
              let at_p : get_ptr (g p) ≡ n = rw (==_refl p, same_new) e in
              Chain-snoc cf.tail g p n pt at_p (stays p (s.reach p lp (omega arith)))
          | inr l' ↦ stays n (
              s.reach n l' (elim (Bool-cases (p == n)) [
                | inl e ↦ let same : p ≡ n = (==_iff p n).0 e in omega (arith, ap m.link same)
                | inr f ↦ rw f at unmarked
              ]))
        ]

    put-gone : (n : ℕ) → In n m.retired → L n × (g n % 2 ≡ 1) × ¬ Chain cf.tail g n 0
    put-gone n h =
        let (l, odd, off) = s.gone n h in
        let away : (p == n) ≡ false = elim (Bool-cases (p == n)) [
          | inl e ↦ absurd (let same : p ≡ n = (==_iff p n).0 e in omega (arith, ap m.link same))
          | inr f ↦ f
        ] in
        (
          old n l,
          rw away odd,
          λ q. off (
              unput-Chain cf.tail m.link p c new to_c new_to_c same_new p_ne_new n
                (λ e. out (rw e at l)) q),
        )

    pub put-Shape : Shape cf (links p new m)
    unfolding links
    put-Shape = record {
      order = put-order;
      even = put-even;
      root = old 0 s.root;
      tail_linked = old cf.tail s.tail_linked;
      tail_node = s.tail_node;
      tail_last = let away : (p == cf.tail) ≡ false = ground arith in rw away s.tail_last;
      tail_key = s.tail_key;
      top = put-top;
      reach = put-reach;
      gone = put-gone;
      once = s.once;
    }

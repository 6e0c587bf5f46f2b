-- ===== src/Ds/HmList/Paths.antt =====
-- Chains of links: what a path looks like after a node has been put into it or cut out of it.
use pop_setbench.Base.{
  ℕ, ◌<◌, ◌≡◌, ◌≢◌, ◌⊎◌, sym, ap, subst, ◌∙◌, inl, inr, arith, true, false, ◌==◌, ==_iff,
  Bool-cases, update,
}
use pop_setbench.Ds.HmList.{get_ptr}

-- From the second location the links lead to `b`; none is followed behind the tail `t`.
pub data Chain (t : ℕ) (f : ℕ → ℕ) (b : ℕ) : ℕ → Type 0 where
  here : {a : ℕ} → a ≡ b → Chain t f b a
  follow : {a : ℕ} → a ≢ t → Chain t f b (get_ptr (f a)) → Chain t f b a

module _ (t : ℕ) (f : ℕ → ℕ) where
  -- Two nodes on the way from one location: one of them lies behind the other.
  pub Chain-fork : (b c : ℕ) {a : ℕ} → Chain t f b a → Chain t f c a → Chain t f c b ⊎ Chain t f b c
  Chain-fork b c (here e) q = inl (rw e at q)
  Chain-fork b c (follow n p) (here e) = inr (rw e at (follow n p))
  Chain-fork b c (follow n p) (follow m q) = Chain-fork b c p q

  pub Chain-ext :
      (g : ℕ → ℕ) (b : ℕ)
      → ((n : ℕ) → get_ptr (f n) ≡ get_ptr (g n))
      → {a : ℕ} → Chain t f b a
      → Chain t g b a
  Chain-ext g b same (here e) = here e
  Chain-ext g b same (follow {a} n p) = follow n (rw (← same a) (Chain-ext g b same p))

  -- A path and one link more.
  pub Chain-snoc : (b c : ℕ) → b ≢ t → get_ptr (f b) ≡ c → {a : ℕ} → Chain t f b a → Chain t f c a
  Chain-snoc b c n e (here {a} s) = rw s (follow n (here e))
  Chain-snoc b c n e (follow m p) = follow m (Chain-snoc b c n e p)

-- Nodes for which `L` holds, ranked by `r`, and a link from each of them but the tail to another of
-- a higher rank.
module _ (t : ℕ) (L : ℕ → Type 0) (r : ℕ → ℕ) where
  abbrev pub Ordered : (ℕ → ℕ) → Type 0
  Ordered f = (n : ℕ) → L n → n ≢ t → L (get_ptr (f n)) × (r n < r (get_ptr (f n)))

  module _ (f : ℕ → ℕ) (o : Ordered f) where
    -- The rank grows along a path.
    pub Chain-rank : (b : ℕ) {a : ℕ} → Chain t f b a → L a → (a ≡ b) ⊎ (r a < r b)
    Chain-rank b (here e) l = inl e
    Chain-rank b (follow {a} n p) l = elim (Chain-rank b p (o a l n).0) [
      | inl e ↦ inr (rw (← e) (o a l n).1)
      | inr lt ↦ let up = (o a l n).1 in inr (omega arith)
    ]

    pub Chain-end : (b : ℕ) {a : ℕ} → Chain t f b a → L a → L b
    Chain-end b (here e) l = rw (← e) l
    Chain-end b (follow {a} n p) l = Chain-end b p (o a l n).0

    -- Of two nodes on the way from one location the one with the lower rank comes first.
    pub Chain-between :
        (a b c : ℕ) → L a → r b < r c → Chain t f b a → Chain t f c a → Chain t f c b
    Chain-between a b c l lt p q = elim (Chain-fork t f b c p q) [
      | inl s ↦ s
      | inr s ↦ elim (Chain-rank b s (Chain-end c q l)) [
        | inl e ↦ absurd (omega (arith, ap r e))
        | inr up ↦ absurd (omega arith)
      ]
    ]

    -- The rank tells the nodes on the way from one location apart.
    pub Chain-unique : (a b c : ℕ) → L a → r b ≡ r c → Chain t f b a → Chain t f c a → b ≡ c
    Chain-unique a b c l e p q = elim (Chain-fork t f b c p q) [
      | inl s ↦ elim (Chain-rank c s (Chain-end b p l)) [
        | inl e' ↦ e'
        | inr up ↦ absurd (omega arith)
      ]
      | inr s ↦ elim (Chain-rank b s (Chain-end c q l)) [
        | inl e' ↦ sym e'
        | inr up ↦ absurd (omega arith)
      ]
    ]

    -- The node behind `b` on the way to a node of a higher rank.
    pub Chain-past : (b c : ℕ) → r b < r c → Chain t f c b → (b ≢ t) × Chain t f c (get_ptr (f b))
    Chain-past b c lt (here e) = absurd (omega (arith, ap r e))
    Chain-past b c lt (follow n p) = (n, p)

-- Cutting out `c`, whose link goes on to `nx`: `p` is linked to `nx` from now on.
module _ (t : ℕ) (f : ℕ → ℕ) (p c nx : ℕ) (pc : get_ptr (f p) ≡ c) (cn : get_ptr (f c) ≡ nx)
    (even : get_ptr nx ≡ nx) where
  abbrev cut : ℕ → ℕ
  cut = update f p nx

  jump : (a : ℕ) → (p == a) ≡ true → get_ptr (cut a) ≡ get_ptr (f (get_ptr (f a)))
  jump a same =
      let e : p ≡ a = (==_iff p a).0 same in
      let to_c : get_ptr (f a) ≡ c = rw (← e) pc in rw (same, to_c, cn, even)

  stay : (a : ℕ) → (p == a) ≡ false → get_ptr (cut a) ≡ get_ptr (f a)
  stay a away = rw away

  -- Every node but `c` stays on the way.
  pub cut-Chain : (b : ℕ) → b ≢ c → {a : ℕ} → Chain t f b a → Chain t cut b a
  cut-Chain b other (here e) = here e
  cut-Chain b other (follow {a} n (here e)) = elim (Bool-cases (p == a)) [
    | inl same ↦
        let e' : p ≡ a = (==_iff p a).0 same in
        absurd (other (sym e ∙ ap (λ x. get_ptr (f x)) (sym e') ∙ pc))
    | inr away ↦ follow n (here (stay a away ∙ e))
  ]
  cut-Chain b other (follow {a} n (follow m q)) =
      let past = cut-Chain b other q in
      let next = cut-Chain b other (follow m q) in
      elim (Bool-cases (p == a)) [
        | inl same ↦ follow n (subst (Chain t cut b) (sym (jump a same)) past)
        | inr away ↦ follow n (subst (Chain t cut b) (sym (stay a away)) next)
      ]

  -- And no node comes on it.
  pub uncut-Chain : c ≢ t → (b : ℕ) → {a : ℕ} → Chain t cut b a → Chain t f b a
  uncut-Chain ct b (here e) = here e
  uncut-Chain ct b (follow {a} n q) =
      let rest = uncut-Chain ct b q in
      elim (Bool-cases (p == a)) [
        | inl same ↦
            let e : p ≡ a = (==_iff p a).0 same in
            let to_c : get_ptr (f a) ≡ c = rw (← e) pc in
            follow n (follow (rw to_c ct) (subst (Chain t f b) (jump a same) rest))
        | inr away ↦ follow n (subst (Chain t f b) (stay a away) rest)
      ]

-- Putting in `new`, whose link goes on to `c`, between `p` and `c`.
module _ (t : ℕ) (f : ℕ → ℕ) (p c new : ℕ) (pc : get_ptr (f p) ≡ c) (cn : get_ptr (f new) ≡ c)
    (even : get_ptr new ≡ new) (pn : p ≢ new) where
  abbrev put : ℕ → ℕ
  put = update f p new

  enter : (a : ℕ) → (p == a) ≡ true → get_ptr (put a) ≡ new
  enter a same = rw (same, even)

  keep : (a : ℕ) → (p == a) ≡ false → get_ptr (put a) ≡ get_ptr (f a)
  keep a away = rw away

  from_p : (a : ℕ) → (p == a) ≡ true → get_ptr (f a) ≡ c
  from_p a same = let e : p ≡ a = (==_iff p a).0 same in rw (← e) pc

  -- Every node stays on the way.
  pub put-Chain : new ≢ t → (b : ℕ) → {a : ℕ} → Chain t f b a → Chain t put b a
  put-Chain nt b (here e) = here e
  put-Chain nt b (follow {a} n q) =
      let rest = put-Chain nt b q in
      elim (Bool-cases (p == a)) [
        | inl same ↦
            let away : (p == new) ≡ false = ground arith in
            let from : get_ptr (put new) ≡ get_ptr (f a) =
              keep new away ∙ cn ∙ sym (from_p a same) in
            follow n (
              subst (Chain t put b) (sym (enter a same))
                (follow nt (subst (Chain t put b) (sym from) rest)))
        | inr away ↦ follow n (subst (Chain t put b) (sym (keep a away)) rest)
      ]

  -- And no node but the new one comes on it.
  pub unput-Chain : (b : ℕ) → b ≢ new → {a : ℕ} → Chain t put b a → Chain t f b a
  unput-Chain b other (here e) = here e
  unput-Chain b other (follow {a} n q) =
      let rest = unput-Chain b other q in
      elim (Bool-cases (p == a)) [
        | inl same ↦
            follow n
              (subst (Chain t f b) (cn ∙ sym (from_p a same)) (behind rest (enter a same) other))
        | inr away ↦ follow n (subst (Chain t f b) (keep a away) rest)
      ]
    where
      behind : {x : ℕ} → Chain t f b x → x ≡ new → b ≢ new → Chain t f b (get_ptr (f new))
      behind (here e) s ne = absurd (ne (sym e ∙ s))
      behind (follow m r) s ne = subst (λ x. Chain t f b (get_ptr (f x))) s r

-- Chains whose links agree at the nodes for which `L` holds.
pub Chain-agree :
    (t : ℕ) (L : ℕ → Type 0) (r : ℕ → ℕ) (f g : ℕ → ℕ)
    → Ordered t L r f
    → ((n : ℕ) → L n → f n ≡ g n)
    → (b : ℕ) → {a : ℕ} → Chain t f b a
    → L a
    → Chain t g b a
Chain-agree t L r f g o same b (here e) l = here e
Chain-agree t L r f g o same b (follow {a} n p) l =
    follow n (
      subst (λ x. Chain t g b (get_ptr x)) (same a l)
        (Chain-agree t L r f g o same b p (o a l n).0))

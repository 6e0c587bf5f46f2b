-- ===== src/Ds/HmList/Runs/Start.antt =====
-- The constructor, and the invariant of a new list.
use pop_setbench.Base.{
  ℕ, suc, ◌%◌, ◌≡◌, ◌≢◌, ◌⊎◌, refl, sym, ap, ◌∙◌, inl, inr, arith, false, ◌==◌, ==_iff, ==_refl,
  Bool-cases, In, Distinct,
}
use pop_setbench.Ds.HmList.{get_ptr, Config, unused, in_list, Memory, create}
use pop_setbench.Ds.HmList.Paths.{here, follow}
use pop_setbench.Ds.HmList.Shape.{Linked, rank, Shape}
use pop_setbench.Ds.HmList.Threads.{rests_idle}
use pop_setbench.Ds.HmList.Runs.{Good, Fresh}

module _ (cf : Config) where
  -- Which nodes a new list has.
  pub three : (head n : ℕ) → Linked (create cf head).mem n → (n ≡ 0) ⊎ ((n ≡ head) ⊎ (n ≡ cf.tail))
  unfolding create
  three head n l = elim (Bool-cases (0 == n)) [
    | inl e ↦ inl (sym ((==_iff 0 n).0 e))
    | inr f ↦ elim (Bool-cases (head == n)) [
      | inl e ↦ inr (inl (sym ((==_iff head n).0 e)))
      | inr g ↦ elim (Bool-cases (cf.tail == n)) [
        | inl e ↦ inr (inr (sym ((==_iff cf.tail n).0 e)))
        | inr h ↦ absurd (let clash : unused ≡ in_list = rw (f, g, h) at l in cc)
      ]
    ]
  ]

  module _ (head : ℕ) (fr : Fresh cf head) where
    neq : (a b : ℕ) → a ≢ b → (a == b) ≡ false
    neq a b ne = ground (arith, ne)

    pub head_0 : (head == 0) ≡ false
    head_0 = neq head 0 fr.head_node

    tail_0 : (cf.tail == 0) ≡ false
    tail_0 = neq cf.tail 0 fr.tail_node

    zero_head : (0 == head) ≡ false
    zero_head = neq 0 head (λ e. fr.head_node (sym e))

    pub zero_tail : (0 == cf.tail) ≡ false
    zero_tail = neq 0 cf.tail (λ e. fr.tail_node (sym e))

    pub head_tail : (head == cf.tail) ≡ false
    head_tail = neq head cf.tail fr.two

    abbrev pub m0 : Memory
    m0 = (create cf head).mem

    link_0 : m0.link 0 ≡ head
    unfolding create
    link_0 = refl

    pub link_head : m0.link head ≡ cf.tail
    unfolding create
    link_head = rw (zero_head, ==_refl head) refl

    pub link_tail : m0.link cf.tail ≡ 0
    unfolding create
    link_tail = rw (zero_tail, head_tail) refl

    root : Linked m0 0
    unfolding create
    root = refl

    pub Linked-head : Linked m0 head
    unfolding create
    Linked-head = rw (zero_head, ==_refl head) refl

    pub Linked-tail : Linked m0 cf.tail
    unfolding create
    Linked-tail = rw (zero_tail, head_tail, ==_refl cf.tail) refl

    key_head : rank m0 head ≡ suc cf.key_min
    unfolding create
    key_head = rw (head_0, ==_refl head) refl

    key_0 : m0.key 0 ≡ 0
    unfolding create
    key_0 = rw (head_0, tail_0) refl

    key_first : m0.key head ≡ cf.key_min
    unfolding create
    key_first = rw (==_refl head) refl

    pub key_tail : m0.key cf.tail ≡ cf.key_max
    unfolding create
    key_tail = rw (head_tail, ==_refl cf.tail) refl

    rank_tail : rank m0 cf.tail ≡ suc cf.key_max
    rank_tail = rw tail_0 (ap suc key_tail)

    same : (n : ℕ) → n % 2 ≡ 0 → get_ptr n ≡ n
    same n e = omega (arith, e)

    to_head : get_ptr (m0.link 0) ≡ head
    to_head = rw link_0 (same head fr.head_even)

    to_tail : get_ptr (m0.link head) ≡ cf.tail
    to_tail = rw link_head (same cf.tail fr.tail_even)

    none : (n : ℕ) → ¬ In n m0.retired
    unfolding create
    none n h = h

    nothing : Distinct m0.retired
    unfolding create
    nothing = tt

    -- A new list is as the invariant wants it.
    pub create-Shape : Shape cf m0
    create-Shape = record {
      order = λ n l nt. elim (three head n l) [
        | inl e ↦ rw (e, to_head, key_head) (Linked-head, omega arith)
        | inr (inl e) ↦ rw (e, to_tail, key_head, rank_tail) (Linked-tail, omega (arith, fr.keys))
        | inr (inr e) ↦ absurd (nt e)
      ];
      even = λ n l. elim (three head n l) [
        | inl e ↦ rw e refl
        | inr (inl e) ↦ rw e fr.head_even
        | inr (inr e) ↦ rw e fr.tail_even
      ];
      root = root;
      tail_linked = Linked-tail;
      tail_node = fr.tail_node;
      tail_last = link_tail;
      tail_key = key_tail;
      top = λ n l. elim (three head n l) [
        | inl e ↦ rw (e, key_0) (omega arith)
        | inr (inl e) ↦ rw (e, key_first) (omega (arith, fr.keys))
        | inr (inr e) ↦ rw (e, key_tail) (omega arith)
      ];
      reach = λ n l un. elim (three head n l) [
        | inl e ↦ here (sym e)
        | inr (inl e) ↦ follow root_on (here (to_head ∙ sym e))
        | inr (inr e) ↦ follow root_on (rw to_head (follow fr.two (here (to_tail ∙ sym e))))
      ];
      gone = λ n h. absurd (none n h);
      once = nothing;
    }
      where
        root_on : 0 ≢ cf.tail
        root_on e = fr.tail_node (sym e)

    pub create-Valid : Good cf (create cf head)
    unfolding create
    create-Valid = record { shape = create-Shape; free = fr.head_even; fits = λ tid. rests_idle }

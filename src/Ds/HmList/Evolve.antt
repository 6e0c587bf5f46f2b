-- ===== src/Ds/HmList/Evolve.antt =====
-- What the steps of the list leave as it is in memory.
use pop_setbench.Base.{
  ℕ, ◌%◌, ◌≡◌, ◌≢◌, refl, sym, ap, ◌∙◌, inl, inr, arith, false, ◌==◌, ==_iff, Bool-cases, update,
}
use pop_setbench.Ds.HmList.{
  Status, unused, in_list, owned, Memory, writes, unlinks, links, new_node, drops,
}
use pop_setbench.Ds.HmList.Shape.{Linked}

-- A node that has been linked stays so, keeps its key and its value, and its `next` once that is
-- marked; a node keeps key and value from its allocation on.
pub record Evolves (m m' : Memory) : Type 0 where
  pub linked : (n : ℕ) → Linked m n → Linked m' n
  pub key : (n : ℕ) → m.status n ≢ unused → m.key n ≡ m'.key n
  pub val : (n : ℕ) → m.status n ≢ unused → m.val n ≡ m'.val n
  pub frozen : (n : ℕ) → Linked m n → m.link n % 2 ≡ 1 → m.link n ≡ m'.link n

-- The nodes that a thread has allocated and not linked are left alone.
abbrev pub Spares : ℕ → Memory → Memory → Type 0
Spares tid m m' =
    (n : ℕ) → m.status n ≡ owned tid → (m'.status n ≡ owned tid) × (m.link n ≡ m'.link n)

pub Linked-used : (m : Memory) (n : ℕ) → Linked m n → m.status n ≢ unused
Linked-used m n l e = let clash : in_list ≡ unused = sym l ∙ e in cc

pub owned-used : (m : Memory) (n tid : ℕ) → m.status n ≡ owned tid → m.status n ≢ unused
owned-used m n tid l e = let clash : owned tid ≡ unused = sym l ∙ e in cc

pub owned-out : (m : Memory) (n tid : ℕ) → m.status n ≡ owned tid → m.status n ≢ in_list
owned-out m n tid l e = let clash : owned tid ≡ in_list = sym l ∙ e in cc

pub unused-out : (m : Memory) (n : ℕ) → m.status n ≡ unused → m.status n ≢ in_list
unused-out m n l e = let clash : unused ≡ in_list = sym l ∙ e in cc

pub owned-one : (m : Memory) (n t t' : ℕ) → m.status n ≡ owned t → m.status n ≡ owned t' → t ≡ t'
owned-one m n t t' l e = let same : owned t ≡ owned t' = sym l ∙ e in cc

pub stays-Evolves : (m : Memory) → Evolves m m
stays-Evolves m = record {
  linked = λ n l. l;
  key = λ n l. refl;
  val = λ n l. refl;
  frozen = λ n l o. refl;
}

-- A swap of a word that is not marked.
pub unlinks-Evolves : (p c nx : ℕ) (m : Memory) → m.link p % 2 ≡ 0 → Evolves m (unlinks p c nx m)
unfolding unlinks
unlinks-Evolves p c nx m free = record {
  linked = λ n l. l;
  key = λ n l. refl;
  val = λ n l. refl;
  frozen = λ n l o. elim (Bool-cases (p == n)) [
    | inl e ↦ let same : p ≡ n = (==_iff p n).0 e in absurd (omega (arith, ap m.link same))
    | inr f ↦ rw f refl
  ];
}

pub writes-Evolves : (p w : ℕ) (m : Memory) → m.link p % 2 ≡ 0 → Evolves m (writes p w m)
writes-Evolves p w m free = record {
  linked = λ n l. l;
  key = λ n l. refl;
  val = λ n l. refl;
  frozen = λ n l o. elim (Bool-cases (p == n)) [
    | inl e ↦ let same : p ≡ n = (==_iff p n).0 e in absurd (omega (arith, ap m.link same))
    | inr f ↦ rw f refl
  ];
}

-- A write to a node that is not linked.
pub out-Evolves : (p w : ℕ) (m : Memory) → m.status p ≢ in_list → Evolves m (writes p w m)
out-Evolves p w m out = record {
  linked = λ n l. l;
  key = λ n l. refl;
  val = λ n l. refl;
  frozen = λ n l o. elim (Bool-cases (p == n)) [
    | inl e ↦ let same : p ≡ n = (==_iff p n).0 e in absurd (out (rw same l))
    | inr f ↦ rw f refl
  ];
}

pub links-Evolves : (p new : ℕ) (m : Memory) → m.link p % 2 ≡ 0 → Evolves m (links p new m)
unfolding links
links-Evolves p new m free = record {
  linked = λ n l. ground arith;
  key = λ n l. refl;
  val = λ n l. refl;
  frozen = λ n l o. elim (Bool-cases (p == n)) [
    | inl e ↦ let same : p ≡ n = (==_iff p n).0 e in absurd (omega (arith, ap m.link same))
    | inr f ↦ rw f refl
  ];
}

pub drops-Evolves : (new : ℕ) (m : Memory) → m.status new ≢ in_list → Evolves m (drops new m)
unfolding drops
drops-Evolves new m out = record {
  linked = λ n l. elim (Bool-cases (new == n)) [
    | inl e ↦ let same : new ≡ n = (==_iff new n).0 e in absurd (out (rw same l))
    | inr f ↦ rw f l
  ];
  key = λ n l. refl;
  val = λ n l. refl;
  frozen = λ n l o. refl;
}

pub new_node-Evolves :
    (tid a k v : ℕ) (m : Memory) → m.status a ≡ unused → Evolves m (new_node tid a k v m)
unfolding new_node
new_node-Evolves tid a k v m fresh = record {
  linked = λ n l. rw (other n (Linked-used m n l)) l;
  key = λ n l. rw (other n l) refl;
  val = λ n l. rw (other n l) refl;
  frozen = λ n l o. rw (other n (Linked-used m n l)) refl;
}
  where
    other : (n : ℕ) → m.status n ≢ unused → (a == n) ≡ false
    other n used = elim (Bool-cases (a == n)) [
      | inl e ↦ let same : a ≡ n = (==_iff a n).0 e in absurd (used (rw (← same) fresh))
      | inr f ↦ f
    ]

-- A write to a linked node spares the nodes of every thread.
pub link-Spares :
    (tid p w : ℕ) (m : Memory)
    → Linked m p
    → (n : ℕ) → m.status n ≡ owned tid
    → m.link n ≡ update m.link p w n
link-Spares tid p w m l n own = elim (Bool-cases (p == n)) [
  | inl e ↦ let same : p ≡ n = (==_iff p n).0 e in absurd (owned-out m n tid own (rw (← same) l))
  | inr f ↦ rw f refl
]

-- A write to a node of one thread spares those of the others.
pub own-Spares :
    (tid me p w : ℕ) (m : Memory)
    → tid ≢ me
    → m.status p ≡ owned me
    → (n : ℕ) → m.status n ≡ owned tid
    → m.link n ≡ update m.link p w n
own-Spares tid me p w m other l n own = elim (Bool-cases (p == n)) [
  | inl e ↦
      let same : p ≡ n = (==_iff p n).0 e in
      absurd (other (owned-one m n tid me own (rw (← same) l)))
  | inr f ↦ rw f refl
]

pub status-Spares :
    (tid me p : ℕ) (w : Status) (m : Memory)
    → tid ≢ me
    → m.status p ≡ owned me
    → (n : ℕ) → m.status n ≡ owned tid
    → update m.status p w n ≡ owned tid
status-Spares tid me p w m other l n own = elim (Bool-cases (p == n)) [
  | inl e ↦
      let same : p ≡ n = (==_iff p n).0 e in
      absurd (other (owned-one m n tid me own (rw (← same) l)))
  | inr f ↦ rw f own
]

pub new_node-Spares :
    (t tid a k v : ℕ) (m : Memory) → m.status a ≡ unused → Spares t m (new_node tid a k v m)
unfolding new_node
new_node-Spares t tid a k v m fresh n own = rw other (own, refl)
  where
    other : (a == n) ≡ false
    other = elim (Bool-cases (a == n)) [
      | inl e ↦
          let same : a ≡ n = (==_iff a n).0 e in absurd (owned-used m n t own (rw (← same) fresh))
      | inr f ↦ f
    ]

-- ===== src/Ds/LazyList/Change.antt =====
-- What one step of a thread can do to the memory of the lazy list, and what it leaves as it is.
pub mod Join
pub mod Keep
pub mod Preserve
use pop_setbench.Base.{
  ℕ, suc, ◌+◌, ◌%◌, ◌<◌, ◌≡◌, ◌≢◌, ◌⊎◌, refl, sym, ap, subst, ◌∙◌, inl, inr, arith, true, false,
  Bool, ◌==◌, ==_iff, if◌then◌else◌, Bool-cases, update,
}
use pop_setbench.Ds.HmList.{Config, unused, in_list}
use pop_setbench.Ds.HmList.Shape.{Linked, rank}
use pop_setbench.Ds.HmList.Threads.{Before, Node}
use pop_setbench.Ds.LazyList.{Memory, set_lock, joins, marks, cuts}
use pop_setbench.Ds.LazyList.Words.{words}

-- An address that is not given out is no linked node.
pub fresh_other :
    (m : Memory) (a n : ℕ) → m.status a ≡ unused → m.status n ≡ in_list → (a == n) ≡ false
fresh_other m a n fresh l = elim (Bool-cases (a == n)) [
  | inl e ↦
      let same : a ≡ n = (==_iff a n).0 e in
      absurd (let clash : unused ≡ in_list = sym fresh ∙ ap m.status same ∙ l in cc)
  | inr f ↦ f
]

module _ (cf : Config) (tid : ℕ) (m : Memory) where
  -- The node is the thread's, by its lock, and not marked; `curr` is behind it.
  pub record Owns (k pred curr : ℕ) : Type 0 where
    pub before : Before cf (words m) k pred
    pub is_node : pred ≢ 0
    pub held : m.lock pred ≡ suc tid
    pub unmarked : m.marked pred ≡ false
    pub leads : m.next pred ≡ curr

  pub data Change : Memory → Type 0 where
    same : Change m
    locks :
        (n w : ℕ)
        → (m.lock n ≡ 0) ⊎ (m.lock n ≡ suc tid)
        → (w ≡ 0) ⊎ (w ≡ suc tid)
        → Change (set_lock n w m)
    joining :
        (p c a k v : ℕ)
        → Owns k p c
        → suc k < rank (words m) c
        → m.status a ≡ unused
        → a % 2 ≡ 0
        → v ≢ cf.no_value
        → cf.key_min < k
        → Change (joins p c a k v m)
    marking :
        (c : ℕ)
        → Node cf (words m) c
        → c ≢ cf.tail
        → m.lock c ≡ suc tid
        → m.marked c ≡ false
        → Change (marks c m)
    cutting :
        (k p c nx : ℕ) → Owns k p c → m.marked c ≡ true → m.next c ≡ nx → Change (cuts p c nx m)

-- A linked node stays so, with its key and its value, and its `next` is written no more once it is
-- marked; the member `head` is written by the constructor only.
pub record Lasts (m m' : Memory) : Type 0 where
  pub linked : (n : ℕ) → Linked (words m) n → Linked (words m') n
  pub key : (n : ℕ) → Linked (words m) n → m.key n ≡ m'.key n
  pub val : (n : ℕ) → Linked (words m) n → m.val n ≡ m'.val n
  pub mark : (n : ℕ) → Linked (words m) n → m.marked n ≡ true → m'.marked n ≡ true
  pub frozen : (n : ℕ) → Linked (words m) n → m'.marked n ≡ true → m.next n ≡ m'.next n
  pub head : m.next 0 ≡ m'.next 0

-- The nodes that a thread has locked are left alone.
abbrev pub Guards : ℕ → Memory → Memory → Type 0
Guards t m m' =
    (n : ℕ)
    → Linked (words m) n
    → m.lock n ≡ suc t
    → (m'.lock n ≡ suc t) × (m.next n ≡ m'.next n) × (m.marked n ≡ m'.marked n)

module _ (cf : Config) (tid : ℕ) where
  pub Change-Lasts : (m m' : Memory) → m.status 0 ≡ in_list → Change cf tid m m' → Lasts m m'
  unfolding joins marks cuts
  Change-Lasts m _ root same = record {
    linked = λ n l. l;
    key = λ n l. refl;
    val = λ n l. refl;
    mark = λ n l e. e;
    frozen = λ n l e. refl;
    head = refl;
  }
  Change-Lasts m _ root (locks n w q r) = record {
    linked = λ n l. l;
    key = λ n l. refl;
    val = λ n l. refl;
    mark = λ n l e. e;
    frozen = λ n l e. refl;
    head = refl;
  }
  Change-Lasts m _ root (joining p c a k v o high fresh even nv low) = record {
    linked = λ n l. rw (fresh_other m a n fresh l) l;
    key = λ n l. rw (fresh_other m a n fresh l) refl;
    val = λ n l. rw (fresh_other m a n fresh l) refl;
    mark = λ n l e. rw (fresh_other m a n fresh l) e;
    frozen = λ n l e.
        let e' : m.marked n ≡ true = rw (fresh_other m a n fresh l) at e in
        elim (Bool-cases (p == n)) [
          | inl y ↦
              let clash : false ≡ true = sym o.unmarked ∙ ap m.marked ((==_iff p n).0 y) ∙ e' in
              absurd cc
          | inr f ↦ rw (f, fresh_other m a n fresh l) refl
        ];
    head =
        let z = o.is_node in
        let p0 : (p == 0) ≡ false = ground (arith, z) in rw (p0, fresh_other m a 0 fresh root) refl;
  }
  Change-Lasts m _ root (marking c nd nt h f) = record {
    linked = λ n l. l;
    key = λ n l. refl;
    val = λ n l. refl;
    mark = λ n l e. elim (Bool-cases (c == n)) [ inl y ↦ rw y refl | inr g ↦ rw g e ];
    frozen = λ n l e. refl;
    head = refl;
  }
  Change-Lasts m _ root (cutting k p c nx o mk at) = record {
    linked = λ n l. l;
    key = λ n l. refl;
    val = λ n l. refl;
    mark = λ n l e. e;
    frozen = λ n l e. elim (Bool-cases (p == n)) [
      | inl y ↦
          let clash : false ≡ true = sym o.unmarked ∙ ap m.marked ((==_iff p n).0 y) ∙ e in
          absurd cc
      | inr f ↦ rw f refl
    ];
    head = let z = o.is_node in let p0 : (p == 0) ≡ false = ground (arith, z) in rw p0 refl;
  }

  -- A node that this thread has locked is none that another has.
  foreign :
      (m : Memory) (t p n : ℕ)
      → t ≢ tid
      → (m.lock p ≡ 0) ⊎ (m.lock p ≡ suc tid)
      → m.lock n ≡ suc t
      → (p == n) ≡ false
  foreign m t p n other q h = elim (Bool-cases (p == n)) [
    | inl y ↦
        let e : m.lock p ≡ m.lock n = ap m.lock ((==_iff p n).0 y) in
        elim q [
          | inl z ↦ absurd (omega (arith, e, z, h))
          | inr mine ↦ absurd (other (omega (arith, e, mine, h)))
        ]
    | inr f ↦ f
  ]

  pub Change-Guards : (t : ℕ) (m m' : Memory) → t ≢ tid → Change cf tid m m' → Guards t m m'
  unfolding joins marks cuts
  Change-Guards t m _ other same n l h = (h, refl, refl)
  Change-Guards t m _ other (locks p w q r) n l h = rw (foreign m t p n other q h) (h, refl, refl)
  Change-Guards t m _ other (joining p c a k v o high fresh even nv low) n l h =
      rw (foreign m t p n other (inr o.held) h, fresh_other m a n fresh l) (h, refl, refl)
  Change-Guards t m _ other (marking c nd nt q f) n l h =
      rw (foreign m t c n other (inr q) h) (h, refl, refl)
  Change-Guards t m _ other (cutting k p c nx o mk at) n l h =
      rw (foreign m t p n other (inr o.held) h) (h, refl, refl)

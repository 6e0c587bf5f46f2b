-- ===== src/Ds/HmList/Effects.antt =====
-- What each write of the list does to the map: unlinking, allocating and handing back leave it as it
-- is, linking adds a key, and marking takes one away.
use pop_setbench.Base.{
  ℕ, suc, ◌%◌, ◌<◌, ◌≡◌, ◌≢◌, refl, sym, ap, subst, ◌∙◌, inl, inr, arith, false, ◌==◌, ==_iff,
  ==_refl, Bool-cases, update,
}
use pop_setbench.Ds.HmList.{
  Config, Status, in_list, dropped, owned, Memory, writes, new_node, unlinks, links, drops, set_mk,
}
use pop_setbench.Ds.HmList.Shape.{Linked, rank, Shape}
use pop_setbench.Ds.HmList.Shape.Outside.{apart}
use pop_setbench.Ds.HmList.Contents.{Same, Adds, Takes, frame-Same, one_node, gap-Absent}

pub Same-refl : (m : Memory) → Same m m
Same-refl m k v = (λ e. e, λ e. e)

pub unlinks-Same :
    (p c nx : ℕ) (m : Memory) → m.link p % 2 ≡ 0 → nx % 2 ≡ 0 → Same m (unlinks p c nx m)
unfolding unlinks
unlinks-Same p c nx m e ne =
    frame-Same m (unlinks p c nx m) (λ n l. l) (λ n l. l)
      (λ n l. elim (Bool-cases (p == n)) [
        | inl y ↦ let same : p ≡ n = (==_iff p n).0 y in rw y (omega (arith, ap m.link same))
        | inr f ↦ rw f refl
      ])
      (λ n l. refl) (λ n l. refl)

module _ (a : ℕ) (m : Memory) (out : m.status a ≢ in_list) where
  pub writes-Same : (w : ℕ) → Same m (writes a w m)
  writes-Same w =
      frame-Same m (writes a w m) (λ n l. l) (λ n l. l) (λ n l. rw (apart m a n out l) refl)
        (λ n l. refl) (λ n l. refl)

  still : (w : Status) → w ≢ in_list → (n : ℕ) → update m.status a w n ≡ in_list → Linked m n
  still w ne n l = elim (Bool-cases (a == n)) [
    | inl e ↦ absurd (ne (rw e at l))
    | inr f ↦ rw f at l
  ]

  pub drops-Same : Same m (drops a m)
  unfolding drops
  drops-Same =
      frame-Same m (drops a m) (λ n l. rw (apart m a n out l) l) (still dropped (λ e. cc))
        (λ n l. refl) (λ n l. refl) (λ n l. refl)

  pub new_node-Same : (tid k v : ℕ) → Same m (new_node tid a k v m)
  unfolding new_node
  new_node-Same tid k v =
      frame-Same m (new_node tid a k v m) (λ n l. rw (apart m a n out l) l)
        (still (owned tid) (λ e. cc)) (λ n l. rw (apart m a n out l) refl)
        (λ n l. rw (apart m a n out l) refl) (λ n l. rw (apart m a n out l) refl)

module _ (cf : Config) (m : Memory) (sh : Shape cf m) where
  -- Linking a node between two neighbours adds its key.
  links-Adds :
      (p c new : ℕ)
      → Linked m p
      → m.link p ≡ c
      → c % 2 ≡ 0
      → m.link new ≡ c
      → m.status new ≢ in_list
      → new % 2 ≡ 0
      → rank m p < suc (m.key new)
      → suc (m.key new) < rank m c
      → Adds m (links p new m) (m.key new) (m.val new)
  unfolding links
  links-Adds p c new lp at ce lk out ne low high = record {
    was_absent = gap-Absent cf m sh p c (m.key new) lp at ce low high;
    is_there = record {
      node = new;
      is_linked = rw (==_refl new) refl;
      is_node = λ e. out (rw e sh.root);
      unmarked = ground (arith, ne, ce, lk);
      has_key = refl;
      has_val = refl;
    };
    keeps = λ k v other. (
      λ e.
          let away : (new == e.node) ≡ false = apart m new e.node out e.is_linked in
          record {
            node = e.node;
            is_linked = rw away e.is_linked;
            is_node = e.is_node;
            unmarked = elim (Bool-cases (p == e.node)) [
              | inl y ↦ rw y ne
              | inr f ↦ rw f e.unmarked
            ];
            has_key = e.has_key;
            has_val = e.has_val;
          },
      λ e.
          let away : (new == e.node) ≡ false = elim (Bool-cases (new == e.node)) [
            | inl y ↦
                let same : new ≡ e.node = (==_iff new e.node).0 y in
                absurd (other (sym e.has_key ∙ ap m.key (sym same)))
            | inr f ↦ f
          ] in
          let l = e.is_linked in
          let u = e.unmarked in
          record {
            node = e.node;
            is_linked = rw away at l;
            is_node = e.is_node;
            unmarked = elim (Bool-cases (p == e.node)) [
              | inl y ↦
                  let same : p ≡ e.node = (==_iff p e.node).0 y in omega (arith, ap m.link same)
              | inr f ↦ rw f at u
            ];
            has_key = e.has_key;
            has_val = e.has_val;
          },
    );
  }

  -- Marking a node takes its key away.
  mark-Takes :
      (c w : ℕ)
      → Linked m c
      → c ≢ 0
      → m.link c % 2 ≡ 0
      → w % 2 ≡ 1
      → Takes m (writes c w m) (m.key c) (m.val c)
  mark-Takes c w l z free odd = record {
    was_there = record {
      node = c;
      is_linked = l;
      is_node = z;
      unmarked = free;
      has_key = refl;
      has_val = refl;
    };
    is_absent = λ v e. elim (Bool-cases (c == e.node)) [
      | inl y ↦ let u = e.unmarked in let h : w % 2 ≡ 0 = rw y at u in omega (arith, h, odd)
      | inr f ↦
          let u = e.unmarked in
          let u' : m.link e.node % 2 ≡ 0 = rw f at u in
          let same : c ≡ e.node =
            one_node cf m sh c e.node l e.is_linked z e.is_node free u' (sym e.has_key) in
          let ne : c ≢ e.node = ground (arith, f) in ne same
    ];
    keeps = λ k v other. (
      λ e.
          let away : (c == e.node) ≡ false = elim (Bool-cases (c == e.node)) [
            | inl y ↦
                let same : c ≡ e.node = (==_iff c e.node).0 y in
                absurd (other (sym e.has_key ∙ ap m.key (sym same)))
            | inr f ↦ f
          ] in
          record {
            node = e.node;
            is_linked = e.is_linked;
            is_node = e.is_node;
            unmarked = rw away e.unmarked;
            has_key = e.has_key;
            has_val = e.has_val;
          },
      λ e. record {
        node = e.node;
        is_linked = e.is_linked;
        is_node = e.is_node;
        unmarked = elim (Bool-cases (c == e.node)) [
          | inl y ↦ let same : c ≡ e.node = (==_iff c e.node).0 y in omega (arith, ap m.link same)
          | inr f ↦ let u = e.unmarked in rw f at u
        ];
        has_key = e.has_key;
        has_val = e.has_val;
      },
    );
  }

  -- The same for the key and the value of a call.
  pub linking-Adds :
      (p c new k v : ℕ)
      → Linked m p
      → m.link p ≡ c
      → c % 2 ≡ 0
      → m.link new ≡ c
      → m.status new ≢ in_list
      → new % 2 ≡ 0
      → m.key new ≡ k
      → m.val new ≡ v
      → rank m p < suc k
      → suc k < rank m c
      → Adds m (links p new m) k v
  linking-Adds p c new k v lp at ce lk out ne ky vl low high =
      subst (λ x. Adds m (links p new m) k x) vl
        (subst (λ x. Adds m (links p new m) x (m.val new)) ky
          (links-Adds p c new lp at ce lk out ne (omega (arith, ky, low))
            (omega (arith, ky, high))))

  pub marking-Takes :
      (c k nx : ℕ)
      → Linked m c
      → c ≢ 0
      → m.key c ≡ k
      → m.link c ≡ nx
      → nx % 2 ≡ 0
      → Takes m (writes c (set_mk nx) m) k (m.val c)
  marking-Takes c k nx l z ky at e =
      subst (λ x. Takes m (writes c (set_mk nx) m) x (m.val c)) ky
        (mark-Takes c (set_mk nx) l z (omega arith) (omega (arith, e)))

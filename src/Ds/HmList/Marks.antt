-- ===== src/Ds/HmList/Marks.antt =====
-- The marked nodes that are on the way behind a step: they were so before, or the step has marked one
-- of them.
use pop_setbench.Base.{
  ℕ, ◌+◌, ◌%◌, ◌<◌, ◌≡◌, ◌≢◌, ◌⊎◌, refl, sym, ap, subst, inl, inr, arith, true, false, Bool, ◌==◌,
  ==_iff, ==_refl, if◌then◌else◌, Bool-cases, update, leb,
}
use pop_setbench.Ds.HmList.{
  get_ptr, mix_ptr_mk, set_mk, Config, in_list, dropped, Memory, Caller, contains, erase, insert,
  cleanup, Pc, cutting, State, goes, writes, unlinks, links, drops, respond, act,
}
use pop_setbench.Ds.HmList.Paths.{Chain-ext, Chain-agree, Ordered, uncut-Chain, unput-Chain}
use pop_setbench.Ds.HmList.Shape.{Linked, rank, Reached, Shape}
use pop_setbench.Ds.HmList.Shape.Outside.{apart}
use pop_setbench.Ds.HmList.Evolve.{owned-out}
use pop_setbench.Ds.HmList.Threads.{
  Holds, Fits, rests_idle, rests_answered, rests_returned, seeks, stands, loads, checks, unlinks_it,
  stores, links_it, reads_val, marks, cuts,
}
use pop_setbench.Ds.HmList.Duty.{Duty, swaps}

module _ (cf : Config) where
  -- A node that is marked and on the way behind a step was so before, or the step has marked it.
  abbrev pub Old : Memory → Memory → ℕ → Type 0
  Old m m' n = Linked m n × (m.link n % 2 ≡ 1) × (Reached cf m' n → Reached cf m n)

  abbrev pub MarkedBy : ℕ → Memory → State → Type 0
  MarkedBy tid m s' =
      (n : ℕ) → Linked s'.mem n → s'.mem.link n % 2 ≡ 1 → Old m s'.mem n ⊎ Duty s'.mem n (s'.pc tid)

  -- Writes outside the list.
  pub outside :
      (m m' : Memory) (n : ℕ)
      → Shape cf m
      → ((x : ℕ) → Linked m x → m.link x ≡ m'.link x)
      → Linked m n
      → m'.link n % 2 ≡ 1
      → Old m m' n
  outside m m' n sh same l odd = (
    l,
    rw (same n l) odd,
    λ r.
        Chain-agree cf.tail (Linked m) (rank m) m'.link m.link (order' sh) (λ x lx. sym (same x lx))
          n r sh.root,
  )
    where
      order' : Shape cf m → Ordered cf.tail (Linked m) (rank m) m'.link
      order' sh' x lx nt =
          let (a, b) = sh'.order x lx nt in
          let e = same x lx in
          (subst (λ w. Linked m (get_ptr w)) e a, subst (λ w. rank m x < rank m (get_ptr w)) e b)

  -- The swap that unlinks, that which links, and that which marks.
  cut-Old :
      (p c nx : ℕ) (m : Memory)
      → Shape cf m
      → Linked m c
      → m.link p ≡ c
      → m.link c ≡ nx + 1
      → nx % 2 ≡ 0
      → (n : ℕ) → Linked m n
      → update m.link p nx n % 2 ≡ 1
      → Old m (unlinks p c nx m) n
  unfolding unlinks
  cut-Old p c nx m sh lc at mk e n l odd =
      let ce = sh.even c lc in
      let was : m.link n % 2 ≡ 1 = elim (Bool-cases (p == n)) [
        | inl y ↦ absurd (let h : nx % 2 ≡ 1 = rw y at odd in omega (arith, h, e))
        | inr f ↦ rw f at odd
      ] in
      let ct : c ≢ cf.tail = λ same. omega (arith, mk, ap m.link same, sh.tail_last) in
      (
        l,
        was,
        λ r.
            uncut-Chain cf.tail m.link p c nx (omega (arith, at, ce)) (omega (arith, mk, e))
              (omega (arith, e)) ct n r,
      )

  put-Old :
      (p c new : ℕ) (m : Memory)
      → Shape cf m
      → Linked m p
      → Linked m c
      → m.link p ≡ c
      → m.link new ≡ c
      → new % 2 ≡ 0
      → m.status new ≢ in_list
      → (n : ℕ) → update m.status new in_list n ≡ in_list
      → update m.link p new n % 2 ≡ 1
      → Old m (links p new m) n
  unfolding links
  put-Old p c new m sh lp lc at lk e out n l odd =
      let ce = sh.even c lc in
      let was : m.link n % 2 ≡ 1 = elim (Bool-cases (p == n)) [
        | inl y ↦ absurd (let h : new % 2 ≡ 1 = rw y at odd in omega (arith, h, e))
        | inr f ↦ rw f at odd
      ] in
      let off : (new == n) ≡ false = elim (Bool-cases (new == n)) [
        | inl y ↦ absurd (omega (arith, was, lk, ce, ap m.link ((==_iff new n).0 y)))
        | inr f ↦ f
      ] in
      let ne : n ≢ new = ground (arith, off) in
      let pn : p ≢ new = λ same. out (rw same at lp) in
      (
        rw off at l,
        was,
        λ r.
            unput-Chain cf.tail m.link p c new (omega (arith, at, ce)) (omega (arith, lk, ce))
              (omega (arith, e)) pn n ne r,
      )

  mark-Old :
      (c nx : ℕ) (m : Memory)
      → m.link c ≡ nx
      → nx % 2 ≡ 0
      → (n : ℕ) → (c == n) ≡ false
      → Linked m n
      → update m.link c (set_mk nx) n % 2 ≡ 1
      → Old m (writes c (set_mk nx) m) n
  mark-Old c nx m at e n off l odd = (
    l,
    rw off at odd,
    λ r.
        Chain-ext cf.tail (update m.link c (set_mk nx)) m.link n
          (λ x. elim (Bool-cases (c == x)) [
            | inl y ↦
                let same : c ≡ x = (==_iff c x).0 y in rw y (omega (arith, ap m.link same, at, e))
            | inr f ↦ rw f refl
          ])
          r,
  )

  module _ (tid : ℕ) where
    same_marks : (s : State) (p : Pc) → MarkedBy tid s.mem (goes tid p s)
    same_marks s p n l odd = inl (l, odd, λ r. r)

    either-Marked :
        (b : Bool) (m : Memory) (x y : State)
        → (b ≡ true → MarkedBy tid m x)
        → (b ≡ false → MarkedBy tid m y)
        → MarkedBy tid m (if b then x else y)
    either-Marked true m x y h g = h refl
    either-Marked false m x y h g = g refl

    respond-Marked :
        (c : Caller) (k : ℕ) (found : Bool) (p cu nx : ℕ) (s : State)
        → Shape cf s.mem
        → Holds s.mem tid c k
        → MarkedBy tid s.mem (respond cf tid c k found p cu nx s)
    unfolding respond drops
    respond-Marked contains k found p cu nx s sh h n l odd = inl (l, odd, λ r. r)
    respond-Marked erase k true p cu nx s sh h n l odd = inl (l, odd, λ r. r)
    respond-Marked erase k false p cu nx s sh h n l odd = inl (l, odd, λ r. r)
    respond-Marked (insert v a) k true p cu nx s sh h n l odd =
        let l' : Linked s.mem n = elim (Bool-cases (a == n)) [
          | inl y ↦ absurd (let clash : dropped ≡ in_list = rw y at l in cc)
          | inr f ↦ rw f at l
        ] in
        inl (l', odd, λ r. r)
    respond-Marked (insert v a) k false p cu nx s sh h n l odd = inl (l, odd, λ r. r)
    respond-Marked (cleanup res) k found p cu nx s sh h n l odd = inl (l, odd, λ r. r)

    pub act-Marked :
        (p : Pc) (s : State)
        → Shape cf s.mem
        → Fits cf s.mem tid p
        → MarkedBy tid s.mem (act cf tid p s)
    unfolding act unlinks links
    act-Marked _ s sh rests_idle = λ n l odd. inl (l, odd, λ r. r)
    act-Marked _ s sh (rests_answered b) = λ n l odd. inl (l, odd, λ r. r)
    act-Marked _ s sh (rests_returned v) = λ n l odd. inl (l, odd, λ r. r)
    act-Marked _ s sh (seeks c k lt h) = λ n l odd. inl (l, odd, λ r. r)
    act-Marked _ s sh (stands c k p cu lt h b nd) =
        either-Marked (cu == 0) s.mem _ _ (λ e. respond-Marked c k false p cu 0 s sh h)
          (λ e. same_marks s _)
    act-Marked _ s sh (loads c k p cu nx mk lt h b nd x mx) =
        either-Marked (mix_ptr_mk nx mk == s.mem.link cu) s.mem _ _ (λ e. same_marks s _)
          (λ e. same_marks s _)
    act-Marked _ s sh (checks c k p cu nx mk lt h b nd x mx) =
        either-Marked (s.mem.link p == cu) s.mem _ _
          (λ e.
            either-Marked mk s.mem _ _ (λ e'. same_marks s _)
              (λ e'.
                either-Marked (leb k (s.mem.key cu)) s.mem _ _
                  (λ e''. respond-Marked c k (s.mem.key cu == k) p cu nx s sh h)
                  (λ e''. same_marks s _)))
          (λ e. same_marks s _)
    act-Marked _ s sh (unlinks_it c k p cu nx lt h b nd x mx) =
        either-Marked (s.mem.link p == cu) s.mem _ _
          (λ y n l odd.
            inl (cut-Old p cu nx s.mem sh nd.0 ((==_iff (s.mem.link p) cu).0 y) mx x.0 n l odd))
          (λ e. same_marks s _)
    act-Marked _ s sh (stores k v a p cu lt h b nd high) = λ n l odd. inl (
        outside s.mem (writes a cu s.mem) n sh
          (λ x lx. rw (apart s.mem a x (owned-out s.mem a tid h.0) lx) refl) l odd)
    act-Marked _ s sh (links_it k v a p cu lt h b nd high lk) =
        either-Marked (s.mem.link p == cu) s.mem _ _
          (λ y n l odd. inl (
            put-Old p cu a s.mem sh b.0 nd.0 ((==_iff (s.mem.link p) cu).0 y) lk h.3
              (owned-out s.mem a tid h.0) n l odd))
          (λ e. same_marks s _)
    act-Marked _ s sh (reads_val cu nd) = same_marks s _
    act-Marked _ s sh (marks k p cu nx lt b nd ky e) =
        either-Marked (s.mem.link cu == nx) s.mem _ _
          (λ y n l odd. elim (Bool-cases (cu == n)) [
            | inl z ↦
                let same : cu ≡ n = (==_iff cu n).0 z in
                inr (
                  rw (==_refl tid) (
                    subst
                      (λ x. Duty (writes cu (set_mk nx) s.mem) x (cutting k p cu nx (s.mem.val cu)))
                      same (swaps k p nx (s.mem.val cu) ky)))
            | inr off ↦ inl (mark-Old cu nx s.mem ((==_iff (s.mem.link cu) nx).0 y) e n off l odd)
          ])
          (λ y. same_marks s _)
    act-Marked _ s sh (cuts k p cu nx res lt b nd e mk) =
        either-Marked (s.mem.link p == cu) s.mem _ _
          (λ y n l odd.
            inl (cut-Old p cu nx s.mem sh nd.0 ((==_iff (s.mem.link p) cu).0 y) mk e n l odd))
          (λ y. same_marks s _)

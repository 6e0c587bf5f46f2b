-- ===== src/Ds/HmList/Quiet.antt =====
-- The list when no thread is in an operation: which thread unlinks a marked node, and until when.
use pop_setbench.Base.{
  ℕ, ◌%◌, ◌≡◌, ◌≢◌, refl, sym, ap, subst, ◌∙◌, inl, inr, arith, true, false, ◌==◌, ==_iff,
  Bool-cases, update,
}
use pop_setbench.Ds.HmList.{
  Config, unused, in_list, owned, Memory, Pc, State, act, advance, create, call_contains,
  call_erase, call_insert, new_node,
}
use pop_setbench.Ds.HmList.Shape.{Linked, Reached, Shape}
use pop_setbench.Ds.HmList.Shape.Outside.{apart}
use pop_setbench.Ds.HmList.Evolve.{unused-out}
use pop_setbench.Ds.HmList.Keeps.{act-Keeps, act-others, new_node-keeps}
use pop_setbench.Ds.HmList.Runs.{
  rests, Step, advances, calls_contains, calls_erase, calls_insert, Run, done, further, Good,
  Run-Valid, Fresh,
}
use pop_setbench.Ds.HmList.Runs.Start.{create-Valid}
use pop_setbench.Ds.HmList.Duty.{
  Duty, swaps, starts_over, comes_by, looks_at, makes_sure, helps, Duty-on, own-Duty,
}
use pop_setbench.Ds.HmList.Marks.{Old, outside, act-Marked}

module _ (cf : Config) where
  -- Each marked node on the way has a thread with the duty to unlink it.
  abbrev Attended : State → Type 0
  Attended s =
      (n : ℕ)
      → Linked s.mem n
      → s.mem.link n % 2 ≡ 1
      → Reached cf s.mem n
      → (tid : ℕ) × Duty s.mem n (s.pc tid)

  new-Old :
      (tid w a k : ℕ) (m : Memory)
      → Shape cf m
      → m.status a ≡ unused
      → (n : ℕ) → Linked (new_node tid a k w m) n
      → (new_node tid a k w m).link n % 2 ≡ 1
      → Old cf m (new_node tid a k w m) n
  unfolding new_node
  new-Old tid w a k m sh fresh n l odd =
      let l0 : Linked m n = elim (Bool-cases (a == n)) [
        | inl y ↦ absurd (let clash : owned tid ≡ in_list = rw y at l in cc)
        | inr f ↦ rw f at l
      ] in
      outside cf m (new_node tid a k w m) n sh
        (λ x lx. rw (apart m a x (unused-out m a fresh) lx) refl) l0 odd

  busy : (m : Memory) (n : ℕ) (p : Pc) → Duty m n p → ¬ (rests p ≡ true)
  unfolding rests
  busy m n _ (swaps k p nx res h) e = let clash : false ≡ true = e in cc
  busy m n _ (starts_over k res h) e = let clash : false ≡ true = e in cc
  busy m n _ (comes_by k res p cu h) e = let clash : false ≡ true = e in cc
  busy m n _ (looks_at k res p cu nx mk h w) e = let clash : false ≡ true = e in cc
  busy m n _ (makes_sure k res p cu nx mk h w) e = let clash : false ≡ true = e in cc
  busy m n _ (helps k res p cu nx h) e = let clash : false ≡ true = e in cc

  -- A thread with a duty calls nothing.
  called :
      (s : State) (tid t : ℕ) (p : Pc)
      → rests (s.pc tid) ≡ true
      → (n : ℕ) (m : Memory) → Duty m n (s.pc t)
      → Duty m n (update s.pc tid p t)
  called s tid t p q n m d = elim (Bool-cases (tid == t)) [
    | inl y ↦ absurd (busy m n (s.pc t) d (ap (λ x. rests (s.pc x)) (sym ((==_iff tid t).0 y)) ∙ q))
    | inr f ↦ rw f d
  ]

  Step-Attended : (s s' : State) → Step cf s s' → Good cf s → Attended s → Attended s'
  unfolding advance call_contains call_erase call_insert
  Step-Attended s _ (advances _ tid) v at n l odd r =
      let s' = act cf tid (s.pc tid) s in
      elim (act-Marked cf tid (s.pc tid) s v.shape (v.fits tid) n l odd) [
        | inr d ↦ (tid, d)
        | inl (l0, odd0, back) ↦
            let (t, d) = at n l0 odd0 (back r) in
            let nz : n ≢ 0 = λ e. omega (arith, odd0, v.free, ap s.mem.link e) in
            elim (Bool-cases (tid == t)) [
              | inl y ↦
                  let d' : Duty s.mem n (s.pc tid) =
                    subst (λ x. Duty s.mem n (s.pc x)) (sym ((==_iff tid t).0 y)) d in
                  (tid, own-Duty cf tid n s v.shape l0 nz odd0 (s.pc tid) (v.fits tid) d' r)
              | inr f ↦ (
                t,
                subst (Duty s'.mem n) (act-others cf tid t f (s.pc tid) s).0 (
                    Duty-on s.mem s'.mem n (ap (λ g. g n) (act-Keeps cf tid (s.pc tid) s).0)
                      (s.pc t) d),
              )
            ]
      ]
  Step-Attended s _ (calls_contains _ tid k q lt) v at n l odd r =
      let (t, d) = at n l odd r in (t, called s tid t _ q n s.mem d)
  Step-Attended s _ (calls_erase _ tid k q lt) v at n l odd r =
      let (t, d) = at n l odd r in (t, called s tid t _ q n s.mem d)
  Step-Attended s _ (calls_insert _ tid k w a q lt fresh even) v at n l odd r =
      let (l0, odd0, back) = new-Old tid w a k s.mem v.shape fresh n l odd in
      let (t, d) = at n l0 odd0 (back r) in
      (
        t,
        called s tid t _ q n (new_node tid a k w s.mem) (
            Duty-on s.mem (new_node tid a k w s.mem) n (new_node-keeps tid a k w s.mem fresh n l0).0
              (s.pc t) d),
      )

  create-Attended : (head : ℕ) → Fresh cf head → Attended (create cf head)
  unfolding create
  create-Attended head fr n l odd r = absurd (elim (Bool-cases (0 == n)) [
    | inl y ↦ let h : head % 2 ≡ 1 = rw y at odd in let e = fr.head_even in omega (arith, h, e)
    | inr f ↦ elim (Bool-cases (head == n)) [
      | inl y ↦
          let h : cf.tail % 2 ≡ 1 = rw (f, y) at odd in let e = fr.tail_even in omega (arith, h, e)
      | inr g ↦ let h : 0 % 2 ≡ 1 = rw (f, g) at odd in omega (arith, h)
    ]
  ])

  Run-Attended : (head : ℕ) → Fresh cf head → (s : State) → Run cf (create cf head) s → Attended s
  Run-Attended head fr _ done = create-Attended head fr
  Run-Attended head fr _ (further {s1} {s2} r st) =
      Step-Attended s1 s2 st (Run-Valid cf r (create-Valid cf head fr)) (Run-Attended head fr s1 r)

  -- In a state of a run from a new list in which every thread is at rest, no marked node is on the way
  -- from the head: each node that erase has marked has been unlinked.
  pub rest-unmarked :
      (head : ℕ)
      → Fresh cf head
      → (s : State) → Run cf (create cf head) s
      → ((tid : ℕ) → rests (s.pc tid) ≡ true)
      → (n : ℕ) → Linked s.mem n
      → s.mem.link n % 2 ≡ 1
      → ¬ Reached cf s.mem n
  rest-unmarked head fr s r quiet n l odd way =
      let (t, d) = Run-Attended head fr s r n l odd way in busy s.mem n (s.pc t) d (quiet t)

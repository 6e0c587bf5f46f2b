-- ===== src/Ds/LazyList/Locks/Owners.antt =====
-- Which thread a lock of the lazy list names that is taken, over the steps of a run.
use pop_setbench.Base.{
  ℕ, suc, ◌≡◌, ◌≢◌, refl, sym, ap, subst, ◌∙◌, inl, inr, arith, true, false, ◌==◌, ==_iff,
  Bool-cases, ltb,
}
use pop_setbench.Ds.HmList.{Config}
use pop_setbench.Ds.LazyList.{
  Memory, Pc, idle, answered, returned, looking_up, scanning, reading, starting, walking, critical,
  State, joins, marks, cuts, act, advance, call_contains, call_update, create,
}
use pop_setbench.Ds.LazyList.Change.{Change, same, locks, joining, marking, cutting}
use pop_setbench.Ds.LazyList.Threads.{Fits, works}
use pop_setbench.Ds.LazyList.Act.{act-Moved}
use pop_setbench.Ds.LazyList.Runs.{
  rests, Valid, Step, advances, calls_contains, calls_update, Run, done, further, Run-Valid,
  act-others,
}
use pop_setbench.Ds.LazyList.Locks.Holding.{LocksAt, Kept, either, arrives-Kept, work-Kept}

abbrev pub Owned : State → Type 0
Owned s = (t n : ℕ) → s.mem.lock n ≡ suc t → LocksAt (s.pc t) n

module _ (cf : Config) (tid a : ℕ) where
  act-Kept :
      (p : Pc) (s : State)
      → Fits cf s.mem tid p
      → s.pc tid ≡ p
      → ((n : ℕ) → s.mem.lock n ≡ suc tid → LocksAt p n)
      → Kept cf tid a (act cf tid a p s)
  unfolding act LocksAt
  act-Kept idle s f at h = λ n q. absurd (h n q tt)
  act-Kept (answered b) s f at h = λ n q. absurd (h n q tt)
  act-Kept (returned v) s f at h = λ n q. absurd (h n q tt)
  act-Kept (looking_up k) s f at h = λ n q. absurd (h n q tt)
  act-Kept (scanning k c) s f at h =
      either cf tid a (ltb (s.mem.key c) k) _ _ (λ e n q. absurd (h n q tt))
        (λ e.
          either cf tid a (s.mem.key c == k) _ _ (λ y n q. absurd (h n q tt))
            (λ y n q. absurd (h n q tt)))
  act-Kept (reading k c) s f at h =
      either cf tid a (s.mem.marked c) _ _ (λ y n q. absurd (h n q tt)) (λ y n q. absurd (h n q tt))
  act-Kept (starting u k) s f at h = λ n q. absurd (h n q tt)
  act-Kept (walking u k p c) s f at h =
      either cf tid a (ltb (s.mem.key c) k) _ _ (λ e n q. absurd (h n q tt))
        (λ e. arrives-Kept cf tid a u k p c s (λ n q. h n q tt))
  act-Kept _ s (works u k p c st w le am hp hc kn) at h = work-Kept cf tid a k p c s u st kn at h

  -- No step takes a lock for another thread.
  foreign_lock :
      (t n : ℕ) (m m' : Memory)
      → t ≢ tid
      → Change cf tid m m'
      → m'.lock n ≡ suc t
      → m.lock n ≡ suc t
  unfolding joins marks cuts
  foreign_lock t n m _ other same q = q
  foreign_lock t n m _ other (locks p w r x) q = elim (Bool-cases (p == n)) [
    | inl y ↦
        let e : w ≡ suc t = rw y at q in
        elim x [
          | inl z ↦ absurd (omega (arith, e, z))
          | inr z ↦ absurd (other (omega (arith, e, z)))
        ]
    | inr f ↦ rw f at q
  ]
  foreign_lock t n m _ other (joining p c b k v o high fresh even nv low) q =
      elim (Bool-cases (b == n)) [
        | inl y ↦ absurd (let e : 0 ≡ suc t = rw y at q in omega arith)
        | inr f ↦ rw f at q
      ]
  foreign_lock t n m _ other (marking c nd nt h f) q = q
  foreign_lock t n m _ other (cutting k p c nx o mk at) q = q

module _ (cf : Config) where
  settle :
      (tid : ℕ) (s s' : State)
      → Change cf tid s.mem s'.mem
      → Owned s
      → ((n : ℕ) → s'.mem.lock n ≡ suc tid → LocksAt (s'.pc tid) n)
      → ((t : ℕ) → (tid == t) ≡ false → s.pc t ≡ s'.pc t)
      → Owned s'
  settle tid s s' ch ow own others t n q = elim (Bool-cases (tid == t)) [
    | inl e ↦
        let same : tid ≡ t = (==_iff tid t).0 e in
        subst (λ x. LocksAt (s'.pc x) n) same (own n (q ∙ ap suc (sym same)))
    | inr o ↦
        let ne : t ≢ tid = ground arith in
        subst (λ x. LocksAt x n) (others t o)
          (ow t n (foreign_lock cf tid 0 t n s.mem s'.mem ne ch q))
  ]

  -- A thread that rests has no lock.
  rests_free : (p : Pc) (n : ℕ) → rests p ≡ true → ¬ LocksAt p n
  unfolding rests LocksAt
  rests_free idle n r h = h tt
  rests_free (answered b) n r h = h tt
  rests_free (returned v) n r h = h tt
  rests_free (looking_up k) n r h = h tt
  rests_free (scanning k c) n r h = h tt
  rests_free (reading k c) n r h = h tt
  rests_free (starting u k) n r h = h tt
  rests_free (walking u k p c) n r h = h tt
  rests_free (critical u k p c st) n r h = cc

  Step-Owned : {s s' : State} → Step cf s s' → Valid cf s → Owned s → Owned s'
  unfolding advance call_contains call_update
  Step-Owned (advances s tid a al) v ow =
      let f = v.fits tid in
      settle tid s (act cf tid a (s.pc tid) s) (act-Moved cf tid a (s.pc tid) s v.sound al f refl).0
        ow (act-Kept cf tid a (s.pc tid) s f refl (ow tid))
        (λ t o. act-others cf tid a t o (s.pc tid) s)
  Step-Owned (calls_contains s tid k r b) v ow =
      settle tid s (call_contains tid k s) same ow
        (λ n q. absurd (rests_free (s.pc tid) n r (ow tid n q))) (λ t o. rw o refl)
  Step-Owned (calls_update s tid u k r b st) v ow =
      settle tid s (call_update tid u k s) same ow
        (λ n q. absurd (rests_free (s.pc tid) n r (ow tid n q))) (λ t o. rw o refl)

  pub create-Owned : (head : ℕ) → Owned (create cf head)
  unfolding create
  create-Owned head t n q = absurd (let z : 0 ≡ suc t = q in omega arith)

  pub Run-Owned : {s s' : State} → Run cf s s' → Valid cf s → Owned s → Owned s'
  Run-Owned done v ow = ow
  Run-Owned (further r st) v ow = Step-Owned st (Run-Valid cf r v) (Run-Owned r v ow)

-- ===== src/Ds/LazyList/Locks/Holding.antt =====
-- The locks of a thread, point by point from acquireLock on.
use pop_setbench.Base.{
  ℕ, suc, ◌≡◌, ◌≢◌, ◌⊎◌, refl, sym, ◌∙◌, inl, inr, arith, true, false, Bool, ◌==◌, ==_iff, ==_refl,
  if◌then◌else◌, Bool-cases,
}
use pop_setbench.Ds.HmList.{Config}
use pop_setbench.Ds.LazyList.{
  Memory, Update, erase, insert, Outcome, again, gives, Stage, test_pred, swap_pred, test_curr,
  swap_curr, see_pred, see_curr, see_next, linking, copying, marking, cutting, free_curr, free_pred,
  Pc, critical, State, goes, set_lock, joins, marks, cuts, release, behind_pred, accepted, store,
  arrives, work,
}
use pop_setbench.Ds.LazyList.Change.{marking, cutting}
use pop_setbench.Ds.LazyList.Threads.{Knows, holds_pred, holds_curr, locks_both}

-- The thread has the lock of the node.
unfoldable pub LocksAt : Pc → ℕ → Type 0
LocksAt (critical u k pred curr st) n =
    ((pred ≡ n) × (holds_pred st ≡ true)) ⊎ ((curr ≡ n) × (holds_curr u st ≡ true))
LocksAt _ n = ¬ Unit

module _ (cf : Config) (tid a : ℕ) where
  abbrev pub Kept : State → Type 0
  Kept s = (n : ℕ) → s.mem.lock n ≡ suc tid → LocksAt (s.pc tid) n

  pub either :
      (b : Bool) (x y : State)
      → (b ≡ true → Kept x)
      → (b ≡ false → Kept y)
      → Kept (if b then x else y)
  either true x y f g = f refl
  either false x y f g = g refl

  -- A thread without locks.
  abbrev pub Lockless : State → Type 0
  Lockless s = (n : ℕ) → s.mem.lock n ≢ suc tid

  pub arrives-Kept :
      (u : Update) (k p c : ℕ) (s : State) → Lockless s → Kept (arrives cf tid u k p c s)
  unfolding arrives
  arrives-Kept erase k p c s h n q =
      either (s.mem.key c == k) _ _ (λ e n q. absurd (h n q)) (λ e n q. absurd (h n q)) n q
  arrives-Kept (insert v) k p c s h n q = absurd (h n q)

  module _ (k p c : ℕ) (s : State) where
    abbrev Has : Update → Stage → ℕ → Type 0
    Has u st n = ((p ≡ n) × (holds_pred st ≡ true)) ⊎ ((c ≡ n) × (holds_curr u st ≡ true))

    to :
        (u : Update) (m' : Memory) (st : Stage)
        → ((n : ℕ) → m'.lock n ≡ suc tid → Has u st n)
        → Kept (goes tid (critical u k p c st) (record s { mem = m' }))
    unfolding LocksAt
    to u m' st h n e = rw (==_refl tid) (h n e)

    -- Where both locks, or that of `pred` only, are had as before.
    both :
        (u : Update) (st st' : Stage) (n : ℕ)
        → holds_pred st' ≡ true
        → (holds_curr u st ≡ true → holds_curr u st' ≡ true)
        → Has u st n
        → Has u st' n
    both u st st' n e f (inl (q, b)) = inl (q, e)
    both u st st' n e f (inr (q, b)) = inr (q, f b)

    none :
        (u : Update) (st : Stage) (n : ℕ)
        → holds_pred st ≡ false
        → holds_curr u st ≡ false
        → ¬ Has u st n
    none u st n e f (inl (q, b)) = let clash : false ≡ true = sym e ∙ b in cc
    none u st n e f (inr (q, b)) = let clash : false ≡ true = sym f ∙ b in cc

    behind_holds : (u : Update) → holds_pred (behind_pred u) ≡ true
    unfolding holds_pred
    behind_holds erase = refl
    behind_holds (insert v) = refl

    fails :
        (u : Update) (st : Stage) (n : ℕ)
        → holds_curr u st ≡ locks_both u
        → Has u st n
        → Has u (release u again) n
    unfolding holds_pred holds_curr
    fails erase st n e h = both erase st (free_curr again) n refl (λ x. refl) h
    fails (insert v) st n e h =
        both (insert v) st (free_pred again) n refl
          (λ x. let clash : false ≡ true = sym e ∙ x in absurd cc) h

    accepts : (u : Update) (n : ℕ) → Has u see_next n → Has u (accepted cf tid u k c s.mem) n
    unfolding holds_pred holds_curr
    accepts erase n h = both erase see_next copying n refl (λ x. refl) h
    accepts (insert v) n h = elim (Bool-cases (s.mem.key c == k)) [
      | inl y ↦ rw y (both (insert v) see_next (free_pred (gives (s.mem.val c))) n refl (λ x. x) h)
      | inr y ↦ rw y (both (insert v) see_next linking n refl (λ x. x) h)
    ]

    stores :
        (u : Update) (n : ℕ)
        → ((n : ℕ) → s.mem.lock n ≡ suc tid → Has u linking n)
        → (store cf tid u k p c a s.mem).lock n ≡ suc tid
        → Has u (free_pred (gives cf.no_value)) n
    unfolding holds_pred holds_curr joins
    stores erase n h q = both erase linking (free_pred (gives cf.no_value)) n refl (λ x. x) (h n q)
    stores (insert v) n h q = elim (Bool-cases (a == n)) [
      | inl y ↦ absurd (let z : 0 ≡ suc tid = rw y at q in omega arith)
      | inr f ↦
          both (insert v) linking (free_pred (gives cf.no_value)) n refl (λ x. x) (h n (rw f at q))
    ]

    ends_with :
        (u : Update) (o : Outcome)
        → ((n : ℕ) → s.mem.lock n ≡ suc tid → Has u (free_pred o) n)
        → (n : ℕ) → (set_lock p 0 s.mem).lock n ≢ suc tid
    unfolding holds_pred holds_curr
    ends_with u o h n q = elim (Bool-cases (p == n)) [
      | inl y ↦ let z : 0 ≡ suc tid = rw y at q in omega arith
      | inr f ↦
          let ne : p ≢ n = ground (arith, f) in
          let old : Has u (free_pred o) n = h n (rw f at q) in
          elim old [ inl (e, b) ↦ ne e | inr (e, b) ↦ cc ]
    ]

    pub work-Kept :
        (u : Update) (st : Stage)
        → Knows cf s.mem u k p c st
        → s.pc tid ≡ critical u k p c st
        → ((n : ℕ) → s.mem.lock n ≡ suc tid → Has u st n)
        → Kept (work cf tid a u k p c st s)
    unfolding work holds_pred holds_curr Knows LocksAt marks cuts
    work-Kept u test_pred kn at h =
        either (s.mem.lock p == 0) _ _
          (λ e. to u s.mem swap_pred (λ n q. absurd (none u test_pred n refl refl (h n q))))
          (λ e n q. absurd (none u test_pred n refl refl (h n q)))
    work-Kept u swap_pred kn at h =
        either (s.mem.lock p == 0) _ _
          (λ e. to u (set_lock p (suc tid) s.mem) (behind_pred u) (λ n q.
            elim (Bool-cases (p == n)) [
              | inl y ↦ inl ((==_iff p n).0 y, behind_holds u)
              | inr f ↦ absurd (none u swap_pred n refl refl (h n (rw f at q)))
            ]))
          (λ e. to u s.mem test_pred (λ n q. absurd (none u swap_pred n refl refl (h n q))))
    work-Kept u test_curr kn at h =
        either (s.mem.lock c == 0) _ _
          (λ e. to u s.mem swap_curr (λ n q. both u test_curr swap_curr n refl (λ x. x) (h n q)))
          (λ e n q. rw at (h n q))
    work-Kept u swap_curr kn at h =
        either (s.mem.lock c == 0) _ _
          (λ e. to u (set_lock c (suc tid) s.mem) see_pred (λ n q. elim (Bool-cases (c == n)) [
            | inl y ↦ inr ((==_iff c n).0 y, kn)
            | inr f ↦ both u swap_curr see_pred n refl (λ x. absurd cc) (h n (rw f at q))
          ]))
          (λ e. to u s.mem test_curr (λ n q. both u swap_curr test_curr n refl (λ x. x) (h n q)))
    work-Kept u see_pred kn at h =
        either (s.mem.marked p) _ _
          (λ e. to u s.mem (release u again) (λ n q. fails u see_pred n refl (h n q)))
          (λ e. to u s.mem see_curr (λ n q. both u see_pred see_curr n refl (λ x. x) (h n q)))
    work-Kept u see_curr kn at h =
        either (s.mem.marked c) _ _
          (λ e. to u s.mem (release u again) (λ n q. fails u see_curr n refl (h n q)))
          (λ e. to u s.mem see_next (λ n q. both u see_curr see_next n refl (λ x. x) (h n q)))
    work-Kept u see_next kn at h =
        either (s.mem.next p == c) _ _
          (λ e. to u s.mem (accepted cf tid u k c s.mem) (λ n q. accepts u n (h n q)))
          (λ e. to u s.mem (release u again) (λ n q. fails u see_next n refl (h n q)))
    work-Kept u linking kn at h =
        to u (store cf tid u k p c a s.mem) (free_pred (gives cf.no_value)) (λ n q. stores u n h q)
    work-Kept u copying kn at h =
        to u s.mem (marking (s.mem.next c))
          (λ n q. both u copying (marking (s.mem.next c)) n refl (λ x. x) (h n q))
    work-Kept u (marking nx) kn at h =
        to u (marks c s.mem) (cutting nx)
          (λ n q. both u (marking nx) (cutting nx) n refl (λ x. x) (h n q))
    work-Kept u (cutting nx) kn at h =
        to u (cuts p c nx s.mem) (free_curr (gives (s.mem.val c)))
          (λ n q. both u (cutting nx) (free_curr (gives (s.mem.val c))) n refl (λ x. x) (h n q))
    work-Kept u (free_curr o) kn at h = to u (set_lock c 0 s.mem) (free_pred o) (λ n q.
        elim (Bool-cases (c == n)) [
          | inl y ↦ absurd (let z : 0 ≡ suc tid = rw y at q in omega arith)
          | inr f ↦
              let ne : c ≢ n = ground (arith, f) in
              let old : Has u (free_curr o) n = h n (rw f at q) in
              elim old [ inl (e, b) ↦ inl (e, refl) | inr (e, b) ↦ absurd (ne e) ]
        ])
    work-Kept u (free_pred o) kn at h = λ n q. absurd (ends_with u o h n q)

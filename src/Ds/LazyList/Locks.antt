-- ===== src/Ds/LazyList/Locks.antt =====
-- The locks of the lazy list: which thread has which, and who waits for whom.
pub mod Holding
pub mod Owners
use pop_setbench.Base.{
  ◌≢◌, ℕ, zero, suc, ◌+◌, ◌%◌, ◌≤◌, ◌<◌, ◌≡◌, ◌≢◌, ◌⊎◌, refl, sym, ap, subst, ◌∙◌, inl, inr, arith,
  true, false, Bool, ◌==◌, ==_iff, ==_refl, if◌then◌else◌, Bool-cases, update, not,
}
use pop_setbench.Ds.HmList.{Config, in_list}
use pop_setbench.Ds.HmList.Runs.{Fresh}
use pop_setbench.Ds.HmList.Shape.{Linked, rank}
use pop_setbench.Ds.LazyList.{
  Memory, Update, Stage, test_pred, swap_pred, test_curr, swap_curr, see_pred, see_curr, see_next,
  linking, copying, marking, cutting, free_curr, free_pred, Pc, idle, answered, returned,
  looking_up, scanning, reading, starting, walking, critical, State, create,
}
use pop_setbench.Ds.LazyList.Words.{words, Sound, node_rank}
use pop_setbench.Ds.LazyList.Threads.{
  Way, Fits, rests_idle, rests_answered, rests_returned, looks, scans, reads, starts, walks, works,
  holds_pred, holds_curr,
}
use pop_setbench.Ds.LazyList.Runs.{Run, Run-Valid, Valid}
use pop_setbench.Ds.LazyList.Runs.Start.{create-Valid}
use pop_setbench.Ds.LazyList.Locks.Holding.{LocksAt}
use pop_setbench.Ds.LazyList.Locks.Owners.{Owned, Run-Owned, create-Owned}

-- The thread's next step tests or swaps a lock that is taken.
unfoldable pub waits : Memory → Pc → Bool
waits m (critical u k pred curr test_pred) = not (m.lock pred == 0)
waits m (critical u k pred curr swap_pred) = not (m.lock pred == 0)
waits m (critical u k pred curr test_curr) = not (m.lock curr == 0)
waits m (critical u k pred curr swap_curr) = not (m.lock curr == 0)
waits m _ = false

-- A thread that has a lock and need not wait.
abbrev pub Unblocked : State → Type 0
Unblocked s = (t : ℕ) × (n : ℕ) × LocksAt (s.pc t) n × (waits s.mem (s.pc t) ≡ false)

taken_by : (l : ℕ) → not (l == 0) ≡ true → (t : ℕ) × (l ≡ suc t)
taken_by zero h = absurd cc
taken_by (suc t) h = (t, refl)

module _ (cf : Config) where
  -- What a thread has locked is locked in memory.
  has_lock :
      (m : Memory) (tid : ℕ) (p : Pc) → Fits cf m tid p → (n : ℕ) → LocksAt p n → m.lock n ≡ suc tid
  unfolding LocksAt
  has_lock m tid _ (works u k p c st w le am hp hc kn) n (inl (e, b)) =
      subst (λ x. m.lock x ≡ suc tid) e (hp b)
  has_lock m tid _ (works u k p c st w le am hp hc kn) n (inr (e, b)) =
      subst (λ x. m.lock x ≡ suc tid) e (hc b)
  has_lock m tid _ rests_idle n h = absurd (h tt)
  has_lock m tid _ (rests_answered b) n h = absurd (h tt)
  has_lock m tid _ (rests_returned v) n h = absurd (h tt)
  has_lock m tid _ (looks k b) n h = absurd (h tt)
  has_lock m tid _ (scans k c b nd) n h = absurd (h tt)
  has_lock m tid _ (reads k c b nd e) n h = absurd (h tt)
  has_lock m tid _ (starts u k b st) n h = absurd (h tt)
  has_lock m tid _ (walks u k p c w) n h = absurd (h tt)

  -- In every state that a run from a new list leads to, no two threads have the lock of the same node.
  pub lazy_exclusive :
      (head : ℕ)
      → Fresh cf head
      → (s : State) → Run cf (create cf head) s
      → (t u n : ℕ) → t ≢ u
      → LocksAt (s.pc t) n
      → ¬ LocksAt (s.pc u) n
  lazy_exclusive head fr s r t u n ne ht hu =
      let v = Run-Valid cf r (create-Valid cf head fr) in
      let et = has_lock s.mem t (s.pc t) (v.fits t) n ht in
      let eu = has_lock s.mem u (s.pc u) (v.fits u) n hu in ne (omega (arith, et, eu))

  -- What a thread waits for that has the lock of `n`: that of a later node.
  abbrev Awaits : Memory → ℕ → Type 0
  Awaits m n =
      (c : ℕ) × Linked (words m) c
      × (rank (words m) n < rank (words m) c)
      × (not (m.lock c == 0) ≡ true)

  Awaits-curr :
      (m : Memory) (so : Sound cf m) (u : Update) (k p c n : ℕ)
      → Way cf m u k p c
      → k ≤ m.key c
      → p ≡ n
      → not (m.lock c == 0) ≡ true
      → Awaits m n
  Awaits-curr m so u k p c n w le e wt =
      let rk = node_rank cf m so c w.curr_node.1 in
      let up : rank (words m) p < rank (words m) c = omega (arith, rk, le, w.before.2) in
      (c, w.curr_node.0, subst (λ x. rank (words m) x < rank (words m) c) e up, wt)

  stage-Awaits :
      (m : Memory) (so : Sound cf m) (u : Update) (k p c n : ℕ) (st : Stage)
      → Way cf m u k p c
      → k ≤ m.key c
      → LocksAt (critical u k p c st) n
      → waits m (critical u k p c st) ≡ true
      → Awaits m n
  unfolding LocksAt waits holds_pred holds_curr
  stage-Awaits m so u k p c n test_pred w le (inl (e, b)) wt = absurd cc
  stage-Awaits m so u k p c n test_pred w le (inr (e, b)) wt = absurd cc
  stage-Awaits m so u k p c n swap_pred w le (inl (e, b)) wt = absurd cc
  stage-Awaits m so u k p c n swap_pred w le (inr (e, b)) wt = absurd cc
  stage-Awaits m so u k p c n test_curr w le (inl (e, b)) wt = Awaits-curr m so u k p c n w le e wt
  stage-Awaits m so u k p c n test_curr w le (inr (e, b)) wt = absurd cc
  stage-Awaits m so u k p c n swap_curr w le (inl (e, b)) wt = Awaits-curr m so u k p c n w le e wt
  stage-Awaits m so u k p c n swap_curr w le (inr (e, b)) wt = absurd cc
  stage-Awaits m so u k p c n see_pred w le h wt = absurd cc
  stage-Awaits m so u k p c n see_curr w le h wt = absurd cc
  stage-Awaits m so u k p c n see_next w le h wt = absurd cc
  stage-Awaits m so u k p c n linking w le h wt = absurd cc
  stage-Awaits m so u k p c n copying w le h wt = absurd cc
  stage-Awaits m so u k p c n (marking nx) w le h wt = absurd cc
  stage-Awaits m so u k p c n (cutting nx) w le h wt = absurd cc
  stage-Awaits m so u k p c n (free_curr o) w le h wt = absurd cc
  stage-Awaits m so u k p c n (free_pred o) w le h wt = absurd cc

  next_lock :
      (m : Memory) (so : Sound cf m) (t : ℕ) (p : Pc) (n : ℕ)
      → Fits cf m t p
      → LocksAt p n
      → waits m p ≡ true
      → Awaits m n
  unfolding waits
  next_lock m so t _ n (works u k p c st w le am hp hc kn) h wt =
      stage-Awaits m so u k p c n st w le h wt
  next_lock m so t _ n rests_idle h wt = absurd cc
  next_lock m so t _ n (rests_answered b) h wt = absurd cc
  next_lock m so t _ n (rests_returned v) h wt = absurd cc
  next_lock m so t _ n (looks k b) h wt = absurd cc
  next_lock m so t _ n (scans k c b nd) h wt = absurd cc
  next_lock m so t _ n (reads k c b nd e) h wt = absurd cc
  next_lock m so t _ n (starts u k b st) h wt = absurd cc
  next_lock m so t _ n (walks u k p c w) h wt = absurd cc

  -- Which node a waiting thread waits for.
  waited :
      (m : Memory) (t : ℕ) (p : Pc)
      → Fits cf m t p
      → waits m p ≡ true
      → (n : ℕ) × Linked (words m) n × (not (m.lock n == 0) ≡ true)
  unfolding waits
  waited m t _ (works u k p c test_pred w le am hp hc kn) wt = (p, w.before.0, wt)
  waited m t _ (works u k p c swap_pred w le am hp hc kn) wt = (p, w.before.0, wt)
  waited m t _ (works u k p c test_curr w le am hp hc kn) wt = (c, w.curr_node.0, wt)
  waited m t _ (works u k p c swap_curr w le am hp hc kn) wt = (c, w.curr_node.0, wt)
  waited m t _ (works u k p c see_pred w le am hp hc kn) wt = absurd cc
  waited m t _ (works u k p c see_curr w le am hp hc kn) wt = absurd cc
  waited m t _ (works u k p c see_next w le am hp hc kn) wt = absurd cc
  waited m t _ (works u k p c linking w le am hp hc kn) wt = absurd cc
  waited m t _ (works u k p c copying w le am hp hc kn) wt = absurd cc
  waited m t _ (works u k p c (marking nx) w le am hp hc kn) wt = absurd cc
  waited m t _ (works u k p c (cutting nx) w le am hp hc kn) wt = absurd cc
  waited m t _ (works u k p c (free_curr o) w le am hp hc kn) wt = absurd cc
  waited m t _ (works u k p c (free_pred o) w le am hp hc kn) wt = absurd cc
  waited m t _ rests_idle wt = absurd cc
  waited m t _ (rests_answered b) wt = absurd cc
  waited m t _ (rests_returned v) wt = absurd cc
  waited m t _ (looks k b) wt = absurd cc
  waited m t _ (scans k c b nd) wt = absurd cc
  waited m t _ (reads k c b nd e) wt = absurd cc
  waited m t _ (starts u k b st) wt = absurd cc
  waited m t _ (walks u k p c w) wt = absurd cc

  module _ (s : State) (v : Valid cf s) (ow : Owned s) where
    low_rank : (n : ℕ) → Linked (words s.mem) n → rank (words s.mem) n < suc (suc cf.key_max)
    low_rank n l = elim (Bool-cases (n == 0)) [
      | inl e ↦ rw e (omega arith)
      | inr f ↦ rw f (omega (arith, v.sound.shape.top n l))
    ]

    -- From one taken lock to the next, up to a thread that need not wait.
    follow_locks :
        (fuel n : ℕ)
        → Linked (words s.mem) n
        → not (s.mem.lock n == 0) ≡ true
        → suc (suc cf.key_max) ≤ rank (words s.mem) n + fuel
        → Unblocked s
    follow_locks zero n ln h le = absurd (omega (arith, low_rank n ln, le))
    follow_locks (suc fuel) n ln h le =
        let (t, e) = taken_by (s.mem.lock n) h in
        let has = ow t n e in
        elim (Bool-cases (waits s.mem (s.pc t))) [
          | inr f ↦ (t, n, has, f)
          | inl wt ↦
              let (c, lc, up, taken) = next_lock s.mem v.sound t (s.pc t) n (v.fits t) has wt in
              follow_locks fuel c lc taken (omega (arith, le, up))
        ]

  -- In every state that a run from a new list leads to: if a thread waits for a lock, then some thread
  -- that has a lock need not wait.
  pub lazy-Unblocked :
      (head : ℕ)
      → Fresh cf head
      → (s : State) → Run cf (create cf head) s
      → (t : ℕ) → waits s.mem (s.pc t) ≡ true
      → Unblocked s
  lazy-Unblocked head fr s r t wt =
      let v0 = create-Valid cf head fr in
      let v = Run-Valid cf r v0 in
      let ow = Run-Owned cf r v0 (create-Owned cf head) in
      let (n, l, taken) = waited s.mem t (s.pc t) (v.fits t) wt in
      follow_locks s v ow (suc (suc cf.key_max)) n l taken (omega arith)

-- ===== src/Ds/LazyList/Runs.antt =====
-- The interleavings of calls and steps of any number of threads on one lazy list.
pub mod Start
use pop_setbench.Base.{
  ℕ, suc, ◌+◌, ◌%◌, ◌≤◌, ◌<◌, ◌≡◌, ◌≢◌, ◌⊎◌, refl, sym, ap, subst, ◌∙◌, inl, inr, arith, true,
  false, Bool, ◌==◌, ==_iff, ==_refl, if◌then◌else◌, Bool-cases, update, not, ltb, In, Distinct,
}
use pop_setbench.Ds.HmList.{Config, in_list}
use pop_setbench.Ds.HmList.Shape.{Linked, rank, Shape, Reached}
use pop_setbench.Ds.HmList.Shape.Frame.{frame-Shape}
use pop_setbench.Ds.HmList.Runs.{Fresh}
use pop_setbench.Ds.HmList.Runs.Start.{create-Shape, three}
use pop_setbench.Ds.HmList.Threads.{Before, Node}
use pop_setbench.Ds.LazyList.{
  Memory, Update, erase, insert, Stage, test_pred, swap_pred, test_curr, swap_curr, see_pred,
  see_curr, see_next, linking, copying, marking, cutting, free_curr, free_pred, Pc, idle, answered,
  returned, looking_up, scanning, reading, starting, walking, critical, State, goes, leaves,
  arrives, work, act, advance, call_contains, call_update, create,
}
use pop_setbench.Ds.LazyList.Words.{words, Sound}
use pop_setbench.Ds.LazyList.Change.{Change, Change-Lasts, Change-Guards}
use pop_setbench.Ds.LazyList.Change.Preserve.{Change-Sound}
use pop_setbench.Ds.LazyList.Threads.{
  Between, Stores, Fits, rests_idle, looks, starts, Fits-Lasts, holds_pred, holds_curr,
}
use pop_setbench.Ds.LazyList.Act.{act-Moved}
use pop_setbench.Ds.LazyList.Act.Work.{Allocated, Moved}

-- A step of one thread leaves the others where they stand.
module _ (cf : Config) (tid a t : ℕ) (other : (tid == t) ≡ false) where
  choice :
      (b : Bool) (s x y : State)
      → s.pc t ≡ x.pc t
      → s.pc t ≡ y.pc t
      → s.pc t ≡ (if b then x else y).pc t
  choice true s x y e f = e
  choice false s x y e f = f

  away : (s : State) (p : Pc) → s.pc t ≡ update s.pc tid p t
  away s p = rw other refl

  arrives-others : (u : Update) (k p c : ℕ) (s : State) → s.pc t ≡ (arrives cf tid u k p c s).pc t
  unfolding arrives
  arrives-others erase k p c s = choice (s.mem.key c == k) s _ _ (away s _) (away s _)
  arrives-others (insert v) k p c s = away s _

  work-others :
      (u : Update) (k p c : ℕ) (st : Stage) (s : State) → s.pc t ≡ (work cf tid a u k p c st s).pc t
  unfolding work
  work-others u k p c test_pred s = choice (s.mem.lock p == 0) s _ _ (away s _) refl
  work-others u k p c swap_pred s = choice (s.mem.lock p == 0) s _ _ (away s _) (away s _)
  work-others u k p c test_curr s = choice (s.mem.lock c == 0) s _ _ (away s _) refl
  work-others u k p c swap_curr s = choice (s.mem.lock c == 0) s _ _ (away s _) (away s _)
  work-others u k p c see_pred s = choice (s.mem.marked p) s _ _ (away s _) (away s _)
  work-others u k p c see_curr s = choice (s.mem.marked c) s _ _ (away s _) (away s _)
  work-others u k p c see_next s = choice (s.mem.next p == c) s _ _ (away s _) (away s _)
  work-others u k p c linking s = away s _
  work-others u k p c copying s = away s _
  work-others u k p c (marking nx) s = away s _
  work-others u k p c (cutting nx) s = away s _
  work-others u k p c (free_curr o) s = away s _
  work-others u k p c (free_pred o) s = away s _

  pub act-others : (p : Pc) (s : State) → s.pc t ≡ (act cf tid a p s).pc t
  unfolding act
  act-others idle s = refl
  act-others (answered b) s = refl
  act-others (returned v) s = refl
  act-others (looking_up k) s = away s _
  act-others (scanning k c) s =
      choice (ltb (s.mem.key c) k) s _ _ (away s _)
        (choice (s.mem.key c == k) s _ _ (away s _) (away s _))
  act-others (reading k c) s = choice (s.mem.marked c) s _ _ (away s _) (away s _)
  act-others (starting u k) s = away s _
  act-others (walking u k p c) s =
      choice (ltb (s.mem.key c) k) s _ _ (away s _) (arrives-others u k p c s)
  act-others (critical u k p c st) s = work-others u k p c st s

-- A thread that is in no operation.
unfoldable pub rests : Pc → Bool
rests idle = true
rests (answered b) = true
rests (returned v) = true
rests _ = false

module _ (cf : Config) where
  pub record Valid (s : State) : Type 0 where
    pub sound : Sound cf s.mem
    pub fits : (tid : ℕ) → Fits cf s.mem tid (s.pc tid)

  -- What can happen next: a thread goes on, where the allocator returns an address that is not given
  -- out, or one that rests calls an operation with a key between the sentinels.
  pub data Step : State → State → Type 0 where
    advances : (s : State) (tid a : ℕ) → Allocated a (s.pc tid) s.mem → Step s (advance cf tid a s)
    calls_contains :
        (s : State) (tid k : ℕ)
        → rests (s.pc tid) ≡ true
        → Between cf k
        → Step s (call_contains tid k s)
    calls_update :
        (s : State) (tid : ℕ) (u : Update) (k : ℕ)
        → rests (s.pc tid) ≡ true
        → Between cf k
        → Stores cf u
        → Step s (call_update tid u k s)

  pub data Run (s : State) : State → Type 0 where
    done : Run s s
    further : {s1 s2 : State} → Run s s1 → Step s1 s2 → Run s s2

  -- The thread itself, and the others.
  settle :
      (tid : ℕ) (s s' : State)
      → Valid s
      → Moved cf tid s s'
      → ((t : ℕ) → (tid == t) ≡ false → s.pc t ≡ s'.pc t)
      → Valid s'
  settle tid s s' v (ch, f) same = record {
    sound = Change-Sound cf tid s.mem s'.mem v.sound ch;
    fits = λ t. elim (Bool-cases (tid == t)) [
      | inl e ↦ subst (λ x. Fits cf s'.mem x (s'.pc x)) ((==_iff tid t).0 e) f
      | inr o ↦
          let ne : t ≢ tid = ground arith in
          subst (Fits cf s'.mem t) (same t o) (
            Fits-Lasts cf s.mem s'.mem t (Change-Lasts cf tid s.mem s'.mem v.sound.shape.root ch)
              (Change-Guards cf tid t s.mem s'.mem ne ch) (s.pc t) (v.fits t))
    ];
  }

  pub Step-Valid : {s s' : State} → Step s s' → Valid s → Valid s'
  unfolding advance call_contains call_update
  Step-Valid (advances s tid a al) v =
      settle tid s (act cf tid a (s.pc tid) s) v
        (act-Moved cf tid a (s.pc tid) s v.sound al (v.fits tid) refl)
        (λ t o. act-others cf tid a t o (s.pc tid) s)
  Step-Valid (calls_contains s tid k r b) v =
      settle tid s (call_contains tid k s) v (Change.same, rw (==_refl tid) (looks k b))
        (λ t o. rw o refl)
  Step-Valid (calls_update s tid u k r b st) v =
      settle tid s (call_update tid u k s) v (Change.same, rw (==_refl tid) (starts u k b st))
        (λ t o. rw o refl)

  pub Run-Valid : {s s' : State} → Run s s' → Valid s → Valid s'
  Run-Valid done v = v
  Run-Valid (further r st) v = Step-Valid st (Run-Valid r v)

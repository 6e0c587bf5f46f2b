-- ===== src/Ds/LazyList/Pace.antt =====
-- How many steps contains of the lazy list takes, whatever the other threads do.
use pop_setbench.Base.{
  ℕ, suc, ◌+◌, ◌≤◌, ◌≡◌, refl, sym, subst, inl, inr, arith, true, false, Bool, ◌==◌, ==_iff,
  ==_refl, if◌then◌else◌, Bool-cases, ltb,
}
use pop_setbench.Ds.HmList.{Config}
use pop_setbench.Ds.HmList.Shape.{rank}
use pop_setbench.Ds.HmList.Threads.{Node}
use pop_setbench.Ds.HmList.Runs.{Fresh}
use pop_setbench.Ds.LazyList.{
  Memory, Pc, idle, answered, returned, looking_up, scanning, reading, starting, walking, critical,
  State, act, advance, call_contains, call_update, create,
}
use pop_setbench.Ds.LazyList.Words.{words, Sound, node_rank, onward}
use pop_setbench.Ds.LazyList.Change.{Lasts}
use pop_setbench.Ds.LazyList.Change.Keep.{rank-Lasts}
use pop_setbench.Ds.LazyList.Threads.{Between, Fits, looks, scans, reads}
use pop_setbench.Ds.LazyList.Act.{inner}
use pop_setbench.Ds.LazyList.Runs.{
  rests, Valid, Step, advances, calls_contains, calls_update, Step-Valid, Run, Run-Valid,
  act-others,
}
use pop_setbench.Ds.LazyList.Runs.Start.{create-Valid}
use pop_setbench.Ds.LazyList.Hindsight.{Step-Lasts, During, begun, more, during-Valid}
use pop_setbench.Ds.LazyList.Linear.{calls_not}

module _ (cf : Config) (tid : ℕ) where
  -- The steps of a run that are the thread's own.
  abbrev pub counts : {s s' : State} → Step cf s s' → ℕ → ℕ
  counts (advances s t a al) n = if t == tid then suc n else n
  counts (calls_contains s t k r b) n = n
  counts (calls_update s t u k r b st) n = n

  unfoldable pub own_steps : {s0 s1 : State} → During cf tid s0 s1 → ℕ
  own_steps begun = 0
  own_steps (more d q st) = counts st (own_steps d)

  -- Each step of contains goes on to a node of a higher rank.
  unfoldable Paced : Memory → ℕ → Pc → Type 0
  Paced m n (looking_up k) = n ≡ 0
  Paced m n (scanning k c) = n ≤ rank (words m) c
  Paced m n (reading k c) = n ≤ suc (rank (words m) c)
  Paced m n (answered b) = n ≤ cf.key_max + 3
  Paced m n _ = ¬ Unit

  either :
      (n : ℕ) (b : Bool) (x y : State)
      → (b ≡ true → Paced x.mem n (x.pc tid))
      → (b ≡ false → Paced y.mem n (y.pc tid))
      → let s = if b then x else y in Paced s.mem n (s.pc tid)
  either n true x y f g = f refl
  either n false x y f g = g refl

  top_rank :
      (m : Memory) → Sound cf m → (c : ℕ) → Node cf (words m) c → rank (words m) c ≤ suc cf.key_max
  top_rank m so c n = let rk = node_rank cf m so c n.1 in omega (arith, rk, so.shape.top c n.0)

  own-Paced :
      (a : ℕ) (p : Pc) (s : State) (n : ℕ)
      → Sound cf s.mem
      → Fits cf s.mem tid p
      → rests p ≡ false
      → Paced s.mem n p
      → let s' = act cf tid a p s in Paced s'.mem (suc n) (s'.pc tid)
  unfolding act Paced rests
  own-Paced a _ s n so (looks k b) q h =
      let rk = node_rank cf s.mem so (s.mem.next 0) so.first_node in
      rw (==_refl tid) (omega (arith, rk, h))
  own-Paced a _ s n so (scans k c b nd) q h =
      let le = top_rank s.mem so c nd in
      either (suc n) (ltb (s.mem.key c) k) _ _
        (λ e.
          let up = (onward cf s.mem so c nd.0 (inner cf tid a s.mem k c so b e)).1 in
          rw (==_refl tid) (omega (arith, up, h)))
        (λ e.
          either (suc n) (s.mem.key c == k) _ _ (λ y. rw (==_refl tid) (omega (arith, h)))
            (λ y. rw (==_refl tid) (omega (arith, h, le))))
  own-Paced a _ s n so (reads k c b nd e) q h =
      let le = top_rank s.mem so c nd in
      either (suc n) (s.mem.marked c) _ _ (λ y. rw (==_refl tid) (omega (arith, h, le)))
        (λ y. rw (==_refl tid) (omega (arith, h, le)))
  own-Paced a (starting u k) s n so f q h = absurd (h tt)
  own-Paced a (walking u k p c) s n so f q h = absurd (h tt)
  own-Paced a (critical u k p c st) s n so f q h = absurd (h tt)
  own-Paced a idle s n so f q h = absurd (h tt)
  own-Paced a (answered b) s n so f q h = absurd cc
  own-Paced a (returned b) s n so f q h = absurd (h tt)

  -- A step of another thread.
  other-Paced :
      (m m' : Memory) (p : Pc) (n : ℕ) → Lasts m m' → Fits cf m tid p → Paced m n p → Paced m' n p
  unfolding Paced
  other-Paced m m' _ n la (scans k c b nd) h = omega (arith, rank-Lasts cf m m' la c nd.0, h)
  other-Paced m m' _ n la (reads k c b nd e) h = omega (arith, rank-Lasts cf m m' la c nd.0, h)
  other-Paced m m' (looking_up k) n la f h = h
  other-Paced m m' (answered b) n la f h = h
  other-Paced m m' (starting u k) n la f h = absurd (h tt)
  other-Paced m m' (walking u k p c) n la f h = absurd (h tt)
  other-Paced m m' (critical u k p c st) n la f h = absurd (h tt)
  other-Paced m m' idle n la f h = absurd (h tt)
  other-Paced m m' (returned b) n la f h = absurd (h tt)

  Step-Paced :
      (s s' : State) (st : Step cf s s') (n : ℕ)
      → Valid cf s
      → rests (s.pc tid) ≡ false
      → Paced s.mem n (s.pc tid)
      → Paced s'.mem (counts st n) (s'.pc tid)
  unfolding advance Paced call_contains call_update
  Step-Paced s _ (advances _ t a al) n v q h = elim (Bool-cases (t == tid)) [
    | inl e ↦
        let own = own-Paced a (s.pc tid) s n v.sound (v.fits tid) q h in
        rw e (
          subst (λ x. let s' = act cf x a (s.pc x) s in Paced s'.mem (suc n) (s'.pc tid))
            (sym ((==_iff t tid).0 e)) own)
    | inr f ↦
        let same = act-others cf t a tid f (s.pc t) s in
        let s' = act cf t a (s.pc t) s in
        rw f (
          subst (Paced s'.mem n) same (
            other-Paced s.mem s'.mem (s.pc tid) n (Step-Lasts cf (advances s t a al) v) (v.fits tid)
              h))
  ]
  Step-Paced s _ (calls_contains _ t k r b) n v q h = rw (calls_not cf tid t s r q) (
      other-Paced s.mem s.mem (s.pc tid) n (Step-Lasts cf (calls_contains s t k r b) v) (v.fits tid)
        h)
  Step-Paced s _ (calls_update _ t u k r b st) n v q h = rw (calls_not cf tid t s r q) (
      other-Paced s.mem s.mem (s.pc tid) n (Step-Lasts cf (calls_update s t u k r b st) v)
        (v.fits tid) h)

  paced :
      (s0 s1 : State) (d : During cf tid s0 s1)
      → Valid cf s0
      → Paced s0.mem 0 (s0.pc tid)
      → Paced s1.mem (own_steps d) (s1.pc tid)
  unfolding own_steps
  paced s0 _ begun v h = h
  paced s0 _ (more {s1} {s2} d q st) v h =
      Step-Paced s1 s2 st (own_steps d) (during-Valid cf tid s0 s1 d v) q (paced s0 s1 d v h)

  steps_of :
      (m : Memory) (so : Sound cf m) (n : ℕ) (p : Pc)
      → Fits cf m tid p
      → Paced m n p
      → n ≤ cf.key_max + 3
  unfolding Paced
  steps_of m so n _ (scans k c b nd) h = let le = top_rank m so c nd in omega (arith, h, le)
  steps_of m so n _ (reads k c b nd e) h = let le = top_rank m so c nd in omega (arith, h, le)
  steps_of m so n (looking_up k) f h = omega (arith, h)
  steps_of m so n (answered b) f h = h
  steps_of m so n (starting u k) f h = absurd (h tt)
  steps_of m so n (walking u k p c) f h = absurd (h tt)
  steps_of m so n (critical u k p c st) f h = absurd (h tt)
  steps_of m so n idle f h = absurd (h tt)
  steps_of m so n (returned b) f h = absurd (h tt)

  -- A thread calls contains with a key between the sentinels in a state that a run from a new list
  -- leads to. Behind any steps `d` of all threads it has made at most KEY_MAX + 3 steps of its own in
  -- that call, whatever the other threads did in between.
  pub lazy_wait_free :
      (head : ℕ)
      → Fresh cf head
      → (s : State) → Run cf (create cf head) s
      → (k : ℕ) → rests (s.pc tid) ≡ true
      → Between cf k
      → (s1 : State) (d : During cf tid (call_contains tid k s) s1) → own_steps d ≤ cf.key_max + 3
  unfolding call_contains Paced
  lazy_wait_free head fr s r k q b s1 d =
      let s0 = call_contains tid k s in
      let v0 : Valid cf s0 =
        Step-Valid cf (calls_contains s tid k q b) (Run-Valid cf r (create-Valid cf head fr)) in
      let v = during-Valid cf tid s0 s1 d v0 in
      steps_of s1.mem v.sound (own_steps d) (s1.pc tid) (v.fits tid)
        (paced s0 s1 d v0 (rw (==_refl tid) refl))

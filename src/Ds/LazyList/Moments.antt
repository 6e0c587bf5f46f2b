-- ===== src/Ds/LazyList/Moments.antt =====
-- The moments of a call of the lazy list: a step, or a state between two steps, and what a thread's
-- way to a node says of them.
use pop_setbench.Base.{ℕ, ◌<◌, ◌≡◌, ◌≢◌, refl, subst, inl, inr, arith, true, false, Bool-cases}
use pop_setbench.Ds.HmList.{Config}
use pop_setbench.Ds.HmList.Threads.{Node}
use pop_setbench.Ds.HmList.Contents.{Absent}
use pop_setbench.Ds.HmList.Spec.{Op, Applies}
use pop_setbench.Ds.LazyList.{Memory, Pc, answered, returned, State}
use pop_setbench.Ds.LazyList.Words.{
  words, Sound, Met, Met-Node, Met-Reached, Met-Absent, unmarked-Reached, node_rank,
}
use pop_setbench.Ds.LazyList.Runs.{rests, Valid, Step, advances, calls_contains, calls_update}
use pop_setbench.Ds.LazyList.Points.{Answer, says, hands, Tells}
use pop_setbench.Ds.LazyList.OwnSteps.{Idles}
use pop_setbench.Ds.LazyList.Hindsight.{
  During, more, Once, now, once, Once-map, during-Valid, InList, Recalls, recall, fade, keyed,
}

-- What a thread answers where it rests, as in the specification.
abbrev pub answer : Pc → Answer
answer (answered b) = says b
answer (returned v) = hands v
answer _ = pop_setbench.Ds.HmList.idle

module _ (cf : Config) (tid : ℕ) where
  -- The step is one that the thread makes in its operation.
  abbrev IsOwn : {s s' : State} → Step cf s s' → Type 0
  IsOwn (advances s t a al) = t ≡ tid
  IsOwn (calls_contains s t k r b) = ⊥
  IsOwn (calls_update s t u k r b st) = ⊥

  -- At one of these steps, which the thread made itself, or in one of the states between them, the
  -- map goes over as `R` says.
  pub data Sometime (R : Memory → Memory → Type 0) (s0 : State)
      : (s1 : State) → During cf tid s0 s1 → Type 0 where
    between : {s1 : State} (d : During cf tid s0 s1) → R s1.mem s1.mem → Sometime R s0 s1 d
    at_last :
        {s1 s2 : State} (d : During cf tid s0 s1) (q : rests (s1.pc tid) ≡ false)
        (st : Step cf s1 s2)
        → IsOwn st
        → R s1.mem s2.mem
        → Sometime R s0 s2 (more d q st)
    earlier :
        {s1 s2 : State} (d : During cf tid s0 s1) (q : rests (s1.pc tid) ≡ false)
        (st : Step cf s1 s2)
        → Sometime R s0 s1 d
        → Sometime R s0 s2 (more d q st)

  pub Once-Sometime :
      (P : Memory → Type 0) (R : Memory → Memory → Type 0) (s0 : State)
      → ((m : Memory) → P m → R m m)
      → (s1 : State) (d : During cf tid s0 s1) → Once cf tid P s0 s1 d
      → Sometime R s0 s1 d
  Once-Sometime P R s0 f _ _ (now d p) = between d (f _ p)
  Once-Sometime P R s0 f _ _ (once d q st h) = earlier d q st (Once-Sometime P R s0 f _ d h)

  -- The step on the abstract map, and its answer.
  abbrev pub Does : Op → Answer → Memory → Memory → Type 0
  Does op p m m' = Applies cf.no_value op p (words m) (words m')

  abbrev pub Had : (op : Op) (s0 s1 : State) → During cf tid s0 s1 → Answer → Type 0
  Had op s0 s1 d p = Sometime (Does op p) s0 s1 d

  -- With the invariant of the nodes at that time.
  abbrev pub Came : (s0 s1 : State) → During cf tid s0 s1 → ℕ → ℕ → Type 0
  Came s0 s1 d k c = Once cf tid (λ m. Sound cf m × Met cf m k c) s0 s1 d

  abbrev pub Known : (op : Op) (s0 s1 : State) → During cf tid s0 s1 → Type 0
  Known op s0 s1 d = Tells (Had op s0 s1 d) (Came s0 s1 d) s1.mem op (s1.pc tid)

  -- What the steps so far say of the node that a thread stands at.
  module _ (s0 s : State) (v0 : Valid cf s0) (d : During cf tid s0 s) where
    Came-InList : (k c : ℕ) → Came s0 s d k c → Once cf tid (InList cf tid c) s0 s d
    Came-InList k c =
        Once-map cf tid (λ m. Sound cf m × Met cf m k c) (InList cf tid c) s0
          (λ m (so, t). (so, Met-Node cf m so k c t, Met-Reached cf m so k c t)) s d

    -- A loaded node was behind one of the list.
    pub forward :
        (k c : ℕ)
        → Came s0 s d k c
        → Node cf (words s.mem) c
        → c ≢ cf.tail
        → s.mem.key c < k
        → Came s0 s d k (s.mem.next c)
    forward k c v n nt lt =
        let so = (during-Valid cf tid s0 s d v0).sound in
        let (n', was) = recall cf tid s0 c v0 s d (Came-InList k c v) in
        elim (Bool-cases (s.mem.marked c)) [
          | inl mk ↦
              Once-map cf tid (Recalls cf tid c s.mem) (λ m. Sound cf m × Met cf m k (s.mem.next c))
                s0
                (λ m ((so', n0, r), e, nx). (
                  so',
                  record {
                    node = c;
                    before =
                        let rk = node_rank cf m so' c n0.1 in (n0.0, nt, omega (arith, rk, e, lt));
                    reached = r;
                    leads = nx mk;
                  },
                ))
                s d was
          | inr f ↦ now d (
            so,
            record {
              node = c;
              before = let rk = node_rank cf s.mem so c n.1 in (n.0, nt, omega (arith, rk, lt));
              reached = unmarked-Reached cf s.mem so c n.0 f;
              leads = refl;
            },
          )
        ]

    pub beyond :
        (op : Op) (k c : ℕ)
        → Came s0 s d k c
        → Node cf (words s.mem) c
        → k < s.mem.key c
        → (p : Answer) → Idles cf k op p
        → Had op s0 s d p
    beyond op k c v n high p idles =
        let P = λ (m : Memory). Sound cf m × Met cf m k c in
        let was = (keyed cf tid P s0 c v0 (λ m (so, t). Met-Node cf m so k c t) s d v).1 in
        Once-Sometime (λ m. P m × (m.key c ≡ s.mem.key c)) (Does op p) s0
          (λ m ((so, t), e).
            let rk = node_rank cf m so c n.1 in
            idles m (Met-Absent cf m so k c t (omega (arith, rk, e, high))))
          s d was

    pub faded :
        (op : Op) (k c : ℕ)
        → Came s0 s d k c
        → Node cf (words s.mem) c
        → s.mem.marked c ≡ true
        → s.mem.key c ≡ k
        → (p : Answer) → Idles cf k op p
        → Had op s0 s d p
    faded op k c v n mk e p idles =
        let was = fade cf tid s0 c v0 s d (Came-InList k c v) mk in
        Once-Sometime (λ m. Absent (words m) (s.mem.key c)) (Does op p) s0
          (λ m out. idles m (subst (Absent (words m)) e out)) s d was

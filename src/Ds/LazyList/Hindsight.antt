-- ===== src/Ds/LazyList/Hindsight.antt =====
-- What the steps of a call tell afterwards about the nodes it has gone through: contains and the search
-- of erase take no lock and check nothing, so that a node they stand at may have left the list.
use pop_setbench.Base.{
  ℕ, ◌≡◌, refl, sym, subst, ◌∙◌, inl, inr, true, false, ◌==◌, ==_iff, Bool-cases,
}
use pop_setbench.Ds.HmList.{Config}
use pop_setbench.Ds.HmList.Shape.{Linked, Reached}
use pop_setbench.Ds.HmList.Threads.{Node}
use pop_setbench.Ds.HmList.Contents.{Absent}
use pop_setbench.Ds.HmList.Spec.{Op, look_up}
use pop_setbench.Ds.LazyList.{
  Memory, Update, State, advance, call_contains, call_update, joins, marks, cuts,
}
use pop_setbench.Ds.LazyList.Words.{words, Sound, marked-Absent, unmarked-Reached}
use pop_setbench.Ds.LazyList.Change.{
  Change, Change-Lasts, Lasts, fresh_other, same, locks, joining, marking, cutting,
}
use pop_setbench.Ds.LazyList.Change.Keep.{marks-Takes}
use pop_setbench.Ds.LazyList.Threads.{Between, Stores}
use pop_setbench.Ds.LazyList.Act.{act-Moved}
use pop_setbench.Ds.LazyList.Runs.{
  rests, Valid, Step, advances, calls_contains, calls_update, Step-Valid,
}
use pop_setbench.Ds.LazyList.Points.{op_of}

-- A step that marks a node takes its key out of the map.
step_marks :
    (cf : Config) (tid : ℕ) (m m' : Memory)
    → Sound cf m
    → Change cf tid m m'
    → (c : ℕ) → Linked (words m) c
    → m.marked c ≡ false
    → m'.marked c ≡ true
    → Absent (words m') (m.key c)
unfolding joins cuts marks
step_marks cf tid m _ so same c l f e = let clash : false ≡ true = sym f ∙ e in absurd cc
step_marks cf tid m _ so (locks n w q r) c l f e = let clash : false ≡ true = sym f ∙ e in absurd cc
step_marks cf tid m _ so (joining p cu a k v o high fresh even nv low) c l f e =
    let e' : m.marked c ≡ true = rw (fresh_other m a c fresh l) at e in
    let clash : false ≡ true = sym f ∙ e' in absurd cc
step_marks cf tid m _ so (marking n nd nt h g) c l f e = elim (Bool-cases (n == c)) [
  | inl y ↦
      subst (λ x. Absent (words (marks n m)) (m.key x)) ((==_iff n c).0 y)
        (marks-Takes cf m so n nd g).is_absent
  | inr o ↦
      let e' : m.marked c ≡ true = rw o at e in let clash : false ≡ true = sym f ∙ e' in absurd cc
]
step_marks cf tid m _ so (cutting k p cu nx o mk at) c l f e =
    let clash : false ≡ true = sym f ∙ e in absurd cc

module _ (cf : Config) where
  pub Step-Change : {s s' : State} → Step cf s s' → Valid cf s → (t : ℕ) × Change cf t s.mem s'.mem
  unfolding advance call_contains call_update
  Step-Change (advances s t a al) v =
      (t, (act-Moved cf t a (s.pc t) s v.sound al (v.fits t) refl).0)
  Step-Change (calls_contains s t k r b) v = (0, same)
  Step-Change (calls_update s t u k r b st) v = (0, same)

  pub Step-Lasts : {s s' : State} → Step cf s s' → Valid cf s → Lasts s.mem s'.mem
  Step-Lasts {s} {s'} st v =
      let (t, ch) = Step-Change st v in Change-Lasts cf t s.mem s'.mem v.sound.shape.root ch

module _ (cf : Config) (tid : ℕ) where
  -- The thread calls an operation.
  pub data Begins (s : State) : Op → State → Type 0 where
    begins_contains :
        (k : ℕ)
        → rests (s.pc tid) ≡ true
        → Between cf k
        → Begins s (look_up k) (call_contains tid k s)
    begins_update :
        (u : Update) (k : ℕ)
        → rests (s.pc tid) ≡ true
        → Between cf k
        → Stores cf u
        → Begins s (op_of u k) (call_update tid u k s)

  -- The steps of all threads from `s0` on, for as long as the thread is in its operation.
  pub data During (s0 : State) : State → Type 0 where
    begun : During s0 s0
    more : {s1 s2 : State} → During s0 s1 → rests (s1.pc tid) ≡ false → Step cf s1 s2 → During s0 s2

  -- In one of these states the memory is as `P` says.
  pub data Once (P : Memory → Type 0) (s0 : State) : (s1 : State) → During s0 s1 → Type 0 where
    now : {s1 : State} (d : During s0 s1) → P s1.mem → Once P s0 s1 d
    once :
        {s1 s2 : State} (d : During s0 s1) (q : rests (s1.pc tid) ≡ false) (st : Step cf s1 s2)
        → Once P s0 s1 d
        → Once P s0 s2 (more d q st)

  pub Once-map :
      (P Q : Memory → Type 0) (s0 : State)
      → ((m : Memory) → P m → Q m)
      → (s1 : State) (d : During s0 s1) → Once P s0 s1 d
      → Once Q s0 s1 d
  Once-map P Q s0 f _ _ (now d p) = now d (f _ p)
  Once-map P Q s0 f _ _ (once d q st h) = once d q st (Once-map P Q s0 f _ d h)

  pub during-Valid : (s0 s1 : State) → During s0 s1 → Valid cf s0 → Valid cf s1
  during-Valid s0 _ begun v = v
  during-Valid s0 _ (more d q st) v = Step-Valid cf st (during-Valid s0 _ d v)

  -- The key of a node is written once.
  pub keyed :
      (P : Memory → Type 0) (s0 : State) (c : ℕ)
      → Valid cf s0
      → ((m : Memory) → P m → Node cf (words m) c)
      → (s1 : State) (d : During s0 s1) → Once P s0 s1 d
      → Node cf (words s1.mem) c × Once (λ m. P m × (m.key c ≡ s1.mem.key c)) s0 s1 d
  keyed P s0 c v f _ _ (now d p) = (f _ p, now d (p, refl))
  keyed P s0 c v f _ _ (once {s1} {s2} d q st h) =
      let (n, was) = keyed P s0 c v f s1 d h in
      let la = Step-Lasts cf st (during-Valid s0 s1 d v) in
      let ky = la.key c n.0 in
      (
        (la.linked c n.0, n.1),
        once d q st (
            Once-map (λ m. P m × (m.key c ≡ s1.mem.key c)) (λ m. P m × (m.key c ≡ s2.mem.key c)) s0
              (λ m (p, e). (p, e ∙ ky)) s1 d was),
      )

  abbrev pub InList : ℕ → Memory → Type 0
  InList c m = Sound cf m × Node cf (words m) c × Reached cf (words m) c

  -- A node that was in the list is later as it was at some time at which it was in the list, up to
  -- its mark: `next` is written no more once the node is marked.
  abbrev pub Recalls : ℕ → Memory → Memory → Type 0
  Recalls c final m =
      InList c m × (m.key c ≡ final.key c) × (final.marked c ≡ true → m.next c ≡ final.next c)

  pub recall :
      (s0 : State) (c : ℕ)
      → Valid cf s0
      → (s1 : State) (d : During s0 s1) → Once (InList c) s0 s1 d
      → Node cf (words s1.mem) c × Once (Recalls c s1.mem) s0 s1 d
  recall s0 c v _ _ (now {s1} d (so, n, r)) = (n, now d ((so, n, r), refl, λ e. refl))
  recall s0 c v _ _ (once {s1} {s2} d q st h) =
      let (n, was) = recall s0 c v s1 d h in
      let v1 = during-Valid s0 s1 d v in
      let la = Step-Lasts cf st v1 in
      let ky = la.key c n.0 in
      (
        (la.linked c n.0, n.1),
        elim (Bool-cases (s1.mem.marked c)) [
          | inl mk ↦ once d q st (
              Once-map (Recalls c s1.mem) (Recalls c s2.mem) s0
                (λ m (i, e, nx). (i, e ∙ ky, λ x. nx mk ∙ la.frozen c n.0 x)) s1 d was)
          | inr f ↦ once d q st (
              now d (
                (v1.sound, n, unmarked-Reached cf s1.mem v1.sound c n.0 f),
                ky,
                λ x. la.frozen c n.0 x,
              ))
        ],
      )

  -- A node that was in the list and is marked: there was a time without its key.
  pub fade :
      (s0 : State) (c : ℕ)
      → Valid cf s0
      → (s1 : State) (d : During s0 s1) → Once (InList c) s0 s1 d
      → s1.mem.marked c ≡ true
      → Once (λ m. Absent (words m) (s1.mem.key c)) s0 s1 d
  fade s0 c v _ _ (now {s1} d (so, n, r)) mk = now d (marked-Absent cf s1.mem so c n mk r)
  fade s0 c v _ _ (once {s1} {s2} d q st h) mk =
      let (n, was) = recall s0 c v s1 d h in
      let v1 = during-Valid s0 s1 d v in
      let ky = (Step-Lasts cf st v1).key c n.0 in
      elim (Bool-cases (s1.mem.marked c)) [
        | inl mk1 ↦
            once d q st
              (subst (λ x. Once (λ m. Absent (words m) x) s0 s1 d) ky (fade s0 c v s1 d h mk1))
        | inr f ↦
            let (t, ch) = Step-Change cf st v1 in
            now (more d q st) (
              subst (Absent (words s2.mem)) ky
                (step_marks cf t s1.mem s2.mem v1.sound ch c n.0 f mk))
      ]

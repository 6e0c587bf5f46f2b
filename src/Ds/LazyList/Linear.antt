-- ===== src/Ds/LazyList/Linear.antt =====
-- The calls of contains, erase and insertIfAbsent of the lazy list against single steps of the
-- abstract map.
use pop_setbench.Base.{
  ℕ, ◌≡◌, refl, sym, ap, subst, ◌∙◌, inl, inr, true, false, ◌==◌, ==_iff, ==_refl, Bool-cases,
}
use pop_setbench.Ds.HmList.{Config}
use pop_setbench.Ds.HmList.Runs.{Fresh}
use pop_setbench.Ds.HmList.Spec.{Op}
use pop_setbench.Ds.LazyList.{Memory, Pc, State, advance, call_contains, call_update, create}
use pop_setbench.Ds.LazyList.Act.Work.{Allocated}
use pop_setbench.Ds.LazyList.Runs.{
  rests, Valid, Step, advances, calls_contains, calls_update, Step-Valid, Run, Run-Valid,
  act-others,
}
use pop_setbench.Ds.LazyList.Runs.Start.{create-Valid}
use pop_setbench.Ds.LazyList.Points.{
  Answer, Tells, to_look, to_scan, to_read, to_start, to_walk, to_work, to_answer, to_return,
  Tells-up,
}
use pop_setbench.Ds.LazyList.OwnSteps.Work.{own-Tells}
use pop_setbench.Ds.LazyList.Hindsight.{
  Step-Lasts, Begins, begins_contains, begins_update, During, begun, more, now, once, during-Valid,
}
use pop_setbench.Ds.LazyList.Moments.{
  answer, Sometime, at_last, earlier, Does, Had, Came, Known, forward, beyond, faded,
}

module _ (cf : Config) (tid : ℕ) where
  first-Known :
      (s : State) (op : Op) (s0 : State) → Begins cf tid s op s0 → Known cf tid op s0 s0 begun
  unfolding call_contains call_update
  first-Known s _ _ (begins_contains k r b) = rw (==_refl tid) (to_look k)
  first-Known s _ _ (begins_update u k r b st) = rw (==_refl tid) (to_start u k)

  -- One step more: of the thread itself, and of another one.
  own-Known :
      (op : Op) (s0 s : State) (a : ℕ) (d : During cf tid s0 s) (q : rests (s.pc tid) ≡ false)
      (al : Allocated a (s.pc tid) s.mem)
      → Valid cf s0
      → Known cf tid op s0 s d
      → Known cf tid op s0 (advance cf tid a s) (more d q (advances s tid a al))
  unfolding advance
  own-Known op s0 s a d q al v0 t =
      let st = advances s tid a al in
      let s' = advance cf tid a s in
      let v = during-Valid cf tid s0 s d v0 in
      own-Tells cf tid a (Had cf tid op s0 s d) (Had cf tid op s0 s' (more d q st))
        (λ p h. earlier d q st h) (Came cf tid s0 s d) (Came cf tid s0 s' (more d q st))
        (λ k c h. once d q st h) s v.sound op (s.pc tid) (v.fits tid) al t refl
        (record {
          meets = λ k c m. now d (v.sound, m);
          forward = forward cf tid s0 s v0 d;
          beyond = beyond cf tid s0 s v0 d op;
          faded = faded cf tid s0 s v0 d op;
        })
        (λ p r. at_last d q st refl r)

  other-Known :
      (op : Op) (s0 s s' : State) (d : During cf tid s0 s) (q : rests (s.pc tid) ≡ false)
      (st : Step cf s s')
      → Valid cf s0
      → s.pc tid ≡ s'.pc tid
      → Known cf tid op s0 s d
      → Known cf tid op s0 s' (more d q st)
  other-Known op s0 s s' d q st v0 at t =
      let v = during-Valid cf tid s0 s d v0 in
      subst (Tells (Had cf tid op s0 s' (more d q st)) (Came cf tid s0 s' (more d q st)) s'.mem op)
        at
        (Tells-up (Had cf tid op s0 s d) (Had cf tid op s0 s' (more d q st))
          (λ p h. earlier d q st h) (Came cf tid s0 s d) (Came cf tid s0 s' (more d q st))
          (λ k c h. once d q st h) cf tid s.mem s'.mem (Step-Lasts cf st v) op (s.pc tid)
          (v.fits tid) t)

  -- A thread that is in an operation calls none.
  pub calls_not :
      (t : ℕ) (s : State) → rests (s.pc t) ≡ true → rests (s.pc tid) ≡ false → (t == tid) ≡ false
  calls_not t s r q = elim (Bool-cases (t == tid)) [
    | inl e ↦
        let same : t ≡ tid = (==_iff t tid).0 e in
        absurd (let clash : true ≡ false = sym r ∙ ap (λ x. rests (s.pc x)) same ∙ q in cc)
    | inr f ↦ f
  ]

  Step-Known :
      (op : Op) (s0 s s' : State) (d : During cf tid s0 s) (q : rests (s.pc tid) ≡ false)
      (st : Step cf s s')
      → Valid cf s0
      → Known cf tid op s0 s d
      → Known cf tid op s0 s' (more d q st)
  unfolding advance call_contains call_update
  Step-Known op s0 _ _ d q (advances s t a al) v h = elim (Bool-cases (t == tid)) [
    | inl e ↦ let same : tid ≡ t = sym ((==_iff t tid).0 e) in J_step same al
    | inr f ↦
        other-Known op s0 s (advance cf t a s) d q (advances s t a al) v
          (act-others cf t a tid f (s.pc t) s) h
  ]
    where
      J_step :
          tid ≡ t
          → (al' : Allocated a (s.pc t) s.mem)
          → Known cf tid op s0 (advance cf t a s) (more d q (advances s t a al'))
      J_step same =
          subst
            (λ x.
              (al' : Allocated a (s.pc x) s.mem)
              → Known cf tid op s0 (advance cf x a s) (more d q (advances s x a al')))
            same (λ al'. own-Known op s0 s a d q al' v h)
  Step-Known op s0 _ _ d q (calls_contains s t k r b) v h =
      other-Known op s0 s (call_contains t k s) d q (calls_contains s t k r b) v
        (rw (calls_not t s r q) refl) h
  Step-Known op s0 _ _ d q (calls_update s t u k r b st) v h =
      other-Known op s0 s (call_update t u k s) d q (calls_update s t u k r b st) v
        (rw (calls_not t s r q) refl) h

  Begins-Step : (s : State) (op : Op) (s0 : State) → Begins cf tid s op s0 → Step cf s s0
  Begins-Step s _ _ (begins_contains k r b) = calls_contains s tid k r b
  Begins-Step s _ _ (begins_update u k r b st) = calls_update s tid u k r b st

  known :
      (s : State) (op : Op) (s0 : State)
      → Valid cf s0
      → Begins cf tid s op s0
      → (s1 : State) (d : During cf tid s0 s1) → Known cf tid op s0 s1 d
  known s op s0 v b _ begun = first-Known s op s0 b
  known s op s0 v b _ (more {s1} {s2} d q st) =
      Step-Known op s0 s1 s2 d q st v (known s op s0 v b s1 d)

  busy : ¬ (false ≡ true)
  busy e = cc

  -- At rest the operation has taken effect.
  rest-Had :
      (H : Answer → Type 0) (V : ℕ → ℕ → Type 0) (m : Memory) (op : Op) (p : Pc)
      → Tells H V m op p
      → rests p ≡ true
      → H (answer p)
  unfolding rests
  rest-Had H V m op _ (to_answer _ b h) r = h
  rest-Had H V m op _ (to_return _ b h) r = h
  rest-Had H V m _ _ (to_look k) r = absurd (busy r)
  rest-Had H V m _ _ (to_scan k c v) r = absurd (busy r)
  rest-Had H V m _ _ (to_read k c v) r = absurd (busy r)
  rest-Had H V m _ _ (to_start u k) r = absurd (busy r)
  rest-Had H V m _ _ (to_walk u k p c v) r = absurd (busy r)
  rest-Had H V m _ _ (to_work u k p c st h) r = absurd (busy r)

  -- A thread that calls contains, erase or insertIfAbsent of the lazy list in a state of a run from a
  -- new list, and that is at rest behind the steps `d` of all threads: at one of these steps,
  -- which the thread made itself, or in a state between them, the map goes over as it does in the
  -- operation on the abstract map, whose answer is what the thread then answers.
  pub lazy_linearizable :
      (head : ℕ)
      → Fresh cf head
      → (s : State) → Run cf (create cf head) s
      → (op : Op) (s0 : State) → Begins cf tid s op s0
      → (s1 : State) (d : During cf tid s0 s1) → rests (s1.pc tid) ≡ true
      → Sometime cf tid (Does cf tid op (answer (s1.pc tid))) s0 s1 d
  lazy_linearizable head fr s r op s0 b s1 d rest =
      let v0 = Step-Valid cf (Begins-Step s op s0 b) (Run-Valid cf r (create-Valid cf head fr)) in
      rest-Had (Had cf tid op s0 s1 d) (Came cf tid s0 s1 d) s1.mem op (s1.pc tid)
        (known s op s0 v0 b s1 d) rest

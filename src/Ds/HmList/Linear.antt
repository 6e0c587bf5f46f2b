-- ===== src/Ds/HmList/Linear.antt =====
-- The calls of contains, erase and insertIfAbsent against single steps of the abstract map.
use pop_setbench.Base.{
  ℕ, ◌%◌, ◌<◌, ◌≡◌, refl, sym, ap, subst, ◌∙◌, inl, inr, true, false, ◌==◌, ==_iff, ==_refl,
  Bool-cases,
}
use pop_setbench.Ds.HmList.{
  Config, unused, Memory, contains, erase, insert, Pc, State, advance, call_contains, call_erase,
  call_insert, create,
}
use pop_setbench.Ds.HmList.Shape.{Linked}
use pop_setbench.Ds.HmList.Runs.Start.{create-Valid}
use pop_setbench.Ds.HmList.Runs.{
  rests, Step, advances, calls_contains, calls_erase, calls_insert, Run, Good, Step-Valid,
  Run-Valid, Fresh,
}
use pop_setbench.Ds.HmList.Contents.{Entry, Same}
use pop_setbench.Ds.HmList.Spec.{Op, look_up, remove, put_if_absent, Applies}
use pop_setbench.Ds.HmList.Points.{
  looks, removes, puts, Tells, to_seek, to_stand, to_load, to_check, to_unlink, to_store, to_link,
  to_read, to_mark, to_cut, to_answer, to_return, Tells-up,
}
use pop_setbench.Ds.HmList.OwnSteps.{act-Tells}
use pop_setbench.Ds.HmList.Keeps.{act-Keeps, act-others, new_node-keeps}

module _ (cf : Config) (tid : ℕ) where
  -- The thread calls an operation.
  pub data Begins (s : State) : Op → State → Type 0 where
    begins_contains :
        (k : ℕ)
        → rests (s.pc tid) ≡ true
        → k < cf.key_max
        → Begins s (look_up k) (call_contains tid k s)
    begins_erase :
        (k : ℕ)
        → rests (s.pc tid) ≡ true
        → k < cf.key_max
        → Begins s (remove k) (call_erase tid k s)
    begins_insert :
        (k value a : ℕ)
        → rests (s.pc tid) ≡ true
        → k < cf.key_max
        → s.mem.status a ≡ unused
        → a % 2 ≡ 0
        → Begins s (put_if_absent k value) (call_insert tid k value a s)

  -- The steps of all threads from `s0` on, for as long as the thread is in its operation.
  pub data During (s0 : State) : State → Type 0 where
    begun : During s0 s0
    more : {s1 s2 : State} → During s0 s1 → rests (s1.pc tid) ≡ false → Step cf s1 s2 → During s0 s2

  -- The step is one that the thread makes in its operation.
  abbrev pub IsOwn : {s s' : State} → Step cf s s' → Type 0
  IsOwn (advances s t) = t ≡ tid
  IsOwn (calls_contains s t k r lt) = ⊥
  IsOwn (calls_erase s t k r lt) = ⊥
  IsOwn (calls_insert s t k value a r lt fresh even) = ⊥

  -- At some step of these, which the thread made itself, the memory changed as `R` says.
  pub data Sometime (R : Memory → Memory → Type 0) (s0 : State)
      : (s1 : State) → During s0 s1 → Type 0 where
    at_last :
        {s1 s2 : State} (d : During s0 s1) (q : rests (s1.pc tid) ≡ false) (st : Step cf s1 s2)
        → IsOwn st
        → R s1.mem s2.mem
        → Sometime R s0 s2 (more d q st)
    before :
        {s1 s2 : State} (d : During s0 s1) (q : rests (s1.pc tid) ≡ false) (st : Step cf s1 s2)
        → Sometime R s0 s1 d
        → Sometime R s0 s2 (more d q st)

  Sometime-map :
      (R Q : Memory → Memory → Type 0) (s0 : State)
      → ((m m' : Memory) → R m m' → Q m m')
      → (s1 : State) (d : During s0 s1) → Sometime R s0 s1 d
      → Sometime Q s0 s1 d
  Sometime-map R Q s0 f _ _ (at_last d q st own r) = at_last d q st own (f _ _ r)
  Sometime-map R Q s0 f _ _ (before d q st h) = before d q st (Sometime-map R Q s0 f _ d h)

  Begins-Step : (s : State) (op : Op) (s0 : State) → Begins s op s0 → Step cf s s0
  Begins-Step s _ _ (begins_contains k r lt) = calls_contains s tid k r lt
  Begins-Step s _ _ (begins_erase k r lt) = calls_erase s tid k r lt
  Begins-Step s _ _ (begins_insert k v a r lt fresh even) = calls_insert s tid k v a r lt fresh even

  pub during-Valid : (s0 s1 : State) → During s0 s1 → Good cf s0 → Good cf s1
  during-Valid s0 _ begun v = v
  during-Valid s0 _ (more d q st) v = Step-Valid cf st (during-Valid s0 _ d v)

  -- What has been seen in the map, and the effect of the operation.
  abbrev Was : (s0 s1 : State) → During s0 s1 → ℕ → ℕ → Type 0
  Was s0 s1 d k v = Sometime (λ m m'. Entry m k v × Same m m') s0 s1 d

  abbrev Had : (op : Op) (s0 s1 : State) → During s0 s1 → Pc → Type 0
  Had op s0 s1 d p = Sometime (Applies cf.no_value op p) s0 s1 d

  abbrev Known : (op : Op) (s0 s1 : State) → During s0 s1 → Type 0
  Known op s0 s1 d = Tells (Had op s0 s1 d) (Was s0 s1 d) s1.mem op (s1.pc tid)

  first-Known : (s : State) (op : Op) (s0 : State) → Begins s op s0 → Known op s0 s0 begun
  unfolding call_contains call_erase call_insert
  first-Known s _ _ (begins_contains k r lt) =
      rw (==_refl tid) (to_seek (look_up k) contains k (looks k))
  first-Known s _ _ (begins_erase k r lt) =
      rw (==_refl tid) (to_seek (remove k) erase k (removes k))
  first-Known s _ _ (begins_insert k v a r lt fresh even) =
      rw (==_refl tid) (to_seek (put_if_absent k v) (insert v a) k (puts k v a))

  -- One step more: of the thread itself, and of another one.
  own-Known :
      (op : Op) (s0 s : State) (d : During s0 s) (q : rests (s.pc tid) ≡ false)
      → Good cf s
      → Known op s0 s d
      → Known op s0 (advance cf tid s) (more d q (advances s tid))
  unfolding advance
  own-Known op s0 s d q v t =
      let st = advances s tid in
      let s' = advance cf tid s in
      act-Tells cf tid (Had op s0 s d) (Had op s0 s' (more d q st)) (λ p h. before d q st h)
        (Was s0 s d) (Was s0 s' (more d q st)) (λ k w h. before d q st h) op (s.pc tid) s v.shape
        (v.fits tid) t
        (λ k w was p f.
          Sometime-map _ (Applies cf.no_value op p) s0 (λ m m' h. f m m' h.0 h.1) s d was)
        refl (λ p a. at_last d q st refl a) (λ k w e same. at_last d q st refl (e, same))

  other-Known :
      (op : Op) (s0 s s' : State) (d : During s0 s) (q : rests (s.pc tid) ≡ false)
      (st : Step cf s s')
      → Good cf s
      → ((n : ℕ) → Linked s.mem n → (s.mem.key n ≡ s'.mem.key n) × (s.mem.val n ≡ s'.mem.val n))
      → s.pc tid ≡ s'.pc tid
      → Known op s0 s d
      → Known op s0 s' (more d q st)
  other-Known op s0 s s' d q st v same at t =
      subst (Tells (Had op s0 s' (more d q st)) (Was s0 s' (more d q st)) s'.mem op) at (
        Tells-up (Had op s0 s d) (Had op s0 s' (more d q st)) (λ p h. before d q st h) (Was s0 s d)
          (Was s0 s' (more d q st)) (λ k w h. before d q st h) cf tid s.mem s'.mem same op
          (s.pc tid) (v.fits tid) t)

  -- A thread that is in an operation calls none.
  calls_not :
      (t : ℕ) (s : State) → rests (s.pc t) ≡ true → rests (s.pc tid) ≡ false → (t == tid) ≡ false
  calls_not t s r q = elim (Bool-cases (t == tid)) [
    | inl e ↦
        let same : t ≡ tid = (==_iff t tid).0 e in
        absurd (let clash : true ≡ false = sym r ∙ ap (λ x. rests (s.pc x)) same ∙ q in cc)
    | inr f ↦ f
  ]

  Step-Known :
      (op : Op) (s0 s s' : State) (d : During s0 s) (q : rests (s.pc tid) ≡ false)
      (st : Step cf s s')
      → Good cf s
      → Known op s0 s d
      → Known op s0 s' (more d q st)
  unfolding advance call_contains call_erase call_insert
  Step-Known op s0 _ _ d q (advances s t) v h = elim (Bool-cases (t == tid)) [
    | inl e ↦
        subst (λ x. Known op s0 (advance cf x s) (more d q (advances s x)))
          (sym ((==_iff t tid).0 e)) (own-Known op s0 s d q v h)
    | inr f ↦
        let (sk, sv) = act-Keeps cf t (s.pc t) s in
        other-Known op s0 s (advance cf t s) d q (advances s t) v
          (λ n l. (ap (λ g. g n) sk, ap (λ g. g n) sv)) (act-others cf t tid f (s.pc t) s).0 h
  ]
  Step-Known op s0 _ _ d q (calls_contains s t k r lt) v h =
      other-Known op s0 s (call_contains t k s) d q (calls_contains s t k r lt) v
        (λ n l. (refl, refl)) (rw (calls_not t s r q) refl) h
  Step-Known op s0 _ _ d q (calls_erase s t k r lt) v h =
      other-Known op s0 s (call_erase t k s) d q (calls_erase s t k r lt) v (λ n l. (refl, refl))
        (rw (calls_not t s r q) refl) h
  Step-Known op s0 _ _ d q (calls_insert s t k w a r lt fresh even) v h =
      other-Known op s0 s (call_insert t k w a s) d q (calls_insert s t k w a r lt fresh even) v
        (new_node-keeps t a k w s.mem fresh) (rw (calls_not t s r q) refl) h

  known :
      (s : State) (op : Op) (s0 : State)
      → Good cf s
      → Begins s op s0
      → (s1 : State) (d : During s0 s1) → Known op s0 s1 d
  known s op s0 v b _ begun = first-Known s op s0 b
  known s op s0 v b _ (more {s1} {s2} d q st) =
      Step-Known op s0 s1 s2 d q st (during-Valid s0 s1 d (Step-Valid cf (Begins-Step s op s0 b) v))
        (known s op s0 v b s1 d)

  busy : ¬ (false ≡ true)
  busy e = cc

  -- At rest the operation has taken effect.
  rest-Had :
      (H : Pc → Type 0) (W : ℕ → ℕ → Type 0) (m : Memory) (op : Op) (p : Pc)
      → Tells H W m op p
      → rests p ≡ true
      → H p
  unfolding rests
  rest-Had H W m op _ (to_answer _ b h) r = h
  rest-Had H W m op _ (to_return _ b h) r = h
  rest-Had H W m op _ (to_seek _ c k a) r = absurd (busy r)
  rest-Had H W m op _ (to_stand _ c k p cu a) r = absurd (busy r)
  rest-Had H W m op _ (to_load _ c k p cu nx mk a) r = absurd (busy r)
  rest-Had H W m op _ (to_check _ c k p cu nx mk a w) r = absurd (busy r)
  rest-Had H W m op _ (to_unlink _ c k p cu nx a) r = absurd (busy r)
  rest-Had H W m _ _ (to_store k v a p cu) r = absurd (busy r)
  rest-Had H W m _ _ (to_link k v a p cu) r = absurd (busy r)
  rest-Had H W m _ _ (to_read k v cu h) r = absurd (busy r)
  rest-Had H W m _ _ (to_mark k p cu nx) r = absurd (busy r)
  rest-Had H W m _ _ (to_cut k k' p cu nx res h) r = absurd (busy r)

  -- A thread that calls contains, erase or insertIfAbsent in a state of a run from a new list, and that
  -- is at rest behind the steps `d` of all threads: at one of these steps, which the thread made
  -- itself, the map goes over as it does in the operation on the abstract map, whose answer is what
  -- the thread then answers.
  pub linearizable :
      (head : ℕ)
      → Fresh cf head
      → (s : State) → Run cf (create cf head) s
      → (op : Op) (s0 : State) → Begins s op s0
      → (s1 : State) (d : During s0 s1) → rests (s1.pc tid) ≡ true
      → Sometime (Applies cf.no_value op (s1.pc tid)) s0 s1 d
  linearizable head fr s r op s0 b s1 d rest =
      rest-Had (Had op s0 s1 d) (Was s0 s1 d) s1.mem op (s1.pc tid)
        (known s op s0 (Run-Valid cf r (create-Valid cf head fr)) b s1 d) rest

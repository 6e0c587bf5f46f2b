-- ===== src/Ds/HmList/Protected.antt =====
-- contains and insertIfAbsent and what they read between startOp and endOp of the record manager.
use pop_setbench.Base.{
  ℕ, ◌≡◌, refl, sym, ap, ◌∙◌, subst, Bool, not, true, false, ◌==◌, ==_refl, ==_iff, if◌then◌else◌,
  update, Bool-cases, inl, inr, leb,
}
use pop_setbench.Ds.HmList.{
  mix_ptr_mk, set_mk, Config, Caller, contains, erase, insert, cleanup, Pc, idle, answered,
  returned, seeking, at_node, loaded, checked, unlinking, storing, linking, reading, marking,
  cutting, State, goes, leaves, writes, unlinks, links, respond, act, advance, call_contains,
  call_erase, call_insert, create,
}
use pop_setbench.Ds.HmList.Keeps.{act-others}
use pop_setbench.Ds.HmList.Runs.{
  Step, advances, calls_contains, calls_erase, calls_insert, Run, done, further,
}

abbrev reads_only : Caller → Bool
reads_only contains = true
reads_only (insert v a) = true
reads_only _ = false

-- The thread is inside contains or insertIfAbsent.
unfoldable pub is_inside : Pc → Bool
is_inside (seeking c k) = reads_only c
is_inside (at_node c k p cu) = reads_only c
is_inside (loaded c k p cu nx mk) = reads_only c
is_inside (checked c k p cu nx mk) = reads_only c
is_inside (unlinking c k p cu nx) = reads_only c
is_inside (storing k v a p cu) = true
is_inside (linking k v a p cu) = true
is_inside (reading cu) = true
is_inside _ = false

-- It is about to read `curr->val`, the answer of insertIfAbsent.
unfoldable pub reads_value : Pc → Bool
reads_value (reading cu) = true
reads_value _ = false

module _ (cf : Config) (tid : ℕ) where
  abbrev Guarded : State → Type 0
  Guarded s = is_inside (s.pc tid) ≡ true → s.active tid ≡ not (reads_value (s.pc tid))

  -- From a point `p`, at which the thread is guarded.
  abbrev Known : Pc → State → Type 0
  Known p s = is_inside p ≡ true → s.active tid ≡ not (reads_value p)

  on : (p : Pc) (s : State) → Known p s → Guarded (goes tid p s)
  on p s h e = rw (==_refl tid) (h (rw (==_refl tid) at e))

  out : (p : Pc) (s : State) → is_inside p ≡ false → Guarded (leaves tid p s)
  out p s off e = absurd (let clash : false ≡ true = sym off ∙ (rw (==_refl tid) at e) in cc)

  pick : (b : Bool) (x y : State) → Guarded x → Guarded y → Guarded (if b then x else y)
  pick true x y h g = h
  pick false x y h g = g

  respond-Guarded :
      (c : Caller) (k : ℕ) (found : Bool) (p cu nx : ℕ) (s : State)
      → (reads_only c ≡ true → s.active tid ≡ true)
      → Guarded (respond cf tid c k found p cu nx s)
  unfolding respond is_inside reads_value
  respond-Guarded contains k found p cu nx s h = out (answered found) s refl
  respond-Guarded erase k true p cu nx s h = on (marking k p cu nx) s h
  respond-Guarded erase k false p cu nx s h = out (returned cf.no_value) s refl
  respond-Guarded (insert v a) k true p cu nx s h = λ e. rw (==_refl tid) refl
  respond-Guarded (insert v a) k false p cu nx s h = on (storing k v a p cu) s h
  respond-Guarded (cleanup res) k found p cu nx s h = out (returned res) s refl

  act-Guarded :
      (p : Pc) (s : State) → Guarded s → s.pc tid ≡ p → Known p s → Guarded (act cf tid p s)
  unfolding act is_inside reads_value
  act-Guarded idle s g at h = g
  act-Guarded (answered b) s g at h = g
  act-Guarded (returned v) s g at h = g
  act-Guarded (seeking c k) s g at h = on (at_node c k 0 (s.mem.link 0)) s h
  act-Guarded (at_node c k p cu) s g at h =
      pick (cu == 0) _ _ (respond-Guarded c k false p cu 0 s h) (on (loaded c k p cu _ _) s h)
  act-Guarded (loaded c k p cu nx mk) s g at h =
      pick (mix_ptr_mk nx mk == s.mem.link cu) _ _ (on (checked c k p cu nx mk) s h)
        (on (seeking c k) s h)
  act-Guarded (checked c k p cu nx mk) s g at h =
      pick (s.mem.link p == cu) _ _
        (pick mk _ _ (on (unlinking c k p cu nx) s h) (
          pick (leb k (s.mem.key cu)) _ _ (respond-Guarded c k (s.mem.key cu == k) p cu nx s h)
            (on (at_node c k cu nx) s h)))
        (on (seeking c k) s h)
  act-Guarded (unlinking c k p cu nx) s g at h =
      pick (s.mem.link p == cu) _ _
        (on (at_node c k p nx) (record s { mem = unlinks p cu nx s.mem }) h) (on (seeking c k) s h)
  act-Guarded (storing k v a p cu) s g at h =
      on (linking k v a p cu) (record s { mem = writes a cu s.mem }) h
  act-Guarded (linking k v a p cu) s g at h =
      pick (s.mem.link p == cu) _ _
        (out (returned cf.no_value) (record s { mem = links p a s.mem }) refl)
        (on (seeking (insert v a) k) s h)
  act-Guarded (reading cu) s g at h =
      on (returned (s.mem.val cu)) s (λ e. absurd (let clash : false ≡ true = e in cc))
  act-Guarded (marking k p cu nx) s g at h =
      pick (s.mem.link cu == nx) _ _
        (on (cutting k p cu nx _) (record s { mem = writes cu (set_mk nx) s.mem }) h)
        (out (seeking erase k) s refl)
  act-Guarded (cutting k p cu nx res) s g at h =
      pick (s.mem.link p == cu) _ _
        (out (returned res) (record s { mem = unlinks p cu nx s.mem }) refl)
        (on (seeking (cleanup res) k) s h)

  -- A call sets what is asked for.
  called :
      (t : ℕ) (p : Pc) (s : State)
      → reads_value p ≡ false
      → Guarded s
      → is_inside (update s.pc t p tid) ≡ true
      → update s.active t true tid ≡ not (reads_value (update s.pc t p tid))
  called t p s early g e = elim (Bool-cases (t == tid)) [
    | inl y ↦ rw (y, early) refl
    | inr f ↦ rw f (g (rw f at e))
  ]

  Step-Guarded : (s s' : State) → Step cf s s' → Guarded s → Guarded s'
  unfolding advance call_contains call_erase call_insert reads_value
  Step-Guarded s _ (advances _ t) g = elim (Bool-cases (t == tid)) [
    | inl e ↦
        subst (λ x. Guarded (advance cf x s)) (sym ((==_iff t tid).0 e))
          (act-Guarded (s.pc tid) s g refl g)
    | inr f ↦
        let (same, on) = act-others cf t tid f (s.pc t) s in
        λ i. sym on ∙ g (ap is_inside same ∙ i) ∙ ap (λ p. not (reads_value p)) same
  ]
  Step-Guarded s _ (calls_contains _ t k r lt) g = called t (seeking contains k) s refl g
  Step-Guarded s _ (calls_erase _ t k r lt) g = called t (seeking erase k) s refl g
  Step-Guarded s _ (calls_insert _ t k v a r lt fresh even) g =
      called t (seeking (insert v a) k) s refl g

  -- In every state of a run from a new list, a thread that is inside contains or insertIfAbsent is
  -- between startOp and endOp of the record manager, unless it is about to read the value of the
  -- node that insertIfAbsent has found: then it is not.
  pub Run-protected :
      (head : ℕ)
      → (s : State) → Run cf (create cf head) s
      → is_inside (s.pc tid) ≡ true
      → s.active tid ≡ not (reads_value (s.pc tid))
  unfolding create is_inside
  Run-protected head _ done e = absurd (let clash : false ≡ true = e in cc)
  Run-protected head _ (further {s1} {s2} r st) e =
      Step-Guarded s1 s2 st (Run-protected head s1 r) e

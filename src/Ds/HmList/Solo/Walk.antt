-- ===== src/Ds/HmList/Solo/Walk.antt =====
-- The inner loop of list_search, run by one thread alone: each round comes to a node with a higher key.
use pop_setbench.Base.{
  ℕ, suc, ◌+◌, ◌%◌, ◌≤◌, ◌<◌, ◌≡◌, ◌≢◌, refl, ap, subst, ◌∙◌, inl, inr, arith, true, false, Bool,
  ◌==◌, ==_iff, ==_refl, Bool-cases, leb,
}
use pop_setbench.Ds.HmList.{
  get_ptr, get_mk, Config, Memory, Caller, at_node, loaded, checked, unlinking, State, goes,
  unlinks, respond, advance,
}
use pop_setbench.Ds.HmList.Shape.{rank, Shape}
use pop_setbench.Ds.HmList.Threads.{Holds, Before, Node, Fits, stands}
use pop_setbench.Ds.HmList.Act.{behind}
use pop_setbench.Ds.HmList.Runs.{Good}
use pop_setbench.Ds.HmList.Solo.{
  EndsIn, onward, slower, Good-on, at_pc, mix, at_node_goes, loaded_goes, checked_unlinks,
  checked_answers, checked_goes, unlinking_goes,
}
use pop_setbench.Ds.HmList.Solo.Ends.{respond_ends}

module _ (cf : Config) (tid : ℕ) where
  pub at_facts :
      (m : Memory) (c : Caller) (k p cu : ℕ)
      → Fits cf m tid (at_node c k p cu)
      → (k < cf.key_max) × Holds m tid c k × Before cf m k p × Node cf m cu
  at_facts m _ _ _ _ (stands c k p cu lt h b n) = (lt, h, b, n)

  key_up :
      (m : Memory) (cu : ℕ)
      → Shape cf m
      → Node cf m cu
      → cu ≢ cf.tail
      → m.key cu < m.key (get_ptr (m.link cu))
  key_up m cu sh n t =
      let ((l, z), up) = behind cf m cu sh n.0 t in
      let z0 : (cu == 0) ≡ false = ground (arith, n.1) in
      let z1 : (get_ptr (m.link cu) == 0) ≡ false = ground (arith, z) in
      let h : suc (m.key cu) < rank m (get_ptr (m.link cu)) = rw z0 at up in
      let h' : suc (m.key cu) < suc (m.key (get_ptr (m.link cu))) = rw z1 at h in omega (arith, h')

  -- The thread is at the head of the inner loop, and `prev` leads to `curr`.
  abbrev pub Stands : Caller → (k p cu : ℕ) → State → Type 0
  Stands c k p cu s = Good cf s × (s.pc tid ≡ at_node c k p cu) × (s.mem.link p ≡ cu)

  -- From there on it comes to rest after at most `b` steps when it is at a node with a higher key.
  abbrev Higher : (b : ℕ) → Caller → (k cu : ℕ) → State → Type 0
  Higher b c k cu s =
      (s' : State) (p' cu' : ℕ)
      → Stands c k p' cu' s'
      → s.mem.key cu < s'.mem.key cu'
      → EndsIn cf tid b s'

  module _ (b : ℕ) (enough : 2 ≤ b) (c : Caller) (k p cu : ℕ) (s : State) (v : Good cf s)
      (at : s.pc tid ≡ at_node c k p cu) (synced : s.mem.link p ≡ cu)
      (higher : Higher b c k cu s) where
    abbrev facts : (k < cf.key_max) × Holds s.mem tid c k × Before cf s.mem k p × Node cf s.mem cu
    facts = at_facts s.mem c k p cu (subst (Fits cf s.mem tid) at (v.fits tid))

    abbrev node : Node cf s.mem cu
    node = facts.3

    abbrev nx : ℕ
    nx = get_ptr (s.mem.link cu)

    abbrev s1 : State
    s1 = goes tid (loaded c k p cu nx (get_mk (s.mem.link cu))) s

    abbrev s2 : State
    s2 = goes tid (checked c k p cu nx (get_mk (s.mem.link cu))) s1

    to_1 : advance cf tid s ≡ s1
    to_1 = at_node_goes cf tid s c k p cu at node.1

    to_2 : advance cf tid s1 ≡ s2
    to_2 =
        loaded_goes cf tid s1 c k p cu nx (get_mk (s.mem.link cu))
          (at_pc cf tid (loaded c k p cu nx (get_mk (s.mem.link cu))) s)
          (mix cf tid (s.mem.link cu))

    Good-2 : Good cf s2
    Good-2 = Good-on cf tid s1 s2 to_2 (Good-on cf tid s s1 to_1 v)

    at_2 : (mk : Bool) → get_mk (s.mem.link cu) ≡ mk → s2.pc tid ≡ checked c k p cu nx mk
    at_2 mk e =
        at_pc cf tid (checked c k p cu nx (get_mk (s.mem.link cu))) s1 ∙ ap (checked c k p cu nx) e

    -- The node is marked, and is unlinked.
    marked_round : get_mk (s.mem.link cu) ≡ true → EndsIn cf tid (b + 2) s2
    unfolding unlinks
    marked_round e =
        let s3 = goes tid (unlinking c k p cu nx) s2 in
        let s4 = goes tid (at_node c k p nx) (record s3 { mem = unlinks p cu nx s.mem }) in
        let to_3 = checked_unlinks cf tid s2 c k p cu nx synced (at_2 true e) in
        let to_4 =
          unlinking_goes cf tid s3 c k p cu nx synced (at_pc cf tid (unlinking c k p cu nx) s2) in
        let good_4 = Good-on cf tid s3 s4 to_4 (Good-on cf tid s2 s3 to_3 Good-2) in
        let odd : s.mem.link cu % 2 ≡ 1 = (==_iff (s.mem.link cu % 2) 1).0 e in
        let t : cu ≢ cf.tail = λ same. omega (arith, odd, ap s.mem.link same, v.shape.tail_last) in
        let at_4 : s4.pc tid ≡ at_node c k p nx = rw (==_refl tid) refl in
        let synced_4 : s4.mem.link p ≡ nx = rw (==_refl p) refl in
        slower cf tid (suc (suc b)) (b + 2) s2 (omega arith) (
          onward cf tid (suc b) s2 s3 to_3 (
            onward cf tid b s3 s4 to_4
              (higher s4 p nx (good_4, at_4, synced_4) (key_up s.mem cu v.shape node t))))

    -- The node is not marked: the search answers, or goes on behind it.
    free_round : get_mk (s.mem.link cu) ≡ false → EndsIn cf tid (b + 1) s2
    free_round e =
        let even : s.mem.link cu % 2 ≢ 1 = ground (arith, e) in
        let same : s.mem.link cu ≡ nx = omega (arith, even) in
        let z0 : (cu == 0) ≡ false = ground (arith, node.1) in
        elim (Bool-cases (leb k (s.mem.key cu))) [
          | inl y ↦
              let le : k ≤ s.mem.key cu = ground (arith, y) in
              let low = facts.2.2 in
              let ne : p ≢ cu = λ eq.
                let h : rank s.mem cu < suc k = subst (λ x. rank s.mem x < suc k) eq low in
                let h' : suc (s.mem.key cu) < suc k = rw z0 at h in omega (arith, h', le) in
              let s3 = respond cf tid c k (s.mem.key cu == k) p cu nx s2 in
              slower cf tid 3 (b + 1) s2 (omega (arith, enough)) (
                onward cf tid 2 s2 s3
                  (checked_answers cf tid s2 c k p cu nx synced (at_2 false e) y)
                  (respond_ends cf tid c k (s.mem.key cu == k) p cu nx s2 facts.1 facts.2.0 synced
                    same ne))
          | inr f ↦
              let s3 = goes tid (at_node c k cu nx) s2 in
              let to_3 = checked_goes cf tid s2 c k p cu nx synced (at_2 false e) f in
              let low : s.mem.key cu < k = ground (arith, f) in
              let t : cu ≢ cf.tail =
                λ eq. omega (arith, low, facts.0, ap s.mem.key eq, v.shape.tail_key) in
              slower cf tid (suc b) (b + 1) s2 (omega arith) (
                onward cf tid b s2 s3 to_3 (
                  higher s3 cu nx
                    (Good-on cf tid s2 s3 to_3 Good-2, at_pc cf tid (at_node c k cu nx) s2, same)
                    (key_up s.mem cu v.shape node t)))
        ]

    pub round : EndsIn cf tid (b + 4) s
    round =
        let rest : EndsIn cf tid (b + 2) s2 = elim (Bool-cases (get_mk (s.mem.link cu))) [
          | inl e ↦ marked_round e
          | inr e ↦ slower cf tid (b + 1) (b + 2) s2 (omega arith) (free_round e)
        ] in
        slower cf tid (suc (suc (b + 2))) (b + 4) s (omega arith)
          (onward cf tid (suc (b + 2)) s s1 to_1 (onward cf tid (b + 2) s1 s2 to_2 rest))

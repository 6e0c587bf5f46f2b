-- ===== src/Ds/HmList/Act.antt =====
-- The steps of list_search, contains, doInsert and erase, one point after the other, and the invariant.
use pop_setbench.Base.{
  ℕ, suc, ◌%◌, ◌≤◌, ◌<◌, ◌≡◌, ◌≢◌, refl, sym, ap, subst, inl, inr, arith, true, false, ◌==◌, ==_iff,
  if◌then◌else◌, Bool-cases, leb,
}
use pop_setbench.Ds.HmList.{
  get_ptr, get_mk, mix_ptr_mk, set_mk, Config, Memory, Caller, erase, insert, cleanup, Pc, returned,
  seeking, at_node, loaded, checked, unlinking, State, goes, unlinks, respond, act,
}
use pop_setbench.Ds.HmList.Shape.{Linked, rank, Shape}
use pop_setbench.Ds.HmList.Evolve.{unlinks-Evolves, link-Spares}
use pop_setbench.Ds.HmList.Threads.{
  Holds, Before, Node, Next, Fits, rests_idle, rests_answered, rests_returned, seeks, stands, loads,
  checks, unlinks_it, stores, links_it, reads_val, marks, cuts, Before-Evolves, Node-Evolves,
  Holds-Evolves,
}
use pop_setbench.Ds.HmList.Invariant.{
  Valid, moves, respond-Valid, cut_step, link_step, store_step, mark_step,
}

module _ (cf : Config) where
  -- The node behind one that is not the tail.
  pub behind :
      (m : Memory) (cu : ℕ)
      → Shape cf m
      → Linked m cu
      → cu ≢ cf.tail
      → Node cf m (get_ptr (m.link cu)) × (rank m cu < rank m (get_ptr (m.link cu)))
  behind m cu sh l nt =
      let (l', up) = sh.order cu l nt in ((l', λ e. omega (arith, up, ap (rank m) e)), up)

  -- The branches of list_search behind its checks.
  checked-Valid :
      (tid : ℕ) (c : Caller) (k p cu nx : ℕ) (s : State)
      → Valid cf s.mem s.pc
      → k < cf.key_max
      → Holds s.mem tid c k
      → Before cf s.mem k p
      → Node cf s.mem cu
      → Next cf s.mem cu nx
      → let s' =
          if leb k (s.mem.key cu)
          then respond cf tid c k (s.mem.key cu == k) p cu nx s
          else goes tid (at_node c k cu nx) s in
        Valid cf s'.mem s'.pc
  checked-Valid tid c k p cu nx s v lt h b n x =
      let rk : rank s.mem cu ≡ suc (s.mem.key cu) =
        let z : (cu == 0) ≡ false = ground (arith, n.1) in rw z refl in
      elim (Bool-cases (leb k (s.mem.key cu))) [
        | inl e ↦
            let le : k ≤ s.mem.key cu = ground (arith, e) in
            rw e (
              respond-Valid cf tid c k (s.mem.key cu == k) p cu nx s v lt h b n x.0
                (λ y. (==_iff (s.mem.key cu) k).0 y)
                (λ y. let ne : s.mem.key cu ≢ k = ground (arith, y) in omega (arith, rk, le, ne)))
        | inr f ↦
            let low : s.mem.key cu < k = ground (arith, f) in
            let nt : cu ≢ cf.tail =
              λ same. omega (arith, low, lt, ap s.mem.key same, v.shape.tail_key) in
            rw f (
              moves cf tid s.mem s.pc (at_node c k cu nx) v
                (stands c k cu nx lt h (n.0, nt, omega (arith, rk, low)) (x.1 nt)))
      ]

  -- One step of a thread that stands at `p`.
  pub act-Valid :
      (tid : ℕ) (p : Pc) (s : State)
      → Valid cf s.mem s.pc
      → s.pc tid ≡ p
      → Fits cf s.mem tid p
      → let s' = act cf tid p s in Valid cf s'.mem s'.pc
  unfolding act unlinks
  act-Valid tid _ s v at rests_idle = v
  act-Valid tid _ s v at (rests_answered b) = v
  act-Valid tid _ s v at (rests_returned w) = v
  act-Valid tid _ s v at (seeks c k lt h) =
      let first = s.mem.link 0 in
      let same : get_ptr first ≡ first = omega (arith, v.free) in
      let root_ne : 0 ≢ cf.tail = λ e. v.shape.tail_node (sym e) in
      let (l, up) = v.shape.order 0 v.shape.root root_ne in
      let linked : Linked s.mem first = subst (Linked s.mem) same l in
      let above : rank s.mem 0 < rank s.mem first =
        subst (λ x. rank s.mem 0 < rank s.mem x) same up in
      moves cf tid s.mem s.pc (at_node c k 0 first) v (
        stands c k 0 first lt h (v.shape.root, root_ne, omega arith)
          (linked, λ e. omega (arith, above, ap (rank s.mem) e)))
  act-Valid tid _ s v at (stands c k p cu lt h b n) =
      let word = s.mem.link cu in
      let zero_no : (cu == 0) ≡ false = ground (arith, n.1) in
      rw zero_no (
        moves cf tid s.mem s.pc (loaded c k p cu (get_ptr word) (get_mk word)) v (
          loads c k p cu (get_ptr word) (get_mk word) lt h b n
            (omega arith, λ nt. (behind s.mem cu v.shape n.0 nt).0)
            (λ e. let odd : word % 2 ≡ 1 = (==_iff (word % 2) 1).0 e in omega (arith, odd))))
  act-Valid tid _ s v at (loads c k p cu nx mk lt h b n x mx) =
      elim (Bool-cases (mix_ptr_mk nx mk == s.mem.link cu)) [
        | inl e ↦ rw e (
            moves cf tid s.mem s.pc (checked c k p cu nx mk) v
              (checks c k p cu nx mk lt h b n x mx))
        | inr f ↦ rw f (moves cf tid s.mem s.pc (seeking c k) v (seeks c k lt h))
      ]
  act-Valid tid _ s v at (checks c k p cu nx true lt h b n x mx) =
      elim (Bool-cases (s.mem.link p == cu)) [
        | inl e ↦ rw e (
            moves cf tid s.mem s.pc (unlinking c k p cu nx) v
              (unlinks_it c k p cu nx lt h b n x (mx refl)))
        | inr f ↦ rw f (moves cf tid s.mem s.pc (seeking c k) v (seeks c k lt h))
      ]
  act-Valid tid _ s v at (checks c k p cu nx false lt h b n x mx) =
      elim (Bool-cases (s.mem.link p == cu)) [
        | inl e ↦ rw e (checked-Valid tid c k p cu nx s v lt h b n x)
        | inr f ↦ rw f (moves cf tid s.mem s.pc (seeking c k) v (seeks c k lt h))
      ]
  act-Valid tid _ s v at (unlinks_it c k p cu nx lt h b n x mx) =
      let ct : cu ≢ cf.tail = λ e. omega (arith, mx, ap s.mem.link e, v.shape.tail_last) in
      elim (Bool-cases (s.mem.link p == cu)) [
        | inl e ↦
            let at_cu : s.mem.link p ≡ cu = (==_iff (s.mem.link p) cu).0 e in
            let ev = unlinks-Evolves p cu nx s.mem (omega (arith, v.shape.even cu n.0)) in
            rw e (
              cut_step cf tid k p cu nx s.mem s.pc (at_node c k p nx) v b n at_cu mx x.0 (
                stands c k p nx lt
                  (Holds-Evolves cf s.mem (unlinks p cu nx s.mem) ev tid
                    (λ y own. (own, link-Spares tid p nx s.mem b.0 y own)) c k h)
                  (Before-Evolves cf s.mem (unlinks p cu nx s.mem) ev k p b)
                  (Node-Evolves cf s.mem (unlinks p cu nx s.mem) ev nx (x.1 ct))))
        | inr f ↦ rw f (moves cf tid s.mem s.pc (seeking c k) v (seeks c k lt h))
      ]
  act-Valid tid _ s v at (stores k value new p cu lt h b n high) =
      store_step cf tid k value new p cu s.mem s.pc v lt h b n high
  act-Valid tid _ s v at (links_it k value new p cu lt h b n high lk) =
      elim (Bool-cases (s.mem.link p == cu)) [
        | inl e ↦ rw e (
            link_step cf tid k value new p cu cf.no_value s.mem s.pc v h b n high lk
              ((==_iff (s.mem.link p) cu).0 e))
        | inr f ↦ rw f (
            moves cf tid s.mem s.pc (seeking (insert value new) k) v
              (seeks (insert value new) k lt h))
      ]
  act-Valid tid _ s v at (reads_val cu n) =
      moves cf tid s.mem s.pc (returned (s.mem.val cu)) v (rests_returned (s.mem.val cu))
  act-Valid tid _ s v at (marks k p cu nx lt b n ky e) = elim (Bool-cases (s.mem.link cu == nx)) [
    | inl y ↦ rw y (
        mark_step cf tid k p cu nx (set_mk nx) (s.mem.val cu) s.mem s.pc v lt b n ky e
          ((==_iff (s.mem.link cu) nx).0 y) (omega (arith, e)))
    | inr f ↦ rw f (moves cf tid s.mem s.pc (seeking erase k) v (seeks erase k lt tt))
  ]
  act-Valid tid _ s v at (cuts k p cu nx res lt b n e mx) = elim (Bool-cases (s.mem.link p == cu)) [
    | inl y ↦ rw y (
        cut_step cf tid k p cu nx s.mem s.pc (returned res) v b n ((==_iff (s.mem.link p) cu).0 y)
          mx e (rests_returned res))
    | inr f ↦
        rw f (moves cf tid s.mem s.pc (seeking (cleanup res) k) v (seeks (cleanup res) k lt tt))
  ]

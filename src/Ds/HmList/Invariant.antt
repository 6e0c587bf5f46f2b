-- ===== src/Ds/HmList/Invariant.antt =====
-- The invariant of a list and its threads, which every step of list_search, contains, doInsert and
-- erase keeps.
use pop_setbench.Base.{
  ℕ, suc, ◌+◌, ◌%◌, ◌<◌, ◌≡◌, ◌≢◌, refl, ap, subst, inl, inr, arith, true, false, Bool, ◌==◌,
  ==_iff, ==_refl, Bool-cases, update,
}
use pop_setbench.Ds.HmList.{
  Config, in_list, dropped, owned, Memory, Caller, contains, erase, insert, cleanup, Pc, answered,
  returned, reading, storing, linking, marking, cutting, State, writes, unlinks, links, drops,
  respond,
}
use pop_setbench.Ds.HmList.Shape.{rank, Shape}
use pop_setbench.Ds.HmList.Shape.Cut.{cut-Shape}
use pop_setbench.Ds.HmList.Shape.Put.{put-Shape}
use pop_setbench.Ds.HmList.Shape.Frame.{mark-Shape}
use pop_setbench.Ds.HmList.Shape.Outside.{apart, writes-Shape, drops-Shape}
use pop_setbench.Ds.HmList.Evolve.{
  Evolves, Spares, owned-out, stays-Evolves, unlinks-Evolves, writes-Evolves, out-Evolves,
  links-Evolves, drops-Evolves, link-Spares, own-Spares, status-Spares,
}
use pop_setbench.Ds.HmList.Threads.{
  Holds, Before, Node, Fits, rests_answered, rests_returned, stores, links_it, marks, cuts,
  Fits-Evolves, reads_val, Node-Evolves,
}

module _ (cf : Config) where
  pub record Valid (m : Memory) (pc : ℕ → Pc) : Type 0 where
    pub shape : Shape cf m
    pub free : m.link 0 % 2 ≡ 0
    pub fits : (tid : ℕ) → Fits cf m tid (pc tid)

  -- A step of thread `tid` to the point `p` that leaves `m'`.
  pub settle :
      (tid : ℕ) (m m' : Memory) (pc : ℕ → Pc) (p : Pc)
      → Valid m pc
      → Shape cf m'
      → m'.link 0 % 2 ≡ 0
      → Evolves m m'
      → ((t : ℕ) → t ≢ tid → Spares t m m')
      → Fits cf m' tid p
      → Valid m' (update pc tid p)
  settle tid m m' pc p v sh fr ev sp f = record {
    shape = sh;
    free = fr;
    fits = λ t. elim (Bool-cases (tid == t)) [
      | inl e ↦ rw e (subst (λ x. Fits cf m' x p) ((==_iff tid t).0 e) f)
      | inr o ↦
          let ne : t ≢ tid = ground arith in
          rw o (Fits-Evolves cf m m' ev t (sp t ne) (pc t) (v.fits t))
    ];
  }

  -- A step that writes nothing.
  pub moves :
      (tid : ℕ) (m : Memory) (pc : ℕ → Pc) (p : Pc)
      → Valid m pc
      → Fits cf m tid p
      → Valid m (update pc tid p)
  moves tid m pc p v f =
      settle tid m m pc p v v.shape v.free (stays-Evolves m) (λ t ne n own. (own, refl)) f

  -- The swap that unlinks a marked node.
  pub cut_step :
      (tid k p cu nx : ℕ) (m : Memory) (pc : ℕ → Pc) (pt : Pc)
      → Valid m pc
      → Before cf m k p
      → Node cf m cu
      → m.link p ≡ cu
      → m.link cu ≡ nx + 1
      → nx % 2 ≡ 0
      → Fits cf (unlinks p cu nx m) tid pt
      → Valid (unlinks p cu nx m) (update pc tid pt)
  unfolding unlinks
  cut_step tid k p cu nx m pc pt v b n at mk e f =
      let ce = v.shape.even cu n.0 in
      settle tid m (unlinks p cu nx m) pc pt v (cut-Shape cf p cu nx m v.shape b.0 b.1 at ce mk e)
        (ground (arith, e, v.free)) (unlinks-Evolves p cu nx m (omega arith))
        (λ t ne x own. (own, link-Spares t p nx m b.0 x own)) f

  -- The swap that links the node of doInsert.
  pub link_step :
      (tid k value new p cu v : ℕ) (m : Memory) (pc : ℕ → Pc)
      → Valid m pc
      → Holds m tid (insert value new) k
      → Before cf m k p
      → Node cf m cu
      → suc k < rank m cu
      → m.link new ≡ cu
      → m.link p ≡ cu
      → Valid (links p new m) (update pc tid (returned v))
  unfolding links
  link_step tid k value new p cu v m pc ok h b n high lk at =
      let ce = ok.shape.even cu n.0 in
      let out = owned-out m new tid h.0 in
      let nz : (new == 0) ≡ false = apart m new 0 out ok.shape.root in
      let rk : rank m new ≡ suc k = rw nz (ap suc h.1) in
      settle tid m (links p new m) pc (returned v) ok
        (put-Shape cf p cu new m ok.shape b.0 b.1 at ce out lk h.3 (omega (arith, b.2))
          (omega arith))
        (ground (arith, h.3, ok.free)) (links-Evolves p new m (omega arith))
        (λ t ne x own.
          (status-Spares t tid new in_list m ne h.0 x own, link-Spares t p new m b.0 x own))
        (rests_returned v)

  -- The store into the `next` of the node of doInsert.
  pub store_step :
      (tid k value new p cu : ℕ) (m : Memory) (pc : ℕ → Pc)
      → Valid m pc
      → k < cf.key_max
      → Holds m tid (insert value new) k
      → Before cf m k p
      → Node cf m cu
      → suc k < rank m cu
      → Valid (writes new cu m) (update pc tid (linking k value new p cu))
  store_step tid k value new p cu m pc v lt h b n high =
      let out = owned-out m new tid h.0 in
      settle tid m (writes new cu m) pc (linking k value new p cu) v
        (writes-Shape cf m new out v.shape cu) (rw (apart m new 0 out v.shape.root) v.free)
        (out-Evolves new cu m out) (λ t ne x own. (own, own-Spares t tid new cu m ne h.0 x own))
        (links_it k value new p cu lt h b n high (rw (==_refl new) refl))

  -- The swap of erase that sets the mark.
  pub mark_step :
      (tid k p cu nx w res : ℕ) (m : Memory) (pc : ℕ → Pc)
      → Valid m pc
      → k < cf.key_max
      → Before cf m k p
      → Node cf m cu
      → m.key cu ≡ k
      → nx % 2 ≡ 0
      → m.link cu ≡ nx
      → w ≡ nx + 1
      → Valid (writes cu w m) (update pc tid (cutting k p cu nx res))
  mark_step tid k p cu nx w res m pc v lt b n ky e at we =
      let nt : cu ≢ cf.tail = λ same. omega (arith, ky, lt, ap m.key same, v.shape.tail_key) in
      let c0 : (cu == 0) ≡ false = ground (arith, n.1) in
      let sh : Shape cf (writes cu w m) = rw we (mark-Shape cf cu nx m v.shape n.0 nt at e) in
      settle tid m (writes cu w m) pc (cutting k p cu nx res) v sh (rw c0 v.free)
        (writes-Evolves cu w m (omega arith)) (λ t ne x own. (own, link-Spares t cu w m n.0 x own))
        (cuts k p cu nx res lt b n e (rw (==_refl cu) we))

  -- doInsert hands its node back.
  drop_step :
      (tid new cu : ℕ) (s : State)
      → Valid s.mem s.pc
      → s.mem.status new ≡ owned tid
      → Node cf s.mem cu
      → Valid (drops new s.mem) (update s.pc tid (reading cu))
  unfolding drops
  drop_step tid new cu s v h n =
      let out = owned-out s.mem new tid h in
      settle tid s.mem (drops new s.mem) s.pc (reading cu) v (drops-Shape cf s.mem new out v.shape)
        v.free (drops-Evolves new s.mem out)
        (λ t ne x own. (status-Spares t tid new dropped s.mem ne h x own, refl))
        (reads_val cu (Node-Evolves cf s.mem (drops new s.mem) (drops-Evolves new s.mem out) cu n))

  -- What list_search answers is used by its callers as the invariant wants it.
  pub respond-Valid :
      (tid : ℕ) (c : Caller) (k : ℕ) (found : Bool) (p cu nx : ℕ) (s : State)
      → Valid s.mem s.pc
      → k < cf.key_max
      → Holds s.mem tid c k
      → Before cf s.mem k p
      → Node cf s.mem cu
      → nx % 2 ≡ 0
      → (found ≡ true → s.mem.key cu ≡ k)
      → (found ≡ false → suc k < rank s.mem cu)
      → let s' = respond cf tid c k found p cu nx s in Valid s'.mem s'.pc
  unfolding respond
  respond-Valid tid contains k found p cu nx s v lt h b n e hit miss =
      moves tid s.mem s.pc (answered found) v (rests_answered found)
  respond-Valid tid erase k true p cu nx s v lt h b n e hit miss =
      moves tid s.mem s.pc (marking k p cu nx) v (marks k p cu nx lt b n (hit refl) e)
  respond-Valid tid erase k false p cu nx s v lt h b n e hit miss =
      moves tid s.mem s.pc (returned cf.no_value) v (rests_returned cf.no_value)
  respond-Valid tid (insert value new) k true p cu nx s v lt h b n e hit miss =
      drop_step tid new cu s v h.0 n
  respond-Valid tid (insert value new) k false p cu nx s v lt h b n e hit miss =
      moves tid s.mem s.pc (storing k value new p cu) v
        (stores k value new p cu lt h b n (miss refl))
  respond-Valid tid (cleanup res) k found p cu nx s v lt h b n e hit miss =
      moves tid s.mem s.pc (returned res) v (rests_returned res)

-- ===== src/Ds/HmList/Solo/Ends.antt =====
-- Behind the answer of list_search a thread alone needs two steps at most: its swaps succeed.
use pop_setbench.Base.{ℕ, ◌≡◌, ◌≢◌, refl, arith, true, false, Bool, ◌==◌, ==_refl}
use pop_setbench.Ds.HmList.{
  set_mk, Config, Caller, contains, erase, insert, cleanup, answered, returned, reading, storing,
  linking, marking, cutting, State, goes, end_op, leaves, writes, unlinks, links, drops, respond,
}
use pop_setbench.Ds.HmList.Shape.{Linked}
use pop_setbench.Ds.HmList.Evolve.{owned-out}
use pop_setbench.Ds.HmList.Threads.{Holds}
use pop_setbench.Ds.HmList.Runs.{rests}
use pop_setbench.Ds.HmList.Solo.{
  EndsIn, onward, rested, at_pc, reading_goes, marking_goes, cutting_goes, storing_goes,
  linking_goes,
}

module _ (cf : Config) (tid : ℕ) where
  leaves_rests : (b v : ℕ) (s : State) → EndsIn cf tid b (leaves tid (returned v) s)
  unfolding rests
  leaves_rests b v s =
      rested cf tid b (leaves tid (returned v) s) (returned v) (rw (==_refl tid) refl) refl

  reading_ends : (cu : ℕ) (s : State) → s.pc tid ≡ reading cu → EndsIn cf tid 2 s
  unfolding rests
  reading_ends cu s at =
      let p = returned (s.mem.val cu) in
      onward cf tid 1 s (goes tid p s) (reading_goes cf tid s cu at)
        (rested cf tid 1 (goes tid p s) p (at_pc cf tid p s) refl)

  marking_ends :
      (k p cu nx : ℕ) (s : State)
      → s.pc tid ≡ marking k p cu nx
      → s.mem.link p ≡ cu
      → s.mem.link cu ≡ nx
      → p ≢ cu
      → EndsIn cf tid 2 s
  marking_ends k p cu nx s at synced same ne =
      let res = s.mem.val cu in
      let m = writes cu (set_mk nx) s.mem in
      let s' = goes tid (cutting k p cu nx res) (record s { mem = m }) in
      let there : s'.pc tid ≡ cutting k p cu nx res = rw (==_refl tid) refl in
      let away : (cu == p) ≡ false = ground (arith, ne) in
      let still : s'.mem.link p ≡ cu = rw away synced in
      onward cf tid 1 s s' (marking_goes cf tid s k p cu nx at same) (
        onward cf tid 0 s' (leaves tid (returned res) (record s' { mem = unlinks p cu nx m }))
          (cutting_goes cf tid s' k p cu nx res there still)
          (leaves_rests 0 res (record s' { mem = unlinks p cu nx m })))

  storing_ends :
      (k v a p cu : ℕ) (s : State)
      → s.pc tid ≡ storing k v a p cu
      → s.mem.link p ≡ cu
      → a ≢ p
      → EndsIn cf tid 2 s
  storing_ends k v a p cu s at synced ne =
      let m = writes a cu s.mem in
      let s' = goes tid (linking k v a p cu) (record s { mem = m }) in
      let there : s'.pc tid ≡ linking k v a p cu = rw (==_refl tid) refl in
      let away : (a == p) ≡ false = ground (arith, ne) in
      let still : s'.mem.link p ≡ cu = rw away synced in
      onward cf tid 1 s s' (storing_goes cf tid s k v a p cu at) (
        onward cf tid 0 s' (leaves tid (returned cf.no_value) (record s' { mem = links p a m }))
          (linking_goes cf tid s' k v a p cu there still)
          (leaves_rests 0 cf.no_value (record s' { mem = links p a m })))

  -- What list_search answers, when `prev` leads to `curr` and `curr` to `nxt`.
  pub respond_ends :
      (c : Caller) (k : ℕ) (found : Bool) (p cu nx : ℕ) (s : State)
      → Holds s.mem tid c k
      → Linked s.mem p
      → s.mem.link p ≡ cu
      → s.mem.link cu ≡ nx
      → p ≢ cu
      → EndsIn cf tid 2 (respond cf tid c k found p cu nx s)
  unfolding respond rests
  respond_ends contains k found p cu nx s h l synced same ne =
      rested cf tid 2 (leaves tid (answered found) s) (answered found) (rw (==_refl tid) refl) refl
  respond_ends erase k true p cu nx s h l synced same ne =
      marking_ends k p cu nx (goes tid (marking k p cu nx) s) (at_pc cf tid (marking k p cu nx) s)
        synced same ne
  respond_ends erase k false p cu nx s h l synced same ne = leaves_rests 2 cf.no_value s
  respond_ends (insert v a) k true p cu nx s h l synced same ne =
      let s' = leaves tid (reading cu) (record s { mem = drops a s.mem }) in
      reading_ends cu s' (at_pc cf tid (reading cu) (end_op tid (record s { mem = drops a s.mem })))
  respond_ends (insert v a) k false p cu nx s h l synced same ne =
      storing_ends k v a p cu (goes tid (storing k v a p cu) s)
        (at_pc cf tid (storing k v a p cu) s) synced (λ e. owned-out s.mem a tid h.0 (rw e l))
  respond_ends (cleanup res) k found p cu nx s h l synced same ne = leaves_rests 2 res s

-- ===== src/Ds/HmList/Solo/Finish.antt =====
-- A thread that runs alone from any point of any operation, and how many steps it takes.
use pop_setbench.Base.{
  ℕ, zero, suc, ◌+◌, ◌*◌, ◌≤◌, ◌<◌, ◌≡◌, ◌≢◌, refl, subst, inl, inr, arith, true, false, Bool, ◌==◌,
  ==_iff, ==_refl, if◌then◌else◌, Bool-cases, update, leb,
}
use pop_setbench.Ds.HmList.{
  get_ptr, get_mk, mix_ptr_mk, Config, Caller, contains, erase, insert, cleanup, Pc, idle, answered,
  returned, seeking, at_node, loaded, checked, unlinking, storing, linking, reading, marking,
  cutting, State, goes, respond, act, advance, create,
}
use pop_setbench.Ds.HmList.Threads.{Fits}
use pop_setbench.Ds.HmList.Runs.Start.{create-Valid}
use pop_setbench.Ds.HmList.Runs.{rests, Good, Run, Run-Valid, Fresh, advances, Step-Valid}
use pop_setbench.Ds.HmList.Solo.{
  after, EndsIn, onward, rested, slower, Good-on, at_pc, mix, seeking_goes, at_node_goes,
  loaded_goes, checked_fails,
}
use pop_setbench.Ds.HmList.Solo.Walk.{at_facts, Stands, round}

-- How far a point is from the loop of list_search or from rest.
unfoldable height : Pc → ℕ
height (cutting k p cu nx res) = 1
height (linking k v a p cu) = 1
height (unlinking c k p cu nx) = 1
height (reading cu) = 1
height (marking k p cu nx) = 2
height (storing k v a p cu) = 2
height (checked c k p cu nx mk) = 3
height (loaded c k p cu nx mk) = 4
height _ = 0

module _ (cf : Config) (tid : ℕ) where
  abbrev Below : (h : ℕ) → State → Type 0
  Below h s = height (s.pc tid) < h

  down : (h : ℕ) (s : State) (p : Pc) → height p < h → height (update s.pc tid p tid) < h
  down h s p lt = rw (==_refl tid) lt

  pick : (b : Bool) (h : ℕ) (x y : State) → Below h x → Below h y → Below h (if b then x else y)
  pick true h x y l r = l
  pick false h x y l r = r

  respond_down :
      (c : Caller) (k : ℕ) (found : Bool) (p cu nx : ℕ) (s : State)
      → Below 3 (respond cf tid c k found p cu nx s)
  unfolding respond height
  respond_down contains k found p cu nx s = down 3 s (answered found) (omega arith)
  respond_down erase k true p cu nx s = down 3 s (marking k p cu nx) (omega arith)
  respond_down erase k false p cu nx s = down 3 s (returned cf.no_value) (omega arith)
  respond_down (insert v a) k true p cu nx s = down 3 s (reading cu) (omega arith)
  respond_down (insert v a) k false p cu nx s = down 3 s (storing k v a p cu) (omega arith)
  respond_down (cleanup res) k found p cu nx s = down 3 s (returned res) (omega arith)

  act_down : (p : Pc) (s : State) → height p ≢ 0 → Below (height p) (act cf tid p s)
  unfolding act height
  act_down idle s h = absurd (h refl)
  act_down (answered b) s h = absurd (h refl)
  act_down (returned v) s h = absurd (h refl)
  act_down (seeking c k) s h = absurd (h refl)
  act_down (at_node c k p cu) s h = absurd (h refl)
  act_down (loaded c k p cu nx mk) s h =
      pick (mix_ptr_mk nx mk == s.mem.link cu) 4 _ _
        (down 4 s (checked c k p cu nx mk) (omega arith)) (down 4 s (seeking c k) (omega arith))
  act_down (checked c k p cu nx mk) s h =
      pick (s.mem.link p == cu) 3 _ _
        (pick mk 3 _ _ (down 3 s (unlinking c k p cu nx) (omega arith)) (
          pick (leb k (s.mem.key cu)) 3 _ _ (respond_down c k (s.mem.key cu == k) p cu nx s)
            (down 3 s (at_node c k cu nx) (omega arith))))
        (down 3 s (seeking c k) (omega arith))
  act_down (unlinking c k p cu nx) s h =
      pick (s.mem.link p == cu) 1 _ _ (down 1 s (at_node c k p nx) (omega arith))
        (down 1 s (seeking c k) (omega arith))
  act_down (storing k v a p cu) s h = down 2 s (linking k v a p cu) (omega arith)
  act_down (linking k v a p cu) s h =
      pick (s.mem.link p == cu) 1 _ _ (down 1 s (returned cf.no_value) (omega arith))
        (down 1 s (seeking (insert v a) k) (omega arith))
  act_down (reading cu) s h = down 1 s (returned (s.mem.val cu)) (omega arith)
  act_down (marking k p cu nx) s h =
      pick (s.mem.link cu == nx) 2 _ _ (down 2 s (cutting k p cu nx (s.mem.val cu)) (omega arith))
        (down 2 s (seeking erase k) (omega arith))
  act_down (cutting k p cu nx res) s h =
      pick (s.mem.link p == cu) 1 _ _ (down 1 s (returned res) (omega arith))
        (down 1 s (seeking (cleanup res) k) (omega arith))

  -- The walk along the list.
  walk :
      (d : ℕ) (c : Caller) (k p cu : ℕ) (s : State)
      → Stands cf tid c k p cu s
      → cf.key_max ≤ s.mem.key cu + d
      → EndsIn cf tid (4 * d + 6) s
  walk zero c k p cu s (v, at, synced) le =
      round cf tid 2 (omega arith) c k p cu s v at synced (λ s' p' cu' (v', at', synced') up.
        let n =
          (at_facts cf tid s'.mem c k p' cu' (subst (Fits cf s'.mem tid) at' (v'.fits tid))).3 in
        absurd (omega (arith, up, le, v'.shape.top cu' n.0)))
  walk (suc d) c k p cu s (v, at, synced) le =
      slower cf tid (4 * d + 6 + 4) (4 * suc d + 6) s (omega arith) (
        round cf tid (4 * d + 6) (omega arith) c k p cu s v at synced
          (λ s' p' cu' st up. walk d c k p' cu' s' st (omega (arith, up, le))))

  seek_ends :
      (c : Caller) (k : ℕ) (s : State)
      → Good cf s
      → s.pc tid ≡ seeking c k
      → EndsIn cf tid (4 * cf.key_max + 7) s
  seek_ends c k s v at =
      let first = s.mem.link 0 in
      let s' = goes tid (at_node c k 0 first) s in
      let e = seeking_goes cf tid s c k at in
      slower cf tid (suc (4 * cf.key_max + 6)) (4 * cf.key_max + 7) s (omega arith) (
        onward cf tid (4 * cf.key_max + 6) s s' e (
          walk cf.key_max c k 0 first s'
            (Good-on cf tid s s' e v, at_pc cf tid (at_node c k 0 first) s, refl) (omega arith)))

  -- At the head of the inner loop, whether or not `prev` still leads to `curr`.
  at_node_ends :
      (c : Caller) (k p cu : ℕ) (s : State)
      → Good cf s
      → s.pc tid ≡ at_node c k p cu
      → EndsIn cf tid (4 * cf.key_max + 10) s
  at_node_ends c k p cu s v at = elim (Bool-cases (s.mem.link p == cu)) [
    | inl e ↦
        slower cf tid (4 * cf.key_max + 6) (4 * cf.key_max + 10) s (omega arith)
          (walk cf.key_max c k p cu s (v, at, (==_iff (s.mem.link p) cu).0 e) (omega arith))
    | inr f ↦
        let n = (at_facts cf tid s.mem c k p cu (subst (Fits cf s.mem tid) at (v.fits tid))).3 in
        let word = s.mem.link cu in
        let p1 = loaded c k p cu (get_ptr word) (get_mk word) in
        let p2 = checked c k p cu (get_ptr word) (get_mk word) in
        let s1 = goes tid p1 s in
        let s2 = goes tid p2 s1 in
        let s3 = goes tid (seeking c k) s2 in
        let e1 = at_node_goes cf tid s c k p cu at n.1 in
        let e2 =
          loaded_goes cf tid s1 c k p cu (get_ptr word) (get_mk word) (at_pc cf tid p1 s)
            (mix cf tid word) in
        let e3 =
          checked_fails cf tid s2 c k p cu (get_ptr word) (get_mk word) f (at_pc cf tid p2 s1) in
        let v3 = Good-on cf tid s2 s3 e3 (Good-on cf tid s1 s2 e2 (Good-on cf tid s s1 e1 v)) in
        let b = 4 * cf.key_max + 7 in
        slower cf tid (suc (suc (suc b))) (4 * cf.key_max + 10) s (omega arith) (
          onward cf tid (suc (suc b)) s s1 e1 (
            onward cf tid (suc b) s1 s2 e2
              (onward cf tid b s2 s3 e3 (seek_ends c k s3 v3 (at_pc cf tid (seeking c k) s2)))))
  ]

  home :
      (p : Pc) (s : State)
      → Good cf s
      → s.pc tid ≡ p
      → height p ≡ 0
      → EndsIn cf tid (4 * cf.key_max + 10) s
  unfolding height rests
  home idle s v at h = rested cf tid (4 * cf.key_max + 10) s idle at refl
  home (answered b) s v at h = rested cf tid (4 * cf.key_max + 10) s (answered b) at refl
  home (returned w) s v at h = rested cf tid (4 * cf.key_max + 10) s (returned w) at refl
  home (seeking c k) s v at h =
      slower cf tid (4 * cf.key_max + 7) (4 * cf.key_max + 10) s (omega arith)
        (seek_ends c k s v at)
  home (at_node c k p cu) s v at h = at_node_ends c k p cu s v at
  home (loaded c k p cu nx mk) s v at h = absurd (omega (arith, h))
  home (checked c k p cu nx mk) s v at h = absurd (omega (arith, h))
  home (unlinking c k p cu nx) s v at h = absurd (omega (arith, h))
  home (storing k w a p cu) s v at h = absurd (omega (arith, h))
  home (linking k w a p cu) s v at h = absurd (omega (arith, h))
  home (reading cu) s v at h = absurd (omega (arith, h))
  home (marking k p cu nx) s v at h = absurd (omega (arith, h))
  home (cutting k p cu nx res) s v at h = absurd (omega (arith, h))

  comes_home :
      (h : ℕ) (s : State)
      → Good cf s
      → height (s.pc tid) ≤ h
      → EndsIn cf tid (4 * cf.key_max + 10 + h) s
  unfolding advance
  comes_home zero s v le =
      slower cf tid (4 * cf.key_max + 10) (4 * cf.key_max + 10 + 0) s (omega arith)
        (home (s.pc tid) s v refl (omega arith))
  comes_home (suc h) s v le = elim (Bool-cases (height (s.pc tid) == 0)) [
    | inl e ↦
        slower cf tid (4 * cf.key_max + 10) (4 * cf.key_max + 10 + suc h) s (omega arith)
          (home (s.pc tid) s v refl ((==_iff (height (s.pc tid)) 0).0 e))
    | inr f ↦
        let nz : height (s.pc tid) ≢ 0 = ground (arith, f) in
        let s' = advance cf tid s in
        slower cf tid (suc (4 * cf.key_max + 10 + h)) (4 * cf.key_max + 10 + suc h) s (omega arith)
          (onward cf tid (4 * cf.key_max + 10 + h) s s' refl (
            comes_home h s' (Step-Valid cf (advances s tid) v)
              (omega (arith, act_down (s.pc tid) s nz, le))))
  ]

  height_max : (p : Pc) → height p ≤ 4
  unfolding height
  height_max idle = omega arith
  height_max (answered b) = omega arith
  height_max (returned v) = omega arith
  height_max (seeking c k) = omega arith
  height_max (at_node c k p cu) = omega arith
  height_max (loaded c k p cu nx mk) = omega arith
  height_max (checked c k p cu nx mk) = omega arith
  height_max (unlinking c k p cu nx) = omega arith
  height_max (storing k v a p cu) = omega arith
  height_max (linking k v a p cu) = omega arith
  height_max (reading cu) = omega arith
  height_max (marking k p cu nx) = omega arith
  height_max (cutting k p cu nx res) = omega arith

  -- In any state of a run from a new list, wherever a thread stands, at most 4 * KEY_MAX + 14 steps
  -- of this thread alone bring its operation to its end.
  pub solo_finishes :
      (head : ℕ)
      → Fresh cf head
      → (s : State) → Run cf (create cf head) s
      → (n : ℕ) × (n ≤ 4 * cf.key_max + 14) × (rests ((after cf tid n s).pc tid) ≡ true)
  solo_finishes head fr s r =
      slower cf tid (4 * cf.key_max + 10 + 4) (4 * cf.key_max + 14) s (omega arith)
        (comes_home 4 s (Run-Valid cf r (create-Valid cf head fr)) (height_max (s.pc tid)))

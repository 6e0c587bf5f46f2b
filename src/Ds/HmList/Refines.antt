-- ===== src/Ds/HmList/Refines.antt =====
-- Which steps of the list change the map, and the map of each state of a run.
use pop_setbench.Base.{
  ℕ, ◌%◌, ◌≡◌, refl, arith, true, false, Bool, ◌==◌, ==_iff, ==_refl, if◌then◌else◌, update, leb,
  some, none,
}
use pop_setbench.Ds.HmList.{
  mix_ptr_mk, Config, Memory, Caller, contains, erase, insert, cleanup, Pc, idle, answered,
  returned, seeking, at_node, loaded, checked, unlinking, storing, linking, reading, marking,
  cutting, State, goes, unlinks, respond, act, advance, create, call_contains, call_erase,
  call_insert,
}
use pop_setbench.Ds.HmList.Shape.{Shape}
use pop_setbench.Ds.HmList.Evolve.{owned-out, unused-out}
use pop_setbench.Ds.HmList.Threads.{
  Holds, Node, Fits, rests_idle, rests_answered, rests_returned, seeks, stands, loads, checks,
  unlinks_it, stores, links_it, reads_val, marks, cuts,
}
use pop_setbench.Ds.HmList.Runs.Start.{create-Valid}
use pop_setbench.Ds.HmList.Runs.{
  Step, advances, calls_contains, calls_erase, calls_insert, Run, done, further, Good, Step-Valid,
  Run-Valid, Fresh,
}
use pop_setbench.Ds.HmList.Runs.Sentinels.{sentinels, create-Represents}
use pop_setbench.Ds.HmList.Contents.{Same, Adds, Takes}
use pop_setbench.Ds.HmList.Effects.{
  Same-refl, unlinks-Same, writes-Same, drops-Same, new_node-Same, linking-Adds, marking-Takes,
}
use pop_setbench.Ds.HmList.Spec.{
  Map, Represents, Same-Represents, Adds-Represents, Takes-Represents,
}

-- What the step of a thread from one point to the next does to the map: linking a node adds the key
-- and the value of the call, marking takes the key of the call away, and nothing else changes it.
pub data Effect (no_value : ℕ) (m m' : Memory) : Pc → Pc → Type 0 where
  unchanged : (p p' : Pc) → Same m m' → Effect no_value m m' p p'
  added :
      (k value new prev curr : ℕ)
      → Adds m m' k value
      → Effect no_value m m' (linking k value new prev curr) (returned no_value)
  taken :
      (k prev curr next value : ℕ)
      → Takes m m' k value
      → Effect no_value m m' (marking k prev curr next) (cutting k prev curr next value)

module _ (cf : Config) (tid : ℕ) where
  abbrev Acts : Pc → State → State → Type 0
  Acts p s s' = Effect cf.no_value s.mem s'.mem p (s'.pc tid)

  still : (p p' : Pc) (s : State) → Acts p s (goes tid p' s)
  still p p' s = unchanged p _ (Same-refl s.mem)

  respond-Effect :
      (pc : Pc) (c : Caller) (k : ℕ) (found : Bool) (p cu nx : ℕ) (s : State)
      → Holds s.mem tid c k
      → Acts pc s (respond cf tid c k found p cu nx s)
  unfolding respond
  respond-Effect pc contains k found p cu nx s h = still pc (answered found) s
  respond-Effect pc erase k true p cu nx s h = still pc (marking k p cu nx) s
  respond-Effect pc erase k false p cu nx s h = still pc (returned cf.no_value) s
  respond-Effect pc (insert v a) k true p cu nx s h =
      unchanged pc _ (drops-Same a s.mem (owned-out s.mem a tid h.0))
  respond-Effect pc (insert v a) k false p cu nx s h = still pc (storing k v a p cu) s
  respond-Effect pc (cleanup res) k found p cu nx s h = still pc (returned res) s

  either-Acts :
      (b : Bool) (p : Pc) (s x y : State)
      → (b ≡ true → Acts p s x)
      → (b ≡ false → Acts p s y)
      → Acts p s (if b then x else y)
  either-Acts true p s x y h g = h refl
  either-Acts false p s x y h g = g refl

  unlink-Same :
      (p cu nx : ℕ) (m : Memory)
      → Shape cf m
      → Node cf m cu
      → nx % 2 ≡ 0
      → m.link p ≡ cu
      → Same m (unlinks p cu nx m)
  unlink-Same p cu nx m sh n e at = unlinks-Same p cu nx m (omega (arith, sh.even cu n.0, at)) e

  -- One step of a thread.
  act-Effect :
      (p : Pc) (s : State) → Shape cf s.mem → Fits cf s.mem tid p → Acts p s (act cf tid p s)
  unfolding act
  act-Effect _ s sh rests_idle = unchanged idle _ (Same-refl s.mem)
  act-Effect _ s sh (rests_answered b) = unchanged (answered b) _ (Same-refl s.mem)
  act-Effect _ s sh (rests_returned v) = unchanged (returned v) _ (Same-refl s.mem)
  act-Effect _ s sh (seeks c k lt h) = still (seeking c k) _ s
  act-Effect _ s sh (stands c k p cu lt h b n) =
      let pc = at_node c k p cu in
      either-Acts (cu == 0) pc s _ _ (λ e. respond-Effect pc c k false p cu 0 s h)
        (λ e. still pc _ s)
  act-Effect _ s sh (loads c k p cu nx mk lt h b n x mx) =
      let pc = loaded c k p cu nx mk in
      either-Acts (mix_ptr_mk nx mk == s.mem.link cu) pc s _ _ (λ e. still pc _ s)
        (λ e. still pc _ s)
  act-Effect _ s sh (checks c k p cu nx mk lt h b n x mx) =
      let pc = checked c k p cu nx mk in
      either-Acts (s.mem.link p == cu) pc s _ _
        (λ e.
          either-Acts mk pc s _ _ (λ e'. still pc _ s)
            (λ e'.
              either-Acts (leb k (s.mem.key cu)) pc s _ _
                (λ e''. respond-Effect pc c k (s.mem.key cu == k) p cu nx s h)
                (λ e''. still pc _ s)))
        (λ e. still pc _ s)
  act-Effect _ s sh (unlinks_it c k p cu nx lt h b n x mx) =
      let pc = unlinking c k p cu nx in
      either-Acts (s.mem.link p == cu) pc s _ _
        (λ e. unchanged pc _ (unlink-Same p cu nx s.mem sh n x.0 ((==_iff (s.mem.link p) cu).0 e)))
        (λ e. still pc _ s)
  act-Effect _ s sh (stores k v a p cu lt h b n high) =
      unchanged (storing k v a p cu) _ (writes-Same a s.mem (owned-out s.mem a tid h.0) cu)
  act-Effect _ s sh (links_it k v a p cu lt h b n high lk) =
      let pc = linking k v a p cu in
      either-Acts (s.mem.link p == cu) pc s _ _
        (λ e.
          let at : s.mem.link p ≡ cu = (==_iff (s.mem.link p) cu).0 e in
          rw (==_refl tid) (
            added k v a p cu (
              linking-Adds cf s.mem sh p cu a k v b.0 at (sh.even cu n.0) lk
                (owned-out s.mem a tid h.0) h.3 h.1 h.2 b.2 high)))
        (λ e. still pc _ s)
  act-Effect _ s sh (reads_val cu n) = still (reading cu) _ s
  act-Effect _ s sh (marks k p cu nx lt b n ky e) =
      let pc = marking k p cu nx in
      either-Acts (s.mem.link cu == nx) pc s _ _
        (λ y.
          let at : s.mem.link cu ≡ nx = (==_iff (s.mem.link cu) nx).0 y in
          rw (==_refl tid)
            (taken k p cu nx (s.mem.val cu) (marking-Takes cf s.mem sh cu k nx n.0 n.1 ky at e)))
        (λ e. still pc _ s)
  act-Effect _ s sh (cuts k p cu nx res lt b n e mx) =
      let pc = cutting k p cu nx res in
      either-Acts (s.mem.link p == cu) pc s _ _
        (λ y. unchanged pc _ (unlink-Same p cu nx s.mem sh n e ((==_iff (s.mem.link p) cu).0 y)))
        (λ y. still pc _ s)

  -- In a state of a run from a new list the step of a thread leaves the map as it is, or links a node
  -- and adds the key of its call with the value, or marks a node and takes the key of its call away
  -- with the value that it will answer.
  pub advance-Effect :
      (head : ℕ)
      → Fresh cf head
      → (s : State) → Run cf (create cf head) s
      → Effect cf.no_value s.mem (advance cf tid s).mem (s.pc tid) ((advance cf tid s).pc tid)
  unfolding advance
  advance-Effect head fr s r =
      let v = Run-Valid cf r (create-Valid cf head fr) in
      act-Effect (s.pc tid) s v.shape (v.fits tid)

module _ (cf : Config) where
  -- The map behind a step.
  Effect-map :
      (m m' : Memory) (p p' : Pc) (f : Map)
      → Shape cf m'
      → Effect cf.no_value m m' p p'
      → Represents m f
      → (g : Map) × Represents m' g
  Effect-map m m' _ _ f sh (unchanged p p' same) r = (f, Same-Represents m m' f same r)
  Effect-map m m' _ _ f sh (added k v new p cu a) r =
      (update f k (some v), Adds-Represents cf m m' f k v sh a r)
  Effect-map m m' _ _ f sh (taken k p cu nx v t) r =
      (update f k none, Takes-Represents m m' f k v t r)

  Step-map :
      (s s' : State)
      → Good cf s
      → Step cf s s'
      → (f : Map) → Represents s.mem f
      → (g : Map) × Represents s'.mem g
  unfolding advance call_contains call_erase call_insert
  Step-map s _ v (advances _ tid) f r =
      Effect-map s.mem _ (s.pc tid) _ f (Step-Valid cf (advances s tid) v).shape
        (act-Effect cf tid (s.pc tid) s v.shape (v.fits tid)) r
  Step-map s _ v (calls_contains _ tid k q lt) f r = (f, r)
  Step-map s _ v (calls_erase _ tid k q lt) f r = (f, r)
  Step-map s _ v (calls_insert _ tid k w a q lt fresh even) f r =
      (f, Same-Represents s.mem _ f (new_node-Same a s.mem (unused-out s.mem a fresh) tid k w) r)

  -- Every state of a run from a new list represents a map.
  pub Run-map :
      (head : ℕ)
      → Fresh cf head
      → (s : State) → Run cf (create cf head) s
      → (f : Map) × Represents s.mem f
  Run-map head fr _ done = (sentinels cf, create-Represents cf head fr)
  Run-map head fr _ (further {s1} {s2} r st) =
      let (f, rep) = Run-map head fr s1 r in
      Step-map s1 s2 (Run-Valid cf r (create-Valid cf head fr)) st f rep

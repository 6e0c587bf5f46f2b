-- ===== src/Ds/HmList/Keeps.antt =====
-- The key and the value of a node are written once, when it is allocated.
use pop_setbench.Base.{ℕ, ◌≡◌, refl, true, false, Bool, ◌==◌, if◌then◌else◌, update, leb}
use pop_setbench.Ds.HmList.{
  mix_ptr_mk, Config, Memory, Caller, contains, erase, insert, cleanup, Pc, idle, answered,
  returned, seeking, at_node, loaded, checked, unlinking, storing, linking, reading, marking,
  cutting, State, unlinks, links, drops, respond, act, unused, new_node,
}
use pop_setbench.Ds.HmList.Shape.{Linked}
use pop_setbench.Ds.HmList.Shape.Outside.{apart}
use pop_setbench.Ds.HmList.Evolve.{unused-out}

abbrev pub Keeps : Memory → Memory → Type 0
Keeps m m' = (m.key ≡ m'.key) × (m.val ≡ m'.val)

module _ (cf : Config) (tid : ℕ) where
  respond-Keeps :
      (c : Caller) (k : ℕ) (found : Bool) (p cu nx : ℕ) (s : State)
      → Keeps s.mem (respond cf tid c k found p cu nx s).mem
  unfolding respond drops
  respond-Keeps contains k found p cu nx s = (refl, refl)
  respond-Keeps erase k true p cu nx s = (refl, refl)
  respond-Keeps erase k false p cu nx s = (refl, refl)
  respond-Keeps (insert v a) k true p cu nx s = (refl, refl)
  respond-Keeps (insert v a) k false p cu nx s = (refl, refl)
  respond-Keeps (cleanup res) k found p cu nx s = (refl, refl)

  -- A choice between two steps.
  either :
      (b : Bool) (m : Memory) (x y : State)
      → Keeps m x.mem
      → Keeps m y.mem
      → Keeps m (if b then x else y).mem
  either true m x y h g = h
  either false m x y h g = g

  pub act-Keeps : (p : Pc) (s : State) → Keeps s.mem (act cf tid p s).mem
  unfolding act unlinks links
  act-Keeps idle s = (refl, refl)
  act-Keeps (answered b) s = (refl, refl)
  act-Keeps (returned v) s = (refl, refl)
  act-Keeps (seeking c k) s = (refl, refl)
  act-Keeps (at_node c k p cu) s =
      either (cu == 0) s.mem _ _ (respond-Keeps c k false p cu 0 s) (refl, refl)
  act-Keeps (loaded c k p cu nx mk) s =
      either (mix_ptr_mk nx mk == s.mem.link cu) s.mem _ _ (refl, refl) (refl, refl)
  act-Keeps (checked c k p cu nx mk) s =
      either (s.mem.link p == cu) s.mem _ _
        (either mk s.mem _ _ (refl, refl)
          (either (leb k (s.mem.key cu)) s.mem _ _ (respond-Keeps c k (s.mem.key cu == k) p cu nx s)
            (refl, refl)))
        (refl, refl)
  act-Keeps (unlinking c k p cu nx) s =
      either (s.mem.link p == cu) s.mem _ _ (refl, refl) (refl, refl)
  act-Keeps (storing k v a p cu) s = (refl, refl)
  act-Keeps (linking k v a p cu) s = either (s.mem.link p == cu) s.mem _ _ (refl, refl) (refl, refl)
  act-Keeps (reading cu) s = (refl, refl)
  act-Keeps (marking k p cu nx) s = either (s.mem.link cu == nx) s.mem _ _ (refl, refl) (refl, refl)
  act-Keeps (cutting k p cu nx res) s =
      either (s.mem.link p == cu) s.mem _ _ (refl, refl) (refl, refl)

-- Allocation writes to no linked node.
pub new_node-keeps :
    (tid a k v : ℕ) (m : Memory)
    → m.status a ≡ unused
    → (n : ℕ) → Linked m n
    → (m.key n ≡ (new_node tid a k v m).key n) × (m.val n ≡ (new_node tid a k v m).val n)
unfolding new_node
new_node-keeps tid a k v m fresh n l = rw (apart m a n (unused-out m a fresh) l) (refl, refl)

-- A step of one thread leaves the others where they stand.
module _ (cf : Config) (tid t : ℕ) (other : (tid == t) ≡ false) where
  abbrev Elsewhere : State → State → Type 0
  Elsewhere s s' = (s.pc t ≡ s'.pc t) × (s.active t ≡ s'.active t)

  away : (s : State) (p : Pc) → (s.pc t ≡ update s.pc tid p t) × (s.active t ≡ s.active t)
  away s p = (rw other refl, refl)

  left :
      (s : State) (p : Pc)
      → (s.pc t ≡ update s.pc tid p t) × (s.active t ≡ update s.active tid false t)
  left s p = (rw other refl, rw other refl)

  either_pc :
      (b : Bool) (s x y : State) → Elsewhere s x → Elsewhere s y → Elsewhere s (if b then x else y)
  either_pc true s x y h g = h
  either_pc false s x y h g = g

  respond-others :
      (c : Caller) (k : ℕ) (found : Bool) (p cu nx : ℕ) (s : State)
      → Elsewhere s (respond cf tid c k found p cu nx s)
  unfolding respond
  respond-others contains k found p cu nx s = left s _
  respond-others erase k true p cu nx s = away s _
  respond-others erase k false p cu nx s = left s _
  respond-others (insert v a) k true p cu nx s = left s _
  respond-others (insert v a) k false p cu nx s = away s _
  respond-others (cleanup res) k found p cu nx s = left s _

  pub act-others : (p : Pc) (s : State) → Elsewhere s (act cf tid p s)
  unfolding act
  act-others idle s = (refl, refl)
  act-others (answered b) s = (refl, refl)
  act-others (returned v) s = (refl, refl)
  act-others (seeking c k) s = away s _
  act-others (at_node c k p cu) s =
      either_pc (cu == 0) s _ _ (respond-others c k false p cu 0 s) (away s _)
  act-others (loaded c k p cu nx mk) s =
      either_pc (mix_ptr_mk nx mk == s.mem.link cu) s _ _ (away s _) (away s _)
  act-others (checked c k p cu nx mk) s =
      either_pc (s.mem.link p == cu) s _ _
        (either_pc mk s _ _ (away s _) (
          either_pc (leb k (s.mem.key cu)) s _ _ (respond-others c k (s.mem.key cu == k) p cu nx s)
            (away s _)))
        (away s _)
  act-others (unlinking c k p cu nx) s = either_pc (s.mem.link p == cu) s _ _ (away s _) (away s _)
  act-others (storing k v a p cu) s = away s _
  act-others (linking k v a p cu) s = either_pc (s.mem.link p == cu) s _ _ (left s _) (away s _)
  act-others (reading cu) s = away s _
  act-others (marking k p cu nx) s = either_pc (s.mem.link cu == nx) s _ _ (away s _) (left s _)
  act-others (cutting k p cu nx res) s = either_pc (s.mem.link p == cu) s _ _ (left s _) (away s _)

-- ===== src/Ds/HmList/Safety.antt =====
-- The states of a list that the interleavings of its threads lead to: their order, and what has been
-- retired.
use pop_setbench.Base.{ℕ}
use pop_setbench.Ds.HmList.{Config, State, create}
use pop_setbench.Ds.HmList.Shape.{Shape}
use pop_setbench.Ds.HmList.Runs.{Run, Fresh, Run-Valid}
use pop_setbench.Ds.HmList.Runs.Start.{create-Valid}

module _ (cf : Config) where
  -- In every state that a run from a new list leads to, the order of the keys grows along the links,
  -- each linked node that is not marked is on the way from the head, each retired node is marked and
  -- off it, and no node has been retired twice.
  pub Run-Shape :
      (head : ℕ) → Fresh cf head → (s : State) → Run cf (create cf head) s → Shape cf s.mem
  Run-Shape head fr s r = (Run-Valid cf r (create-Valid cf head fr)).shape

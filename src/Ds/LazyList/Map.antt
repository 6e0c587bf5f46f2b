-- ===== src/Ds/LazyList/Map.antt =====
-- The map that a lazy list holds.
use pop_setbench.Base.{ℕ, refl, arith, some, none, update}
use pop_setbench.Ds.HmList.{Config}
use pop_setbench.Ds.HmList.Contents.{Same, frame-Same}
use pop_setbench.Ds.HmList.Runs.{Fresh}
use pop_setbench.Ds.HmList.Runs.Start.{m0}
use pop_setbench.Ds.HmList.Runs.Sentinels.{sentinels, create-Represents}
use pop_setbench.Ds.HmList.Spec.{
  Map, Represents, Same-Represents, Adds-Represents, Takes-Represents,
}
use pop_setbench.Ds.LazyList.{Memory, State, create, cuts, marks, joins}
use pop_setbench.Ds.LazyList.Words.{words, Sound}
use pop_setbench.Ds.LazyList.Change.{Change, same, locks, joining, marking, cutting}
use pop_setbench.Ds.LazyList.Change.Join.{join-Adds}
use pop_setbench.Ds.LazyList.Change.Keep.{marks-Takes, cuts-Same}
use pop_setbench.Ds.LazyList.Change.Preserve.{Change-Sound, behind_even}
use pop_setbench.Ds.LazyList.Runs.{Valid, Run, done, further, Run-Valid}
use pop_setbench.Ds.LazyList.Runs.Start.{create-Valid}
use pop_setbench.Ds.LazyList.Hindsight.{Step-Change}

module _ (cf : Config) where
  -- A memory that holds some map.
  abbrev pub Mapped : Memory → Type 0
  Mapped m = (f : Map) × Represents (words m) f

  Change-Mapped : (tid : ℕ) (m m' : Memory) → Sound cf m → Change cf tid m m' → Mapped m → Mapped m'
  Change-Mapped tid m _ so same h = h
  Change-Mapped tid m _ so (locks n w q r) h = h
  Change-Mapped tid m _ so (joining p c a k v o high fresh even nv low) (f, r) =
      let m' = joins p c a k v m in
      let so' = Change-Sound cf tid m m' so (joining p c a k v o high fresh even nv low) in
      (
        update f k (some v),
        Adds-Represents cf (words m) (words m') f k v so'.shape
            (join-Adds cf tid m so p c a k v o high fresh even) r,
      )
  Change-Mapped tid m _ so (marking c nd nt h free) (f, r) = (
    update f (m.key c) none,
    Takes-Represents (words m) (words (marks c m)) f (m.key c) (m.val c)
        (marks-Takes cf m so c nd free) r,
  )
  Change-Mapped tid m _ so (cutting k p c nx o mk at) (f, r) = (
    f,
    Same-Represents (words m) (words (cuts p c nx m)) f
        (cuts-Same cf m so tid k p c nx o mk at (behind_even cf tid m so k p c o)) r,
  )

  Run-Mapped : {s s' : State} → Run cf s s' → Valid cf s → Mapped s.mem → Mapped s'.mem
  Run-Mapped done v h = h
  Run-Mapped (further {s1} {s2} r st) v h =
      let v1 = Run-Valid cf r v in
      let (t, ch) = Step-Change cf st v1 in
      Change-Mapped t s1.mem s2.mem v1.sound ch (Run-Mapped r v h)

  start-Same : (head : ℕ) (fr : Fresh cf head) → Same (m0 cf head fr) (words (create cf head).mem)
  unfolding create pop_setbench.Ds.HmList.create
  start-Same head fr =
      frame-Same (m0 cf head fr) (words (create cf head).mem) (λ n l. l) (λ n l. l)
        (λ n l. omega arith) (λ n l. refl) (λ n l. refl)

  -- In every state that a run from a new list leads to there is a map whose keys and values are
  -- exactly those of the linked nodes that are not marked.
  pub lazy_map :
      (head : ℕ)
      → Fresh cf head
      → (s : State) → Run cf (create cf head) s
      → (f : Map) × Represents (words s.mem) f
  lazy_map head fr s r = Run-Mapped r (create-Valid cf head fr) (
    sentinels cf,
    Same-Represents (m0 cf head fr) (words (create cf head).mem) (sentinels cf) (start-Same head fr)
        (create-Represents cf head fr),
  )

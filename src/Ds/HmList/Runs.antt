-- ===== src/Ds/HmList/Runs.antt =====
-- The interleavings of calls and steps of any number of threads on one list, and their invariant.
pub mod Start
pub mod Sentinels
use pop_setbench.Base.{
  ℕ, suc, ◌+◌, ◌*◌, ◌/◌, ◌%◌, ◌≤◌, ◌<◌, ◌≡◌, ◌≢◌, ◌⊎◌, refl, sym, ap, subst, ◌∙◌, inl, inr, arith,
  true, false, Bool, ◌==◌, ==_iff, ==_refl, if◌then◌else◌, Bool-cases, update, In, Distinct, List,
  [], ◌∷◌,
}
use pop_setbench.Ds.HmList.{
  get_ptr, Config, Status, unused, in_list, dropped, owned, Memory, Caller, contains, erase, insert,
  cleanup, Pc, idle, answered, returned, seeking, at_node, loaded, checked, unlinking, storing,
  linking, marking, cutting, State, goes, leaves, start_op, end_op, new_node, advance,
  call_contains, call_erase, call_insert, create, act,
}
use pop_setbench.Ds.HmList.Paths.{Chain, here, follow}
use pop_setbench.Ds.HmList.Shape.{Linked, rank_of, rank, Reached, Shape}
use pop_setbench.Ds.HmList.Shape.Outside.{apart, new_node-Shape}
use pop_setbench.Ds.HmList.Evolve.{Evolves, Spares, unused-out, new_node-Evolves, new_node-Spares}
use pop_setbench.Ds.HmList.Threads.{Fits, rests_idle, seeks, Holds}
use pop_setbench.Ds.HmList.Invariant.{Valid, settle, moves}
use pop_setbench.Ds.HmList.Act.{act-Valid}

-- A thread that is in no operation.
unfoldable pub rests : Pc → Bool
rests idle = true
rests (answered b) = true
rests (returned v) = true
rests _ = false

module _ (cf : Config) where
  -- What can happen next: a thread goes on, or one that rests calls an operation with a key below
  -- KEY_MAX; the allocator returns an even address that was not given out before.
  pub data Step : State → State → Type 0 where
    advances : (s : State) (tid : ℕ) → Step s (advance cf tid s)
    calls_contains :
        (s : State) (tid k : ℕ)
        → rests (s.pc tid) ≡ true
        → k < cf.key_max
        → Step s (call_contains tid k s)
    calls_erase :
        (s : State) (tid k : ℕ)
        → rests (s.pc tid) ≡ true
        → k < cf.key_max
        → Step s (call_erase tid k s)
    calls_insert :
        (s : State) (tid k value a : ℕ)
        → rests (s.pc tid) ≡ true
        → k < cf.key_max
        → s.mem.status a ≡ unused
        → a % 2 ≡ 0
        → Step s (call_insert tid k value a s)

  pub data Run (s : State) : State → Type 0 where
    done : Run s s
    further : {s1 s2 : State} → Run s s1 → Step s1 s2 → Run s s2

  -- The invariant of a state.
  abbrev pub Good : State → Type 0
  Good s = Valid cf s.mem s.pc

  -- Allocating leaves the first link alone, and the new node is the thread's.
  new_node-free :
      (m : Memory) (a k value tid : ℕ) {pc : ℕ → Pc}
      → m.status a ≡ unused
      → Valid cf m pc
      → (new_node tid a k value m).link 0 % 2 ≡ 0
  unfolding new_node
  new_node-free m a k value tid fresh v =
      rw (apart m a 0 (unused-out m a fresh) v.shape.root) v.free

  new_node-Holds :
      (m : Memory) (a k value tid : ℕ)
      → a % 2 ≡ 0
      → Holds (new_node tid a k value m) tid (insert value a) k
  unfolding new_node
  new_node-Holds m a k value tid even = rw (==_refl a) (refl, refl, refl, even)

  pub Step-Valid : {s s' : State} → Step s s' → Good s → Good s'
  unfolding advance call_contains call_erase call_insert
  Step-Valid (advances s tid) v = act-Valid cf tid (s.pc tid) s v refl (v.fits tid)
  Step-Valid (calls_contains s tid k r lt) v =
      moves cf tid s.mem s.pc (seeking contains k) v (seeks contains k lt tt)
  Step-Valid (calls_erase s tid k r lt) v =
      moves cf tid s.mem s.pc (seeking erase k) v (seeks erase k lt tt)
  Step-Valid (calls_insert s tid k value a r lt fresh even) v =
      settle cf tid s.mem (new_node tid a k value s.mem) s.pc (seeking (insert value a) k) v
        (new_node-Shape cf s.mem a (unused-out s.mem a fresh) v.shape tid k value)
        (new_node-free s.mem a k value tid fresh v) (new_node-Evolves tid a k value s.mem fresh)
        (λ t ne. new_node-Spares t tid a k value s.mem fresh)
        (seeks (insert value a) k lt (new_node-Holds s.mem a k value tid even))

  pub Run-Valid : {s s' : State} → Run s s' → Good s → Good s'
  Run-Valid done v = v
  Run-Valid (further r st) v = Step-Valid st (Run-Valid r v)

  -- The addresses the constructor gets, and the sentinel keys.
  pub record Fresh (head : ℕ) : Type 0 where
    pub head_even : head % 2 ≡ 0
    pub tail_even : cf.tail % 2 ≡ 0
    pub head_node : head ≢ 0
    pub tail_node : cf.tail ≢ 0
    pub two : head ≢ cf.tail
    pub keys : cf.key_min < cf.key_max

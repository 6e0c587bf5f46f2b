-- ===== src/Ds/HmList/Solo.antt =====
-- Obstruction freedom: what a thread does when it runs alone, one equation for each branch it takes.
pub mod Ends
pub mod Walk
pub mod Finish
use pop_setbench.Base.{
  ℕ, zero, suc, ◌+◌, ◌*◌, ◌/◌, ◌%◌, ◌≤◌, ◌<◌, ◌≡◌, ◌≢◌, refl, sym, ap, subst, ◌∙◌, inl, inr, arith,
  true, false, Bool, ◌==◌, ==_iff, ==_refl, if◌then◌else◌, Bool-cases, update, leb,
}
use pop_setbench.Ds.HmList.{
  get_ptr, get_mk, mix_ptr_mk, set_mk, Config, Memory, Caller, contains, erase, insert, cleanup, Pc,
  idle, answered, returned, seeking, at_node, loaded, checked, unlinking, storing, linking, reading,
  marking, cutting, State, goes, leaves, writes, unlinks, links, drops, respond, act, advance,
}
use pop_setbench.Ds.HmList.Runs.{rests, Step, advances, Good, Step-Valid}

module _ (cf : Config) (tid : ℕ) where
  -- The state behind n steps of the thread.
  abbrev pub after : ℕ → State → State
  after zero s = s
  after (suc n) s = after n (advance cf tid s)

  -- At most `b` steps of the thread alone bring it to rest.
  abbrev pub EndsIn : ℕ → State → Type 0
  EndsIn b s = (n : ℕ) × (n ≤ b) × (rests ((after n s).pc tid) ≡ true)

  pub onward : (b : ℕ) (s s' : State) → advance cf tid s ≡ s' → EndsIn b s' → EndsIn (suc b) s
  onward b s s' e h = let (n, le, r) = subst (EndsIn b) (sym e) h in (suc n, omega (arith, le), r)

  pub slower : (b b' : ℕ) (s : State) → b ≤ b' → EndsIn b s → EndsIn b' s
  slower b b' s le (n, l, r) = (n, omega (arith, le, l), r)

  pub rested : (b : ℕ) (s : State) (p : Pc) → s.pc tid ≡ p → rests p ≡ true → EndsIn b s
  rested b s p at r = (0, omega arith, ap rests at ∙ r)

  pub Good-on : (s s' : State) → advance cf tid s ≡ s' → Good cf s → Good cf s'
  Good-on s s' e v = subst (Good cf) e (Step-Valid cf (advances s tid) v)

  pub at_pc : (p : Pc) (s : State) → (goes tid p s).pc tid ≡ p
  at_pc p s = rw (==_refl tid) refl

  -- A word is its pointer and its mark.
  pub mix : (word : ℕ) → mix_ptr_mk (get_ptr word) (get_mk word) ≡ word
  mix word = elim (Bool-cases (get_mk word)) [
    | inl e ↦ let odd : word % 2 ≡ 1 = (==_iff (word % 2) 1).0 e in rw e (omega (arith, odd))
    | inr f ↦ let even : word % 2 ≢ 1 = ground (arith, f) in rw f (omega (arith, even))
  ]

  -- The branches.
  module _ (s : State) where
    pub seeking_goes :
        (c : Caller) (k : ℕ)
        → s.pc tid ≡ seeking c k
        → advance cf tid s ≡ goes tid (at_node c k 0 (s.mem.link 0)) s
    unfolding advance act
    seeking_goes c k at = rw at refl

    pub at_node_goes :
        (c : Caller) (k p cu : ℕ)
        → s.pc tid ≡ at_node c k p cu
        → cu ≢ 0
        → let word = s.mem.link cu in
          advance cf tid s ≡ goes tid (loaded c k p cu (get_ptr word) (get_mk word)) s
    unfolding advance act
    at_node_goes c k p cu at z = let nz : (cu == 0) ≡ false = ground (arith, z) in rw (at, nz) refl

    pub loaded_goes :
        (c : Caller) (k p cu nx : ℕ) (mk : Bool)
        → s.pc tid ≡ loaded c k p cu nx mk
        → mix_ptr_mk nx mk ≡ s.mem.link cu
        → advance cf tid s ≡ goes tid (checked c k p cu nx mk) s
    unfolding advance act
    loaded_goes c k p cu nx mk at same =
        let eq : (mix_ptr_mk nx mk == s.mem.link cu) ≡ true =
          (==_iff (mix_ptr_mk nx mk) (s.mem.link cu)).1 same in
        rw (at, eq) refl

    pub checked_fails :
        (c : Caller) (k p cu nx : ℕ) (mk : Bool)
        → (s.mem.link p == cu) ≡ false
        → s.pc tid ≡ checked c k p cu nx mk
        → advance cf tid s ≡ goes tid (seeking c k) s
    unfolding advance act
    checked_fails c k p cu nx mk off at = rw (at, off) refl

    module _ (c : Caller) (k p cu nx : ℕ) (synced : s.mem.link p ≡ cu) where
      eq : (s.mem.link p == cu) ≡ true
      eq = (==_iff (s.mem.link p) cu).1 synced

      pub checked_unlinks :
          s.pc tid ≡ checked c k p cu nx true
          → advance cf tid s ≡ goes tid (unlinking c k p cu nx) s
      unfolding advance act
      checked_unlinks at = rw (at, eq) refl

      pub checked_answers :
          s.pc tid ≡ checked c k p cu nx false
          → leb k (s.mem.key cu) ≡ true
          → advance cf tid s ≡ respond cf tid c k (s.mem.key cu == k) p cu nx s
      unfolding advance act
      checked_answers at le = rw (at, eq, le) refl

      pub checked_goes :
          s.pc tid ≡ checked c k p cu nx false
          → leb k (s.mem.key cu) ≡ false
          → advance cf tid s ≡ goes tid (at_node c k cu nx) s
      unfolding advance act
      checked_goes at le = rw (at, eq, le) refl

      pub unlinking_goes :
          s.pc tid ≡ unlinking c k p cu nx
          → advance cf tid s
            ≡ goes tid (at_node c k p nx) (record s { mem = unlinks p cu nx s.mem })
      unfolding advance act
      unlinking_goes at = rw (at, eq) refl

    pub cutting_goes :
        (k p cu nx res : ℕ)
        → s.pc tid ≡ cutting k p cu nx res
        → s.mem.link p ≡ cu
        → advance cf tid s ≡ leaves tid (returned res) (record s { mem = unlinks p cu nx s.mem })
    unfolding advance act
    cutting_goes k p cu nx res at synced = rw (at, (==_iff (s.mem.link p) cu).1 synced) refl

    pub marking_goes :
        (k p cu nx : ℕ)
        → s.pc tid ≡ marking k p cu nx
        → s.mem.link cu ≡ nx
        → advance cf tid s
          ≡ goes tid
              (cutting k p cu nx (s.mem.val cu))
              (record s { mem = writes cu (set_mk nx) s.mem })
    unfolding advance act
    marking_goes k p cu nx at synced = rw (at, (==_iff (s.mem.link cu) nx).1 synced) refl

    pub reading_goes :
        (cu : ℕ) → s.pc tid ≡ reading cu → advance cf tid s ≡ goes tid (returned (s.mem.val cu)) s
    unfolding advance act
    reading_goes cu at = rw at refl

    pub storing_goes :
        (k v a p cu : ℕ)
        → s.pc tid ≡ storing k v a p cu
        → advance cf tid s ≡ goes tid (linking k v a p cu) (record s { mem = writes a cu s.mem })
    unfolding advance act
    storing_goes k v a p cu at = rw at refl

    pub linking_goes :
        (k v a p cu : ℕ)
        → s.pc tid ≡ linking k v a p cu
        → s.mem.link p ≡ cu
        → advance cf tid s ≡ leaves tid (returned cf.no_value) (record s { mem = links p a s.mem })
    unfolding advance act
    linking_goes k v a p cu at synced = rw (at, (==_iff (s.mem.link p) cu).1 synced) refl

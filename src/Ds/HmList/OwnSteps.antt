-- ===== src/Ds/HmList/OwnSteps.antt =====
-- A thread's own steps: where contains, doInsert and erase take effect.
use pop_setbench.Base.{
  ℕ, suc, ◌%◌, ◌≤◌, ◌<◌, ◌≡◌, ◌≢◌, refl, ap, subst, inl, inr, arith, true, false, Bool, ◌==◌,
  ==_iff, ==_refl, if◌then◌else◌, Bool-cases, update, leb,
}
use pop_setbench.Ds.HmList.{
  get_ptr, get_mk, mix_ptr_mk, set_mk, Config, Memory, Caller, erase, insert, cleanup, Pc, answered,
  returned, seeking, at_node, loaded, checked, unlinking, storing, linking, reading, marking,
  cutting, State, goes, writes, unlinks, links, drops, respond, act,
}
use pop_setbench.Ds.HmList.Shape.{rank, Shape}
use pop_setbench.Ds.HmList.Shape.Put.{put-Shape}
use pop_setbench.Ds.HmList.Shape.Outside.{apart}
use pop_setbench.Ds.HmList.Evolve.{owned-out}
use pop_setbench.Ds.HmList.Threads.{
  Holds, Before, Node, Fits, stands, loads, checks, links_it, marks,
}
use pop_setbench.Ds.HmList.Contents.{Entry, Same, Absent, gap-Absent}
use pop_setbench.Ds.HmList.Effects.{Same-refl, linking-Adds, marking-Takes}
use pop_setbench.Ds.HmList.Spec.{
  Op, look_up, remove, put_if_absent, Applies, found-Applies, missed-Applies, nothing-Applies,
  Takes-Applies, present-Applies, Adds-Applies,
}
use pop_setbench.Ds.HmList.Points.{
  Asks, looks, removes, tidies, puts, Tells, to_seek, to_stand, to_load, to_check, to_unlink,
  to_store, to_link, to_read, to_mark, to_cut, to_answer, to_return, Asks-up,
}

module _ (cf : Config) (tid : ℕ) (H H' : Pc → Type 0) (up : (p : Pc) → H p → H' p)
    (W W' : ℕ → ℕ → Type 0) (upW : (k v : ℕ) → W k v → W' k v) where
  -- What was seen in the map serves as the answer of an operation that leaves the map as it is.
  abbrev Hits : Op → Type 0
  Hits op =
      (k w : ℕ)
      → W k w
      → (p : Pc) → ((m m' : Memory) → Entry m k w → Same m m' → Applies cf.no_value op p m m')
      → H p

  -- What is known behind a step from memory `m` to the state `s'`.
  abbrev Later : Op → Memory → State → Type 0
  Later op m s' =
      ((p : Pc) → Applies cf.no_value op p m s'.mem → H' p)
      → ((k v : ℕ) → Entry m k v → Same m s'.mem → W' k v)
      → Tells H' W' s'.mem op (s'.pc tid)

  lands :
      (op : Op) (m : Memory) (pc : ℕ → Pc) (p : Pc)
      → Tells H' W' m op p
      → Tells H' W' m op (update pc tid p tid)
  lands op m pc p t = rw (==_refl tid) t

  Asks-on : (op : Op) (c : Caller) (k : ℕ) → Asks H op c k → Asks H' op c k
  Asks-on op c k a = Asks-up H H' up op c k a

  -- The answer of list_search: the key was seen in the map, or it is not there.
  respond-Tells :
      (op : Op) (c : Caller) (k : ℕ) (found : Bool) (p cu nx : ℕ) (s : State)
      → Asks H op c k
      → W (s.mem.key cu) (s.mem.val cu)
      → (found ≡ true → s.mem.key cu ≡ k)
      → (found ≡ false → Absent s.mem k)
      → Hits op
      → Later op s.mem (respond cf tid c k found p cu nx s)
  unfolding respond drops
  respond-Tells _ _ _ true p cu nx s (looks k) w hit miss x now seen =
      let seen_k : W k (s.mem.val cu) = subst (λ y. W y (s.mem.val cu)) (hit refl) w in
      lands (look_up k) s.mem s.pc (answered true) (
        to_answer (look_up k) true (
          up (answered true) (
            x k (s.mem.val cu) seen_k (answered true)
              (λ m m' e same. found-Applies cf m m' k (s.mem.val cu) same e))))
  respond-Tells _ _ _ false p cu nx s (looks k) w hit miss x now seen =
      lands (look_up k) s.mem s.pc (answered false) (
        to_answer (look_up k) false
          (now (answered false) (missed-Applies cf s.mem s.mem k (Same-refl s.mem) (miss refl))))
  respond-Tells _ _ _ true p cu nx s (removes k) w hit miss x now seen =
      lands (remove k) s.mem s.pc (marking k p cu nx) (to_mark k p cu nx)
  respond-Tells _ _ _ false p cu nx s (removes k) w hit miss x now seen =
      lands (remove k) s.mem s.pc (returned cf.no_value) (
        to_return (remove k) cf.no_value (
          now (returned cf.no_value)
            (nothing-Applies cf s.mem s.mem k (Same-refl s.mem) (miss refl))))
  respond-Tells _ _ _ found p cu nx s (tidies k k' res hr) w hit miss x now seen =
      lands (remove k) s.mem s.pc (returned res) (to_return (remove k) res (up (returned res) hr))
  respond-Tells _ _ _ true p cu nx s (puts k v a) w hit miss x now seen =
      let res = s.mem.val cu in
      let seen_k : W k res = subst (λ y. W y res) (hit refl) w in
      lands (put_if_absent k v) (drops a s.mem) s.pc (reading cu) (
        to_read k v cu (
          up (returned res) (
            x k res seen_k (returned res) (λ m m' e same. present-Applies cf m m' k v res same e))))
  respond-Tells _ _ _ false p cu nx s (puts k v a) w hit miss x now seen =
      lands (put_if_absent k v) s.mem s.pc (storing k v a p cu) (to_store k v a p cu)

  -- Which node the searches stand at is no matter of the map.
  searches : (op : Op) (s : State) (p : Pc) → Tells H' W' s.mem op p → Later op s.mem (goes tid p s)
  searches op s p t now seen = lands op s.mem s.pc p t

  -- The branches of list_search behind its checks.
  checked-Tells :
      (op : Op) (c : Caller) (k p cu nx : ℕ) (s : State)
      → Shape cf s.mem
      → s.mem.link p ≡ cu
      → Before cf s.mem k p
      → Node cf s.mem cu
      → Asks H op c k
      → W (s.mem.key cu) (s.mem.val cu)
      → Hits op
      → Later op s.mem (
          if leb k (s.mem.key cu)
          then respond cf tid c k (s.mem.key cu == k) p cu nx s
          else goes tid (at_node c k cu nx) s)
  checked-Tells op c k p cu nx s sh at b n a w x =
      let rk : rank s.mem cu ≡ suc (s.mem.key cu) =
        let z : (cu == 0) ≡ false = ground (arith, n.1) in rw z refl in
      elim (Bool-cases (leb k (s.mem.key cu))) [
        | inl e ↦
            let le : k ≤ s.mem.key cu = ground (arith, e) in
            rw e (
              respond-Tells op c k (s.mem.key cu == k) p cu nx s a w
                (λ y. (==_iff (s.mem.key cu) k).0 y)
                (λ y.
                  let ne : s.mem.key cu ≢ k = ground (arith, y) in
                  gap-Absent cf s.mem sh p cu k b.0 at (sh.even cu n.0) b.2
                    (omega (arith, rk, le, ne)))
                x)
        | inr f ↦
            rw f (searches op s (at_node c k cu nx) (to_stand op c k cu nx (Asks-on op c k a)))
      ]

  -- A word without the mark.
  clean :
      (nx : ℕ) (mk : Bool) (word : ℕ)
      → mk ≡ false
      → nx % 2 ≡ 0
      → mix_ptr_mk nx mk ≡ word
      → word % 2 ≡ 0
  clean nx true word free e same = absurd (let clash : true ≡ false = free in cc)
  clean nx false word free e same = rw (← same) e

  -- Linking adds the key, and marking takes it away.
  link_adds :
      (k v a p cu : ℕ) (m : Memory)
      → Shape cf m
      → Holds m tid (insert v a) k
      → Before cf m k p
      → Node cf m cu
      → suc k < rank m cu
      → m.link a ≡ cu
      → m.link p ≡ cu
      → Applies cf.no_value (put_if_absent k v) (returned cf.no_value) m (links p a m)
  link_adds k v a p cu m sh h b n high lk at =
      let out = owned-out m a tid h.0 in
      let ce = sh.even cu n.0 in
      let nz : (a == 0) ≡ false = apart m a 0 out sh.root in
      let rk : rank m a ≡ suc k = rw nz (ap suc h.1) in
      Adds-Applies cf m (links p a m) k v
        (put-Shape cf p cu a m sh b.0 b.1 at ce out lk h.3 (omega (arith, rk, b.2))
          (omega (arith, rk, high)))
        (linking-Adds cf m sh p cu a k v b.0 at ce lk out h.3 h.1 h.2 b.2 high)

  mark_takes :
      (k cu nx : ℕ) (m : Memory)
      → Shape cf m
      → Node cf m cu
      → m.key cu ≡ k
      → nx % 2 ≡ 0
      → m.link cu ≡ nx
      → Applies cf.no_value (remove k) (returned (m.val cu)) m (writes cu (set_mk nx) m)
  mark_takes k cu nx m sh n ky e at =
      Takes-Applies cf m (writes cu (set_mk nx) m) k (m.val cu)
        (marking-Takes cf m sh cu k nx n.0 n.1 ky at e)

  -- One step of the thread of the operation.
  pub act-Tells :
      (op : Op) (p : Pc) (s : State)
      → Shape cf s.mem
      → Fits cf s.mem tid p
      → Tells H W s.mem op p
      → Hits op
      → s.pc tid ≡ p
      → Later op s.mem (act cf tid p s)
  unfolding act
  act-Tells op _ s sh f (to_seek _ c k a) x at =
      searches op s (at_node c k 0 (s.mem.link 0))
        (to_stand op c k 0 (s.mem.link 0) (Asks-on op c k a))
  act-Tells op _ s sh (stands _ _ _ _ lt h b n) (to_stand _ c k p cu a) x at =
      let word = s.mem.link cu in
      let zero_no : (cu == 0) ≡ false = ground (arith, n.1) in
      rw zero_no (
        searches op s (loaded c k p cu (get_ptr word) (get_mk word))
          (to_load op c k p cu (get_ptr word) (get_mk word) (Asks-on op c k a)))
  act-Tells op _ s sh (loads _ _ _ _ _ _ lt h b n nn mx) (to_load _ c k p cu nx mk a) x at =
      elim (Bool-cases (mix_ptr_mk nx mk == s.mem.link cu)) [
        | inl e ↦ rw e (λ now seen. lands op s.mem s.pc (checked c k p cu nx mk) (
            to_check op c k p cu nx mk (Asks-on op c k a) (λ free.
              seen (s.mem.key cu) (s.mem.val cu)
                record {
                  node = cu;
                  is_linked = n.0;
                  is_node = n.1;
                  unmarked =
                      let same : mix_ptr_mk nx mk ≡ s.mem.link cu =
                        (==_iff (mix_ptr_mk nx mk) (s.mem.link cu)).0 e in
                      clean nx mk (s.mem.link cu) free nn.0 same;
                  has_key = refl;
                  has_val = refl;
                }
                (Same-refl s.mem))))
        | inr f ↦ rw f (searches op s (seeking c k) (to_seek op c k (Asks-on op c k a)))
      ]
  act-Tells op _ s sh (checks _ _ _ _ _ _ lt h b n nn mx) (to_check _ c k p cu nx true a w) x at =
      elim (Bool-cases (s.mem.link p == cu)) [
        | inl e ↦
            rw e
              (searches op s (unlinking c k p cu nx) (to_unlink op c k p cu nx (Asks-on op c k a)))
        | inr f ↦ rw f (searches op s (seeking c k) (to_seek op c k (Asks-on op c k a)))
      ]
  act-Tells op _ s sh (checks _ _ _ _ _ _ lt h b n nn mx) (to_check _ c k p cu nx false a w) x at =
      elim (Bool-cases (s.mem.link p == cu)) [
        | inl e ↦
            rw e
              (checked-Tells op c k p cu nx s sh ((==_iff (s.mem.link p) cu).0 e) b n a (w refl) x)
        | inr f ↦ rw f (searches op s (seeking c k) (to_seek op c k (Asks-on op c k a)))
      ]
  act-Tells op _ s sh f (to_unlink _ c k p cu nx a) x at = elim (Bool-cases (s.mem.link p == cu)) [
    | inl e ↦ rw e (λ now seen.
        lands op (unlinks p cu nx s.mem) s.pc (at_node c k p nx)
          (to_stand op c k p nx (Asks-on op c k a)))
    | inr f ↦ rw f (searches op s (seeking c k) (to_seek op c k (Asks-on op c k a)))
  ]
  act-Tells _ _ s sh f (to_store k v a p cu) x at = λ now seen.
      lands (put_if_absent k v) (writes a cu s.mem) s.pc (linking k v a p cu) (to_link k v a p cu)
  act-Tells _ _ s sh (links_it _ _ _ _ _ lt h b n high lk) (to_link k v a p cu) x at =
      elim (Bool-cases (s.mem.link p == cu)) [
        | inl e ↦ rw e (λ now seen.
            lands (put_if_absent k v) (links p a s.mem) s.pc (returned cf.no_value) (
              to_return (put_if_absent k v) cf.no_value (
                now (returned cf.no_value)
                  (link_adds k v a p cu s.mem sh h b n high lk ((==_iff (s.mem.link p) cu).0 e)))))
        | inr f ↦ rw f (
            searches (put_if_absent k v) s (seeking (insert v a) k)
              (to_seek (put_if_absent k v) (insert v a) k (puts k v a)))
      ]
  act-Tells _ _ s sh f (to_read k v cu h) x at =
      let res = s.mem.val cu in
      searches (put_if_absent k v) s (returned res)
        (to_return (put_if_absent k v) res (up (returned res) h))
  act-Tells _ _ s sh (marks _ _ _ _ lt b n ky e) (to_mark k p cu nx) x at =
      elim (Bool-cases (s.mem.link cu == nx)) [
        | inl y ↦ rw y (λ now seen.
            lands (remove k) (writes cu (set_mk nx) s.mem) s.pc (cutting k p cu nx (s.mem.val cu)) (
              to_cut k k p cu nx (s.mem.val cu) (
                now (returned (s.mem.val cu))
                  (mark_takes k cu nx s.mem sh n ky e ((==_iff (s.mem.link cu) nx).0 y)))))
        | inr f ↦ rw f (λ now seen.
            lands (remove k) s.mem s.pc (seeking erase k) (to_seek (remove k) erase k (removes k)))
      ]
  act-Tells _ _ s sh f (to_cut k k' p cu nx res h) x at = elim (Bool-cases (s.mem.link p == cu)) [
    | inl e ↦ rw e (λ now seen.
        lands (remove k) (unlinks p cu nx s.mem) s.pc (returned res)
          (to_return (remove k) res (up (returned res) h)))
    | inr f ↦ rw f (
        searches (remove k) s (seeking (cleanup res) k')
          (to_seek (remove k) (cleanup res) k' (tidies k k' res (up (returned res) h))))
  ]
  act-Tells op _ s sh f (to_answer _ b h) x at =
      λ now seen. rw at (to_answer op b (up (answered b) h))
  act-Tells op _ s sh f (to_return _ v h) x at =
      λ now seen. rw at (to_return op v (up (returned v) h))

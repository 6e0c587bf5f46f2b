-- ===== src/Ds/LazyList/Change/Join.antt =====
-- The store of doInsert in the words of the Harris-Michael list: its new_node, its store into the new
-- node, and its swap.
use pop_setbench.Base.{
  ℕ, suc, ◌%◌, ◌<◌, ◌≡◌, ◌≢◌, refl, sym, ap, subst, ◌∙◌, inl, inr, arith, false, ◌==◌, ==_iff,
  ==_refl, Bool-cases,
}
use pop_setbench.Ds.HmList.{Config, unused, in_list, owned, writes, new_node, links}
use pop_setbench.Ds.HmList.Shape.{Linked, rank, Shape}
use pop_setbench.Ds.HmList.Shape.Frame.{frame-Shape}
use pop_setbench.Ds.HmList.Shape.Outside.{writes-Shape, new_node-Shape}
use pop_setbench.Ds.HmList.Shape.Put.{put-Shape}
use pop_setbench.Ds.HmList.Evolve.{unused-out}
use pop_setbench.Ds.HmList.Contents.{Same, Adds, frame-Same}
use pop_setbench.Ds.HmList.Effects.{writes-Same, new_node-Same, linking-Adds}
use pop_setbench.Ds.LazyList.{Memory, joins}
use pop_setbench.Ds.LazyList.Words.{words, Sound, onward}
use pop_setbench.Ds.LazyList.Change.{Owns, fresh_other}

module _ (cf : Config) (tid : ℕ) (m : Memory) (so : Sound cf m) (p c a k v : ℕ)
    (o : Owns cf tid m k p c) (high : suc k < rank (words m) c) (fresh : m.status a ≡ unused)
    (even : a % 2 ≡ 0) where
  abbrev w : pop_setbench.Ds.HmList.Memory
  w = words m

  -- Behind the writes to the new node, and behind the swap.
  abbrev mid : pop_setbench.Ds.HmList.Memory
  mid = writes a c (new_node 0 a k v w)

  abbrev end : pop_setbench.Ds.HmList.Memory
  end = links p a mid

  out : w.status a ≢ in_list
  out = unused-out w a fresh

  out_mid : mid.status a ≢ in_list
  unfolding new_node
  out_mid e = let clash : owned 0 ≡ in_list = rw (==_refl a) at e in cc

  ap_no : (a == p) ≡ false
  ap_no = fresh_other m a p fresh o.before.0

  pa_no : (p == a) ≡ false
  pa_no = ground arith

  a_node : (a == 0) ≡ false
  a_node = fresh_other m a 0 fresh so.shape.root

  mid-Shape : Shape cf mid
  unfolding new_node
  mid-Shape =
      writes-Shape cf (new_node 0 a k v w) a out_mid (new_node-Shape cf w a out so.shape 0 k v) c

  c-Linked : Linked w c
  c-Linked = subst (Linked w) o.leads (onward cf m so p o.before.0 o.before.1).0.0

  c_even : c % 2 ≡ 0
  c_even = let e = so.straight p o.before.0 in omega (arith, o.leads, e)

  rank_new : rank mid a ≡ suc k
  unfolding new_node
  rank_new = rw (a_node, ==_refl a) refl

  rank_old : (n : ℕ) → Linked w n → rank mid n ≡ rank w n
  unfolding new_node
  rank_old n l = rw (fresh_other m a n fresh l) refl

  end-Shape : Shape cf end
  unfolding new_node
  end-Shape =
      put-Shape cf p c a mid mid-Shape (rw ap_no o.before.0) o.before.1
        (rw (ap_no, o.unmarked) (omega (arith, o.leads))) c_even out_mid (rw (==_refl a) refl) even
        (omega (arith, rank_new, rank_old p o.before.0, o.before.2))
        (omega (arith, rank_new, rank_old c c-Linked, high))

  -- The one store does what the three do.
  same_status : (n : ℕ) → end.status n ≡ (words (joins p c a k v m)).status n
  unfolding new_node links joins
  same_status n = elim (Bool-cases (a == n)) [ inl y ↦ rw y refl | inr f ↦ rw f refl ]

  same_link : (n : ℕ) → end.link n ≡ (words (joins p c a k v m)).link n
  unfolding new_node links joins
  same_link n = elim (Bool-cases (p == n)) [
    | inl y ↦
        let e : p ≡ n = (==_iff p n).0 y in rw (← e, ==_refl p, ap_no, o.unmarked) (omega arith)
    | inr f ↦ elim (Bool-cases (a == n)) [
      | inl y ↦ rw (f, y) (omega arith)
      | inr g ↦ rw (f, g) refl
    ]
  ]

  abbrev now : Memory
  now = joins p c a k v m

  to : (n : ℕ) → Linked end n → Linked (words now) n
  to n l = sym (same_status n) ∙ l

  from : (n : ℕ) → Linked (words now) n → Linked end n
  from n l = same_status n ∙ l

  pub join-Shape : Shape cf (words now)
  unfolding new_node links joins
  join-Shape =
      frame-Shape cf end (words now) to from (λ n l. same_link n) (λ n l. refl) refl end-Shape

  -- The map has the new key, which it did not have.
  pub join-Adds : Adds w (words now) k v
  unfolding new_node links joins
  join-Adds =
      let first : Same w mid = λ k' v'.
        let (f, b) = new_node-Same a w out 0 k v k' v' in
        let (f', b') = writes-Same a (new_node 0 a k v w) out_mid c k' v' in
        (λ e. f' (f e), λ e. b (b' e)) in
      let last : Same end (words now) =
        frame-Same end (words now) to from (λ n l. ap (λ x. x % 2) (same_link n)) (λ n l. refl)
          (λ n l. refl) in
      let adds : Adds mid end k v =
        linking-Adds cf mid mid-Shape p c a k v (rw ap_no o.before.0)
          (rw (ap_no, o.unmarked) (omega (arith, o.leads))) c_even (rw (==_refl a) refl) out_mid
          even (rw (==_refl a) refl) (rw (==_refl a) refl)
          (omega (arith, rank_old p o.before.0, o.before.2))
          (omega (arith, rank_old c c-Linked, high)) in
      record {
        was_absent = λ v' e. adds.was_absent v' ((first k v').0 e);
        is_there = (last k v).0 adds.is_there;
        keeps = λ k' v' ne.
            let (f, b) = adds.keeps k' v' ne in
            (
              λ e. (last k' v').0 (f ((first k' v').0 e)),
              λ e. (first k' v').1 (b ((last k' v').1 e)),
            );
      }

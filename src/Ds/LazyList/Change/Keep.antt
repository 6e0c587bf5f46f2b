-- ===== src/Ds/LazyList/Change/Keep.antt =====
-- What the steps of the lazy list do to the invariant of the nodes and to the map that they hold.
use pop_setbench.Base.{
  ℕ, suc, ◌+◌, ◌%◌, ◌≡◌, ◌≢◌, refl, sym, ap, subst, ◌∙◌, inl, inr, arith, true, false, ◌==◌, ==_iff,
  if◌then◌else◌, Bool-cases,
}
use pop_setbench.Ds.HmList.{Config, in_list, writes, unlinks}
use pop_setbench.Ds.HmList.Shape.{Linked, rank, Shape}
use pop_setbench.Ds.HmList.Shape.Frame.{frame-Shape, mark-Shape}
use pop_setbench.Ds.HmList.Shape.Cut.{cut-Shape}
use pop_setbench.Ds.HmList.Contents.{Same, Takes, frame-Same}
use pop_setbench.Ds.HmList.Effects.{unlinks-Same, marking-Takes}
use pop_setbench.Ds.HmList.Threads.{Before, Node}
use pop_setbench.Ds.LazyList.{Memory, marks, cuts}
use pop_setbench.Ds.LazyList.Words.{words, free_word, marked_word, Sound}
use pop_setbench.Ds.LazyList.Change.{Owns, Lasts}

-- What a thread knows of the nodes lasts.
module _ (cf : Config) (m m' : Memory) (la : Lasts m m') where
  pub rank-Lasts : (n : ℕ) → Linked (words m) n → rank (words m) n ≡ rank (words m') n
  rank-Lasts n l = ap (λ k. if n == 0 then 0 else suc k) (la.key n l)

  pub before-Lasts : (k p : ℕ) → Before cf (words m) k p → Before cf (words m') k p
  before-Lasts k p (l, t, low) = (la.linked p l, t, omega (arith, rank-Lasts p l, low))

  pub node-Lasts : (c : ℕ) → Node cf (words m) c → Node cf (words m') c
  node-Lasts c (l, z) = (la.linked c l, z)

module _ (cf : Config) (m : Memory) (so : Sound cf m) where
  module _ (c : ℕ) (nd : Node cf (words m) c) (free : m.marked c ≡ false) where
    mark_word : (n : ℕ) → (writes c (m.next c + 1) (words m)).link n ≡ (words (marks c m)).link n
    unfolding marks
    mark_word n = elim (Bool-cases (c == n)) [
      | inl y ↦ rw y (ap (λ x. m.next x + 1) ((==_iff c n).0 y))
      | inr f ↦ rw f refl
    ]

    pub marks-Shape : c ≢ cf.tail → Shape cf (words (marks c m))
    unfolding marks
    marks-Shape nt =
        frame-Shape cf (writes c (m.next c + 1) (words m)) (words (marks c m)) (λ n l. l) (λ n l. l)
          (λ n l. mark_word n) (λ n l. refl) refl
          (mark-Shape cf c (m.next c) (words m) so.shape nd.0 nt (free_word m c free)
            (so.straight c nd.0))

    -- The map holds the key of the node no more.
    pub marks-Takes : Takes (words m) (words (marks c m)) (m.key c) (m.val c)
    unfolding marks
    marks-Takes =
        let e = so.straight c nd.0 in
        let word = m.next c + 1 in
        let odd : pop_setbench.Ds.HmList.set_mk (m.next c) ≡ word = omega (arith, e) in
        let took : Takes (words m) (writes c word (words m)) (m.key c) (m.val c) =
          subst (λ x. Takes (words m) (writes c x (words m)) (m.key c) (m.val c)) odd
            (marking-Takes cf (words m) so.shape c (m.key c) (m.next c) nd.0 nd.1 refl
              (free_word m c free) e) in
        let last : Same (writes c word (words m)) (words (marks c m)) =
          frame-Same (writes c word (words m)) (words (marks c m)) (λ n l. l) (λ n l. l)
            (λ n l. ap (λ x. x % 2) (mark_word n)) (λ n l. refl) (λ n l. refl) in
        record {
          was_there = took.was_there;
          is_absent = λ v e. took.is_absent v ((last (m.key c) v).1 e);
          keeps = λ k v ne.
              let (f, b) = took.keeps k v ne in (λ x. (last k v).0 (f x), λ x. b ((last k v).1 x));
        }

  module _ (tid k p c nx : ℕ) (o : Owns cf tid m k p c) (mk : m.marked c ≡ true)
      (at : m.next c ≡ nx) where
    cut_word : (n : ℕ) → (unlinks p c nx (words m)).link n ≡ (words (cuts p c nx m)).link n
    unfolding unlinks cuts
    cut_word n = elim (Bool-cases (p == n)) [
      | inl y ↦
          let f : m.marked n ≡ false = ap m.marked (sym ((==_iff p n).0 y)) ∙ o.unmarked in
          rw (y, f) (omega arith)
      | inr f ↦ rw f refl
    ]

    p_word : (words m).link p ≡ c
    p_word = free_word m p o.unmarked ∙ o.leads

    p_even : m.next p % 2 ≡ 0
    p_even = so.straight p o.before.0

    pub cuts-Shape : m.next c % 2 ≡ 0 → Shape cf (words (cuts p c nx m))
    unfolding unlinks cuts
    cuts-Shape ne =
        frame-Shape cf (unlinks p c nx (words m)) (words (cuts p c nx m)) (λ n l. l) (λ n l. l)
          (λ n l. cut_word n) (λ n l. refl) refl
          (cut-Shape cf p c nx (words m) so.shape o.before.0 o.before.1 p_word
            (omega (arith, o.leads, p_even)) (marked_word m c mk ∙ ap (λ x. x + 1) at)
            (omega (arith, at, ne)))

    pub cuts-Same : m.next c % 2 ≡ 0 → Same (words m) (words (cuts p c nx m))
    unfolding unlinks cuts
    cuts-Same ne k' v' =
        let w = words m in
        let (f, b) =
          unlinks-Same p c nx w (omega (arith, p_word, o.leads, p_even)) (omega (arith, at, ne)) k'
            v' in
        let (f', b') =
          frame-Same (unlinks p c nx w) (words (cuts p c nx m)) (λ n l. l) (λ n l. l)
            (λ n l. ap (λ x. x % 2) (cut_word n)) (λ n l. refl) (λ n l. refl) k' v' in
        (λ e. f' (f e), λ e. b (b' e))

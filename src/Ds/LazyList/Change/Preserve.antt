-- ===== src/Ds/LazyList/Change/Preserve.antt =====
-- The invariant of the nodes of the lazy list, over the steps of a thread.
use pop_setbench.Base.{
  ℕ, suc, ◌%◌, ◌<◌, ◌≡◌, ◌≢◌, subst, ◌∙◌, inl, inr, arith, false, ◌==◌, Bool-cases, update,
}
use pop_setbench.Ds.HmList.{Config, in_list}
use pop_setbench.Ds.HmList.Shape.{Linked, Shape}
use pop_setbench.Ds.HmList.Threads.{Before}
use pop_setbench.Ds.LazyList.{Memory, joins, marks, cuts}
use pop_setbench.Ds.LazyList.Words.{words, Sound, onward}
use pop_setbench.Ds.LazyList.Change.{
  Owns, Change, same, locks, joining, marking, cutting, Lasts, Change-Lasts,
}
use pop_setbench.Ds.LazyList.Change.Join.{join-Shape}
use pop_setbench.Ds.LazyList.Change.Keep.{before-Lasts, marks-Shape, cuts-Shape}

module _ (cf : Config) (tid : ℕ) where
  -- What the shape leaves to show.
  keep :
      (m m' : Memory)
      → Sound cf m
      → Lasts m m'
      → Shape cf (words m')
      → ((n : ℕ) → Linked (words m') n → m'.next n % 2 ≡ 0)
      → ((n : ℕ)
          → Linked (words m') n
          → n ≢ 0
          → cf.key_min < m'.key n
          → m'.key n < cf.key_max
          → m'.val n ≢ cf.no_value)
      → Sound cf m'
  keep m m' so la sh st vl = record {
    shape = sh;
    straight = st;
    valued = vl;
    first =
        subst (Before cf (words m') (suc cf.key_min)) la.head
          (before-Lasts cf m m' la (suc cf.key_min) (m.next 0) so.first);
    first_node = λ e. so.first_node (la.head ∙ e);
  }

  -- The node behind another one has an even link.
  pub behind_even : (m : Memory) → Sound cf m → (k p c : ℕ) → Owns cf tid m k p c → m.next c % 2 ≡ 0
  behind_even m so k p c o =
      subst (λ x. m.next x % 2 ≡ 0) o.leads
        (so.straight (m.next p) (onward cf m so p o.before.0 o.before.1).0.0)

  older :
      (m : Memory) (a n : ℕ)
      → update m.status a in_list n ≡ in_list
      → (a == n) ≡ false
      → Linked (words m) n
  older m a n l f = rw f at l

  pub Change-Sound : (m m' : Memory) → Sound cf m → Change cf tid m m' → Sound cf m'
  unfolding joins marks cuts
  Change-Sound m _ so same = so
  Change-Sound m _ so (locks n w q r) = record {
    shape = so.shape;
    straight = so.straight;
    valued = so.valued;
    first = so.first;
    first_node = so.first_node;
  }
  Change-Sound m _ so (joining p c a k v o high fresh even nv low) =
      let m' = joins p c a k v m in
      let ch = joining p c a k v o high fresh even nv low in
      let ce = so.straight p o.before.0 in
      keep m m' so (Change-Lasts cf tid m m' so.shape.root ch)
        (join-Shape cf tid m so p c a k v o high fresh even)
        (λ n l. elim (Bool-cases (p == n)) [
          | inl y ↦ rw y even
          | inr f ↦ elim (Bool-cases (a == n)) [
            | inl y ↦ rw (f, y) (omega (arith, o.leads, ce))
            | inr g ↦ rw (f, g) (so.straight n (older m a n l g))
          ]
        ])
        (λ n l z lo hi. elim (Bool-cases (a == n)) [
          | inl y ↦ rw y nv
          | inr g ↦ rw g (so.valued n (older m a n l g) z (rw g at lo) (rw g at hi))
        ])
  Change-Sound m _ so (marking c nd nt h f) =
      let m' = marks c m in
      keep m m' so (Change-Lasts cf tid m m' so.shape.root (marking c nd nt h f))
        (marks-Shape cf m so c nd f nt) so.straight so.valued
  Change-Sound m _ so (cutting k p c nx o mk at) =
      let m' = cuts p c nx m in
      let ne = behind_even m so k p c o in
      keep m m' so (Change-Lasts cf tid m m' so.shape.root (cutting k p c nx o mk at))
        (cuts-Shape cf m so tid k p c nx o mk at ne)
        (λ n l. elim (Bool-cases (p == n)) [
          | inl y ↦ rw y (omega (arith, at, ne))
          | inr f ↦ rw f (so.straight n l)
        ])
        so.valued

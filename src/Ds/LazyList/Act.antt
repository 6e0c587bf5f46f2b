-- ===== src/Ds/LazyList/Act.antt =====
-- The steps of contains, doInsert and erase, one point after the other: what each does to memory, and
-- what the thread knows behind it.
pub mod Work
use pop_setbench.Base.{
  ℕ, suc, ◌+◌, ◌%◌, ◌≤◌, ◌<◌, ◌≡◌, ◌≢◌, ◌⊎◌, refl, sym, ap, subst, ◌∙◌, inl, inr, arith, true,
  false, Bool, ◌==◌, ==_iff, ==_refl, if◌then◌else◌, Bool-cases, update, not, ltb, ◌∷◌,
}
use pop_setbench.Ds.HmList.{Config, unused, in_list}
use pop_setbench.Ds.HmList.Shape.{Linked, rank}
use pop_setbench.Ds.HmList.Threads.{Before, Node}
use pop_setbench.Ds.LazyList.{
  Memory, Update, erase, insert, Stage, test_pred, linking, Pc, idle, answered, returned,
  looking_up, scanning, reading, starting, walking, critical, State, goes, leaves, arrives, work,
  act,
}
use pop_setbench.Ds.LazyList.Words.{words, Sound, onward}
use pop_setbench.Ds.LazyList.Change.{Change, same}
use pop_setbench.Ds.LazyList.Threads.{
  Between, Stores, Way, Fits, rests_idle, rests_answered, rests_returned, looks, scans, reads,
  starts, walks, works, Knows, holds_pred, holds_curr,
}
use pop_setbench.Ds.LazyList.Act.Work.{Moved, either, work-Moved, Allocated}

module _ (cf : Config) (tid a : ℕ) where
  stand : (s : State) (p : Pc) → Fits cf s.mem tid p → Moved cf tid s (goes tid p s)
  stand s p f = rw (==_refl tid) (same, f)

  leave : (s : State) (p : Pc) → Fits cf s.mem tid p → Moved cf tid s (leaves tid p s)
  leave s p f = rw (==_refl tid) (same, f)

  -- Behind the inner loop of doInsert and erase.
  arrives-Moved :
      (u : Update) (k p c : ℕ) (s : State)
      → Way cf s.mem u k p c
      → k ≤ s.mem.key c
      → Moved cf tid s (arrives cf tid u k p c s)
  unfolding arrives Knows holds_pred holds_curr
  arrives-Moved erase k p c s w le =
      either cf tid s (s.mem.key c == k) _ _
        (λ e. stand s (critical erase k p c test_pred) (
          works erase k p c test_pred w le ((==_iff (s.mem.key c) k).0 e) (λ x. absurd cc)
            (λ x. absurd cc) tt))
        (λ e. leave s (returned cf.no_value) (rests_returned cf.no_value))
  arrives-Moved (insert v) k p c s w le =
      stand s (critical (insert v) k p c test_pred)
        (works (insert v) k p c test_pred w le tt (λ x. absurd cc) (λ x. absurd cc) tt)

  -- The member `head`, in front of every key.
  head-Way :
      (s : State)
      → Sound cf s.mem
      → (u : Update) (k : ℕ) → Between cf k
      → Stores cf u
      → Way cf s.mem u k (s.mem.next 0) (s.mem.next (s.mem.next 0))
  head-Way s so u k b st =
      let (l, nt, low) = so.first in
      record {
        keys = b;
        stores = st;
        before = (l, nt, omega (arith, low, b));
        pred_node = so.first_node;
        curr_node = (onward cf s.mem so (s.mem.next 0) l nt).0;
      }

  -- A node whose key is below one that lies between the sentinels is not the last.
  pub inner :
      (m : Memory) (k c : ℕ) → Sound cf m → Between cf k → (ltb (m.key c) k) ≡ true → c ≢ cf.tail
  inner m k c so b e last =
      let lt : m.key c < k = ground (arith, e) in
      omega (arith, lt, b, ap m.key last, so.shape.tail_key)

  pub act-Moved :
      (p : Pc) (s : State)
      → Sound cf s.mem
      → Allocated a p s.mem
      → Fits cf s.mem tid p
      → s.pc tid ≡ p
      → Moved cf tid s (act cf tid a p s)
  unfolding act
  act-Moved _ s so al rests_idle at = (same, rw at rests_idle)
  act-Moved _ s so al (rests_answered b) at = (same, rw at (rests_answered b))
  act-Moved _ s so al (rests_returned v) at = (same, rw at (rests_returned v))
  act-Moved _ s so al (looks k b) at =
      stand s (scanning k (s.mem.next 0)) (scans k (s.mem.next 0) b (so.first.0, so.first_node))
  act-Moved _ s so al (scans k c b n) at =
      either cf tid s (ltb (s.mem.key c) k) _ _
        (λ e.
          stand s (scanning k (s.mem.next c))
            (scans k (s.mem.next c) b (onward cf s.mem so c n.0 (inner s.mem k c so b e)).0))
        (λ e.
          either cf tid s (s.mem.key c == k) _ _
            (λ y. stand s (reading k c) (reads k c b n ((==_iff (s.mem.key c) k).0 y)))
            (λ y. leave s (answered false) (rests_answered false)))
  act-Moved _ s so al (reads k c b n e) at =
      either cf tid s (s.mem.marked c) _ _ (λ y. leave s (answered false) (rests_answered false))
        (λ y. leave s (answered (not (s.mem.val c == cf.no_value))) (rests_answered _))
  act-Moved _ s so al (starts u k b st) at =
      stand s (walking u k (s.mem.next 0) (s.mem.next (s.mem.next 0)))
        (walks u k (s.mem.next 0) (s.mem.next (s.mem.next 0)) (head-Way s so u k b st))
  act-Moved _ s so al (walks u k p c w) at =
      either cf tid s (ltb (s.mem.key c) k) _ _
        (λ e.
          let lt : s.mem.key c < k = ground (arith, e) in
          let nt = inner s.mem k c so w.keys e in
          let z = w.curr_node.1 in
          let c0 : (c == 0) ≡ false = ground (arith, z) in
          stand s (walking u k c (s.mem.next c)) (
            walks u k c (s.mem.next c) (record {
              keys = w.keys;
              stores = w.stores;
              before = (w.curr_node.0, nt, rw c0 (omega (arith, lt)));
              pred_node = w.curr_node.1;
              curr_node = (onward cf s.mem so c w.curr_node.0 nt).0;
            })))
        (λ e.
          arrives-Moved u k p c s w
            (let ge : ¬ (s.mem.key c < k) = ground (arith, e) in omega arith))
  act-Moved _ s so al (works u k p c st w le am hp hc kn) at =
      work-Moved cf tid a k p c s so u w le am st al hp hc kn at

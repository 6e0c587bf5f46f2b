-- ===== src/Ds/LazyList/OwnSteps.antt =====
-- A thread's own steps: where contains, doInsert and erase of the lazy list take effect.
pub mod Work
use pop_setbench.Base.{
  ℕ, suc, ◌+◌, ◌%◌, ◌≤◌, ◌<◌, ◌≡◌, ◌≢◌, refl, sym, ap, subst, ◌∙◌, inl, inr, arith, true, false,
  Bool, ◌==◌, ==_iff, ==_refl, if◌then◌else◌, Bool-cases, update, not, ltb,
}
use pop_setbench.Ds.HmList.{Config}
use pop_setbench.Ds.HmList.Shape.{Linked, rank}
use pop_setbench.Ds.HmList.Threads.{Node}
use pop_setbench.Ds.HmList.Contents.{Entry, Absent}
use pop_setbench.Ds.HmList.Effects.{Same-refl}
use pop_setbench.Ds.HmList.Spec.{
  Op, look_up, remove, put_if_absent, Applies, found-Applies, missed-Applies, nothing-Applies,
  Takes-Applies, present-Applies, Adds-Applies,
}
use pop_setbench.Ds.LazyList.{
  Memory, Update, erase, insert, Outcome, again, gives, Stage, test_pred, swap_pred, test_curr,
  swap_curr, see_pred, see_curr, see_next, linking, copying, marking, cutting, free_curr, free_pred,
  Pc, answered, returned, looking_up, scanning, reading, starting, walking, critical, State, goes,
  leaves, marks, joins, release, behind_pred, finish, accepted, store, arrives, work, act,
}
use pop_setbench.Ds.LazyList.Words.{words, free_word, Sound, Met, Met-Node}
use pop_setbench.Ds.LazyList.Change.{Owns}
use pop_setbench.Ds.LazyList.Change.Join.{join-Shape, join-Adds}
use pop_setbench.Ds.LazyList.Change.Keep.{marks-Takes}
use pop_setbench.Ds.LazyList.Threads.{
  Between, locks_both, Way, Aims, Held, Knows, holds_pred, holds_curr, Fits, scans, reads, walks,
  works, starts, looks,
}
use pop_setbench.Ds.LazyList.Act.{inner}
use pop_setbench.Ds.LazyList.Act.Work.{Allocated}
use pop_setbench.Ds.LazyList.Points.{
  Answer, says, hands, op_of, Ends, Told, Tells, to_look, to_scan, to_read, to_start, to_walk,
  to_work, to_answer, to_return, Ends-up,
}

-- An operation that is asked of a map without the key.
abbrev pub Idles : Config → ℕ → Op → Answer → Type 0
Idles cf k op p = (m : Memory) → Absent (words m) k → Applies cf.no_value op p (words m) (words m)

module _ (cf : Config) (tid a : ℕ) (H H' : Answer → Type 0) (up : (p : Answer) → H p → H' p)
    (V V' : ℕ → ℕ → Type 0) (upV : (k c : ℕ) → V k c → V' k c) (s : State)
    (so : Sound cf s.mem) where
  -- What the steps of the run so far say: the node behind one that was met was met too, and the key is
  -- or was absent where its place is empty or its node marked.
  pub record Looks (op : Op) : Type 0 where
    pub meets : (k c : ℕ) → Met cf s.mem k c → V k c
    pub forward :
        (k c : ℕ)
        → V k c
        → Node cf (words s.mem) c
        → c ≢ cf.tail
        → s.mem.key c < k
        → V k (s.mem.next c)
    pub beyond :
        (k c : ℕ)
        → V k c
        → Node cf (words s.mem) c
        → k < s.mem.key c
        → (p : Answer) → Idles cf k op p
        → H p
    pub faded :
        (k c : ℕ)
        → V k c
        → Node cf (words s.mem) c
        → s.mem.marked c ≡ true
        → s.mem.key c ≡ k
        → (p : Answer) → Idles cf k op p
        → H p

  -- What is known behind a step to the state `s'`.
  abbrev pub Later : Op → State → Type 0
  Later op s' =
      ((p : Answer) → Applies cf.no_value op p (words s.mem) (words s'.mem) → H' p)
      → Tells H' V' s'.mem op (s'.pc tid)

  pub lands :
      (op : Op) (m : Memory) (p : Pc)
      → Tells H' V' m op p
      → Tells H' V' m op (update s.pc tid p tid)
  lands op m p t = rw (==_refl tid) t

  pub branch :
      (op : Op) (b : Bool) (x y : State)
      → (b ≡ true → Later op x)
      → (b ≡ false → Later op y)
      → Later op (if b then x else y)
  branch op true x y f g = f refl
  branch op false x y f g = g refl

  -- To another point, or out of the operation.
  pub go : (op : Op) (p : Pc) → Tells H' V' s.mem op p → Later op (goes tid p s)
  go op p t now = lands op s.mem p t

  out : (op : Op) (p : Pc) → Tells H' V' s.mem op p → Later op (leaves tid p s)
  out op p t now = lands op s.mem p t

  above : (k c : ℕ) → ltb (s.mem.key c) k ≡ false → (s.mem.key c == k) ≡ false → k < s.mem.key c
  above k c e y =
      let ge : ¬ (s.mem.key c < k) = ground (arith, e) in
      let ne : s.mem.key c ≢ k = ground (arith, y) in omega (arith, ge, ne)

  missed_it : (k : ℕ) → Idles cf k (look_up k) (says false)
  missed_it k m none = missed-Applies cf (words m) (words m) k (Same-refl (words m)) none

  nothing_it : (k : ℕ) → Idles cf k (remove k) (hands cf.no_value)
  nothing_it k m none = nothing-Applies cf (words m) (words m) k (Same-refl (words m)) none

  -- A node that is not marked is in the map.
  pub entry :
      (k c : ℕ)
      → Node cf (words s.mem) c
      → s.mem.marked c ≡ false
      → s.mem.key c ≡ k
      → Entry (words s.mem) k (s.mem.val c)
  entry k c n f e = record {
    node = c;
    is_linked = n.0;
    is_node = n.1;
    unmarked = let ev = so.straight c n.0 in let h = free_word s.mem c f in omega (arith, ev, h);
    has_key = e;
    has_val = refl;
  }

  pub scan-Tells :
      (k c : ℕ)
      → V k c
      → Between cf k
      → Node cf (words s.mem) c
      → Looks (look_up k)
      → Later (look_up k) (act cf tid a (scanning k c) s)
  unfolding act
  scan-Tells k c w b n lk =
      branch (look_up k) (ltb (s.mem.key c) k) _ _
        (λ e.
          let lt : s.mem.key c < k = ground (arith, e) in
          let nt = inner cf tid a s.mem k c so b e in
          go (look_up k) (scanning k (s.mem.next c))
            (to_scan k (s.mem.next c) (upV k (s.mem.next c) (lk.forward k c w n nt lt))))
        (λ e.
          branch (look_up k) (s.mem.key c == k) _ _
            (λ y. go (look_up k) (reading k c) (to_read k c (upV k c w)))
            (λ y. out (look_up k) (answered false) (
              to_answer (look_up k) false
                (up (says false) (lk.beyond k c w n (above k c e y) (says false) (missed_it k))))))

  pub read-Tells :
      (k c : ℕ)
      → V k c
      → Between cf k
      → Node cf (words s.mem) c
      → s.mem.key c ≡ k
      → Looks (look_up k)
      → Later (look_up k) (act cf tid a (reading k c) s)
  unfolding act
  read-Tells k c w b n e lk =
      branch (look_up k) (s.mem.marked c) _ _
        (λ y. out (look_up k) (answered false) (
          to_answer (look_up k) false
            (up (says false) (lk.faded k c w n y e (says false) (missed_it k)))))
        (λ y.
          let ne = so.valued c n.0 n.1 (rw e b.0) (rw e b.1) in
          let z : (s.mem.val c == cf.no_value) ≡ false = ground (arith, ne) in
          rw z (λ now. lands (look_up k) s.mem (answered true) (
            to_answer (look_up k) true (
              now (says true) (
                found-Applies cf (words s.mem) (words s.mem) k (s.mem.val c)
                  (Same-refl (words s.mem)) (entry k c n y e))))))

  arrive-Tells :
      (u : Update) (k p c : ℕ)
      → V k c
      → Node cf (words s.mem) c
      → ltb (s.mem.key c) k ≡ false
      → Looks (op_of u k)
      → Later (op_of u k) (arrives cf tid u k p c s)
  unfolding arrives Told
  arrive-Tells erase k p c w n e lk =
      branch (remove k) (s.mem.key c == k) _ _
        (λ y. go (remove k) (critical erase k p c test_pred) (to_work erase k p c test_pred tt))
        (λ y. out (remove k) (returned cf.no_value) (
          to_return (remove k) cf.no_value (
            up (hands cf.no_value)
              (lk.beyond k c w n (above k c e y) (hands cf.no_value) (nothing_it k)))))
  arrive-Tells (insert v) k p c w n e lk =
      go (put_if_absent k v) (critical (insert v) k p c test_pred)
        (to_work (insert v) k p c test_pred tt)

  pub walk-Tells :
      (u : Update) (k p c : ℕ)
      → V k c
      → Way cf s.mem u k p c
      → Looks (op_of u k)
      → Later (op_of u k) (act cf tid a (walking u k p c) s)
  unfolding act
  walk-Tells u k p c v w lk =
      branch (op_of u k) (ltb (s.mem.key c) k) _ _
        (λ e.
          let lt : s.mem.key c < k = ground (arith, e) in
          let nt = inner cf tid a s.mem k c so w.keys e in
          go (op_of u k) (walking u k c (s.mem.next c)) (
            to_walk u k c (s.mem.next c)
              (upV k (s.mem.next c) (lk.forward k c v w.curr_node nt lt))))
        (λ e. arrive-Tells u k p c v w.curr_node e lk)

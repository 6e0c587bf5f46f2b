-- ===== src/Ds/LazyList/OwnSteps/Work.antt =====
-- The steps of doInsert and erase from the locks on, against the abstract map.
use pop_setbench.Base.{
  ℕ, suc, ◌%◌, ◌≤◌, ◌<◌, ◌≡◌, ◌≢◌, refl, sym, subst, inl, inr, arith, true, false, Bool, ◌==◌,
  ==_iff, if◌then◌else◌, Bool-cases,
}
use pop_setbench.Ds.HmList.{Config, unused}
use pop_setbench.Ds.HmList.Paths.{here}
use pop_setbench.Ds.HmList.Shape.{rank}
use pop_setbench.Ds.HmList.Contents.{Takes}
use pop_setbench.Ds.HmList.Effects.{Same-refl}
use pop_setbench.Ds.HmList.Spec.{Op, look_up, Takes-Applies, present-Applies, Adds-Applies}
use pop_setbench.Ds.LazyList.{
  Memory, Update, erase, insert, Outcome, again, gives, Stage, test_pred, swap_pred, test_curr,
  swap_curr, see_pred, see_curr, see_next, linking, copying, marking, cutting, free_curr, free_pred,
  Pc, returned, scanning, starting, walking, critical, State, goes, leaves, set_lock, marks, cuts,
  joins, release, behind_pred, finish, accepted, store, work, act,
}
use pop_setbench.Ds.LazyList.Words.{words, Sound, Met, node_rank, Met-Reached}
use pop_setbench.Ds.LazyList.Change.{Owns}
use pop_setbench.Ds.LazyList.Change.Join.{join-Shape, join-Adds}
use pop_setbench.Ds.LazyList.Change.Keep.{marks-Takes}
use pop_setbench.Ds.LazyList.Threads.{
  Between, locks_both, Way, Aims, Held, Knows, holds_pred, Fits, scans, reads, walks, works, starts,
}
use pop_setbench.Ds.LazyList.Act.Work.{Allocated}
use pop_setbench.Ds.LazyList.Points.{
  Answer, says, hands, op_of, Ends, Saw, Told, Tells, to_look, to_scan, to_read, to_start, to_walk,
  to_work, to_answer, to_return, Ends-up,
}
use pop_setbench.Ds.LazyList.OwnSteps.{
  Looks, Later, lands, branch, entry, scan-Tells, read-Tells, walk-Tells,
}

module _ (cf : Config) (tid a : ℕ) (H H' : Answer → Type 0) (up : (p : Answer) → H p → H' p)
    (V V' : ℕ → ℕ → Type 0) (upV : (k c : ℕ) → V k c → V' k c) (s : State)
    (so : Sound cf s.mem) where
  abbrev After : Update → ℕ → State → Type 0
  After u k s' = Later cf tid a H H' up V V' upV s so (op_of u k) s'

  module _ (k p c : ℕ) where
    -- To another point, with a step that leaves `m'`.
    to :
        (u : Update) (m' : Memory) (st : Stage)
        → Told H' m' u k c st
        → After u k (goes tid (critical u k p c st) (record s { mem = m' }))
    to u m' st h now =
        lands cf tid a H H' up V V' upV s so (op_of u k) m' (critical u k p c st)
          (to_work u k p c st h)

    fork :
        (u : Update) (b : Bool) (x y : State)
        → (b ≡ true → After u k x)
        → (b ≡ false → After u k y)
        → After u k (if b then x else y)
    fork u = branch cf tid a H H' up V V' upV s so (op_of u k)

    idle-Told : (u : Update) → Told H' s.mem u k c (release u again)
    unfolding Told
    idle-Told erase = tt
    idle-Told (insert v) = tt

    fails : (u : Update) → After u k (goes tid (critical u k p c (release u again)) s)
    fails u = to u s.mem (release u again) (idle-Told u)

    locked-Told : (u : Update) (m' : Memory) → Told H' m' u k c (behind_pred u)
    unfolding Told
    locked-Told erase m' = tt
    locked-Told (insert v) m' = tt

    -- doInsert has read `curr->marked`.
    sees :
        (u : Update)
        → Way cf s.mem u k p c
        → s.mem.marked c ≡ false
        → After u k (goes tid (critical u k p c see_next) s)
    unfolding Told
    sees erase w f now = to erase s.mem see_next tt now
    sees (insert v) w f now =
        let m = words s.mem in
        to (insert v) s.mem see_next
          (λ e. now (hands (s.mem.val c)) (
            present-Applies cf m m k v (s.mem.val c) (Same-refl m)
              (entry cf tid a H H' up V V' upV s so k c w.curr_node f e)))
          now

    accepts :
        (u : Update)
        → Saw H s.mem u k c
        → After u k (goes tid (critical u k p c (accepted cf tid u k c s.mem)) s)
    unfolding Told
    accepts erase h = to erase s.mem copying refl
    accepts (insert v) h = elim (Bool-cases (s.mem.key c == k)) [
      | inl y ↦
          let e : s.mem.key c ≡ k = (==_iff (s.mem.key c) k).0 y in
          rw y
            (to (insert v) s.mem (free_pred (gives (s.mem.val c))) (up (hands (s.mem.val c)) (h e)))
      | inr y ↦ rw y (to (insert v) s.mem linking refl)
    ]

    -- The store of doInsert adds the key.
    stores :
        (u : Update)
        → locks_both u ≡ false
        → Way cf s.mem u k p c
        → k ≤ s.mem.key c
        → s.mem.lock p ≡ suc tid
        → s.mem.marked p ≡ false
        → s.mem.next p ≡ c
        → k ≢ s.mem.key c
        → s.mem.status a ≡ unused
        → a % 2 ≡ 0
        → After u k (
            goes tid
              (critical u k p c (free_pred (gives cf.no_value)))
              (record s { mem = store cf tid u k p c a s.mem }))
    unfolding Told
    stores erase fails_not w le hp f at ne fresh even now = absurd cc
    stores (insert v) single w le hp f at ne fresh even now =
        let rk = node_rank cf s.mem so c w.curr_node.1 in
        let o : Owns cf tid s.mem k p c = record {
          before = w.before;
          is_node = w.pred_node;
          held = hp;
          unmarked = f;
          leads = at;
        } in
        let high : suc k < rank (words s.mem) c = omega (arith, rk, le, ne) in
        to (insert v) (joins p c a k v s.mem) (free_pred (gives cf.no_value))
          (now (hands cf.no_value) (
            Adds-Applies cf (words s.mem) (words (joins p c a k v s.mem)) k v
              (join-Shape cf tid s.mem so p c a k v o high fresh even)
              (join-Adds cf tid s.mem so p c a k v o high fresh even)))
          now

    -- The mark of erase takes the key away.
    takes :
        (u : Update) (nx : ℕ)
        → locks_both u ≡ true
        → Way cf s.mem u k p c
        → Aims cf s.mem u k c
        → s.mem.marked c ≡ false
        → After u k (goes tid (critical u k p c (cutting nx)) (record s { mem = marks c s.mem }))
    unfolding Told marks
    takes (insert v) nx both w am f now = absurd cc
    takes erase nx both w am f now =
        let m' = words (marks c s.mem) in
        let took : Takes (words s.mem) m' k (s.mem.val c) =
          subst (λ x. Takes (words s.mem) m' x (s.mem.val c)) am
            (marks-Takes cf s.mem so c w.curr_node f) in
        to erase (marks c s.mem) (cutting nx)
          (now (hands (s.mem.val c)) (Takes-Applies cf (words s.mem) m' k (s.mem.val c) took)) now

    finishes :
        (u : Update) (o : Outcome)
        → Ends H o
        → After u k (leaves tid (finish u k o) (record s { mem = set_lock p 0 s.mem }))
    finishes u again h now =
        lands cf tid a H H' up V V' upV s so (op_of u k) (set_lock p 0 s.mem) (starting u k)
          (to_start u k)
    finishes u (gives v) h now =
        lands cf tid a H H' up V V' upV s so (op_of u k) (set_lock p 0 s.mem) (returned v)
          (to_return (op_of u k) v (up (hands v) h))

    work-Tells :
        (u : Update) (st : Stage)
        → Way cf s.mem u k p c
        → k ≤ s.mem.key c
        → Aims cf s.mem u k c
        → Held s.mem tid p (holds_pred st)
        → Knows cf s.mem u k p c st
        → Allocated a (critical u k p c st) s.mem
        → Told H s.mem u k c st
        → s.pc tid ≡ critical u k p c st
        → After u k (work cf tid a u k p c st s)
    unfolding work Told Knows Allocated holds_pred cuts
    work-Tells u test_pred w le am hp kn al h at =
        fork u (s.mem.lock p == 0) _ _ (λ e. to u s.mem swap_pred tt)
          (λ e now. rw at (to_work u k p c test_pred tt))
    work-Tells u swap_pred w le am hp kn al h at =
        fork u (s.mem.lock p == 0) _ _
          (λ e.
            to u (set_lock p (suc tid) s.mem) (behind_pred u)
              (locked-Told u (set_lock p (suc tid) s.mem)))
          (λ e. to u s.mem test_pred tt)
    work-Tells u test_curr w le am hp kn al h at =
        fork u (s.mem.lock c == 0) _ _ (λ e. to u s.mem swap_curr tt)
          (λ e now. rw at (to_work u k p c test_curr tt))
    work-Tells u swap_curr w le am hp kn al h at =
        fork u (s.mem.lock c == 0) _ _ (λ e. to u (set_lock c (suc tid) s.mem) see_pred tt)
          (λ e. to u s.mem test_curr tt)
    work-Tells u see_pred w le am hp kn al h at =
        fork u (s.mem.marked p) _ _ (λ e. fails u) (λ e. to u s.mem see_curr tt)
    work-Tells u see_curr w le am hp kn al h at =
        fork u (s.mem.marked c) _ _ (λ e. fails u) (λ e. sees u w e)
    work-Tells u see_next w le am hp kn al h at =
        fork u (s.mem.next p == c) _ _ (λ e. accepts u h) (λ e. fails u)
    work-Tells u linking w le am hp (f, at_c, ne) (fresh, even) h at =
        stores u h w le (hp refl) f at_c ne fresh even
    work-Tells u copying w le am hp kn al h at = to u s.mem (marking (s.mem.next c)) h
    work-Tells u (marking nx) w le am hp (f, at_c, g, e, nt) al h at = takes u nx h w am g
    work-Tells u (cutting nx) w le am hp kn al h at =
        to u (cuts p c nx s.mem) (free_curr (gives (s.mem.val c))) (up (hands (s.mem.val c)) h)
    work-Tells u (free_curr o) w le am hp kn al h at =
        to u (set_lock c 0 s.mem) (free_pred o) (Ends-up H H' up V V' upV o h)
    work-Tells u (free_pred o) w le am hp kn al h at = finishes u o h

  -- The member `head`, and the head node.
  root-Met : (k : ℕ) → Met cf s.mem k (s.mem.next 0)
  root-Met k = record {
    node = 0;
    before = (so.shape.root, λ e. so.shape.tail_node (sym e), omega arith);
    reached = here refl;
    leads = refl;
  }

  head-Met : (k : ℕ) → Between cf k → Met cf s.mem k (s.mem.next (s.mem.next 0))
  head-Met k b =
      let (l, nt, low) = so.first in
      record {
        node = s.mem.next 0;
        before = (l, nt, omega (arith, low, b));
        reached = Met-Reached cf s.mem so k (s.mem.next 0) (root-Met k);
        leads = refl;
      }

  -- One step of a thread that stands at a point.
  pub own-Tells :
      (op : Op) (p : Pc)
      → Fits cf s.mem tid p
      → Allocated a p s.mem
      → Tells H V s.mem op p
      → s.pc tid ≡ p
      → Looks cf tid a H H' up V V' upV s so op
      → Later cf tid a H H' up V V' upV s so op (act cf tid a p s)
  unfolding act
  own-Tells _ _ f al (to_look k) at lk now =
      lands cf tid a H H' up V V' upV s so (look_up k) s.mem (scanning k (s.mem.next 0))
        (to_scan k (s.mem.next 0) (upV k (s.mem.next 0) (lk.meets k (s.mem.next 0) (root-Met k))))
  own-Tells _ _ (scans _ _ b n) al (to_scan k c v) at lk now =
      scan-Tells cf tid a H H' up V V' upV s so k c v b n lk now
  own-Tells _ _ (reads _ _ b n e) al (to_read k c v) at lk now =
      read-Tells cf tid a H H' up V V' upV s so k c v b n e lk now
  own-Tells _ _ (starts _ _ b st) al (to_start u k) at lk now =
      let c = s.mem.next (s.mem.next 0) in
      lands cf tid a H H' up V V' upV s so (op_of u k) s.mem (walking u k (s.mem.next 0) c)
        (to_walk u k (s.mem.next 0) c (upV k c (lk.meets k c (head-Met k b))))
  own-Tells _ _ (walks _ _ _ _ w) al (to_walk u k p c v) at lk now =
      walk-Tells cf tid a H H' up V V' upV s so u k p c v w lk now
  own-Tells _ _ (works _ _ _ _ _ w le am hp hc kn) al (to_work u k p c st h) at lk now =
      work-Tells k p c u st w le am hp kn al h at now
  own-Tells op _ f al (to_answer _ b h) at lk now = rw at (to_answer op b (up (says b) h))
  own-Tells op _ f al (to_return _ v h) at lk now = rw at (to_return op v (up (hands v) h))

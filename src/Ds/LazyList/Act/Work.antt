-- ===== src/Ds/LazyList/Act/Work.antt =====
-- The steps of doInsert and erase from the locks on.
use pop_setbench.Base.{
  ℕ, suc, ◌%◌, ◌≤◌, ◌≡◌, ◌≢◌, refl, ap, inl, inr, arith, true, false, Bool, ◌==◌, ==_iff, ==_refl,
  if◌then◌else◌, Bool-cases,
}
use pop_setbench.Ds.HmList.{Config, unused}
use pop_setbench.Ds.LazyList.{
  Memory, Update, erase, insert, Outcome, again, gives, Stage, test_pred, swap_pred, test_curr,
  swap_curr, see_pred, see_curr, see_next, linking, copying, marking, cutting, free_curr, free_pred,
  Pc, critical, State, goes, leaves, set_lock, joins, marks, cuts, release, behind_pred, finish,
  accepted, store, work,
}
use pop_setbench.Ds.LazyList.Words.{Sound, node_rank}
use pop_setbench.Ds.LazyList.Change.{Owns, Change, same, locks, joining, Change-Lasts, fresh_other}
use pop_setbench.Ds.LazyList.Threads.{
  Way, Aims, Held, Knows, holds_pred, holds_curr, Fits, rests_returned, starts, works, Way-Lasts,
  Aims-Lasts, locks_both,
}

-- What the allocator returns where it is asked: an even address that is not given out.
unfoldable pub Allocated : ℕ → Pc → Memory → Type 0
Allocated a (critical u k pred curr linking) m = (m.status a ≡ unused) × (a % 2 ≡ 0)
Allocated a _ m = Unit

module _ (cf : Config) (tid : ℕ) where
  -- What a step of the thread does, and what the thread knows behind it.
  abbrev pub Moved : State → State → Type 0
  Moved s s' = Change cf tid s.mem s'.mem × Fits cf s'.mem tid (s'.pc tid)

  pub either :
      (s : State) (b : Bool) (x y : State)
      → (b ≡ true → Moved s x)
      → (b ≡ false → Moved s y)
      → Moved s (if b then x else y)
  either s true x y f g = f refl
  either s false x y f g = g refl

  module _ (a k p c : ℕ) (s : State) (so : Sound cf s.mem) where
    abbrev At : Update → Stage → State → Type 0
    At u st s = Fits cf s.mem tid (critical u k p c st)

    module _ (u : Update) (w : Way cf s.mem u k p c) (le : k ≤ s.mem.key c)
        (am : Aims cf s.mem u k c) where
      -- To another point, with a step that leaves `m'`.
      on :
          (m' : Memory)
          → Change cf tid s.mem m'
          → (st : Stage) → Held m' tid p (holds_pred st)
          → Held m' tid c (holds_curr u st)
          → Knows cf m' u k p c st
          → Moved s (goes tid (critical u k p c st) (record s { mem = m' }))
      on m' ch st hp hc kn =
          let la = Change-Lasts cf tid s.mem m' so.shape.root ch in
          rw (==_refl tid) (
            ch,
            works u k p c st (Way-Lasts cf s.mem m' la u k p c w)
                (omega (arith, le, la.key c w.curr_node.0))
                (Aims-Lasts cf s.mem m' la u k c w.curr_node.0 am) hp hc kn,
          )

      stay :
          (st : Stage)
          → Held s.mem tid p (holds_pred st)
          → Held s.mem tid c (holds_curr u st)
          → Knows cf s.mem u k p c st
          → Moved s (goes tid (critical u k p c st) s)
      stay st = on s.mem same st

      -- A test of a lock that is taken.
      spin :
          (st : Stage)
          → Held s.mem tid p (holds_pred st)
          → Held s.mem tid c (holds_curr u st)
          → Knows cf s.mem u k p c st
          → s.pc tid ≡ critical u k p c st
          → Moved s s
      spin st hp hc kn at = (same, rw at (works u k p c st w le am hp hc kn))

      -- `curr` is behind `pred`.
      apart_nodes : (c == p) ≡ false
      apart_nodes = elim (Bool-cases (c == p)) [
        | inl y ↦
            let e : c ≡ p = (==_iff c p).0 y in
            let rk = node_rank cf s.mem so p w.pred_node in
            absurd (let low = w.before.2 in omega (arith, le, rk, low, ap s.mem.key e))
        | inr f ↦ f
      ]

      owns :
          s.mem.lock p ≡ suc tid
          → s.mem.marked p ≡ false
          → s.mem.next p ≡ c
          → Owns cf tid s.mem k p c
      owns h f at = record {
        before = w.before;
        is_node = w.pred_node;
        held = h;
        unmarked = f;
        leads = at;
      }

    -- Another round, or what validateLinks leads to.
    releases :
        (u : Update) (o : Outcome)
        → Way cf s.mem u k p c
        → k ≤ s.mem.key c
        → Aims cf s.mem u k c
        → s.mem.lock p ≡ suc tid
        → Held s.mem tid c (locks_both u)
        → Moved s (goes tid (critical u k p c (release u o)) s)
    unfolding Knows holds_pred holds_curr
    releases erase o w le am hp hc = stay erase w le am (free_curr o) (λ x. hp) hc tt
    releases (insert v) o w le am hp hc =
        stay (insert v) w le am (free_pred o) (λ x. hp) (λ x. absurd cc) tt

    accepts :
        (u : Update)
        → Way cf s.mem u k p c
        → k ≤ s.mem.key c
        → Aims cf s.mem u k c
        → s.mem.lock p ≡ suc tid
        → Held s.mem tid c (locks_both u)
        → s.mem.marked p ≡ false
        → (locks_both u ≡ true → s.mem.marked c ≡ false)
        → s.mem.next p ≡ c
        → Moved s (goes tid (critical u k p c (accepted cf tid u k c s.mem)) s)
    unfolding Knows holds_pred holds_curr
    accepts erase w le am hp hc f g at =
        let nt : c ≢ cf.tail = λ e. omega (arith, am, w.keys, ap s.mem.key e, so.shape.tail_key) in
        stay erase w le am copying (λ x. hp) hc (f, at, g refl, nt)
    accepts (insert v) w le am hp hc f g at = elim (Bool-cases (s.mem.key c == k)) [
      | inl y ↦
          rw y (
            stay (insert v) w le am (free_pred (gives (s.mem.val c))) (λ x. hp) (λ x. absurd cc) tt)
      | inr y ↦
          let ne : k ≢ s.mem.key c = ground (arith, y) in
          rw y (stay (insert v) w le am linking (λ x. hp) (λ x. absurd cc) (f, at, ne))
    ]

    -- The store of doInsert.
    joined :
        (u : Update)
        → Way cf s.mem u k p c
        → k ≤ s.mem.key c
        → Aims cf s.mem u k c
        → s.mem.lock p ≡ suc tid
        → s.mem.marked p ≡ false
        → s.mem.next p ≡ c
        → k ≢ s.mem.key c
        → s.mem.status a ≡ unused
        → a % 2 ≡ 0
        → Moved s (
            goes tid
              (critical u k p c (free_pred (gives cf.no_value)))
              (record s { mem = store cf tid u k p c a s.mem }))
    unfolding Knows holds_pred holds_curr joins
    joined erase w le am hp f at ne fresh even =
        stay erase w le am (free_pred (gives cf.no_value)) (λ x. hp) (λ x. absurd cc) tt
    joined (insert v) w le am hp f at ne fresh even =
        let rk = node_rank cf s.mem so c w.curr_node.1 in
        on (insert v) w le am (joins p c a k v s.mem)
          (joining p c a k v (owns (insert v) w le am hp f at) (omega (arith, rk, le, ne)) fresh
            even w.stores w.keys.0)
          (free_pred (gives cf.no_value)) (λ x. rw (fresh_other s.mem a p fresh w.before.0) hp)
          (λ x. absurd cc) tt

    locked :
        (u : Update)
        → Way cf s.mem u k p c
        → k ≤ s.mem.key c
        → Aims cf s.mem u k c
        → s.mem.lock p ≡ 0
        → Moved s (
            goes tid
              (critical u k p c (behind_pred u))
              (record s { mem = set_lock p (suc tid) s.mem }))
    unfolding Knows holds_pred holds_curr
    locked erase w le am z =
        on erase w le am (set_lock p (suc tid) s.mem) (locks p (suc tid) (inl z) (inr refl))
          test_curr (λ x. rw (==_refl p) refl) (λ x. absurd cc) refl
    locked (insert v) w le am z =
        on (insert v) w le am (set_lock p (suc tid) s.mem) (locks p (suc tid) (inl z) (inr refl))
          see_pred (λ x. rw (==_refl p) refl) (λ x. absurd cc) tt

    finishes :
        (u : Update) (o : Outcome)
        → Way cf s.mem u k p c
        → s.mem.lock p ≡ suc tid
        → Moved s (leaves tid (finish u k o) (record s { mem = set_lock p 0 s.mem }))
    finishes u again w hp =
        rw (==_refl tid) (locks p 0 (inr hp) (inl refl), starts u k w.keys w.stores)
    finishes u (gives v) w hp = rw (==_refl tid) (locks p 0 (inr hp) (inl refl), rests_returned v)

    pub work-Moved :
        (u : Update)
        → Way cf s.mem u k p c
        → k ≤ s.mem.key c
        → Aims cf s.mem u k c
        → (st : Stage) → Allocated a (critical u k p c st) s.mem
        → Held s.mem tid p (holds_pred st)
        → Held s.mem tid c (holds_curr u st)
        → Knows cf s.mem u k p c st
        → s.pc tid ≡ critical u k p c st
        → Moved s (work cf tid a u k p c st s)
    unfolding Knows holds_pred holds_curr Allocated work marks cuts
    work-Moved u w le am test_pred al hp hc kn at =
        either s (s.mem.lock p == 0) _ _
          (λ e. stay u w le am swap_pred (λ x. absurd cc) (λ x. absurd cc) tt)
          (λ e. spin u w le am test_pred hp hc tt at)
    work-Moved u w le am swap_pred al hp hc kn at =
        either s (s.mem.lock p == 0) _ _ (λ e. locked u w le am ((==_iff (s.mem.lock p) 0).0 e))
          (λ e. stay u w le am test_pred (λ x. absurd cc) (λ x. absurd cc) tt)
    work-Moved u w le am test_curr al hp hc kn at =
        either s (s.mem.lock c == 0) _ _
          (λ e. stay u w le am swap_curr (λ x. hp refl) (λ x. absurd cc) kn)
          (λ e. spin u w le am test_curr hp hc kn at)
    work-Moved u w le am swap_curr al hp hc kn at =
        either s (s.mem.lock c == 0) _ _
          (λ e.
            on u w le am (set_lock c (suc tid) s.mem)
              (locks c (suc tid) (inl ((==_iff (s.mem.lock c) 0).0 e)) (inr refl)) see_pred
              (λ x. rw (apart_nodes u w le am) (hp refl)) (λ x. rw (==_refl c) refl) tt)
          (λ e. stay u w le am test_curr (λ x. hp refl) (λ x. absurd cc) kn)
    work-Moved u w le am see_pred al hp hc kn at =
        either s (s.mem.marked p) _ _ (λ e. releases u again w le am (hp refl) hc)
          (λ e. stay u w le am see_curr (λ x. hp refl) hc e)
    work-Moved u w le am see_curr al hp hc kn at =
        either s (s.mem.marked c) _ _ (λ e. releases u again w le am (hp refl) hc)
          (λ e. stay u w le am see_next (λ x. hp refl) hc (kn, λ x. e))
    work-Moved u w le am see_next al hp hc (f, g) at =
        either s (s.mem.next p == c) _ _
          (λ e. accepts u w le am (hp refl) hc f g ((==_iff (s.mem.next p) c).0 e))
          (λ e. releases u again w le am (hp refl) hc)
    work-Moved u w le am linking (fresh, even) hp hc (f, at_c, ne) at =
        joined u w le am (hp refl) f at_c ne fresh even
    work-Moved u w le am copying al hp hc (f, at_c, g, nt) at =
        stay u w le am (marking (s.mem.next c)) (λ x. hp refl) (λ x. hc refl) (f, at_c, g, refl, nt)
    work-Moved u w le am (marking nx) al hp hc (f, at_c, g, e, nt) at =
        on u w le am (marks c s.mem) (Change.marking c w.curr_node nt (hc refl) g) (cutting nx)
          (λ x. hp refl) (λ x. hc refl) (rw (apart_nodes u w le am) f, at_c, rw (==_refl c) refl, e)
    work-Moved u w le am (cutting nx) al hp hc (f, at_c, g, e) at =
        on u w le am (cuts p c nx s.mem)
          (Change.cutting k p c nx (owns u w le am (hp refl) f at_c) g e)
          (free_curr (gives (s.mem.val c))) (λ x. hp refl) (λ x. hc refl) tt
    work-Moved u w le am (free_curr o) al hp hc kn at =
        on u w le am (set_lock c 0 s.mem) (locks c 0 (inr (hc refl)) (inl refl)) (free_pred o)
          (λ x. rw (apart_nodes u w le am) (hp refl)) (λ x. absurd cc) tt
    work-Moved u w le am (free_pred o) al hp hc kn at = finishes u o w (hp refl)

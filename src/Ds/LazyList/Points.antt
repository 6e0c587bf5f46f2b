-- ===== src/Ds/LazyList/Points.antt =====
-- Where the operations of the lazy list take effect: what is known at each point of a call about the
-- moment at which the abstract map was asked or changed.
use pop_setbench.Base.{ℕ, ◌≡◌, ◌∙◌, subst, true, false, Bool}
use pop_setbench.Ds.HmList.{Config}
use pop_setbench.Ds.HmList.Spec.{Op, look_up, remove, put_if_absent}
use pop_setbench.Ds.HmList.Shape.{Linked}
use pop_setbench.Ds.LazyList.{
  Memory, Update, erase, insert, Outcome, again, gives, Stage, test_pred, swap_pred, test_curr,
  swap_curr, see_pred, see_curr, see_next, linking, copying, marking, cutting, free_curr, free_pred,
  Pc, answered, returned, looking_up, scanning, reading, starting, walking, critical,
}
use pop_setbench.Ds.LazyList.Words.{words}
use pop_setbench.Ds.LazyList.Change.{Lasts}
use pop_setbench.Ds.LazyList.Threads.{locks_both, Fits, works}

-- What an operation answers, as in the specification of the Harris-Michael list.
abbrev pub Answer : Type 0
Answer = pop_setbench.Ds.HmList.Pc

abbrev pub says : Bool → Answer
says b = pop_setbench.Ds.HmList.answered b

abbrev pub hands : ℕ → Answer
hands v = pop_setbench.Ds.HmList.returned v

abbrev pub op_of : Update → ℕ → Op
op_of erase k = remove k
op_of (insert value) k = put_if_absent k value

-- `H p` says that the operation has taken effect with the answer `p`.
module _ (H : Answer → Type 0) where
  abbrev pub Ends : Outcome → Type 0
  Ends again = Unit
  Ends (gives v) = H (hands v)

  -- doInsert has seen a node with its key that is not marked; erase has marked its node.
  abbrev pub Saw : Memory → Update → (k curr : ℕ) → Type 0
  Saw m erase k curr = Unit
  Saw m (insert v) k curr = m.key curr ≡ k → H (hands (m.val curr))

  unfoldable pub Told : Memory → Update → (k curr : ℕ) → Stage → Type 0
  Told m u k curr see_next = Saw m u k curr
  Told m u k curr linking = locks_both u ≡ false
  Told m u k curr copying = locks_both u ≡ true
  Told m u k curr (marking nx) = locks_both u ≡ true
  Told m u k curr (cutting nx) = H (hands (m.val curr))
  Told m u k curr (free_curr o) = Ends o
  Told m u k curr (free_pred o) = Ends o
  Told m u k curr _ = Unit

  -- `V k c` says that the thread has come to `c` from a node of the list with a lower key than `k`.
  pub data Tells (V : ℕ → ℕ → Type 0) (m : Memory) : Op → Pc → Type 0 where
    to_look : (k : ℕ) → Tells V m (look_up k) (looking_up k)
    to_scan : (k c : ℕ) → V k c → Tells V m (look_up k) (scanning k c)
    to_read : (k c : ℕ) → V k c → Tells V m (look_up k) (reading k c)
    to_start : (u : Update) (k : ℕ) → Tells V m (op_of u k) (starting u k)
    to_walk : (u : Update) (k p c : ℕ) → V k c → Tells V m (op_of u k) (walking u k p c)
    to_work :
        (u : Update) (k p c : ℕ) (st : Stage)
        → Told m u k c st
        → Tells V m (op_of u k) (critical u k p c st)
    to_answer : (op : Op) (b : Bool) → H (says b) → Tells V m op (answered b)
    to_return : (op : Op) (v : ℕ) → H (hands v) → Tells V m op (returned v)

-- What holds later on when a step of another thread is added to the run.
module _ (H H' : Answer → Type 0) (up : (p : Answer) → H p → H' p) (V V' : ℕ → ℕ → Type 0)
    (upV : (k c : ℕ) → V k c → V' k c) where
  pub Ends-up : (o : Outcome) → Ends H o → Ends H' o
  Ends-up again h = tt
  Ends-up (gives v) h = up (hands v) h

  Told-up :
      (m m' : Memory)
      → Lasts m m'
      → (u : Update) (k c : ℕ) (st : Stage) → Linked (words m) c
      → Told H m u k c st
      → Told H' m' u k c st
  unfolding Told
  Told-up m m' la u k c linking l h = h
  Told-up m m' la u k c copying l h = h
  Told-up m m' la u k c (marking nx) l h = h
  Told-up m m' la u k c (cutting nx) l h =
      subst (λ x. H' (hands x)) (la.val c l) (up (hands (m.val c)) h)
  Told-up m m' la u k c (free_curr o) l h = Ends-up o h
  Told-up m m' la u k c (free_pred o) l h = Ends-up o h
  Told-up m m' la erase k c see_next l h = tt
  Told-up m m' la (insert v) k c see_next l h =
      λ e. subst (λ x. H' (hands x)) (la.val c l) (up (hands (m.val c)) (h (la.key c l ∙ e)))
  Told-up m m' la u k c test_pred l h = tt
  Told-up m m' la u k c swap_pred l h = tt
  Told-up m m' la u k c test_curr l h = tt
  Told-up m m' la u k c swap_curr l h = tt
  Told-up m m' la u k c see_pred l h = tt
  Told-up m m' la u k c see_curr l h = tt

  pub Tells-up :
      (cf : Config) (tid : ℕ) (m m' : Memory)
      → Lasts m m'
      → (op : Op) (p : Pc) → Fits cf m tid p
      → Tells H V m op p
      → Tells H' V' m' op p
  Tells-up cf tid m m' la _ _ f (to_look k) = to_look k
  Tells-up cf tid m m' la _ _ f (to_scan k c w) = to_scan k c (upV k c w)
  Tells-up cf tid m m' la _ _ f (to_read k c w) = to_read k c (upV k c w)
  Tells-up cf tid m m' la _ _ f (to_start u k) = to_start u k
  Tells-up cf tid m m' la _ _ f (to_walk u k p c w) = to_walk u k p c (upV k c w)
  Tells-up cf tid m m' la _ _ (works _ _ _ _ _ w le am hp hc kn) (to_work u k p c st h) =
      to_work u k p c st (Told-up m m' la u k c st w.curr_node.0 h)
  Tells-up cf tid m m' la op _ f (to_answer _ b h) = to_answer op b (up (says b) h)
  Tells-up cf tid m m' la op _ f (to_return _ v h) = to_return op v (up (hands v) h)

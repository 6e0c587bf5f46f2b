-- ===== src/Ds/LazyList/Threads.antt =====
-- What a thread knows of the lazy list at each point of contains, doInsert and erase, and which locks
-- it has there.
use pop_setbench.Base.{ℕ, suc, ◌≤◌, ◌<◌, ◌≡◌, ◌≢◌, refl, sym, ◌∙◌, arith, true, false, Bool}
use pop_setbench.Ds.HmList.{Config}
use pop_setbench.Ds.HmList.Shape.{Linked}
use pop_setbench.Ds.HmList.Threads.{Before, Node}
use pop_setbench.Ds.LazyList.{
  Memory, Update, erase, insert, Stage, test_pred, swap_pred, test_curr, swap_curr, see_pred,
  see_curr, see_next, linking, copying, marking, cutting, free_curr, free_pred, Pc, idle, answered,
  returned, looking_up, scanning, reading, starting, walking, critical,
}
use pop_setbench.Ds.LazyList.Words.{words}
use pop_setbench.Ds.LazyList.Change.{Lasts, Guards}
use pop_setbench.Ds.LazyList.Change.Keep.{before-Lasts, node-Lasts}

abbrev pub locks_both : Update → Bool
locks_both erase = true
locks_both (insert value) = false

unfoldable pub holds_pred : Stage → Bool
holds_pred test_pred = false
holds_pred swap_pred = false
holds_pred _ = true

unfoldable pub holds_curr : Update → Stage → Bool
holds_curr u test_pred = false
holds_curr u swap_pred = false
holds_curr u test_curr = false
holds_curr u swap_curr = false
holds_curr u see_pred = locks_both u
holds_curr u see_curr = locks_both u
holds_curr u see_next = locks_both u
holds_curr u linking = false
holds_curr u (free_pred o) = false
holds_curr u _ = true

abbrev pub Held : Memory → (tid n : ℕ) → Bool → Type 0
Held m tid n b = b ≡ true → m.lock n ≡ suc tid

module _ (cf : Config) where
  abbrev pub Between : ℕ → Type 0
  Between k = (cf.key_min < k) × (k < cf.key_max)

  -- NO_VALUE is not inserted.
  abbrev pub Stores : Update → Type 0
  Stores erase = Unit
  Stores (insert value) = value ≢ cf.no_value

  -- erase locks a node with its key.
  abbrev pub Aims : Memory → Update → (k curr : ℕ) → Type 0
  Aims m erase k curr = m.key curr ≡ k
  Aims m (insert value) k curr = Unit

  pub record Way (m : Memory) (u : Update) (k pred curr : ℕ) : Type 0 where
    pub keys : Between k
    pub stores : Stores u
    pub before : Before cf (words m) k pred
    pub pred_node : pred ≢ 0
    pub curr_node : Node cf (words m) curr

  -- What validateLinks has seen so far, and what erase does behind it.
  unfoldable pub Knows : Memory → Update → (k pred curr : ℕ) → Stage → Type 0
  Knows m u k pred curr test_curr = locks_both u ≡ true
  Knows m u k pred curr swap_curr = locks_both u ≡ true
  Knows m u k pred curr see_curr = m.marked pred ≡ false
  Knows m u k pred curr see_next =
      (m.marked pred ≡ false) × (locks_both u ≡ true → m.marked curr ≡ false)
  Knows m u k pred curr linking = (m.marked pred ≡ false) × (m.next pred ≡ curr) × (k ≢ m.key curr)
  Knows m u k pred curr copying =
      (m.marked pred ≡ false) × (m.next pred ≡ curr) × (m.marked curr ≡ false) × (curr ≢ cf.tail)
  Knows m u k pred curr (marking nx) =
      (m.marked pred ≡ false)
      × (m.next pred ≡ curr)
      × (m.marked curr ≡ false)
      × (m.next curr ≡ nx)
      × (curr ≢ cf.tail)
  Knows m u k pred curr (cutting nx) =
      (m.marked pred ≡ false) × (m.next pred ≡ curr) × (m.marked curr ≡ true) × (m.next curr ≡ nx)
  Knows m u k pred curr _ = Unit

  pub data Fits (m : Memory) (tid : ℕ) : Pc → Type 0 where
    rests_idle : Fits m tid idle
    rests_answered : (b : Bool) → Fits m tid (answered b)
    rests_returned : (v : ℕ) → Fits m tid (returned v)
    looks : (k : ℕ) → Between k → Fits m tid (looking_up k)
    scans : (k curr : ℕ) → Between k → Node cf (words m) curr → Fits m tid (scanning k curr)
    reads :
        (k curr : ℕ)
        → Between k
        → Node cf (words m) curr
        → m.key curr ≡ k
        → Fits m tid (reading k curr)
    starts : (u : Update) (k : ℕ) → Between k → Stores u → Fits m tid (starting u k)
    walks :
        (u : Update) (k pred curr : ℕ) → Way m u k pred curr → Fits m tid (walking u k pred curr)
    works :
        (u : Update) (k pred curr : ℕ) (st : Stage)
        → Way m u k pred curr
        → k ≤ m.key curr
        → Aims m u k curr
        → Held m tid pred (holds_pred st)
        → Held m tid curr (holds_curr u st)
        → Knows m u k pred curr st
        → Fits m tid (critical u k pred curr st)

  module _ (m m' : Memory) (la : Lasts m m') where
    pub Way-Lasts : (u : Update) (k p c : ℕ) → Way m u k p c → Way m' u k p c
    Way-Lasts u k p c w = record {
      keys = w.keys;
      stores = w.stores;
      before = before-Lasts cf m m' la k p w.before;
      pred_node = w.pred_node;
      curr_node = node-Lasts cf m m' la c w.curr_node;
    }

    pub Aims-Lasts : (u : Update) (k c : ℕ) → Linked (words m) c → Aims m u k c → Aims m' u k c
    Aims-Lasts erase k c l a = sym (la.key c l) ∙ a
    Aims-Lasts (insert v) k c l a = a

  -- What a thread knows stays true while another one steps.
  module _ (m m' : Memory) (tid : ℕ) (la : Lasts m m') (gd : Guards tid m m') where
    Held-Lasts : (n : ℕ) (b : Bool) → Linked (words m) n → Held m tid n b → Held m' tid n b
    Held-Lasts n b l h e = (gd n l (h e)).0

    Knows-Lasts :
        (u : Update) (k p c : ℕ) (st : Stage)
        → Linked (words m) p
        → Linked (words m) c
        → Held m tid p (holds_pred st)
        → Held m tid c (holds_curr u st)
        → Knows m u k p c st
        → Knows m' u k p c st
    unfolding Knows holds_pred holds_curr
    Knows-Lasts u k p c see_curr lp lc hp hc kn = sym (gd p lp (hp refl)).2 ∙ kn
    Knows-Lasts u k p c see_next lp lc hp hc (f, g) =
        (sym (gd p lp (hp refl)).2 ∙ f, λ e. sym (gd c lc (hc e)).2 ∙ g e)
    Knows-Lasts u k p c linking lp lc hp hc (f, at, g) =
        let (z, n, mk) = gd p lp (hp refl) in
        (sym mk ∙ f, sym n ∙ at, λ e. g (e ∙ sym (la.key c lc)))
    Knows-Lasts u k p c copying lp lc hp hc (f, at, g, nt) =
        let (z, n, mk) = gd p lp (hp refl) in
        (sym mk ∙ f, sym n ∙ at, sym (gd c lc (hc refl)).2 ∙ g, nt)
    Knows-Lasts u k p c (marking nx) lp lc hp hc (f, at, g, e, nt) =
        let (z, n, mk) = gd p lp (hp refl) in
        let (z', n', mk') = gd c lc (hc refl) in
        (sym mk ∙ f, sym n ∙ at, sym mk' ∙ g, sym n' ∙ e, nt)
    Knows-Lasts u k p c (cutting nx) lp lc hp hc (f, at, g, e) =
        let (z, n, mk) = gd p lp (hp refl) in
        let (z', n', mk') = gd c lc (hc refl) in (sym mk ∙ f, sym n ∙ at, sym mk' ∙ g, sym n' ∙ e)
    Knows-Lasts u k p c test_pred lp lc hp hc kn = kn
    Knows-Lasts u k p c swap_pred lp lc hp hc kn = kn
    Knows-Lasts u k p c test_curr lp lc hp hc kn = kn
    Knows-Lasts u k p c swap_curr lp lc hp hc kn = kn
    Knows-Lasts u k p c see_pred lp lc hp hc kn = kn
    Knows-Lasts u k p c (free_curr o) lp lc hp hc kn = kn
    Knows-Lasts u k p c (free_pred o) lp lc hp hc kn = kn

    pub Fits-Lasts : (p : Pc) → Fits m tid p → Fits m' tid p
    Fits-Lasts _ rests_idle = rests_idle
    Fits-Lasts _ (rests_answered b) = rests_answered b
    Fits-Lasts _ (rests_returned v) = rests_returned v
    Fits-Lasts _ (looks k b) = looks k b
    Fits-Lasts _ (scans k c b n) = scans k c b (node-Lasts cf m m' la c n)
    Fits-Lasts _ (reads k c b n e) =
        reads k c b (node-Lasts cf m m' la c n) (sym (la.key c n.0) ∙ e)
    Fits-Lasts _ (starts u k b s) = starts u k b s
    Fits-Lasts _ (walks u k p c w) = walks u k p c (Way-Lasts m m' la u k p c w)
    Fits-Lasts _ (works u k p c st w le a hp hc kn) =
        let lp = w.before.0 in
        let lc = w.curr_node.0 in
        works u k p c st (Way-Lasts m m' la u k p c w) (omega (arith, la.key c lc, le))
          (Aims-Lasts m m' la u k c lc a) (Held-Lasts p (holds_pred st) lp hp)
          (Held-Lasts c (holds_curr u st) lc hc) (Knows-Lasts u k p c st lp lc hp hc kn)

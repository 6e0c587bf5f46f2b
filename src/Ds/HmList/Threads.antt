-- ===== src/Ds/HmList/Threads.antt =====
-- What a thread knows of the list at each point of list_search, doInsert and erase.
use pop_setbench.Base.{
  ℕ, suc, ◌+◌, ◌%◌, ◌<◌, ◌≡◌, ◌≢◌, sym, ap, ◌∙◌, arith, true, Bool, ◌==◌, if◌then◌else◌,
}
use pop_setbench.Ds.HmList.{
  Config, owned, Memory, Caller, contains, erase, insert, cleanup, Pc, idle, answered, returned,
  seeking, at_node, loaded, checked, unlinking, storing, linking, reading, marking, cutting,
}
use pop_setbench.Ds.HmList.Shape.{Linked, rank}
use pop_setbench.Ds.HmList.Evolve.{Evolves, Spares, Linked-used, owned-used}

-- The new node of doInsert is the thread's own.
abbrev pub Holds : Memory → (tid : ℕ) → Caller → (k : ℕ) → Type 0
Holds m tid contains k = Unit
Holds m tid erase k = Unit
Holds m tid (insert value new) k =
    (m.status new ≡ owned tid) × (m.key new ≡ k) × (m.val new ≡ value) × (new % 2 ≡ 0)
Holds m tid (cleanup res) k = Unit

module _ (cf : Config) where
  -- `prev` is `&head`, or the `next` of a node with a lower key.
  abbrev pub Before : Memory → (k prev : ℕ) → Type 0
  Before m k prev = Linked m prev × (prev ≢ cf.tail) × (rank m prev < suc k)

  abbrev pub Node : Memory → ℕ → Type 0
  Node m curr = Linked m curr × (curr ≢ 0)

  -- What was loaded from `curr->next`.
  abbrev pub Next : Memory → (curr nxt : ℕ) → Type 0
  Next m curr nxt = (nxt % 2 ≡ 0) × (curr ≢ cf.tail → Node m nxt)

  abbrev pub Marked : Memory → (curr nxt : ℕ) → Bool → Type 0
  Marked m curr nxt cmark = cmark ≡ true → m.link curr ≡ nxt + 1

  pub data Fits (m : Memory) (tid : ℕ) : Pc → Type 0 where
    rests_idle : Fits m tid idle
    rests_answered : (b : Bool) → Fits m tid (answered b)
    rests_returned : (v : ℕ) → Fits m tid (returned v)
    seeks : (c : Caller) (k : ℕ) → k < cf.key_max → Holds m tid c k → Fits m tid (seeking c k)
    stands :
        (c : Caller) (k prev curr : ℕ)
        → k < cf.key_max
        → Holds m tid c k
        → Before m k prev
        → Node m curr
        → Fits m tid (at_node c k prev curr)
    loads :
        (c : Caller) (k prev curr nxt : ℕ) (cmark : Bool)
        → k < cf.key_max
        → Holds m tid c k
        → Before m k prev
        → Node m curr
        → Next m curr nxt
        → Marked m curr nxt cmark
        → Fits m tid (loaded c k prev curr nxt cmark)
    checks :
        (c : Caller) (k prev curr nxt : ℕ) (cmark : Bool)
        → k < cf.key_max
        → Holds m tid c k
        → Before m k prev
        → Node m curr
        → Next m curr nxt
        → Marked m curr nxt cmark
        → Fits m tid (checked c k prev curr nxt cmark)
    unlinks_it :
        (c : Caller) (k prev curr nxt : ℕ)
        → k < cf.key_max
        → Holds m tid c k
        → Before m k prev
        → Node m curr
        → Next m curr nxt
        → m.link curr ≡ nxt + 1
        → Fits m tid (unlinking c k prev curr nxt)
    stores :
        (k value new prev curr : ℕ)
        → k < cf.key_max
        → Holds m tid (insert value new) k
        → Before m k prev
        → Node m curr
        → suc k < rank m curr
        → Fits m tid (storing k value new prev curr)
    links_it :
        (k value new prev curr : ℕ)
        → k < cf.key_max
        → Holds m tid (insert value new) k
        → Before m k prev
        → Node m curr
        → suc k < rank m curr
        → m.link new ≡ curr
        → Fits m tid (linking k value new prev curr)
    reads_val : (curr : ℕ) → Node m curr → Fits m tid (reading curr)
    marks :
        (k prev curr next : ℕ)
        → k < cf.key_max
        → Before m k prev
        → Node m curr
        → m.key curr ≡ k
        → next % 2 ≡ 0
        → Fits m tid (marking k prev curr next)
    cuts :
        (k prev curr next res : ℕ)
        → k < cf.key_max
        → Before m k prev
        → Node m curr
        → next % 2 ≡ 0
        → m.link curr ≡ next + 1
        → Fits m tid (cutting k prev curr next res)

  -- What a thread knows stays true while memory evolves and its own node is left alone.
  module _ (m m' : Memory) (ev : Evolves m m') where
    pub rank-Evolves : (n : ℕ) → Linked m n → rank m n ≡ rank m' n
    rank-Evolves n l = ap (λ k. if n == 0 then 0 else suc k) (ev.key n (Linked-used m n l))

    pub Before-Evolves : (k p : ℕ) → Before m k p → Before m' k p
    Before-Evolves k p (l, t, low) = (ev.linked p l, t, omega (arith, rank-Evolves p l, low))

    pub Node-Evolves : (c : ℕ) → Node m c → Node m' c
    Node-Evolves c (l, z) = (ev.linked c l, z)

    pub Next-Evolves : (c nx : ℕ) → Next m c nx → Next m' c nx
    Next-Evolves c nx (e, nd) = (e, λ t. Node-Evolves nx (nd t))

    pub marked-Evolves :
        (c nx : ℕ) → Linked m c → nx % 2 ≡ 0 → m.link c ≡ nx + 1 → m'.link c ≡ nx + 1
    marked-Evolves c nx l e mk = sym (ev.frozen c l (omega arith)) ∙ mk

    pub Holds-Evolves :
        (tid : ℕ) → Spares tid m m' → (c : Caller) (k : ℕ) → Holds m tid c k → Holds m' tid c k
    Holds-Evolves tid sp contains k h = h
    Holds-Evolves tid sp erase k h = h
    Holds-Evolves tid sp (insert value new) k (o, ky, vl, e) =
        let used = owned-used m new tid o in
        ((sp new o).0, sym (ev.key new used) ∙ ky, sym (ev.val new used) ∙ vl, e)
    Holds-Evolves tid sp (cleanup res) k h = h

    pub Fits-Evolves : (tid : ℕ) → Spares tid m m' → (p : Pc) → Fits m tid p → Fits m' tid p
    Fits-Evolves tid sp _ rests_idle = rests_idle
    Fits-Evolves tid sp _ (rests_answered b) = rests_answered b
    Fits-Evolves tid sp _ (rests_returned v) = rests_returned v
    Fits-Evolves tid sp _ (seeks c k lt h) = seeks c k lt (Holds-Evolves tid sp c k h)
    Fits-Evolves tid sp _ (stands c k p cu lt h b n) =
        stands c k p cu lt (Holds-Evolves tid sp c k h) (Before-Evolves k p b) (Node-Evolves cu n)
    Fits-Evolves tid sp _ (loads c k p cu nx mk lt h b n x mx) =
        loads c k p cu nx mk lt (Holds-Evolves tid sp c k h) (Before-Evolves k p b)
          (Node-Evolves cu n) (Next-Evolves cu nx x) (λ e. marked-Evolves cu nx n.0 x.0 (mx e))
    Fits-Evolves tid sp _ (checks c k p cu nx mk lt h b n x mx) =
        checks c k p cu nx mk lt (Holds-Evolves tid sp c k h) (Before-Evolves k p b)
          (Node-Evolves cu n) (Next-Evolves cu nx x) (λ e. marked-Evolves cu nx n.0 x.0 (mx e))
    Fits-Evolves tid sp _ (unlinks_it c k p cu nx lt h b n x mx) =
        unlinks_it c k p cu nx lt (Holds-Evolves tid sp c k h) (Before-Evolves k p b)
          (Node-Evolves cu n) (Next-Evolves cu nx x) (marked-Evolves cu nx n.0 x.0 mx)
    Fits-Evolves tid sp _ (stores k v new p cu lt h b n high) =
        stores k v new p cu lt (Holds-Evolves tid sp (insert v new) k h) (Before-Evolves k p b)
          (Node-Evolves cu n) (omega (arith, rank-Evolves cu n.0, high))
    Fits-Evolves tid sp _ (links_it k v new p cu lt h b n high lk) =
        links_it k v new p cu lt (Holds-Evolves tid sp (insert v new) k h) (Before-Evolves k p b)
          (Node-Evolves cu n) (omega (arith, rank-Evolves cu n.0, high)) (sym (sp new h.0).1 ∙ lk)
    Fits-Evolves tid sp _ (reads_val cu n) = reads_val cu (Node-Evolves cu n)
    Fits-Evolves tid sp _ (marks k p cu nx lt b n ky e) =
        marks k p cu nx lt (Before-Evolves k p b) (Node-Evolves cu n)
          (sym (ev.key cu (Linked-used m cu n.0)) ∙ ky) e
    Fits-Evolves tid sp _ (cuts k p cu nx res lt b n e mx) =
        cuts k p cu nx res lt (Before-Evolves k p b) (Node-Evolves cu n) e
          (marked-Evolves cu nx n.0 e mx)

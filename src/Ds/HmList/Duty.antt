-- ===== src/Ds/HmList/Duty.antt =====
-- The duty to unlink a marked node that is still on the way from the head: an eraser is about to swap
-- it out, or it searches for its key again.
use pop_setbench.Base.{
  ℕ, suc, ◌+◌, ◌%◌, ◌≤◌, ◌≡◌, ◌≢◌, refl, sym, ap, subst, ◌∙◌, inl, inr, arith, true, false, Bool,
  ◌==◌, ==_iff, ==_refl, Bool-cases, update, leb,
}
use pop_setbench.Ds.HmList.{
  get_ptr, get_mk, mix_ptr_mk, Config, Memory, cleanup, Pc, seeking, at_node, loaded, checked,
  unlinking, cutting, State, unlinks, respond, act,
}
use pop_setbench.Ds.HmList.Paths.{Chain, Chain-between, Chain-past, Chain-rank}
use pop_setbench.Ds.HmList.Shape.{Linked, rank, Reached, Shape}
use pop_setbench.Ds.HmList.Shape.Cut.{cut-Shape}
use pop_setbench.Ds.HmList.Threads.{Before, Node, Fits, stands, checks, cuts}

-- The point at which the thread has the duty to unlink the marked node `n`.
pub data Duty (m : Memory) (n : ℕ) : Pc → Type 0 where
  swaps : (k prev next res : ℕ) → m.key n ≡ k → Duty m n (cutting k prev n next res)
  starts_over : (k res : ℕ) → m.key n ≡ k → Duty m n (seeking (cleanup res) k)
  comes_by : (k res prev curr : ℕ) → m.key n ≡ k → Duty m n (at_node (cleanup res) k prev curr)
  looks_at :
      (k res prev curr nxt : ℕ) (cmark : Bool)
      → m.key n ≡ k
      → (n ≡ curr → cmark ≡ true)
      → Duty m n (loaded (cleanup res) k prev curr nxt cmark)
  makes_sure :
      (k res prev curr nxt : ℕ) (cmark : Bool)
      → m.key n ≡ k
      → (n ≡ curr → cmark ≡ true)
      → Duty m n (checked (cleanup res) k prev curr nxt cmark)
  helps :
      (k res prev curr nxt : ℕ) → m.key n ≡ k → Duty m n (unlinking (cleanup res) k prev curr nxt)

pub Duty-on : (m m' : Memory) (n : ℕ) → m.key n ≡ m'.key n → (p : Pc) → Duty m n p → Duty m' n p
Duty-on m m' n e _ (swaps k p nx res h) = swaps k p nx res (sym e ∙ h)
Duty-on m m' n e _ (starts_over k res h) = starts_over k res (sym e ∙ h)
Duty-on m m' n e _ (comes_by k res p cu h) = comes_by k res p cu (sym e ∙ h)
Duty-on m m' n e _ (looks_at k res p cu nx mk h w) = looks_at k res p cu nx mk (sym e ∙ h) w
Duty-on m m' n e _ (makes_sure k res p cu nx mk h w) = makes_sure k res p cu nx mk (sym e ∙ h) w
Duty-on m m' n e _ (helps k res p cu nx h) = helps k res p cu nx (sym e ∙ h)

module _ (cf : Config) (tid : ℕ) where
  -- Between two neighbours, the first of which is not marked, no node with the key in between is on the way.
  passed :
      (p cu k n : ℕ) (m : Memory)
      → Shape cf m
      → Before cf m k p
      → Node cf m cu
      → m.link p ≡ cu
      → k ≤ m.key cu
      → n ≢ cu
      → Linked m n
      → n ≢ 0
      → m.key n ≡ k
      → ¬ Reached cf m n
  passed p cu k n m sh b nd at le ne l nz ky r =
      let n0 : (n == 0) ≡ false = ground (arith, nz) in
      let c0 : (cu == 0) ≡ false = let z = nd.1 in ground (arith, z) in
      let rn : rank m n ≡ suc k = rw n0 (ap suc ky) in
      let rc : rank m cu ≡ suc (m.key cu) = rw c0 refl in
      let even = sh.even cu nd.0 in
      let to_p = sh.reach p b.0 (omega (arith, at, even)) in
      let q =
        Chain-between cf.tail (Linked m) (rank m) m.link sh.order 0 p n sh.root
          (omega (arith, rn, b.2)) to_p r in
      let (pt, past) =
        Chain-past cf.tail (Linked m) (rank m) m.link sh.order p n (omega (arith, rn, b.2)) q in
      let to_c : get_ptr (m.link p) ≡ cu = omega (arith, at, even) in
      let from_c : Chain cf.tail m.link n cu = subst (Chain cf.tail m.link n) to_c past in
      elim (Chain-rank cf.tail (Linked m) (rank m) m.link sh.order n from_c nd.0) [
        | inl same ↦ ne (sym same)
        | inr up ↦ omega (arith, rn, rc, le, up)
      ]

  -- The thread with the duty takes a step.
  module _ (n : ℕ) (s : State) (sh : Shape cf s.mem) (l : Linked s.mem n) (nz : n ≢ 0)
      (odd : s.mem.link n % 2 ≡ 1) where
    abbrev Then : State → Type 0
    Then s' = Reached cf s'.mem n → Duty s'.mem n (s'.pc tid)

    lands : (m : Memory) (pc : ℕ → Pc) (p : Pc) → Duty m n p → Duty m n (update pc tid p tid)
    lands m pc p d = rw (==_refl tid) d

    swapped :
        (p nx : ℕ)
        → Linked s.mem p
        → p ≢ cf.tail
        → s.mem.link p ≡ n
        → nx % 2 ≡ 0
        → s.mem.link n ≡ nx + 1
        → ¬ Reached cf (unlinks p n nx s.mem) n
    unfolding unlinks
    swapped p nx lp pt at e mk =
        ((cut-Shape cf p n nx s.mem sh lp pt at (sh.even n l) mk e).gone n (inl refl)).2

    pub own-Duty : (p : Pc) → Fits cf s.mem tid p → Duty s.mem n p → Then (act cf tid p s)
    unfolding act respond unlinks
    own-Duty _ (cuts _ _ _ _ _ lt b nd e mk) (swaps k p nx res ky) =
        elim (Bool-cases (s.mem.link p == n)) [
          | inl y ↦ rw y (λ r. absurd (swapped p nx b.0 b.1 ((==_iff (s.mem.link p) n).0 y) e mk r))
          | inr f ↦ rw f (λ r. lands s.mem s.pc (seeking (cleanup res) k) (starts_over k res ky))
        ]
    own-Duty _ f (starts_over k res ky) = λ r.
        lands s.mem s.pc (at_node (cleanup res) k 0 (s.mem.link 0))
          (comes_by k res 0 (s.mem.link 0) ky)
    own-Duty _ (stands _ _ _ _ lt h b nd) (comes_by k res p cu ky) =
        let z : (cu == 0) ≡ false = let nz' = nd.1 in ground (arith, nz') in
        let word = s.mem.link cu in
        rw z (λ r. lands s.mem s.pc (loaded (cleanup res) k p cu (get_ptr word) (get_mk word)) (
          looks_at k res p cu (get_ptr word) (get_mk word) ky
            (λ e. (==_iff (word % 2) 1).1 (sym (ap (λ x. s.mem.link x % 2) e) ∙ odd))))
    own-Duty _ f (looks_at k res p cu nx mk ky w) =
        elim (Bool-cases (mix_ptr_mk nx mk == s.mem.link cu)) [
          | inl y ↦ rw y (λ r.
              lands s.mem s.pc (checked (cleanup res) k p cu nx mk)
                (makes_sure k res p cu nx mk ky w))
          | inr g ↦ rw g (λ r. lands s.mem s.pc (seeking (cleanup res) k) (starts_over k res ky))
        ]
    own-Duty _ f (makes_sure k res p cu nx true ky w) = elim (Bool-cases (s.mem.link p == cu)) [
      | inl y ↦
          rw y (λ r. lands s.mem s.pc (unlinking (cleanup res) k p cu nx) (helps k res p cu nx ky))
      | inr g ↦ rw g (λ r. lands s.mem s.pc (seeking (cleanup res) k) (starts_over k res ky))
    ]
    own-Duty _ (checks _ _ _ _ _ _ lt h b nd x mx) (makes_sure k res p cu nx false ky w) =
        elim (Bool-cases (s.mem.link p == cu)) [
          | inl y ↦
              let at : s.mem.link p ≡ cu = (==_iff (s.mem.link p) cu).0 y in
              let ne : n ≢ cu = λ e. let clash : false ≡ true = w e in cc in
              elim (Bool-cases (leb k (s.mem.key cu))) [
                | inl le ↦
                    let le' : k ≤ s.mem.key cu = ground (arith, le) in
                    rw (y, le) (λ r. absurd (passed p cu k n s.mem sh b nd at le' ne l nz ky r))
                | inr g ↦
                    rw (y, g)
                      (λ r.
                        lands s.mem s.pc (at_node (cleanup res) k cu nx) (comes_by k res cu nx ky))
              ]
          | inr g ↦ rw g (λ r. lands s.mem s.pc (seeking (cleanup res) k) (starts_over k res ky))
        ]
    own-Duty _ f (helps k res p cu nx ky) = elim (Bool-cases (s.mem.link p == cu)) [
      | inl y ↦ rw y (λ r.
          lands (unlinks p cu nx s.mem) s.pc (at_node (cleanup res) k p nx)
            (comes_by k res p nx ky))
      | inr g ↦ rw g (λ r. lands s.mem s.pc (seeking (cleanup res) k) (starts_over k res ky))
    ]

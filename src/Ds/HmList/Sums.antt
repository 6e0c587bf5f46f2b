-- ===== src/Ds/HmList/Sums.antt =====
-- The sequential statistics debugKeySum and getDSSize. The loops have fuel; KEY_MAX + 1 rounds are
-- enough. An addition whose result no longer fits its `long long` or `int`, where C++ leaves the
-- behaviour undefined, is none.
use pop_setbench.Base.{
  ℕ, zero, suc, ◌+◌, ◌%◌, ◌≤◌, ◌<◌, ◌≡◌, ◌≢◌, ◌⊎◌, refl, sym, ap, subst, ◌∙◌, inl, inr, arith, ◌↔◌,
  true, false, ◌==◌, ==_iff, if◌then◌else◌, Bool-cases, ltb, leb, ◌&&◌, ◌^◌, ◌-◌, List, [], ◌∷◌, In,
  Distinct, Option, some, none,
}
use pop_setbench.Ds.HmList.{get_ptr, get_mk, Config, Memory, State, create}
use pop_setbench.Ds.HmList.Paths.{
  Chain-between, Chain-past, Chain-rank, Chain-unique, Chain-snoc, here,
}
use pop_setbench.Ds.HmList.Shape.{Linked, rank, Reached, Shape}
use pop_setbench.Ds.HmList.Threads.{Node}
use pop_setbench.Ds.HmList.Act.{behind}
use pop_setbench.Ds.HmList.Runs.{rests, Run, Run-Valid, Fresh}
use pop_setbench.Ds.HmList.Runs.Start.{create-Valid}
use pop_setbench.Ds.HmList.Quiet.{rest-unmarked}

abbrev pub total : (ℕ → ℕ) → List ℕ → ℕ
total f [] = 0
total f (n ∷ ns) = f n + total f ns

-- The greatest values of `long long` and `int`.
abbrev pub i64_max : ℕ
i64_max = 2 ^ 63 - 1

abbrev pub i32_max : ℕ
i32_max = 2 ^ 31 - 1

-- The value, if it fits `long long`.
abbrev pub in_range : ℕ → Option ℕ
in_range x = if leb x i64_max then some x else none

-- `assert(marked_count == 0)`
abbrev pub checks_none : Option (ℕ × ℕ) → Option ℕ
checks_none none = none
checks_none (some (result, marked_count)) = if marked_count == 0 then some result else none

-- A node with a higher rank is no lower than the next one.
beyond :
    (cf : Config) (m : Memory)
    → Shape cf m
    → (p : ℕ) → Linked m p
    → p ≢ cf.tail
    → Reached cf m p
    → (n : ℕ) → Linked m n
    → m.link n % 2 ≡ 0
    → rank m p < rank m n
    → rank m (get_ptr (m.link p)) ≤ rank m n
beyond cf m sh p lp t way n l u up =
    let nx = get_ptr (m.link p) in
    let lnx : Linked m nx = (sh.order p lp t).0 in
    let q =
      Chain-between cf.tail (Linked m) (rank m) m.link sh.order 0 p n sh.root up way
        (sh.reach n l u) in
    let from = (Chain-past cf.tail (Linked m) (rank m) m.link sh.order p n up q).1 in
    elim (Chain-rank cf.tail (Linked m) (rank m) m.link sh.order n from lnx) [
      | inl e ↦ omega (arith, ap (rank m) e)
      | inr above ↦ omega (arith, above)
    ]

module _ (cf : Config) (m : Memory) where
  unfoldable pub sum_loop : (fuel curr result marked_count : ℕ) → Option (ℕ × ℕ)
  sum_loop zero curr result marked_count = none
  sum_loop (suc fuel) curr result marked_count =
      let result' = result + m.key curr in
      let marked_count' = marked_count + (if get_mk (m.link curr) then 1 else 0) in
      let rest = sum_loop fuel (get_ptr (m.link curr)) result' marked_count' in
      if ltb (m.key curr) cf.key_max
      then (if leb result' i64_max && leb marked_count' i32_max then rest else none)
      else some (result, marked_count)

  unfoldable pub debug_key_sum : (fuel : ℕ) → Option ℕ
  debug_key_sum fuel = checks_none (sum_loop fuel (get_ptr (m.link (m.link 0))) 0 0)

  unfoldable pub size_loop : (fuel curr result : ℕ) → Option ℕ
  size_loop zero curr result = none
  size_loop (suc fuel) curr result =
      let rest = size_loop fuel (m.link curr) (result + 1) in
      if ltb (m.key curr) cf.key_max
      then (if leb (result + 1) i64_max then rest else none)
      else some result

  unfoldable pub get_ds_size : (fuel : ℕ) → Option ℕ
  get_ds_size fuel = size_loop fuel (get_ptr (m.link (m.link 0))) 0

  -- The sum and the count, if the sum fits.
  abbrev fits_both : ℕ → ℕ → Option (ℕ × ℕ)
  fits_both x c = if leb x i64_max then some (x, c) else none

  -- The nodes from `curr` on, and what the loops make of them.
  record Sums (fuel curr : ℕ) : Type 0 where
    nodes : List ℕ
    summed :
        (r c : ℕ)
        → r ≤ i64_max
        → c ≤ i32_max
        → sum_loop fuel curr r c ≡ fits_both (r + total m.key nodes) c
    counted : (r : ℕ) → r ≤ i64_max → size_loop fuel curr r ≡ in_range (r + total (λ _. 1) nodes)
    only : (n : ℕ) → In n nodes → Node cf m n × (m.link n % 2 ≡ 0) × (m.key n < cf.key_max)
    above : (n : ℕ) → In n nodes → rank m curr ≤ rank m n
    distinct : Distinct nodes
    every :
        (n : ℕ)
        → Node cf m n
        → m.link n % 2 ≡ 0
        → m.key n < cf.key_max
        → rank m curr ≤ rank m n
        → In n nodes

  module _ (sh : Shape cf m)
      (clean : (n : ℕ) → Linked m n → m.link n % 2 ≡ 1 → ¬ Reached cf m n) where
    even_of : (n : ℕ) → Linked m n → Reached cf m n → m.link n % 2 ≡ 0
    even_of n l r = elim (Bool-cases (m.link n % 2 == 1)) [
      | inl y ↦ absurd (clean n l ((==_iff (m.link n % 2) 1).0 y) r)
      | inr f ↦ let ne : m.link n % 2 ≢ 1 = ground (arith, f) in omega (arith, ne)
    ]

    rank_node : (n : ℕ) → Node cf m n → rank m n ≡ suc (m.key n)
    rank_node n (l, z) = let z0 : (n == 0) ≡ false = ground (arith, z) in rw z0 refl

    plus_0 : (r : ℕ) → r ≡ r + 0
    plus_0 r = omega arith

    -- Past the last key the loops stop.
    stops :
        (fuel curr : ℕ)
        → Node cf m curr
        → (ltb (m.key curr) cf.key_max) ≡ false
        → Sums (suc fuel) curr
    unfolding sum_loop size_loop
    stops fuel curr nd off = record {
      nodes = [];
      summed = λ r c le lc.
          let ok : leb (r + 0) i64_max ≡ true = ground (arith, le) in
          rw (off, ok) (ap (λ x. some (x, c)) (plus_0 r));
      counted = λ r le.
          let ok : leb (r + 0) i64_max ≡ true = ground (arith, le) in
          rw (off, ok) (ap some (plus_0 r));
      only = λ n h. absurd h;
      above = λ n h. absurd h;
      distinct = tt;
      every = λ n nn u lt le.
          let high : cf.key_max ≤ m.key curr = ground (arith, off) in
          absurd (omega (arith, high, lt, le, rank_node n nn, rank_node curr nd));
    }

    -- One round more, at a node with a key below KEY_MAX.
    module _ (fuel curr : ℕ) (nd : Node cf m curr) (way : Reached cf m curr)
        (lt : ltb (m.key curr) cf.key_max ≡ true) (nx : ℕ) (to_nx : get_ptr (m.link curr) ≡ nx)
        (nn : Node cf m nx) (past : rank m curr < rank m nx) (sums : Sums fuel nx) where
      even : m.link curr % 2 ≡ 0
      even = even_of curr nd.0 way

      raw : nx ≡ m.link curr
      raw = omega (arith, even, to_nx)

      unmarked : get_mk (m.link curr) ≡ false
      unmarked = let e = even in ground (arith, e)

      low : m.key curr < cf.key_max
      low = ground (arith, lt)

      summed_on :
          (r c : ℕ)
          → r ≤ i64_max
          → c ≤ i32_max
          → sum_loop (suc fuel) curr r c ≡ fits_both (r + (m.key curr + total m.key sums.nodes)) c
      unfolding sum_loop
      summed_on r c le lc =
          let more = total m.key sums.nodes in
          let first : r + m.key curr + more ≡ r + (m.key curr + more) = omega arith in
          let second : c + 0 ≡ c = omega arith in
          let count_ok : leb (c + 0) i32_max ≡ true = ground (arith, lc) in
          elim (Bool-cases (leb (r + m.key curr) i64_max)) [
            | inl y ↦
                let low : r + m.key curr ≤ i64_max = ground (arith, y) in
                rw (lt, to_nx, unmarked, y, count_ok)
                  (sums.summed (r + m.key curr) (c + 0) low (omega (arith, lc))
                    ∙ ap (λ x. fits_both x (c + 0)) first
                    ∙ ap (λ z. fits_both (r + (m.key curr + more)) z) second)
            | inr f ↦
                let over : leb (r + (m.key curr + more)) i64_max ≡ false = ground (arith, f) in
                rw (lt, f, over) refl
          ]

      counted_on :
          (r : ℕ)
          → r ≤ i64_max
          → size_loop (suc fuel) curr r ≡ in_range (r + (1 + total (λ _. 1) sums.nodes))
      unfolding size_loop
      counted_on r le =
          let more = total (λ _. 1) sums.nodes in
          let same : r + 1 + more ≡ r + (1 + more) = omega arith in
          elim (Bool-cases (leb (r + 1) i64_max)) [
            | inl y ↦
                let low : r + 1 ≤ i64_max = ground (arith, y) in
                rw (lt, y)
                  (subst (λ x. size_loop fuel x (r + 1) ≡ in_range (r + (1 + more))) raw
                    (sums.counted (r + 1) low ∙ ap in_range same))
            | inr f ↦
                let over : leb (r + (1 + more)) i64_max ≡ false = ground (arith, f) in
                rw (lt, f, over) refl
          ]

      every_on :
          (n : ℕ)
          → Node cf m n
          → m.link n % 2 ≡ 0
          → m.key n < cf.key_max
          → rank m curr ≤ rank m n
          → (n ≡ curr) ⊎ In n sums.nodes
      every_on n nn' u below le =
          let to_n = sh.reach n nn'.0 u in
          let t : curr ≢ cf.tail = λ e. let l = low in omega (arith, l, ap m.key e, sh.tail_key) in
          elim (Bool-cases (ltb (rank m curr) (rank m n))) [
            | inl y ↦
                let up : rank m curr < rank m n = ground (arith, y) in
                let h : rank m (get_ptr (m.link curr)) ≤ rank m n =
                  beyond cf m sh curr nd.0 t way n nn'.0 u up in
                inr (sums.every n nn' u below (subst (λ x. rank m x ≤ rank m n) to_nx h))
            | inr f ↦
                let eq : rank m n ≡ rank m curr = ground (arith, f, le) in
                inl (
                  Chain-unique cf.tail (Linked m) (rank m) m.link sh.order 0 n curr sh.root eq to_n
                    way)
          ]

      goes_on : Sums (suc fuel) curr
      goes_on = record {
        nodes = curr ∷ sums.nodes;
        summed = summed_on;
        counted = counted_on;
        only = λ n h. elim h [ inl e ↦ rw e (nd, even, low) | inr i ↦ sums.only n i ];
        above = λ n h. elim h [
          | inl e ↦ rw e (omega arith)
          | inr i ↦ omega (arith, past, sums.above n i)
        ];
        distinct = (λ h. omega (arith, past, sums.above curr h), sums.distinct);
        every = every_on;
      }

    walk :
        (d curr : ℕ)
        → Node cf m curr
        → Reached cf m curr
        → cf.key_max ≤ m.key curr + d
        → Sums (suc d) curr
    walk zero curr nd way le = stops zero curr nd (ground (arith, le))
    walk (suc d) curr nd way le = elim (Bool-cases (ltb (m.key curr) cf.key_max)) [
      | inl y ↦
          let low : m.key curr < cf.key_max = ground (arith, y) in
          let t : curr ≢ cf.tail = λ e. omega (arith, low, ap m.key e, sh.tail_key) in
          let nx = get_ptr (m.link curr) in
          let (nn, up) = behind cf m curr sh nd.0 t in
          let way' = Chain-snoc cf.tail m.link curr nx t refl way in
          goes_on (suc d) curr nd way y nx refl nn up
            (walk d nx nn way' (omega (arith, le, up, rank_node curr nd, rank_node nx nn)))
      | inr f ↦ stops (suc d) curr nd f
    ]

from_0 : (x : ℕ) → 0 + x ≡ x
from_0 x = omega arith

-- No marked node is counted, so the assertion holds for every sum.
checked_sum :
    (x : ℕ) → checks_none (if leb (0 + x) i64_max then some (0 + x, 0) else none) ≡ in_range x
checked_sum x =
    rw (from_0 x) (elim (Bool-cases (leb x i64_max)) [ inl y ↦ rw y refl | inr f ↦ rw f refl ])

-- In a state of a run from a new list in which every thread is at rest and the first node is not the
-- tail, KEY_MAX + 1 rounds are enough for debugKeySum and getDSSize, and the assertion of the former
-- holds: there is a list of distinct nodes, to which all linked nodes that are not marked, have a key
-- below KEY_MAX and stand behind the first one belong and no others, such that the former is the sum
-- of their keys if that fits `long long`, and otherwise overflows, and the latter is their number,
-- if that fits.
pub rest-sums :
    (cf : Config) (head : ℕ)
    → Fresh cf head
    → (s : State) → Run cf (create cf head) s
    → ((tid : ℕ) → rests (s.pc tid) ≡ true)
    → s.mem.link 0 ≢ cf.tail
    → (ns : List ℕ) × Distinct ns
      × (debug_key_sum cf s.mem (cf.key_max + 1) ≡ in_range (total s.mem.key ns))
      × (get_ds_size cf s.mem (cf.key_max + 1) ≡ in_range (total (λ _. 1) ns))
      × ((n : ℕ)
          → In n ns
            ↔ Linked s.mem n
              × (s.mem.link n % 2 ≡ 0)
              × (s.mem.key n < cf.key_max)
              × (rank s.mem (s.mem.link 0) < rank s.mem n))
unfolding debug_key_sum get_ds_size
rest-sums cf head fr s r quiet nt =
    let v = Run-Valid cf r (create-Valid cf head fr) in
    let sh = v.shape in
    let m = s.mem in
    let clean = rest-unmarked cf head fr s r quiet in
    let first = m.link 0 in
    let same : get_ptr first ≡ first = omega (arith, v.free) in
    let root_on : 0 ≢ cf.tail = λ e. sh.tail_node (sym e) in
    let (nd0, up0) = behind cf m 0 sh sh.root root_on in
    let nd : Node cf m first = subst (Node cf m) same nd0 in
    let way : Reached cf m first = Chain-snoc cf.tail m.link 0 first root_on same (here refl) in
    let (nn, up) = behind cf m first sh nd.0 nt in
    let nx = get_ptr (m.link first) in
    let way' : Reached cf m nx = Chain-snoc cf.tail m.link first nx nt refl way in
    let sums = walk cf m sh clean cf.key_max nx nn way' (omega arith) in
    let fuel : suc cf.key_max ≡ cf.key_max + 1 = omega arith in
    (
      sums.nodes,
      sums.distinct,
      subst (λ x. debug_key_sum cf m x ≡ in_range (total m.key sums.nodes)) fuel
          (ap checks_none (sums.summed 0 0 (omega arith) (omega arith))
            ∙ checked_sum (total m.key sums.nodes)),
      subst (λ x. get_ds_size cf m x ≡ in_range (total (λ _. 1) sums.nodes)) fuel
          (sums.counted 0 (omega arith) ∙ ap in_range (from_0 (total (λ _. 1) sums.nodes))),
      λ n. (
        λ h.
            let (no_root, even, low) = sums.only n h in
            (no_root.0, even, low, omega (arith, up, sums.above n h)),
        λ h.
            sums.every n (h.0, λ e. omega (arith, h.3, ap (rank m) e)) h.1 h.2
              (beyond cf m sh first nd.0 nt way n h.0 h.1 h.3),
      ),
    )

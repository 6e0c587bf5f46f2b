-- ===== src/Blocks/ArrayList.antt =====
-- common/recordmgr/arraylist.h, `class ArrayList`: an array of fixed capacity whose cells in use are
-- the first ones. An operation whose assertion fails returns none.
use pop_setbench.Base.{
  ℕ, zero, suc, ◌+◌, ◌-◌, ◌<◌, ◌≡◌, ◌≢◌, ◌⊎◌, ◌∙◌, refl, count, ap, inl, inr, Bool, true, false,
  Option, none, some, Option-cases, Bool-cases, arith, ltb, ◌==◌, ==_iff, ==_refl, if◌then◌else◌,
  update, lt-suc_cases,
}
use pop_setbench.Blocks.Cells.{hit, tally, tally-suc, tally-above, tally-update, find_index}

pub record ArrayList : Type 0 where
  pub capacity : ℕ
  pub size : ℕ
  pub cells : ℕ → ℕ

-- The constructor leaves the cells unset (`junk`).
abbrev pub create : (ℕ → ℕ) → ℕ → ArrayList
create junk capacity = record { capacity = capacity; size = 0; cells = junk }

abbrev pub get : ℕ → ArrayList → ℕ
get ix l = l.cells ix

unfoldable pub add : ℕ → ArrayList → Option ArrayList
add obj l =
    if ltb l.size l.capacity
    then some (record l { cells = update l.cells l.size obj; size = suc l.size })
    else none

-- `erase(const int ix)`
unfoldable pub erase_ix : ℕ → ArrayList → Option ArrayList
erase_ix ix l =
    if ltb ix l.size
    then some (record l { cells = update l.cells ix (l.cells (l.size - 1)); size = l.size - 1 })
    else none

-- The index -1 of the source is none.
abbrev pub get_index : ℕ → ArrayList → Option ℕ
get_index obj l = find_index l.size l.cells obj

-- `erase(T * const obj)`
unfoldable pub erase_obj : ℕ → ArrayList → Option ArrayList
erase_obj obj l = elim (get_index obj l) [ none ↦ some l | some ix ↦ erase_ix ix l ]

unfoldable pub contains : ℕ → ArrayList → Bool
contains obj l = elim (get_index obj l) [ none ↦ false | some ix ↦ true ]

abbrev pub clear : ArrayList → ArrayList
clear l = record l { size = 0 }

abbrev pub is_full : ArrayList → Bool
is_full l = l.size == l.capacity

abbrev pub is_empty : ArrayList → Bool
is_empty l = l.size == 0

-- How often the object `p` stands in the list.
abbrev pub copies : ℕ → ArrayList → ℕ
copies p l = tally p l.size l.cells

-- getIndex finds an object that stands in the list.
get_index-absent :
    (n : ℕ) (cells : ℕ → ℕ) (obj : ℕ)
    → find_index n cells obj ≡ none
    → (j : ℕ) → j < n
    → cells j ≢ obj
unfolding find_index
get_index-absent zero cells obj h j lt = elim lt [ ]
get_index-absent (suc n) cells obj h j lt = elim (Option-cases (find_index n cells obj)) [
  | inr (k, e) ↦ absurd (let h' : ◌≡◌ {A = Option ℕ} (some k) none = rw e at h in cc)
  | inl e ↦ elim (Bool-cases (cells n == obj)) [
    | inl here ↦ absurd (let h' : ◌≡◌ {A = Option ℕ} (some n) none = rw (e, here) at h in cc)
    | inr away ↦ elim (lt-suc_cases j n lt) [
      | inl below ↦ get_index-absent n cells obj e j below
      | inr same ↦ rw same (ground arith)
    ]
  ]
]

-- The index that getIndex returns is the first one at which the object stands.
get_index-first :
    (n : ℕ) (cells : ℕ → ℕ) (obj i : ℕ)
    → find_index n cells obj ≡ some i
    → (i < n) × (cells i ≡ obj) × ((j : ℕ) → j < i → cells j ≢ obj)
unfolding find_index
get_index-first zero cells obj i h = absurd (cc)
get_index-first (suc n) cells obj i h = elim (Option-cases (find_index n cells obj)) [
  | inr (k, e) ↦
      let h' : ◌≡◌ {A = Option ℕ} (some k) (some i) = rw e at h in
      let same : k ≡ i = cc in
      let (lt, at, first) = get_index-first n cells obj k e in rw (← same) (omega arith, at, first)
  | inl e ↦ elim (Bool-cases (cells n == obj)) [
    | inr away ↦ absurd (let h' : ◌≡◌ {A = Option ℕ} none (some i) = rw (e, away) at h in cc)
    | inl here ↦
        let h' : ◌≡◌ {A = Option ℕ} (some n) (some i) = rw (e, here) at h in
        let same : n ≡ i = cc in
        rw (← same)
          (omega arith, (==_iff (cells n) obj).0 here, λ j lt. get_index-absent n cells obj e j lt)
  ]
]

erase_ix-some :
    (ix : ℕ) (l : ArrayList)
    → ix < l.size
    → (after : ArrayList) × (erase_ix ix l ≡ some after)
      × ((p : ℕ) → copies p l ≡ copies p after + hit p (l.cells ix))
unfolding erase_ix
erase_ix-some ix l lt =
    let yes : ltb ix l.size ≡ true = ground arith in
    let n = l.size - 1 in
    let last = l.cells n in
    (
      record l { cells = update l.cells ix last; size = n },
      rw yes,
      λ p.
          let s : suc n ≡ l.size = omega arith in
          let whole : tally p l.size l.cells ≡ tally p n l.cells + hit p last =
            rw s at (tally-suc p n l.cells) in
          elim (lt-suc_cases ix n (omega arith)) [
            | inl below ↦ omega (arith, whole, tally-update p n ix l.cells last below)
            | inr same ↦
                let at : hit p (l.cells ix) ≡ hit p last = ap (λ i. hit p (l.cells i)) same in
                omega (arith, whole, at, tally-above p n ix l.cells last (omega arith))
          ],
    )

-- An object that stands in no cell in use has no copy there.
copies-absent : (p n : ℕ) (cells : ℕ → ℕ) → ((j : ℕ) → j < n → cells j ≢ p) → tally p n cells ≡ 0
unfolding tally count
copies-absent p zero cells out = refl
copies-absent p (suc n) cells out =
    let other : hit p (cells n) ≡ 0 = ground (arith, out n (omega arith)) in
    let below = copies-absent p n cells (λ j lt. out j (omega arith)) in
    omega (arith, other, below, tally-suc p n cells)

-- Erasing an object does not fail. If the object stands in a cell in use, one copy of it goes, and
-- if it stands in none, nothing goes; no other object goes.
pub erase_obj-copies :
    (obj : ℕ) (l : ArrayList)
    → (after : ArrayList) × (erase_obj obj l ≡ some after)
      × ((p : ℕ) → copies p l ≡ copies p after + (if copies obj l == 0 then 0 else hit p obj))
unfolding erase_obj
erase_obj-copies obj l = elim (Option-cases (get_index obj l)) [
  | inl e ↦
      let gone : copies obj l ≡ 0 =
        copies-absent obj l.size l.cells (λ j lt. get_index-absent l.size l.cells obj e j lt) in
      (l, rw (e, erase_obj), λ p. rw gone (omega arith))
  | inr (i, e) ↦
      let (lt, at, _) = get_index-first l.size l.cells obj i e in
      let (after, done, moved) = erase_ix-some i l lt in
      let one : hit obj (l.cells i) ≡ 1 = ap (hit obj) at ∙ rw (==_refl obj) in
      let some_there : (copies obj l == 0) ≡ false = ground (arith, moved obj, one) in
      (after, rw (e, erase_obj, done), λ p. rw some_there (omega (arith, moved p, ap (hit p) at)))
]

-- The least index at which an object stands is what getIndex returns, and it returns none (-1 in the
-- source) exactly if contains is false and the object stands at no index in use.
pub get_index-exact :
    (obj : ℕ) (l : ArrayList)
    → ((i : ℕ) × (get_index obj l ≡ some i)
        × (contains obj l ≡ true)
        × (i < l.size)
        × (get i l ≡ obj)
        × ((j : ℕ) → j < i → get j l ≢ obj))
      ⊎ ((get_index obj l ≡ none)
          × (contains obj l ≡ false)
          × ((j : ℕ) → j < l.size → get j l ≢ obj))
unfolding contains
get_index-exact obj l = elim (Option-cases (get_index obj l)) [
  | inl e ↦ inr (e, rw (e, contains), λ j lt. get_index-absent l.size l.cells obj e j lt)
  | inr (i, e) ↦
      let (lt, at, first) = get_index-first l.size l.cells obj i e in
      inl (i, e, rw (e, contains), lt, at, first)
]

-- Adding to a list that is not full does not fail; its new last cell holds the object, and it holds
-- one copy more of the object and as many as before of every other.
pub add-copies :
    (obj : ℕ) (l : ArrayList)
    → l.size < l.capacity
    → (after : ArrayList) × (add obj l ≡ some after)
      × (get (after.size - 1) after ≡ obj)
      × ((p : ℕ) → copies p after ≡ copies p l + hit p obj)
unfolding add
add-copies obj l lt =
    let yes : ltb l.size l.capacity ≡ true = ground arith in
    let cells' = update l.cells l.size obj in
    let top : cells' l.size ≡ obj = rw (==_refl l.size) in
    let back : suc l.size - 1 ≡ l.size = omega arith in
    (
      record l { cells = cells'; size = suc l.size },
      rw yes,
      rw (back, ==_refl l.size),
      λ p. omega (
        arith,
        ap (hit p) top,
        tally-suc p l.size cells',
        tally-above p l.size l.size l.cells obj (omega arith),
      ),
    )

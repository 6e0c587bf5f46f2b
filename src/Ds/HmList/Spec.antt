-- ===== src/Ds/HmList/Spec.antt =====
-- The abstract map that the list implements: contains, erase and insertIfAbsent as single steps.
use pop_setbench.Base.{
  ℕ, ◌≡◌, ◌≢◌, refl, sym, ap, subst, ◌∙◌, inl, inr, arith, true, false, ◌==◌, ==_iff, Bool-cases,
  update, ◌↔◌, Option, some, none,
}
use pop_setbench.Ds.HmList.{Config, Memory, Pc, answered, returned}
use pop_setbench.Ds.HmList.Contents.{Entry, Same, Absent, Adds, Takes, Entry-unique}
use pop_setbench.Ds.HmList.Shape.{Shape}

abbrev pub Map : Type 0
Map = ℕ → Option ℕ

-- The operations of the data structure, with their arguments.
pub data Op : Type 0 where
  look_up remove : (k : ℕ) → Op
  put_if_absent : (k value : ℕ) → Op

-- The map behind an operation and what the operation answers.
module _ (no_value : ℕ) where
  unfoldable pub spec : Op → Map → Map × Pc
  spec (look_up k) f = elim (f k) [ none ↦ (f, answered false) | some w ↦ (f, answered true) ]
  spec (remove k) f = elim (f k) [
    | none ↦ (f, returned no_value)
    | some w ↦ (update f k none, returned w)
  ]
  spec (put_if_absent k value) f = elim (f k) [
    | none ↦ (update f k (some value), returned no_value)
    | some w ↦ (f, returned w)
  ]

-- The memory holds the entries of the map.
abbrev pub Represents : Memory → Map → Type 0
Represents m f = (k v : ℕ) → Entry m k v ↔ (f k ≡ some v)

pub Same-Represents : (m m' : Memory) (f : Map) → Same m m' → Represents m f → Represents m' f
Same-Represents m m' f same r k v =
    (λ e. (r k v).0 ((same k v).1 e), λ e. (same k v).0 ((r k v).1 e))

pub some-inj : {v w : ℕ} → some v ≡ some w → v ≡ w
some-inj e = cc

module _ (m : Memory) (f : Map) (k : ℕ) (r : Represents m f) where
  pub Absent-none : Absent m k → f k ≡ none
  Absent-none out = go (f k) refl
    where
      go : (o : Option ℕ) → f k ≡ o → f k ≡ none
      go none e = e
      go (some w) e = absurd (out w ((r k w).1 e))

  pub none-Absent : f k ≡ none → Absent m k
  none-Absent e v en = let clash : none ≡ some v = sym e ∙ (r k v).0 en in cc

pub Adds-Represents :
    (cf : Config) (m m' : Memory) (f : Map) (k v : ℕ)
    → Shape cf m'
    → Adds m m' k v
    → Represents m f
    → Represents m' (update f k (some v))
Adds-Represents cf m m' f k v sh a r k' v' = elim (Bool-cases (k == k')) [
  | inl e ↦
      let same : k ≡ k' = (==_iff k k').0 e in
      rw e (
        λ en. ap some (Entry-unique cf m' sh k v v' a.is_there (rw (← same) at en)),
        λ h. subst (λ x. Entry m' x v') same (subst (Entry m' k) (some-inj h) a.is_there),
      )
  | inr o ↦
      let ne : k' ≢ k = ground (arith, o) in
      let (there, back) = a.keeps k' v' ne in
      rw o (λ en. (r k' v').0 (back en), λ h. there ((r k' v').1 h))
]

pub Takes-Represents :
    (m m' : Memory) (f : Map) (k v : ℕ)
    → Takes m m' k v
    → Represents m f
    → Represents m' (update f k none)
Takes-Represents m m' f k v t r k' v' = elim (Bool-cases (k == k')) [
  | inl e ↦
      let same : k ≡ k' = (==_iff k k').0 e in
      rw e (
        λ en. absurd (t.is_absent v' (rw (← same) at en)),
        λ h. absurd (let clash : none ≡ some v' = h in cc),
      )
  | inr o ↦
      let ne : k' ≢ k = ground (arith, o) in
      let (there, back) = t.keeps k' v' ne in
      rw o (λ en. (r k' v').0 (back en), λ h. there ((r k' v').1 h))
]

-- A step from one memory to the next is the operation on every map that the first represents, and
-- the operation answers `p`.
abbrev pub Applies : (no_value : ℕ) → Op → Pc → Memory → Memory → Type 0
Applies no_value op p m m' =
    (f : Map) → Represents m f → Represents m' (spec no_value op f).0 × ((spec no_value op f).1 ≡ p)

module _ (cf : Config) (m m' : Memory) where
  pub found-Applies :
      (k v : ℕ) → Same m m' → Entry m k v → Applies cf.no_value (look_up k) (answered true) m m'
  unfolding spec
  found-Applies k v s e f r = rw ((r k v).0 e, spec) (Same-Represents m m' f s r, refl)

  pub missed-Applies :
      (k : ℕ) → Same m m' → Absent m k → Applies cf.no_value (look_up k) (answered false) m m'
  unfolding spec
  missed-Applies k s o f r = rw (Absent-none m f k r o, spec) (Same-Represents m m' f s r, refl)

  pub nothing-Applies :
      (k : ℕ) → Same m m' → Absent m k → Applies cf.no_value (remove k) (returned cf.no_value) m m'
  unfolding spec
  nothing-Applies k s o f r = rw (Absent-none m f k r o, spec) (Same-Represents m m' f s r, refl)

  pub Takes-Applies : (k v : ℕ) → Takes m m' k v → Applies cf.no_value (remove k) (returned v) m m'
  unfolding spec
  Takes-Applies k v t f r = rw ((r k v).0 t.was_there, spec) (Takes-Represents m m' f k v t r, refl)

  pub present-Applies :
      (k v w : ℕ)
      → Same m m'
      → Entry m k w
      → Applies cf.no_value (put_if_absent k v) (returned w) m m'
  unfolding spec
  present-Applies k v w s e f r = rw ((r k w).0 e, spec) (Same-Represents m m' f s r, refl)

  pub Adds-Applies :
      (k v : ℕ)
      → Shape cf m'
      → Adds m m' k v
      → Applies cf.no_value (put_if_absent k v) (returned cf.no_value) m m'
  unfolding spec
  Adds-Applies k v sh a f r =
      rw (Absent-none m f k r a.was_absent, spec) (Adds-Represents cf m m' f k v sh a r, refl)

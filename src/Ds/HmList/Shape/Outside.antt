-- ===== src/Ds/HmList/Shape/Outside.antt =====
-- Allocating a node, setting its `next` and handing it back keep the invariant.
use pop_setbench.Base.{ℕ, ◌≡◌, ◌≢◌, refl, inl, inr, false, ◌==◌, ==_iff, Bool-cases, update}
use pop_setbench.Ds.HmList.{
  Config, Status, in_list, dropped, owned, Memory, writes, new_node, drops,
}
use pop_setbench.Ds.HmList.Shape.{Linked, Shape}
use pop_setbench.Ds.HmList.Shape.Frame.{frame-Shape}

-- A node that is not linked is no linked one.
pub apart : (m : Memory) (a n : ℕ) → m.status a ≢ in_list → Linked m n → (a == n) ≡ false
apart m a n out l = elim (Bool-cases (a == n)) [
  | inl e ↦ let same : a ≡ n = (==_iff a n).0 e in absurd (out (rw same l))
  | inr f ↦ f
]

module _ (cf : Config) (m : Memory) (a : ℕ) (out : m.status a ≢ in_list) (s : Shape cf m) where
  pub writes-Shape : (w : ℕ) → Shape cf (writes a w m)
  writes-Shape w =
      frame-Shape cf m (writes a w m) (λ n l. l) (λ n l. l) (λ n l. rw (apart m a n out l) refl)
        (λ n l. refl) refl s

  -- The other status is not that of a linked node either.
  still_out : (w : Status) → w ≢ in_list → (n : ℕ) → update m.status a w n ≡ in_list → Linked m n
  still_out w ne n l = elim (Bool-cases (a == n)) [
    | inl e ↦ absurd (ne (rw e at l))
    | inr f ↦ rw f at l
  ]

  pub drops-Shape : Shape cf (drops a m)
  unfolding drops
  drops-Shape =
      frame-Shape cf m (drops a m) (λ n l. rw (apart m a n out l) l) (still_out dropped (λ e. cc))
        (λ n l. refl) (λ n l. refl) refl s

  pub new_node-Shape : (tid k v : ℕ) → Shape cf (new_node tid a k v m)
  unfolding new_node
  new_node-Shape tid k v =
      frame-Shape cf m (new_node tid a k v m) (λ n l. rw (apart m a n out l) l)
        (still_out (owned tid) (λ e. cc)) (λ n l. rw (apart m a n out l) refl)
        (λ n l. rw (apart m a n out l) refl) refl s

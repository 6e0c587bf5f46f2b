-- ===== src/Ds/HmList/Points.antt =====
-- Where an operation takes effect: what is known at each point of a call of contains, doInsert or
-- erase about the step at which the abstract map was asked or changed.
use pop_setbench.Base.{ℕ, ◌≡◌, ap, subst, false, Bool}
use pop_setbench.Ds.HmList.{
  Config, Memory, Caller, contains, erase, insert, cleanup, Pc, answered, returned, seeking,
  at_node, loaded, checked, unlinking, storing, linking, reading, marking, cutting,
}
use pop_setbench.Ds.HmList.Shape.{Linked}
use pop_setbench.Ds.HmList.Threads.{Fits, checks, reads_val}
use pop_setbench.Ds.HmList.Spec.{Op, look_up, remove, put_if_absent}

-- Which search serves which operation; behind the second search of erase the key has been removed.
-- `H p` says that the operation has taken effect with the answer `p`.
pub data Asks (H : Pc → Type 0) : Op → Caller → ℕ → Type 0 where
  looks : (k : ℕ) → Asks H (look_up k) contains k
  removes : (k : ℕ) → Asks H (remove k) erase k
  tidies : (k k' res : ℕ) → H (returned res) → Asks H (remove k) (cleanup res) k'
  puts : (k v a : ℕ) → Asks H (put_if_absent k v) (insert v a) k

-- `W k v` says that the map has held `v` for `k` during the call, at a step that left it as it was.
pub data Tells (H : Pc → Type 0) (W : ℕ → ℕ → Type 0) (m : Memory) : Op → Pc → Type 0 where
  to_seek : (op : Op) (c : Caller) (k : ℕ) → Asks H op c k → Tells H W m op (seeking c k)
  to_stand :
      (op : Op) (c : Caller) (k prev curr : ℕ)
      → Asks H op c k
      → Tells H W m op (at_node c k prev curr)
  to_load :
      (op : Op) (c : Caller) (k prev curr nxt : ℕ) (cmark : Bool)
      → Asks H op c k
      → Tells H W m op (loaded c k prev curr nxt cmark)
  to_check :
      (op : Op) (c : Caller) (k prev curr nxt : ℕ) (cmark : Bool)
      → Asks H op c k
      → (cmark ≡ false → W (m.key curr) (m.val curr))
      → Tells H W m op (checked c k prev curr nxt cmark)
  to_unlink :
      (op : Op) (c : Caller) (k prev curr nxt : ℕ)
      → Asks H op c k
      → Tells H W m op (unlinking c k prev curr nxt)
  to_store :
      (k value new prev curr : ℕ)
      → Tells H W m (put_if_absent k value) (storing k value new prev curr)
  to_link :
      (k value new prev curr : ℕ)
      → Tells H W m (put_if_absent k value) (linking k value new prev curr)
  to_read :
      (k value curr : ℕ)
      → H (returned (m.val curr))
      → Tells H W m (put_if_absent k value) (reading curr)
  to_mark : (k prev curr next : ℕ) → Tells H W m (remove k) (marking k prev curr next)
  to_cut :
      (k k' prev curr next res : ℕ)
      → H (returned res)
      → Tells H W m (remove k) (cutting k' prev curr next res)
  to_answer : (op : Op) (b : Bool) → H (answered b) → Tells H W m op (answered b)
  to_return : (op : Op) (v : ℕ) → H (returned v) → Tells H W m op (returned v)

-- What holds later on when a step of the run is added to what held before.
module _ (H H' : Pc → Type 0) (up : (p : Pc) → H p → H' p) where
  pub Asks-up : (op : Op) (c : Caller) (k : ℕ) → Asks H op c k → Asks H' op c k
  Asks-up _ _ _ (looks k) = looks k
  Asks-up _ _ _ (removes k) = removes k
  Asks-up _ _ _ (tidies k k' res h) = tidies k k' res (up (returned res) h)
  Asks-up _ _ _ (puts k v a) = puts k v a

  module _ (W W' : ℕ → ℕ → Type 0) (upW : (k v : ℕ) → W k v → W' k v) where
    -- A step of another thread that leaves the keys and values of linked nodes.
    pub Tells-up :
        (cf : Config) (tid : ℕ) (m m' : Memory)
        → ((n : ℕ) → Linked m n → (m.key n ≡ m'.key n) × (m.val n ≡ m'.val n))
        → (op : Op) (p : Pc) → Fits cf m tid p
        → Tells H W m op p
        → Tells H' W' m' op p
    Tells-up cf tid m m' same op _ f (to_seek _ c k a) = to_seek op c k (Asks-up op c k a)
    Tells-up cf tid m m' same op _ f (to_stand _ c k p cu a) =
        to_stand op c k p cu (Asks-up op c k a)
    Tells-up cf tid m m' same op _ f (to_load _ c k p cu nx mk a) =
        to_load op c k p cu nx mk (Asks-up op c k a)
    Tells-up cf tid m m' same op _ (checks _ _ _ _ _ _ lt h b n x mx)
          (to_check _ c k p cu nx mk a w) =
        let (sk, sv) = same cu n.0 in
        to_check op c k p cu nx mk (Asks-up op c k a)
          (λ e. subst (λ y. W' (m'.key cu) y) sv (subst (λ x. W' x (m.val cu)) sk (upW _ _ (w e))))
    Tells-up cf tid m m' same op _ f (to_unlink _ c k p cu nx a) =
        to_unlink op c k p cu nx (Asks-up op c k a)
    Tells-up cf tid m m' same _ _ f (to_store k v a p cu) = to_store k v a p cu
    Tells-up cf tid m m' same _ _ f (to_link k v a p cu) = to_link k v a p cu
    Tells-up cf tid m m' same _ _ (reads_val _ n) (to_read k v cu h) =
        let sv = (same cu n.0).1 in
        to_read k v cu (subst H' (ap returned sv) (up (returned (m.val cu)) h))
    Tells-up cf tid m m' same _ _ f (to_mark k p cu nx) = to_mark k p cu nx
    Tells-up cf tid m m' same _ _ f (to_cut k k' p cu nx res h) =
        to_cut k k' p cu nx res (up (returned res) h)
    Tells-up cf tid m m' same op _ f (to_answer _ b h) = to_answer op b (up (answered b) h)
    Tells-up cf tid m m' same op _ f (to_return _ v h) = to_return op v (up (returned v) h)

-- ===== src/Ds/LazyList/Runs/Start.antt =====
-- The constructor of the lazy list, and the states that its runs lead to.
use pop_setbench.Base.{ℕ, ◌≡◌, ◌⊎◌, refl, ap, inl, inr, arith, ==_refl}
use pop_setbench.Ds.HmList.{Config, in_list, Memory}
use pop_setbench.Ds.HmList.Shape.{Shape}
use pop_setbench.Ds.HmList.Shape.Frame.{frame-Shape}
use pop_setbench.Ds.HmList.Runs.{Fresh}
use pop_setbench.Ds.HmList.Runs.Start.{
  create-Shape, three, m0, link_head, link_tail, head_0, key_tail, Linked-head,
}
use pop_setbench.Ds.LazyList.{State, create}
use pop_setbench.Ds.LazyList.Words.{words}
use pop_setbench.Ds.LazyList.Threads.{rests_idle}
use pop_setbench.Ds.LazyList.Runs.{Valid, Run, Run-Valid}

module _ (cf : Config) (head : ℕ) (fr : Fresh cf head) where
  abbrev first : pop_setbench.Ds.LazyList.Memory
  first = (create cf head).mem

  abbrev old : Memory
  old = m0 cf head fr

  start-Shape : Shape cf (words first)
  unfolding create pop_setbench.Ds.HmList.create
  start-Shape =
      frame-Shape cf old (words first) (λ n l. l) (λ n l. l) (λ n l. omega arith) (λ n l. refl) refl
        (create-Shape cf head fr)

  next_old : (n : ℕ) → first.next n ≡ old.link n
  unfolding create pop_setbench.Ds.HmList.create
  next_old n = refl

  key_head : first.key head ≡ cf.key_min
  unfolding create
  key_head = rw (==_refl head) refl

  tail_key : first.key cf.tail ≡ cf.key_max
  unfolding create pop_setbench.Ds.HmList.create
  tail_key = key_tail cf head fr

  nodes : (n : ℕ) → first.status n ≡ in_list → (n ≡ 0) ⊎ ((n ≡ head) ⊎ (n ≡ cf.tail))
  unfolding create pop_setbench.Ds.HmList.create
  nodes n l = three cf head n l

  head_in : first.status head ≡ in_list
  unfolding create pop_setbench.Ds.HmList.create
  head_in = Linked-head cf head fr

  next_0 : first.next 0 ≡ head
  unfolding create
  next_0 = refl

  pub create-Valid : Valid cf (create cf head)
  unfolding create
  create-Valid = record {
    sound = record {
      shape = start-Shape;
      straight = λ n l. elim (nodes n l) [
        | inl e ↦ rw e fr.head_even
        | inr (inl e) ↦ rw (e, next_old head, link_head cf head fr) fr.tail_even
        | inr (inr e) ↦ rw (e, next_old cf.tail, link_tail cf head fr) refl
      ];
      valued = λ n l z lo hi. elim (nodes n l) [
        | inl e ↦ absurd (z e)
        | inr (inl e) ↦ absurd (omega (arith, lo, ap first.key e, key_head))
        | inr (inr e) ↦ absurd (omega (arith, hi, ap first.key e, tail_key))
      ];
      first = (head_in, fr.two, rw (head_0 cf head fr) (omega (arith, key_head)));
      first_node = fr.head_node;
    };
    fits = λ tid. rests_idle;
  }

  -- In every state that a run from a new list leads to, the order of the keys grows along the links,
  -- each node that is not marked is on the way from the head, each retired node is marked and off it,
  -- and no node has been retired twice.
  pub lazy-Shape : (s : State) → Run cf (create cf head) s → Shape cf (words s.mem)
  lazy-Shape s r = (Run-Valid cf r create-Valid).sound.shape

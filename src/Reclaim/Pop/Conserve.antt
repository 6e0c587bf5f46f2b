-- ===== src/Reclaim/Pop/Conserve.antt =====
-- No object is lost, and none is freed more often than it is retired.
use pop_setbench.Base.{
  ℕ, ◌+◌, ◌≡◌, ◌≢◌, ◌∙◌, refl, inl, inr, false, none, some, arith, ◌==◌, ==_iff, if◌then◌else◌,
  ◌&&◌, Bool-cases, Option-cases, length, count, count-append,
}
use pop_setbench.Reclaim.Pop.{
  State, Delivery, announce, set_lo_wm_meta_data, reset_lo_wm_meta_data, hi_wm, empty, push_retired,
  saw_signals, enter_lo_wm, is_out_of_patience, is_past_lo_watermark, lo_wm, reclaim, finish,
  retire,
}
use pop_setbench.Reclaim.Pop.Empty.{held_by, empty-held}
use pop_setbench.Reclaim.Pop.Signals.{request-Same}
use pop_setbench.Reclaim.Pop.Retire.{ready, ready-Ready, hi_wm_lem}

module _ (p j : ℕ) where
  same-held :
      (s t : State) → t.retired ≡ s.retired → t.pool ≡ s.pool → held_by p j t ≡ held_by p j s
  same-held s t r q = rw (r, q)

  hi_wm-held :
      (signals : ℕ → Delivery) (tid : ℕ) (s u : State)
      → hi_wm signals tid s ≡ some u
      → held_by p j u ≡ held_by p j s
  hi_wm-held signals tid s u h = elim (hi_wm_lem signals tid s) [
    | inl (_, stuck) ↦ let h' : none ≡ some u = rw stuck at h in absurd (cc)
    | inr (t, req, done) ↦
        let h' : some (empty tid (announce tid t)) ≡ some u = rw done at h in
        let e : u ≡ empty tid (announce tid t) = ground arith in
        let same = request-Same signals tid (ready tid s) t req in
        let r = ready-Ready tid s in
        rw (e, empty-held p j tid (announce tid t))
          (unfold announce in
            (same-held s (announce tid t) (same.retired ∙ r.retired) (same.pool ∙ r.pool)))
  ]

  enter-held : (rand tid : ℕ) (s : State) → held_by p j (enter_lo_wm rand tid s) ≡ held_by p j s
  unfolding enter_lo_wm set_lo_wm_meta_data
  enter-held rand tid s = elim (Bool-cases (s.first_lo_entry_flag tid)) [
    | inl first ↦ rw first
    | inr later ↦ rw later
  ]

  lo_wm-held : (rand tid : ℕ) (s : State) → held_by p j (lo_wm rand tid s) ≡ held_by p j s
  unfolding lo_wm
  lo_wm-held rand tid s =
      let t = enter_lo_wm rand tid s in
      elim (Bool-cases (saw_signals s.num_process tid t)) [
        | inl yes_seen ↦
            rw yes_seen
              (unfold reset_lo_wm_meta_data in (empty-held p j tid t ∙ enter-held rand tid s))
        | inr unseen ↦ rw unseen (enter-held rand tid s)
      ]

  push-held :
      (tid obj : ℕ) (s : State)
      → held_by p j (push_retired tid obj s)
        ≡ held_by p j s + (if tid == j && p == obj then 1 else 0)
  unfolding push_retired count
  push-held tid obj s = elim (Bool-cases (tid == j)) [
    | inr f ↦ rw f (omega arith)
    | inl t ↦ rw (t, (==_iff tid j).0 t, count-append) (unfold count in (omega arith))
  ]

  finish-held : (tid : ℕ) (s : State) → held_by p j (finish tid s) ≡ held_by p j s
  unfolding finish
  finish-held tid s = refl

  reclaim-held :
      (rand : ℕ) (signals : ℕ → Delivery) (tid : ℕ) (s u : State)
      → reclaim rand signals tid s ≡ some u
      → held_by p j u ≡ held_by p j s
  unfolding reclaim
  reclaim-held rand signals tid s u h =
      elim (Bool-cases (is_out_of_patience (length (s.retired tid)) s)) [
        | inl full ↦ hi_wm-held signals tid s u (rw (full, reclaim) at h)
        | inr room ↦ elim (Bool-cases (is_past_lo_watermark tid (length (s.retired tid)) s)) [
          | inl past ↦
              let h' : some (lo_wm rand tid s) ≡ some u = rw (room, past, reclaim) at h in
              let e : u ≡ lo_wm rand tid s = ground arith in rw e (lo_wm-held rand tid s)
          | inr few ↦
              let h' : some s ≡ some u = rw (room, few, reclaim) at h in
              let e : u ≡ s = ground arith in rw e
        ]
      ]

  -- A call of retire that returns adds one to the number of times that its non-NULL object stands
  -- in the retired list or the pool of the retiring thread, and leaves that number as it was for
  -- every other object and thread, on the paths of both watermarks.
  pub retire-held_pop :
      (rand : ℕ) (signals : ℕ → Delivery) (tid obj : ℕ) (s u : State)
      → obj ≢ 0
      → retire rand signals tid obj s ≡ some u
      → held_by p j u ≡ held_by p j s + (if tid == j && p == obj then 1 else 0)
  unfolding retire
  retire-held_pop rand signals tid obj s u ne h =
      let e : (obj == 0) ≡ false = ground arith in
      elim (Option-cases (reclaim rand signals tid (push_retired tid obj s))) [
        | inl stuck ↦ let h' : none ≡ some u = rw (e, stuck, retire) at h in absurd (cc)
        | inr (t, done) ↦
            let h' : some (finish tid t) ≡ some u = rw (e, done, retire) at h in
            let last : u ≡ finish tid t = ground arith in
            rw (last, finish-held)
              (reclaim-held rand signals tid (push_retired tid obj s) t done ∙ push-held tid obj s)
      ]

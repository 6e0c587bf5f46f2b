-- ===== src/Reclaim/Pop/Retire.antt =====
-- `retire` above the high watermark: what the ping protects, what it does not, and that it ends.
use pop_setbench.Base.{
  ℕ, ◌+◌, ◌*◌, ◌≤◌, ◌<◌, ◌≡◌, ◌≢◌, ◌⊎◌, ◌∙◌, sym, refl, inl, inr, true, false, Option, none, some,
  [], ◌∷◌, ◌++◌, arith, ◌==◌, ==_refl, Bool-cases, Option-cases, In, length, length-append, leb,
  load,
}
use pop_setbench.Reclaim.Slots.{conflict, conflict-load_inv}
use pop_setbench.Reclaim.Pop.{
  State, Delivery, failed, handled, pending, request_all_threads_to_restart, announce,
  scan_publishing, reset_lo_wm_meta_data, hi_wm_scan, hi_wm, empty, push_retired,
  is_out_of_patience, is_past_lo_watermark, lo_wm, reclaim, finish, retire,
}
use pop_setbench.Reclaim.Pop.Empty.{empty-keeps, empty-frees}
use pop_setbench.Reclaim.Pop.Signals.{request-Same, request-total, check_loop-total}
use pop_setbench.Reclaim.Pop.Publish.{Absent, Unreserved, request-publishes, request-Absent}

-- The state in which the reclaimer begins to signal.
abbrev pub ready : ℕ → State → State
ready tid s = announce tid (scan_publishing tid (reset_lo_wm_meta_data tid s))

pub record Ready (tid : ℕ) (s t : State) : Type 0 where
  num_process : t.num_process ≡ s.num_process
  slots_per_thread : t.slots_per_thread ≡ s.slots_per_thread
  pub retired : t.retired ≡ s.retired
  pub pool : t.pool ≡ s.pool
  local_slots : t.local_slots ≡ s.local_slots
  slots : t.slots ≡ s.slots
  off_lo_path : t.first_lo_entry_flag tid ≡ true

pub ready-Ready : (tid : ℕ) (s : State) → Ready tid s (ready tid s)
unfolding announce scan_publishing reset_lo_wm_meta_data
ready-Ready tid s = record {
  num_process = refl;
  slots_per_thread = refl;
  retired = refl;
  pool = refl;
  local_slots = refl;
  slots = refl;
  off_lo_path = rw ==_refl;
}

-- The branch ends in a scan, after the signals.
pub hi_wm_lem :
    (signals : ℕ → Delivery) (tid : ℕ) (s : State)
    → (request_all_threads_to_restart signals tid (ready tid s) ≡ none)
        × (hi_wm signals tid s ≡ none)
      ⊎ ((t : State) × (request_all_threads_to_restart signals tid (ready tid s) ≡ some t)
          × (hi_wm signals tid s ≡ some (empty tid (announce tid t))))
unfolding hi_wm hi_wm_scan
hi_wm_lem signals tid s =
    elim (Option-cases (request_all_threads_to_restart signals tid (ready tid s))) [
      | inl e ↦ inl (e, rw (e, hi_wm))
      | inr (t, e) ↦
          let a = announce tid t in
          let (c, checked, _) = check_loop-total a.num_process tid a (omega arith) in
          inr (t, e, rw (e, checked, hi_wm, hi_wm_scan))
    ]

-- With a bag that reaches `empty_freq`, the call takes that branch.
reclaim_hi :
    (rand : ℕ) (signals : ℕ → Delivery) (tid obj : ℕ) (s : State)
    → s.empty_freq ≤ length (s.retired tid) + 1
    → reclaim rand signals tid (push_retired tid obj s) ≡ hi_wm signals tid (push_retired tid obj s)
unfolding reclaim is_out_of_patience push_retired
reclaim_hi rand signals tid obj s full =
    let e : length (s.retired tid ++ obj ∷ []) ≡ length (s.retired tid) + 1 =
      length-append (s.retired tid) (obj ∷ []) in
    let t : leb s.empty_freq (length (s.retired tid ++ obj ∷ [])) ≡ true = ground arith in
    rw (==_refl, t)

retire_hi :
    (rand : ℕ) (signals : ℕ → Delivery) (tid obj : ℕ) (s u : State)
    → obj ≢ 0
    → s.empty_freq ≤ length (s.retired tid) + 1
    → retire rand signals tid obj s ≡ some u
    → (t : State) × (request_all_threads_to_restart signals tid (ready tid (push_retired tid obj s))
        ≡ some t)
      × (u ≡ finish tid (empty tid (announce tid t)))
unfolding retire
retire_hi rand signals tid obj s u ne full h =
    let e : (obj == 0) ≡ false = ground arith in
    let r = reclaim_hi rand signals tid obj s full in
    elim (hi_wm_lem signals tid (push_retired tid obj s)) [
      | inl (_, stuck) ↦ let h' : none ≡ some u = rw (e, r, stuck, retire) at h in absurd (cc)
      | inr (t, req, done) ↦
          let h' : some (finish tid (empty tid (announce tid t))) ≡ some u =
            rw (e, r, done, retire) at h in
          (t, req, ground arith)
    ]

-- What the last writes of `retire` leave alone.
finish_same :
    (tid : ℕ) (s : State)
    → ((finish tid s).retired ≡ s.retired)
      × ((finish tid s).pool ≡ s.pool)
      × ((finish tid s).local_slots ≡ s.local_slots)
unfolding finish
finish_same tid s = (refl, refl, refl)

scan_same :
    (tid : ℕ) (s : State)
    → ((announce tid s).num_process ≡ s.num_process)
      × ((announce tid s).slots_per_thread ≡ s.slots_per_thread)
      × ((announce tid s).slots ≡ s.slots)
      × ((announce tid s).retired ≡ s.retired)
      × ((announce tid s).first_lo_entry_flag ≡ s.first_lo_entry_flag)
      × ((empty tid (announce tid s)).local_slots ≡ s.local_slots)
unfolding announce empty
scan_same tid s = (refl, refl, refl, refl, refl, refl)

push_same :
    (tid obj : ℕ) (s : State)
    → ((push_retired tid obj s).num_process ≡ s.num_process)
      × ((push_retired tid obj s).slots_per_thread ≡ s.slots_per_thread)
      × ((push_retired tid obj s).local_slots ≡ s.local_slots)
      × ((push_retired tid obj s).slots ≡ s.slots)
unfolding push_retired
push_same tid obj s = (refl, refl, refl, refl)

-- Thread tid retires a non-NULL object and its bag reaches empty_freq. If thread m has reserved a
-- pointer, and m is tid or its signal handler has run by the time of the scan, then the call, if
-- it returns, frees that pointer from no bag: where it was retired, the new object included, it
-- still is.
pub ping_protects :
    (rand : ℕ) (signals : ℕ → Delivery) (tid obj m i j : ℕ) (s u : State)
    → obj ≢ 0
    → s.empty_freq ≤ length (s.retired tid) + 1
    → m < s.num_process
    → i < s.slots_per_thread
    → (m ≢ tid → signals m ≡ handled)
    → retire rand signals tid obj s ≡ some u
    → In (s.local_slots m i) ((push_retired tid obj s).retired j)
    → In (s.local_slots m i) (u.retired j)
ping_protects rand signals tid obj m i j s u ne full lm li heard h mem =
    let s1 = push_retired tid obj s in
    let s2 = ready tid s1 in
    let (t, req, e) = retire_hi rand signals tid obj s u ne full h in
    let (np, spt, loc, _) = push_same tid obj s in
    let r = ready-Ready tid s1 in
    let same = request-Same signals tid s2 t req in
    let (np', spt', sl', ret', _, _) = scan_same tid t in
    let k : t.slots_per_thread ≡ s.slots_per_thread =
      same.slots_per_thread ∙ r.slots_per_thread ∙ spt in
    let n : t.num_process ≡ s.num_process = same.num_process ∙ r.num_process ∙ np in
    let at : t.slots (m * t.slots_per_thread + i) ≡ t.local_slots m i =
      request-publishes signals tid m i s2 t req (rw (r.num_process, np) lm) heard
        (rw (r.slots_per_thread, spt) li) in
    let value : t.local_slots m i ≡ s.local_slots m i = rw (same.local_slots, r.local_slots, loc) in
    let q = m * t.slots_per_thread + i in
    let range : q < t.num_process * t.slots_per_thread =
      slot_range m i t.num_process t.slots_per_thread (rw n lm) (rw k li) in
    let here : In (s.local_slots m i) ((announce tid t).retired j) =
      rw (ret', same.retired, r.retired) mem in
    let kept =
      empty-keeps tid j q (s.local_slots m i) (announce tid t) (rw (np', spt') range)
        (rw sl' (at ∙ value)) here in
    rw (e, (finish_same tid (empty tid (announce tid t))).0) kept
  where
    slot_range : (m i n k : ℕ) → m < n → i < k → m * k + i < n * k
    slot_range m i n k lm li = grind arith

no_conflict :
    (p : ℕ) (s : State)
    → Absent p s
    → conflict (load (s.num_process * s.slots_per_thread) s.slots) p ≡ false
no_conflict p s absent =
    let n = s.num_process * s.slots_per_thread in
    elim (Bool-cases (conflict (load n s.slots) p)) [
      | inr f ↦ f
      | inl t ↦ let (q, lt, e) = conflict-load_inv n s.slots p t in absurd (absent q (sym e))
    ]

reclaim-total :
    (rand : ℕ) (signals : ℕ → Delivery) (tid : ℕ) (s : State)
    → ((m : ℕ) → signals m ≢ failed)
    → (u : State) × (reclaim rand signals tid s ≡ some u)
unfolding reclaim
reclaim-total rand signals tid s fine =
    elim (Bool-cases (is_out_of_patience (length (s.retired tid)) s)) [
      | inl full ↦
          let (t, req) = request-total signals tid (ready tid s) fine in
          elim (hi_wm_lem signals tid s) [
            | inl (stuck, _) ↦ absurd (clash stuck req)
            | inr (t', _, done) ↦ (empty tid (announce tid t'), rw (full, done))
          ]
      | inr room ↦ elim (Bool-cases (is_past_lo_watermark tid (length (s.retired tid)) s)) [
        | inl past ↦ (lo_wm rand tid s, rw (room, past))
        | inr few ↦ (s, rw (room, few))
      ]
    ]
  where
    clash : {o : Option State} {t : State} → o ≡ none → o ≡ some t → ⊥
    clash a b = cc

-- Thread tid retires a non-NULL object, its bag reaches empty_freq, and the signal to thread m
-- has not been handled by the time of the scan. A pointer of the bag that is in no slot, and that
-- neither tid nor a thread whose handler has run has reserved, is handed to the pool by the call,
-- if it returns, although thread m has it reserved before and after.
pub unheard_freed :
    (rand : ℕ) (signals : ℕ → Delivery) (tid obj m i p : ℕ) (s u : State)
    → obj ≢ 0
    → s.empty_freq ≤ length (s.retired tid) + 1
    → signals m ≡ pending
    → s.local_slots m i ≡ p
    → Absent p s
    → Unreserved p tid s
    → ((o : ℕ) → signals o ≡ handled → Unreserved p o s)
    → retire rand signals tid obj s ≡ some u
    → In p ((push_retired tid obj s).retired tid)
    → In p (u.pool tid) × (u.local_slots m i ≡ p)
unheard_freed rand signals tid obj m i p s u ne full quiet held absent own others h mem =
    let s1 = push_retired tid obj s in
    let s2 = ready tid s1 in
    let (t, req, e) = retire_hi rand signals tid obj s u ne full h in
    let (np, spt, loc, sl) = push_same tid obj s in
    let r = ready-Ready tid s1 in
    let same = request-Same signals tid s2 t req in
    let (np', spt', sl', ret', fl', loc') = scan_same tid t in
    let gone : Absent p t =
      request-Absent p signals tid s2 t req
        (λ c lc. rw (r.local_slots, loc) (own c (rw (r.slots_per_thread, spt) at lc)))
        (λ o sig c lc.
          rw (r.local_slots, loc) (others o sig c (rw (r.slots_per_thread, spt) at lc)))
        (λ q. rw (r.slots, sl) (absent q)) in
    let fin = finish_same tid (empty tid (announce tid t)) in
    let off : (announce tid t).first_lo_entry_flag tid ≡ true =
      rw (fl', same.first_lo_entry_flag) r.off_lo_path in
    let freed =
      empty-frees tid p (announce tid t) off (no_conflict p (announce tid t) (λ q. rw sl' (gone q)))
        (rw (ret', same.retired, r.retired) mem) in
    (rw (e, fin.1) freed, rw (e, fin.2, loc', same.local_slots, r.local_slots, loc) held)

-- A call of retire ends and none of its assertions fails, whatever the other threads have
-- published, if no pthread_kill fails.
pub retire-total :
    (rand : ℕ) (signals : ℕ → Delivery) (tid obj : ℕ) (s : State)
    → ((m : ℕ) → signals m ≢ failed)
    → (u : State) × (retire rand signals tid obj s ≡ some u)
unfolding retire
retire-total rand signals tid obj s fine = elim (Bool-cases (obj == 0)) [
  | inl null ↦ (s, rw null)
  | inr some_obj ↦
      let (t, e) = reclaim-total rand signals tid (push_retired tid obj s) fine in
      (finish tid t, rw (some_obj, e))
]

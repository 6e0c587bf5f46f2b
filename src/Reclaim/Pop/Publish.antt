-- ===== src/Reclaim/Pop/Publish.antt =====
-- What is in the slots once the signals have been sent.
use pop_setbench.Base.{
  ℕ, zero, suc, ◌+◌, ◌*◌, ◌<◌, ◌≡◌, ◌≢◌, ◌∙◌, inl, inr, some, arith, ◌==◌, ==_iff, Bool-cases,
  lt-suc_cases,
}
use pop_setbench.Reclaim.Slots.{copy_inside, copy_outside, copy_avoids, slot_ne}
use pop_setbench.Reclaim.Pop.{
  State, Delivery, handled, pending, publish_reservations, signal_loop,
  request_all_threads_to_restart,
}
use pop_setbench.Reclaim.Pop.Signals.{
  Same, publish-Same, Round, itself, published, unheard, signal_loop_inv, loop-Same,
}

-- Publishing by thread `n` fills its own slots, and no others.
publish_own :
    (n i : ℕ) (s : State)
    → i < s.slots_per_thread
    → (publish_reservations n s).slots (n * s.slots_per_thread + i) ≡ s.local_slots n i
unfolding publish_reservations
publish_own n i s lt =
    copy_inside s.slots_per_thread (n * s.slots_per_thread) (s.local_slots n) s.slots i lt

publish_other :
    (n m i : ℕ) (s : State)
    → n ≢ m
    → i < s.slots_per_thread
    → (publish_reservations n s).slots (m * s.slots_per_thread + i)
      ≡ s.slots (m * s.slots_per_thread + i)
unfolding publish_reservations
publish_other n m i s ne lt =
    copy_outside s.slots_per_thread (n * s.slots_per_thread) (s.local_slots n) s.slots _
      (λ c lc. slot_ne s.slots_per_thread n m c i ne lc lt)

-- Slot `i` of thread `m` holds its reservation `i`.
abbrev pub Published : ℕ → ℕ → State → Type 0
Published m i s = s.slots (m * s.slots_per_thread + i) ≡ s.local_slots m i

Round-keeps :
    (signals : ℕ → Delivery) (n tid m i : ℕ) (s t : State)
    → Round signals n tid s t
    → i < s.slots_per_thread
    → Published m i s
    → Published m i t
Round-keeps signals n tid m i s t (itself _ e) lt h = rw e h
Round-keeps signals n tid m i s t (unheard _ _ e) lt h = rw e h
Round-keeps signals n tid m i s t (published _ _ e) lt h = rw e (
    let same = publish-Same n s in
    rw (same.slots_per_thread, same.local_slots)
      (elim (Bool-cases (n == m)) [
        | inl eq ↦ rw (← (==_iff n m).0 eq) (publish_own n i s lt)
        | inr ne ↦ publish_other n m i s (ground arith) lt ∙ h
      ]))

loop-keeps :
    (n : ℕ) (signals : ℕ → Delivery) (tid m i : ℕ) (s t : State)
    → signal_loop n signals tid s ≡ some t
    → i < s.slots_per_thread
    → Published m i s
    → Published m i t
unfolding signal_loop
loop-keeps zero signals tid m i s t h lt p = let e : t ≡ s = ground arith in rw e p
loop-keeps (suc n) signals tid m i s t h lt p =
    let (u, e, r) = signal_loop_inv n signals tid s t h in
    let same = loop-Same n signals tid s u e in
    Round-keeps signals n tid m i u t r (rw same.slots_per_thread lt)
      (loop-keeps n signals tid m i s u e lt p)

Round-publishes :
    (signals : ℕ → Delivery) (n tid i : ℕ) (s t : State)
    → Round signals n tid s t
    → tid ≢ n
    → signals n ≡ handled
    → i < s.slots_per_thread
    → Published n i t
Round-publishes signals n tid i s t (itself eq _) ne sig lt = absurd (ne eq)
Round-publishes signals n tid i s t (unheard _ quiet _) ne sig lt = absurd (clash sig quiet)
  where
    clash : {d : Delivery} → d ≡ handled → d ≡ pending → ⊥
    clash a b = cc
Round-publishes signals n tid i s t (published _ _ e) ne sig lt = rw e (
    let same = publish-Same n s in
    rw (same.slots_per_thread, same.local_slots) (publish_own n i s lt))

loop-publishes :
    (n : ℕ) (signals : ℕ → Delivery) (tid m i : ℕ) (s t : State)
    → signal_loop n signals tid s ≡ some t
    → m < n
    → tid ≢ m
    → signals m ≡ handled
    → i < s.slots_per_thread
    → Published m i t
loop-publishes zero signals tid m i s t h lt ne sig li = elim lt [ ]
loop-publishes (suc n) signals tid m i s t h lt ne sig li =
    let (u, e, r) = signal_loop_inv n signals tid s t h in
    let same = loop-Same n signals tid s u e in
    let li' : i < u.slots_per_thread = rw same.slots_per_thread li in
    elim (lt-suc_cases m n lt) [
      | inl before ↦
          Round-keeps signals n tid m i u t r li'
            (loop-publishes n signals tid m i s u e before ne sig li)
      | inr now ↦
          let ne' : tid ≢ n = rw (← now) ne in
          let sig' : signals n ≡ handled = rw (← now) sig in
          rw now (Round-publishes signals n tid i u t r ne' sig' li')
    ]

-- After the request every thread whose handler has run, and the reclaimer itself, has its
-- reservations in its slots; nothing else has changed but the slots and the publishing counters.
pub request-publishes :
    (signals : ℕ → Delivery) (tid m i : ℕ) (s t : State)
    → request_all_threads_to_restart signals tid s ≡ some t
    → m < s.num_process
    → (m ≢ tid → signals m ≡ handled)
    → i < s.slots_per_thread
    → Published m i t
unfolding request_all_threads_to_restart
request-publishes signals tid m i s t h lt all li =
    let s1 = publish_reservations tid s in
    let same = publish-Same tid s in
    elim (Bool-cases (tid == m)) [
      | inl own ↦ loop-keeps s.num_process signals tid m i s1 t h (rw same.slots_per_thread li) (
          rw (same.slots_per_thread, same.local_slots, ← (==_iff tid m).0 own)
            (publish_own tid i s li))
      | inr other ↦
          loop-publishes s.num_process signals tid m i s1 t h lt (ground arith) (all (ground arith))
            (rw same.slots_per_thread li)
    ]

-- No slot holds `p`.
abbrev pub Absent : ℕ → State → Type 0
Absent p s = (q : ℕ) → s.slots q ≢ p

-- Thread `m` has no reservation for `p`.
abbrev pub Unreserved : ℕ → ℕ → State → Type 0
Unreserved p m s = (i : ℕ) → i < s.slots_per_thread → s.local_slots m i ≢ p

publish-Absent :
    (p n : ℕ) (s : State) → Absent p s → Unreserved p n s → Absent p (publish_reservations n s)
unfolding publish_reservations
publish-Absent p n s a u q =
    copy_avoids s.slots_per_thread (n * s.slots_per_thread) (s.local_slots n) s.slots p q u (a q)

Unreserved-Same : (p m : ℕ) (s t : State) → Same s t → Unreserved p m s → Unreserved p m t
Unreserved-Same p m s t same u i lt = rw same.local_slots (u i (rw same.slots_per_thread at lt))

Round-Absent :
    (p : ℕ) (signals : ℕ → Delivery) (n tid : ℕ) (s t : State)
    → Round signals n tid s t
    → (signals n ≡ handled → Unreserved p n s)
    → Absent p s
    → Absent p t
Round-Absent p signals n tid s t (itself _ e) un a = rw e a
Round-Absent p signals n tid s t (unheard _ _ e) un a = rw e a
Round-Absent p signals n tid s t (published _ sig e) un a = rw e (publish-Absent p n s a (un sig))

loop-Absent :
    (p n : ℕ) (signals : ℕ → Delivery) (tid : ℕ) (s t : State)
    → signal_loop n signals tid s ≡ some t
    → ((m : ℕ) → signals m ≡ handled → Unreserved p m s)
    → Absent p s
    → Absent p t
unfolding signal_loop
loop-Absent p zero signals tid s t h un a = let e : t ≡ s = ground arith in rw e a
loop-Absent p (suc n) signals tid s t h un a =
    let (u, e, r) = signal_loop_inv n signals tid s t h in
    Round-Absent p signals n tid u t r
      (λ sig. Unreserved-Same p n s u (loop-Same n signals tid s u e) (un n sig))
      (loop-Absent p n signals tid s u e un a)

-- A pointer that is in no slot, and that neither the reclaimer nor a thread whose handler has run
-- has reserved, is in no slot after the request.
pub request-Absent :
    (p : ℕ) (signals : ℕ → Delivery) (tid : ℕ) (s t : State)
    → request_all_threads_to_restart signals tid s ≡ some t
    → Unreserved p tid s
    → ((m : ℕ) → signals m ≡ handled → Unreserved p m s)
    → Absent p s
    → Absent p t
unfolding request_all_threads_to_restart
request-Absent p signals tid s t h own un a =
    loop-Absent p s.num_process signals tid (publish_reservations tid s) t h
      (λ m sig. Unreserved-Same p m s _ (publish-Same tid s) (un m sig))
      (publish-Absent p tid s a own)

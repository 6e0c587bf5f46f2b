-- ===== src/Reclaim/Pop/Signals.antt =====
-- What the signals publish, and what they leave alone.
use pop_setbench.Base.{
  ℕ, zero, suc, ◌+◌, ◌*◌, ◌≤◌, ◌≡◌, ◌≢◌, ◌∙◌, refl, inl, inr, true, none, some, arith, ◌==◌, ==_iff,
  Bool-cases, Option-cases, ltb,
}
use pop_setbench.Reclaim.Pop.{
  State, Delivery, failed, handled, pending, publish_reservations, deliver, signal_loop,
  request_all_threads_to_restart, check_loop,
}

-- Sizes, bags and reservations are as they were.
pub record Same (s t : State) : Type 0 where
  pub num_process : t.num_process ≡ s.num_process
  pub slots_per_thread : t.slots_per_thread ≡ s.slots_per_thread
  pub retired : t.retired ≡ s.retired
  pub pool : t.pool ≡ s.pool
  pub local_slots : t.local_slots ≡ s.local_slots
  pub first_lo_entry_flag : t.first_lo_entry_flag ≡ s.first_lo_entry_flag

pub Same-trans : (s t u : State) → Same s t → Same t u → Same s u
Same-trans s t u a b = record {
  num_process = b.num_process ∙ a.num_process;
  slots_per_thread = b.slots_per_thread ∙ a.slots_per_thread;
  retired = b.retired ∙ a.retired;
  pool = b.pool ∙ a.pool;
  local_slots = b.local_slots ∙ a.local_slots;
  first_lo_entry_flag = b.first_lo_entry_flag ∙ a.first_lo_entry_flag;
}

pub publish-Same : (tid : ℕ) (s : State) → Same s (publish_reservations tid s)
unfolding publish_reservations
publish-Same tid s = record {
  num_process = refl;
  slots_per_thread = refl;
  retired = refl;
  pool = refl;
  local_slots = refl;
  first_lo_entry_flag = refl;
}

Same-refl : (s : State) → Same s s
Same-refl s = record {
  num_process = refl;
  slots_per_thread = refl;
  retired = refl;
  pool = refl;
  local_slots = refl;
  first_lo_entry_flag = refl;
}

-- The rounds of the loop, one case for each: the thread itself, a handler that runs, one that does
-- not.
pub data Round (signals : ℕ → Delivery) (n tid : ℕ) (s t : State) : Type 0 where
  itself : tid ≡ n → t ≡ s → Round signals n tid s t
  published : tid ≢ n → signals n ≡ handled → t ≡ publish_reservations n s → Round signals n tid s t
  unheard : tid ≢ n → signals n ≡ pending → t ≡ s → Round signals n tid s t

Round_of_deliver :
    (signals : ℕ → Delivery) (n tid : ℕ) (m t : State) (d : Delivery)
    → signals n ≡ d
    → tid ≢ n
    → deliver d n m ≡ some t
    → Round signals n tid m t
Round_of_deliver signals n tid m t failed e ne h = absurd (cc)
Round_of_deliver signals n tid m t handled e ne h = published ne e (ground arith)
Round_of_deliver signals n tid m t pending e ne h = unheard ne e (ground arith)

-- The last round, with the state `m` before it.
pub signal_loop_inv :
    (n : ℕ) (signals : ℕ → Delivery) (tid : ℕ) (s t : State)
    → signal_loop (suc n) signals tid s ≡ some t
    → (m : State) × (signal_loop n signals tid s ≡ some m) × Round signals n tid m t
unfolding signal_loop
signal_loop_inv n signals tid s t h = elim (Option-cases (signal_loop n signals tid s)) [
  | inl e ↦ let h' : none ≡ some t = rw (e, signal_loop) at h in absurd (cc)
  | inr (m, e) ↦ (
    m,
    e,
    elim (Bool-cases (tid == n)) [
      | inl own ↦
          let h' : some m ≡ some t = rw (e, own, signal_loop) at h in
          itself ((==_iff tid n).0 own) (ground arith)
      | inr other ↦
          let h' : deliver (signals n) n m ≡ some t = rw (e, other, signal_loop) at h in
          Round_of_deliver signals n tid m t (signals n) refl (ground arith) h'
    ],
  )
]

pub Round-Same :
    (signals : ℕ → Delivery) (n tid : ℕ) (s t : State) → Round signals n tid s t → Same s t
Round-Same signals n tid s t (itself _ e) = rw e (Same-refl s)
Round-Same signals n tid s t (published _ _ e) = rw e (publish-Same n s)
Round-Same signals n tid s t (unheard _ _ e) = rw e (Same-refl s)

pub loop-Same :
    (n : ℕ) (signals : ℕ → Delivery) (tid : ℕ) (s t : State)
    → signal_loop n signals tid s ≡ some t
    → Same s t
unfolding signal_loop
loop-Same zero signals tid s t h = let e : t ≡ s = ground arith in rw e (Same-refl s)
loop-Same (suc n) signals tid s t h =
    let (m, e, r) = signal_loop_inv n signals tid s t h in
    Same-trans s m t (loop-Same n signals tid s m e) (Round-Same signals n tid m t r)

pub request-Same :
    (signals : ℕ → Delivery) (tid : ℕ) (s t : State)
    → request_all_threads_to_restart signals tid s ≡ some t
    → Same s t
unfolding request_all_threads_to_restart
request-Same signals tid s t h =
    Same-trans s (publish_reservations tid s) t (publish-Same tid s)
      (loop-Same s.num_process signals tid (publish_reservations tid s) t h)

deliver-total :
    (d : Delivery) (n : ℕ) (s : State) → d ≢ failed → (t : State) × (deliver d n s ≡ some t)
deliver-total failed n s ne = absurd (ne refl)
deliver-total handled n s ne = (publish_reservations n s, refl)
deliver-total pending n s ne = (s, refl)

-- The request ends, unless a `pthread_kill` fails.
loop-total :
    (n : ℕ) (signals : ℕ → Delivery) (tid : ℕ) (s : State)
    → ((m : ℕ) → signals m ≢ failed)
    → (t : State) × (signal_loop n signals tid s ≡ some t)
unfolding signal_loop
loop-total zero signals tid s fine = (s, refl)
loop-total (suc n) signals tid s fine =
    let (m, e) = loop-total n signals tid s fine in
    elim (Bool-cases (tid == n)) [
      | inl own ↦ (m, rw (e, own))
      | inr other ↦ let (t, d) = deliver-total (signals n) n m (fine n) in (t, rw (e, other) d)
    ]

pub request-total :
    (signals : ℕ → Delivery) (tid : ℕ) (s : State)
    → ((m : ℕ) → signals m ≢ failed)
    → (t : State) × (request_all_threads_to_restart signals tid s ≡ some t)
unfolding request_all_threads_to_restart
request-total signals tid s fine =
    loop-total s.num_process signals tid (publish_reservations tid s) fine

-- The assertion behind the signals cannot fail, whatever has been published: it counts at most
-- one for each thread.
pub check_loop-total :
    (n tid : ℕ) (s : State) → n ≤ s.num_process → (c : ℕ) × (check_loop n tid s ≡ some c) × (c ≤ n)
unfolding check_loop
check_loop-total zero tid s le = (0, refl, omega arith)
check_loop-total (suc n) tid s le =
    let (c, e, small) = check_loop-total n tid s (omega arith) in
    elim (Bool-cases (tid == n)) [
      | inl own ↦ (c, rw (e, own), omega arith)
      | inr other ↦ elim (Bool-cases (s.my_scanned_ts tid n == s.my_publishing_ts n)) [
        | inr seen ↦ (c, rw (e, other, seen), omega arith)
        | inl unseen ↦
            let fits : ltb (c + 1) (3 * s.num_process) ≡ true = ground arith in
            (c + 1, rw (e, other, unseen, fits), omega arith)
      ]
    ]

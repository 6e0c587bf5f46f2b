-- ===== src/Reclaim/He.antt =====
-- common/recordmgr/reclaimer_he.h: hazard eras. A thread writes the epoch at which it follows a
-- pointer into one of its slots; a retired object is freed once no epoch of its lifetime stands in
-- a slot. Objects are addresses, 0 is NULL, and era 0 is no reservation. Compiled without
-- DEAMORTIZE_FREE_CALLS.
pub mod Run
pub mod Scan
pub mod Reserve
pub mod Empty
use pop_setbench.Base.{
  ℕ, zero, suc, ◌+◌, ◌*◌, ◌%◌, Bool, true, false, ◌||◌, ltb, Option, none, some, List, [], ◌∷◌,
  ◌++◌, map, ◌==◌, if◌then◌else◌, u64_mod, update,
}
use pop_setbench.Reclaim.Sweep.{Swept, sweep}
use pop_setbench.Reclaim.Slots.{clear, copy}
use pop_setbench.Reclaim.Eras.{IntervalInfo, interval_info, EraReading, era_loop}

-- `pool` records, for each thread, the objects that it has handed to `pool->add`, in order;
-- `scanned_hes` is `threadData[tid].scannedHEs`.
pub record State : Type 0 where
  pub num_process : ℕ
  pub num_he : ℕ
  pub freq : ℕ
  pub epoch_freq : ℕ
  pub reservations : ℕ → ℕ → ℕ
  pub scanned_hes : ℕ → ℕ → ℕ
  pub retired : ℕ → List IntervalInfo
  pub retire_counters : ℕ → ℕ
  pub alloc_counters : ℕ → ℕ
  pub epoch : ℕ
  pub pool : ℕ → List ℕ

-- The constructor and `initThread`, which leaves `scannedHEs` unset (`junk`); `long_running` is the
-- compile-time flag LONG_RUNNING_EXP.
unfoldable pub create : Bool → (ℕ → ℕ → ℕ) → ℕ → State
create long_running junk num_processes = record {
  num_process = num_processes;
  num_he = 3;
  freq = if long_running then 2048 else 24576;
  epoch_freq = 100;
  reservations = λ _ _. 0;
  scanned_hes = junk;
  retired = λ _. [];
  retire_counters = λ _. 0;
  alloc_counters = λ _. 0;
  epoch = 1;
  pool = λ _. [];
}

pub end_op : ℕ → State → State
end_op tid s = record s {
  reservations = update s.reservations tid (clear s.num_he 0 (s.reservations tid));
}

pub update_alloc_counter_and_epoch : ℕ → State → State
update_alloc_counter_and_epoch tid s =
    let count = (s.alloc_counters tid + 1) % u64_mod in
    let s' = record s { alloc_counters = update s.alloc_counters tid count } in
    if count % (s.epoch_freq * s.num_process) == 0
    then record s' { epoch = (s.epoch + 1) % u64_mod }
    else s'

pub reserve_era : ℕ → ℕ → ℕ → State → State
reserve_era tid idx e s = record s {
  reservations = update s.reservations tid (update (s.reservations tid) idx e);
}

-- `read`, on fuel. Each round's reservation overwrites the one before, so the state is written
-- once, when the loop ends (with the value that stands there if the first round returns).
unfoldable pub read : ℕ → ℕ → ℕ → (ℕ → ℕ) → (ℕ → ℕ) → State → Option (ℕ × State)
read fuel tid idx loads eras s = elim (era_loop fuel loads eras (s.reservations tid idx) 0) [
  | none ↦ none
  | some r ↦ some (r.ret, reserve_era tid idx r.era s)
]

-- The loop of `isFreeable`, over the first `n` scanned eras.
unfoldable pub freeable_loop : ℕ → (ℕ → ℕ) → ℕ → ℕ → Bool
freeable_loop zero scanned birth_epoch retire_epoch = true
freeable_loop (suc n) scanned birth_epoch retire_epoch =
    let rest = freeable_loop n scanned birth_epoch retire_epoch in
    let epo = scanned n in
    if ltb epo birth_epoch || ltb retire_epoch epo || (epo == 0) then rest else false

-- `isFreeable` has no parameter `tid`, so it reads `threadData[tid]` of the thread-local `tid` that
-- microbench/main.cpp declares, whose value in the calling thread is `global_tid`.
abbrev pub is_freeable : (global_tid : ℕ) → State → (birth_epoch retire_epoch : ℕ) → Bool
is_freeable global_tid s birth_epoch retire_epoch =
    freeable_loop (s.num_process * s.num_he) (s.scanned_hes global_tid) birth_epoch retire_epoch

-- The two loops of `empty` that fill `scannedHEs`.
unfoldable pub scan : ℕ → ℕ → (ℕ → ℕ → ℕ) → (ℕ → ℕ) → ℕ → ℕ
scan zero num_he reservations scanned = scanned
scan (suc i) num_he reservations scanned =
    copy num_he (i * num_he) (reservations i) (scan i num_he reservations scanned)

abbrev pub objs : List IntervalInfo → List ℕ
objs = map (λ x. x.obj)

-- `globals tid` is the value of the thread-local `tid` in the thread that passes `tid`.
pub empty : (globals : ℕ → ℕ) → ℕ → State → State
empty globals tid s =
    let scanned = scan s.num_process s.num_he s.reservations (s.scanned_hes tid) in
    let s' = record s { scanned_hes = update s.scanned_hes tid scanned } in
    let swept =
      sweep (λ res. is_freeable (globals tid) s' res.birth_epoch res.retire_epoch)
        (s.retired tid) in
    record s' {
      retired = update s.retired tid swept.kept;
      pool = update s.pool tid (s.pool tid ++ objs swept.freed);
    }

-- The push and the counter; `birth_epoch` is what `obj->birth_epoch` holds.
pub push_retired : ℕ → ℕ → ℕ → State → State
push_retired tid obj birth_epoch s = record s {
  retired = update s.retired tid (s.retired tid ++ interval_info obj birth_epoch s.epoch ∷ []);
  retire_counters = update s.retire_counters tid ((s.retire_counters tid + 1) % u64_mod);
}

-- `if (retire_counters[tid] % freq == 0) empty(tid);`
pub flush : (globals : ℕ → ℕ) → ℕ → State → State
flush globals tid s = if s.retire_counters tid % s.freq == 0 then empty globals tid s else s

pub retire : (globals : ℕ → ℕ) → ℕ → ℕ → ℕ → State → State
retire globals tid obj birth_epoch s =
    if obj == 0 then s else flush globals tid (push_retired tid obj birth_epoch s)

-- The destructor hands every retired object to the pool, thread by thread.
pub destroy_loop : ℕ → State → State
destroy_loop zero s = s
destroy_loop (suc n) s =
    let s' = destroy_loop n s in
    record s' {
      retired = update s'.retired n [];
      pool = update s'.pool n (s'.pool n ++ objs (s'.retired n));
    }

pub destroy : State → State
unfolding destroy_loop
destroy s = destroy_loop s.num_process s

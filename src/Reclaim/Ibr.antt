-- ===== src/Reclaim/Ibr.antt =====
-- common/recordmgr/reclaimer_2geibr.h: interval based reclamation (2GEIBR). A thread reserves an
-- interval of epochs; a retired object is freed once its lifetime meets no reserved interval.
-- Objects are addresses, 0 is NULL. Compiled without DEAMORTIZE_FREE_CALLS.
pub mod Run
pub mod Reserve
pub mod Empty
use pop_setbench.Base.{
  ℕ, zero, suc, ◌+◌, ◌*◌, ◌%◌, Bool, true, false, not, ◌&&◌, leb, Option, none, some, List, [], ◌∷◌,
  ◌++◌, map, ◌==◌, if◌then◌else◌, u64_mod, u64_max, update,
}
use pop_setbench.Reclaim.Sweep.{Swept, sweep}
use pop_setbench.Reclaim.Eras.{IntervalInfo, interval_info, EraReading, era_loop}

-- `pool` records, for each thread, the objects that it has handed to `pool->add`, in order.
pub record State : Type 0 where
  pub num_process : ℕ
  pub freq : ℕ
  pub epoch_freq : ℕ
  pub upper_reservs : ℕ → ℕ
  pub lower_reservs : ℕ → ℕ
  pub retired : ℕ → List IntervalInfo
  pub retire_counters : ℕ → ℕ
  pub alloc_counters : ℕ → ℕ
  pub epoch : ℕ
  pub pool : ℕ → List ℕ

-- The constructor; `long_running` is the compile-time flag LONG_RUNNING_EXP.
unfoldable pub create : Bool → ℕ → State
create long_running num_processes = record {
  num_process = num_processes;
  freq = if long_running then 2048 else 24576;
  epoch_freq = 150;
  upper_reservs = λ _. u64_max;
  lower_reservs = λ _. u64_max;
  retired = λ _. [];
  retire_counters = λ _. 0;
  alloc_counters = λ _. 0;
  epoch = 0;
  pool = λ _. [];
}

pub start_op : ℕ → State → State
start_op tid s = record s {
  lower_reservs = update s.lower_reservs tid s.epoch;
  upper_reservs = update s.upper_reservs tid s.epoch;
}

pub end_op : ℕ → State → State
end_op tid s = record s {
  upper_reservs = update s.upper_reservs tid u64_max;
  lower_reservs = update s.lower_reservs tid u64_max;
}

pub update_alloc_counter_and_epoch : ℕ → State → State
update_alloc_counter_and_epoch tid s =
    let count = (s.alloc_counters tid + 1) % u64_mod in
    let s' = record s { alloc_counters = update s.alloc_counters tid count } in
    if count % (s.epoch_freq * s.num_process) == 0
    then record s' { epoch = (s.epoch + 1) % u64_mod }
    else s'

pub reserve_upper : ℕ → ℕ → State → State
reserve_upper tid e s = record s { upper_reservs = update s.upper_reservs tid e }

-- `read`, on fuel. Each round's reservation overwrites the one before, so the state is written
-- once, when the loop ends (with the value that stands there if the first round returns).
unfoldable pub read : ℕ → ℕ → (ℕ → ℕ) → (ℕ → ℕ) → State → Option (ℕ × State)
read fuel tid loads eras s = elim (era_loop fuel loads eras (s.upper_reservs tid) 0) [
  | none ↦ none
  | some r ↦ some (r.ret, reserve_upper tid r.era s)
]

-- `conflict`, over the first `n` entries of the copies of the reservations.
unfoldable pub conflict : ℕ → (ℕ → ℕ) → (ℕ → ℕ) → ℕ → ℕ → Bool
conflict zero lower_epochs upper_epochs birth_epoch retire_epoch = false
conflict (suc n) lower_epochs upper_epochs birth_epoch retire_epoch =
    let rest = conflict n lower_epochs upper_epochs birth_epoch retire_epoch in
    if leb birth_epoch (upper_epochs n) && leb (lower_epochs n) retire_epoch then true else rest

abbrev pub objs : List IntervalInfo → List ℕ
objs = map (λ x. x.obj)

pub empty : ℕ → State → State
empty tid s =
    let swept =
      sweep
        (λ res.
          not (
            conflict s.num_process s.lower_reservs s.upper_reservs res.birth_epoch
              res.retire_epoch))
        (s.retired tid) in
    record s {
      retired = update s.retired tid swept.kept;
      pool = update s.pool tid (s.pool tid ++ objs swept.freed);
    }

-- The push and the counter; `birth_epoch` is what `obj->birth_epoch` holds.
pub push_retired : ℕ → ℕ → ℕ → State → State
push_retired tid obj birth_epoch s = record s {
  retired = update s.retired tid (s.retired tid ++ interval_info obj birth_epoch s.epoch ∷ []);
  retire_counters = update s.retire_counters tid ((s.retire_counters tid + 1) % u64_mod);
}

-- `if (retire_counters[tid] % freq == 0) empty(tid);`
pub flush : ℕ → State → State
flush tid s = if s.retire_counters tid % s.freq == 0 then empty tid s else s

pub retire : ℕ → ℕ → ℕ → State → State
retire tid obj birth_epoch s =
    if obj == 0 then s else flush tid (push_retired tid obj birth_epoch s)

-- The destructor hands every retired object to the pool, thread by thread.
pub destroy_loop : ℕ → State → State
destroy_loop zero s = s
destroy_loop (suc n) s =
    let s' = destroy_loop n s in
    record s' {
      retired = update s'.retired n [];
      pool = update s'.pool n (s'.pool n ++ objs (s'.retired n));
    }

pub destroy : State → State
unfolding destroy_loop
destroy s = destroy_loop s.num_process s

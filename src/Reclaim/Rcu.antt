-- ===== src/Reclaim/Rcu.antt =====
-- common/recordmgr/reclaimer_ibr_rcu.h: epoch based reclamation (EBR). A thread announces the
-- epoch at which its operation starts; a retired object is freed once every announced epoch is
-- younger. Objects are addresses, 0 is NULL. Compiled without DEAMORTIZE_FREE_CALLS.
pub mod Run
pub mod Grace
pub mod Empty
use pop_setbench.Base.{
  ℕ, zero, suc, ◌+◌, ◌*◌, ◌%◌, Bool, List, [], ◌∷◌, ◌++◌, map, ltb, ◌==◌, if◌then◌else◌, u64_mod,
  u64_max, update,
}
use pop_setbench.Reclaim.Sweep.{Swept, sweep}
use pop_setbench.Reclaim.Epochs.{RcuInfo, rcu_info, min_epoch}

-- `pool` records, for each thread, the objects that it has handed to `pool->add`, in order.
pub record State : Type 0 where
  pub num_process : ℕ
  pub empty_freq : ℕ
  pub epoch_freq : ℕ
  pub reservations : ℕ → ℕ
  pub retired : ℕ → List RcuInfo
  pub retire_counters : ℕ → ℕ
  pub alloc_counters : ℕ → ℕ
  pub epoch : ℕ
  pub pool : ℕ → List ℕ

-- The constructor; `long_running` is the compile-time flag LONG_RUNNING_EXP.
unfoldable pub create : Bool → ℕ → State
create long_running num_processes = record {
  num_process = num_processes;
  empty_freq = if long_running then 2048 else 24576;
  epoch_freq = 150;
  reservations = λ _. u64_max;
  retired = λ _. [];
  retire_counters = λ _. 0;
  alloc_counters = λ _. 0;
  epoch = 0;
  pool = λ _. [];
}

pub start_op : ℕ → State → State
start_op tid s = record s { reservations = update s.reservations tid s.epoch }

pub end_op : ℕ → State → State
end_op tid s = record s { reservations = update s.reservations tid u64_max }

-- `alloc_counters[tid]++`, and the epoch's step on every `epoch_freq * num_process`-th call.
pub update_alloc_counter_and_epoch : ℕ → State → State
update_alloc_counter_and_epoch tid s =
    let count = (s.alloc_counters tid + 1) % u64_mod in
    let s' = record s { alloc_counters = update s.alloc_counters tid count } in
    if count % (s.epoch_freq * s.num_process) == 0
    then record s' { epoch = (s.epoch + 1) % u64_mod }
    else s'

abbrev pub objs : List RcuInfo → List ℕ
objs = map (λ x. x.obj)

pub empty : ℕ → State → State
empty tid s =
    let bound = min_epoch s.num_process s.reservations in
    let swept = sweep (λ x. ltb x.epoch bound) (s.retired tid) in
    record s {
      retired = update s.retired tid swept.kept;
      pool = update s.pool tid (s.pool tid ++ objs swept.freed);
    }

-- The push and the counter, before the test that may call `empty`.
push_retired : ℕ → ℕ → State → State
push_retired tid obj s = record s {
  retired = update s.retired tid (s.retired tid ++ rcu_info obj s.epoch ∷ []);
  retire_counters = update s.retire_counters tid ((s.retire_counters tid + 1) % u64_mod);
}

pub retire : ℕ → ℕ → State → State
retire tid obj s =
    let s' = push_retired tid obj s in
    if obj == 0 then s else if s'.retire_counters tid % s.empty_freq == 0 then empty tid s' else s'

-- The destructor hands every retired object to the pool, thread by thread.
destroy_loop : ℕ → State → State
destroy_loop zero s = s
destroy_loop (suc n) s =
    let s' = destroy_loop n s in
    record s' {
      retired = update s'.retired n [];
      pool = update s'.pool n (s'.pool n ++ objs (s'.retired n));
    }

pub destroy : State → State
unfolding destroy_loop
destroy s = destroy_loop s.num_process s

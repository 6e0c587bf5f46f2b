-- ===== src/Reclaim/Hp.antt =====
-- common/recordmgr/reclaimer_ibr_hp.h: hazard pointers. A thread writes the pointers that it is
-- about to follow into its slots; a retired object is freed once a scan finds it in no slot.
-- Objects are addresses, 0 is NULL. Compiled without DEAMORTIZE_FREE_CALLS.
pub mod Run
pub mod Protect
pub mod Bound
use pop_setbench.Base.{
  ℕ, ◌+◌, ◌*◌, Bool, not, Option, none, some, List, [], ◌∷◌, ◌++◌, map, ◌==◌, if◌then◌else◌, load,
  update,
}
use pop_setbench.Reclaim.Sweep.{Swept, sweep}
use pop_setbench.Reclaim.Slots.{clear, conflict, read_loop}

-- `pool` records, for each thread, the objects that it has handed to `pool->add`, in order.
pub record State : Type 0 where
  pub num_process : ℕ
  pub empty_freq : ℕ
  pub slots_per_thread : ℕ
  pub slots : ℕ → ℕ
  pub cntrs : ℕ → ℕ
  pub retired : ℕ → List ℕ
  pub pool : ℕ → List ℕ

-- The constructor; `long_running` is the compile-time flag LONG_RUNNING_EXP.
unfoldable pub create : Bool → ℕ → State
create long_running num_processes = record {
  num_process = num_processes;
  empty_freq = if long_running then 2048 else 24576;
  slots_per_thread = 3;
  slots = λ _. 0;
  cntrs = λ _. 0;
  retired = λ _. [];
  pool = λ _. [];
}

pub end_op : ℕ → State → State
end_op tid s = record s { slots = clear s.slots_per_thread (tid * s.slots_per_thread) s.slots }

-- `reserve(ptr, slot, tid)`
pub reserve : ℕ → ℕ → ℕ → State → State
reserve ptr slot tid s = record s { slots = update s.slots (tid * s.slots_per_thread + slot) ptr }

-- `read`, on fuel, with the values that the loads of `obj` return.
unfoldable pub read : ℕ → ℕ → ℕ → (ℕ → ℕ) → State → Option (ℕ × State)
read fuel tid idx loads s = read_loop (λ ptr. reserve ptr idx tid) fuel loads 0 s

pub empty : ℕ → State → State
empty tid s =
    let temp_local_slots = load (s.num_process * s.slots_per_thread) s.slots in
    let swept = sweep (λ ptr. not (conflict temp_local_slots ptr)) (s.retired tid) in
    record s {
      retired = update s.retired tid swept.kept;
      pool = update s.pool tid (s.pool tid ++ map (λ ptr. ptr) swept.freed);
    }

pub push_retired : ℕ → ℕ → State → State
push_retired tid obj s = record s { retired = update s.retired tid (s.retired tid ++ obj ∷ []) }

-- `if (cntrs[tid] == empty_freq) { cntrs[tid] = 0; empty(tid); }`
pub flush : ℕ → State → State
flush tid s =
    if s.cntrs tid == s.empty_freq then empty tid (record s { cntrs = update s.cntrs tid 0 }) else s

-- `cntrs[tid].ui++`
pub bump_cntr : ℕ → State → State
bump_cntr tid s = record s { cntrs = update s.cntrs tid (s.cntrs tid + 1) }

pub retire : ℕ → ℕ → State → State
retire tid obj s = if obj == 0 then s else bump_cntr tid (flush tid (push_retired tid obj s))

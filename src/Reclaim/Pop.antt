-- ===== src/Reclaim/Pop.antt =====
-- common/recordmgr/reclaimer_ibr_popplushp.h: HazardPtrPOP, hazard pointers published on ping. A
-- thread keeps its reservations in `local_slots`, which only it reads; a reclaimer sends a signal
-- to all threads, whose handler (`trcrashhandler` of recovery_manager.h) publishes them in `slots`,
-- and then scans `slots`. Objects are addresses, 0 is NULL; `unsigned int` wraps at 2^32.
-- Compiled without DEAMORTIZE_FREE_CALLS. `none` is an assertion that fails.
pub mod Empty
pub mod Signals
pub mod Publish
pub mod Retire
pub mod Conserve
use pop_setbench.Base.{
  ℕ, zero, suc, ◌+◌, ◌-◌, ◌*◌, ◌/◌, ◌%◌, ◌^◌, Bool, true, false, ◌&&◌, not, Option, none, some,
  List, [], ◌∷◌, ◌++◌, length, ltb, leb, ◌==◌, if◌then◌else◌, load, update, u64_mod,
}
use pop_setbench.Reclaim.Sweep.{Swept}
use pop_setbench.Reclaim.Slots.{copy, conflict, read_loop}

-- MAX_RETIREBAG_CAPACITY_POW2
abbrev pub max_retirebag_capacity : ℕ
max_retirebag_capacity = 24576

abbrev pub u32_mod : ℕ
u32_mod = 2 ^ 32

-- The fields of the class, and of `threadData[tid]` as functions of `tid`. `pool` records, for each
-- thread, the objects that it has handed to `pool->add`, in order.
pub record State : Type 0 where
  pub num_process : ℕ
  pub empty_freq : ℕ
  pub slots_per_thread : ℕ
  pub slots : ℕ → ℕ
  pub cntrs : ℕ → ℕ
  pub retired : ℕ → List ℕ
  pub pool : ℕ → List ℕ
  pub bag_capacity_threshold : ℕ → ℕ
  pub announced_ts : ℕ → ℕ
  pub saved_ts : ℕ → ℕ → ℕ
  pub my_publishing_ts : ℕ → ℕ
  pub my_scanned_ts : ℕ → ℕ → ℕ
  pub local_slots : ℕ → ℕ → ℕ
  pub first_lo_entry_flag : ℕ → Bool
  pub num_retires_since_lo_watermark : ℕ → ℕ
  pub lo_path_reclaim_attempt_freq : ℕ → ℕ
  pub retire_bag_size_when_entered_lo_wm : ℕ → ℕ

-- The constructor, followed by `initThread` of every thread; `long_running` is the compile-time
-- flag LONG_RUNNING_EXP.
unfoldable pub create : Bool → ℕ → State
create long_running num_processes =
    let freq = if long_running then 2048 else max_retirebag_capacity in
    record {
      num_process = num_processes;
      empty_freq = freq;
      slots_per_thread = 3;
      slots = λ _. 0;
      cntrs = λ _. 0;
      retired = λ _. [];
      pool = λ _. [];
      bag_capacity_threshold = λ _. freq;
      announced_ts = λ _. 0;
      saved_ts = λ _ _. 0;
      my_publishing_ts = λ _. 0;
      my_scanned_ts = λ _ _. 0;
      local_slots = λ _ _. 0;
      first_lo_entry_flag = λ _. true;
      num_retires_since_lo_watermark = λ _. 0;
      lo_path_reclaim_attempt_freq = λ _. max_retirebag_capacity / 3;
      retire_bag_size_when_entered_lo_wm = λ _. 0;
    }

pub end_op : ℕ → State → State
end_op tid s = record s {
  local_slots = update s.local_slots tid (copy s.slots_per_thread 0 (λ _. 0) (s.local_slots tid));
}

-- `reserve(ptr, slot, tid)`
pub reserve : ℕ → ℕ → ℕ → State → State
reserve ptr slot tid s = record s {
  local_slots = update s.local_slots tid (update (s.local_slots tid) slot ptr);
}

-- `read`, on fuel, with the values that the loads of `obj` return.
pub read : ℕ → ℕ → ℕ → (ℕ → ℕ) → State → Option (ℕ × State)
read fuel tid idx loads s = read_loop (λ ptr. reserve ptr idx tid) fuel loads 0 s

pub publish_reservations : ℕ → State → State
publish_reservations tid s = record s {
  slots = copy s.slots_per_thread (tid * s.slots_per_thread) (s.local_slots tid) s.slots;
  my_publishing_ts = update s.my_publishing_ts tid ((s.my_publishing_ts tid + 1) % u32_mod);
}

-- What becomes of the signal to a thread: `pthread_kill` fails; it succeeds and the handler has
-- run when the caller scans the slots; it succeeds and the handler has not run by then.
pub data Delivery : Type 0 where
  failed handled pending : Delivery

abbrev pub deliver : Delivery → ℕ → State → Option State
deliver failed other s = none
deliver handled other s = some (publish_reservations other s)
deliver pending other s = some s

-- The loop of `requestAllThreadsToRestart` over the first `n` threads.
pub signal_loop : ℕ → (ℕ → Delivery) → ℕ → State → Option State
signal_loop zero signals tid s = some s
signal_loop (suc n) signals tid s = elim (signal_loop n signals tid s) [
  | none ↦ none
  | some t ↦ if tid == n then some t else deliver (signals n) n t
]

pub request_all_threads_to_restart : (ℕ → Delivery) → ℕ → State → Option State
request_all_threads_to_restart signals tid s =
    signal_loop s.num_process signals tid (publish_reservations tid s)

-- rand() % 11 chooses 1% or a multiple of 5% of the capacity, rounded down.
pub set_lo_wm_meta_data : ℕ → ℕ → State → State
set_lo_wm_meta_data rand tid s =
    let rand_val = rand % 11 in
    record s {
      first_lo_entry_flag = update s.first_lo_entry_flag tid false;
      lo_path_reclaim_attempt_freq = update s.lo_path_reclaim_attempt_freq tid (
          if rand_val == 0
          then max_retirebag_capacity / 100
          else rand_val * 5 * max_retirebag_capacity / 100);
      saved_ts = update s.saved_ts tid (copy s.num_process 0 s.announced_ts (s.saved_ts tid));
    }

pub reset_lo_wm_meta_data : ℕ → State → State
reset_lo_wm_meta_data tid s = record s {
  first_lo_entry_flag = update s.first_lo_entry_flag tid true;
  num_retires_since_lo_watermark = update s.num_retires_since_lo_watermark tid 0;
  retire_bag_size_when_entered_lo_wm = update s.retire_bag_size_when_entered_lo_wm tid 0;
}

pub is_past_lo_watermark : ℕ → ℕ → State → Bool
is_past_lo_watermark tid size s =
    ltb (s.bag_capacity_threshold tid / 2) size
    && (s.num_retires_since_lo_watermark tid % s.lo_path_reclaim_attempt_freq tid == 0)

pub is_out_of_patience : ℕ → State → Bool
is_out_of_patience size s = leb s.empty_freq size

-- The loop of `empty`, with `reclaimed_so_far` objects visited and the test that breaks it off.
pub empty_loop : (ℕ → Bool) → List ℕ → ℕ → List ℕ → Swept ℕ
empty_loop stop scanned reclaimed_so_far [] = record { kept = []; freed = [] }
empty_loop stop scanned reclaimed_so_far (ptr ∷ trash) =
    let rest = empty_loop stop scanned (reclaimed_so_far + 1) trash in
    if stop reclaimed_so_far
    then record { kept = ptr ∷ trash; freed = [] }
    else if conflict scanned ptr
    then record { kept = ptr ∷ rest.kept; freed = rest.freed }
    else record { kept = rest.kept; freed = ptr ∷ rest.freed }

-- On the path of the low watermark the loop stops at the size that the bag had when the thread
-- entered it; the subtraction of 1 wraps.
abbrev pub stops : ℕ → State → ℕ → Bool
stops tid s reclaimed_so_far =
    not (s.first_lo_entry_flag tid)
    && ltb ((s.retire_bag_size_when_entered_lo_wm tid + u32_mod - 1) % u32_mod) reclaimed_so_far

pub empty : ℕ → State → State
empty tid s =
    let temp_local_slots = load (s.num_process * s.slots_per_thread) s.slots in
    let swept = empty_loop (stops tid s) temp_local_slots 0 (s.retired tid) in
    record s {
      retired = update s.retired tid swept.kept;
      pool = update s.pool tid (s.pool tid ++ swept.freed);
    }

-- "ensure all threads published": the loop over the first `n` threads, which counts the threads
-- whose publishing is not seen, and asserts that they are fewer than 3 * num_process.
pub check_loop : ℕ → ℕ → State → Option ℕ
check_loop zero tid s = some 0
check_loop (suc n) tid s = elim (check_loop n tid s) [
  | none ↦ none
  | some assert_count ↦
      if tid == n
      then some assert_count
      else if s.my_scanned_ts tid n == s.my_publishing_ts n
      then if ltb (assert_count + 1) (3 * s.num_process) then some (assert_count + 1) else none
      else some assert_count
]

pub announce : ℕ → State → State
announce tid s = record s {
  announced_ts = update s.announced_ts tid ((s.announced_ts tid + 1) % u32_mod);
}

pub scan_publishing : ℕ → State → State
scan_publishing tid s = record s {
  my_scanned_ts =
      update s.my_scanned_ts tid (copy s.num_process 0 s.my_publishing_ts (s.my_scanned_ts tid));
}

-- The branch of `retire` above the high watermark: behind the signals ...
pub hi_wm_scan : ℕ → State → Option State
hi_wm_scan tid s = elim (check_loop s.num_process tid s) [
  | none ↦ none
  | some count ↦ some (empty tid s)
]

-- ... and from its start.
pub hi_wm : (ℕ → Delivery) → ℕ → State → Option State
hi_wm signals tid s =
    let ready = announce tid (scan_publishing tid (reset_lo_wm_meta_data tid s)) in
    elim (request_all_threads_to_restart signals tid ready) [
      | none ↦ none
      | some t ↦ hi_wm_scan tid (announce tid t)
    ]

-- Has some of the first `n` threads announced two steps more than was saved?
pub saw_signals : ℕ → ℕ → State → Bool
saw_signals zero tid s = false
saw_signals (suc n) tid s =
    if saw_signals n tid s then true else leb ((s.saved_ts tid n + 2) % u32_mod) (s.announced_ts n)

-- `setLoWmMetaData` and the size of the bag, on the first call above the low watermark.
pub enter_lo_wm : ℕ → ℕ → State → State
enter_lo_wm rand tid s =
    let t = set_lo_wm_meta_data rand tid s in
    if s.first_lo_entry_flag tid
    then record t {
      retire_bag_size_when_entered_lo_wm =
          update s.retire_bag_size_when_entered_lo_wm tid (length (s.retired tid));
    }
    else s

-- The branch above the low watermark.
pub lo_wm : ℕ → ℕ → State → State
lo_wm rand tid s =
    let entered = enter_lo_wm rand tid s in
    if saw_signals s.num_process tid entered
    then reset_lo_wm_meta_data tid (empty tid entered)
    else entered

pub finish : ℕ → State → State
finish tid s = record s {
  num_retires_since_lo_watermark =
      if s.first_lo_entry_flag tid
      then s.num_retires_since_lo_watermark
      else update s.num_retires_since_lo_watermark tid
          ((s.num_retires_since_lo_watermark tid + 1) % u32_mod);
  cntrs = update s.cntrs tid ((s.cntrs tid + 1) % u64_mod);
}

unfoldable pub push_retired : ℕ → ℕ → State → State
push_retired tid obj s = record s { retired = update s.retired tid (s.retired tid ++ obj ∷ []) }

-- The tests on the size of the bag.
pub reclaim : ℕ → (ℕ → Delivery) → ℕ → State → Option State
reclaim rand signals tid s =
    let size = length (s.retired tid) in
    if is_out_of_patience size s
    then hi_wm signals tid s
    else if is_past_lo_watermark tid size s
    then some (lo_wm rand tid s)
    else some s

-- `rand` is what rand() returns, if it is called.
pub retire : ℕ → (ℕ → Delivery) → ℕ → ℕ → State → Option State
retire rand signals tid obj s =
    if obj == 0 then some s else elim (reclaim rand signals tid (push_retired tid obj s)) [
      | none ↦ none
      | some t ↦ some (finish tid t)
    ]

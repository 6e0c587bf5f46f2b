-- ===== src/Ds/LazyList.antt =====
-- ds/herlihy_lazylist/lazylist_impl.h, in the branch for reclaimers without crash recovery: the lazy
-- list, with the locks of common/locks_impl.h. Each load, store and compare-and-swap of a shared
-- location is a step of its own, and the steps of any number of threads interleave; a thread's local
-- variables stand in its program counter. The constants and what became of an address are those of
-- the Harris-Michael list. Keys and values are written before a node is linked, and are read along
-- with the location that leads to it; so are the writes to a new node done in the step that links it.
pub mod Words
pub mod Change
pub mod Threads
pub mod Act
pub mod Runs
pub mod Points
pub mod OwnSteps
pub mod Hindsight
pub mod Moments
pub mod Linear
pub mod Locks
pub mod Pace
pub mod Map
use pop_setbench.Base.{
  ℕ, suc, Bool, true, false, not, List, [], ◌∷◌, ltb, ◌==◌, if◌then◌else◌, update,
}
use pop_setbench.Ds.HmList.{Config, Status, unused, in_list}

-- The location 0 is the member `head`, and a location n is the node at n. `lock` has 1 more than the
-- thread that holds the lock where the source has 1; `status` is not in the source, and `retired`
-- records the calls of `recmgr->retire`, the last one first.
pub record Memory : Type 0 where
  pub next : ℕ → ℕ
  pub marked : ℕ → Bool
  pub key : ℕ → ℕ
  pub val : ℕ → ℕ
  pub lock : ℕ → ℕ
  pub status : ℕ → Status
  pub retired : List ℕ

-- The two operations that change the list.
pub data Update : Type 0 where
  erase : Update
  insert : (value : ℕ) → Update

-- What follows when the locks are given back: another round, or `return`.
pub data Outcome : Type 0 where
  again : Outcome
  gives : ℕ → Outcome

-- The points of doInsert and erase from the first acquireLock on: the test and the swap of each lock,
-- the three loads of validateLinks, the store of doInsert, the load and the two stores of erase, and
-- releaseLock.
pub data Stage : Type 0 where
  test_pred swap_pred test_curr swap_curr see_pred see_curr see_next linking copying : Stage
  marking cutting : (c_nxt : ℕ) → Stage
  free_curr free_pred : Outcome → Stage

-- Where a thread stands. In contains: at its start, in its loop, and before it reads `curr->marked`.
-- In the two others: at the start of the outer loop, in the inner one, and from the locks on.
pub data Pc : Type 0 where
  idle : Pc
  answered : Bool → Pc
  returned : ℕ → Pc
  looking_up : (k : ℕ) → Pc
  scanning : (k curr : ℕ) → Pc
  reading : (k curr : ℕ) → Pc
  starting : (u : Update) (k : ℕ) → Pc
  walking : (u : Update) (k pred curr : ℕ) → Pc
  critical : (u : Update) (k pred curr : ℕ) (st : Stage) → Pc

-- `active` says for each thread whether it is between recmgr->startOp and recmgr->endOp.
pub record State : Type 0 where
  pub mem : Memory
  pub pc : ℕ → Pc
  pub active : ℕ → Bool

abbrev pub goes : ℕ → Pc → State → State
goes tid p s = record s { pc = update s.pc tid p }

abbrev pub start_op : ℕ → State → State
start_op tid s = record s { active = update s.active tid true }

-- `recmgr->endOp(tid)`, and where the thread goes then.
abbrev pub leaves : ℕ → Pc → State → State
leaves tid p s = record s { pc = update s.pc tid p; active = update s.active tid false }

abbrev pub set_lock : (n w : ℕ) → Memory → Memory
set_lock n w m = record m { lock = update m.lock n w }

-- new_node at the address `a`, and `pred->next = newnode`.
unfoldable pub joins : (pred curr a k value : ℕ) → Memory → Memory
joins pred curr a k value m = record m {
  next = update (update m.next a curr) pred a;
  marked = update m.marked a false;
  key = update m.key a k;
  val = update m.val a value;
  lock = update m.lock a 0;
  status = update m.status a in_list;
}

-- `curr->marked = 1`
unfoldable pub marks : (curr : ℕ) → Memory → Memory
marks curr m = record m { marked = update m.marked curr true }

-- `pred->next = c_nxt`, and the call of retire behind it.
unfoldable pub cuts : (pred curr c_nxt : ℕ) → Memory → Memory
cuts pred curr c_nxt m = record m { next = update m.next pred c_nxt; retired = curr ∷ m.retired }

-- The first releaseLock of an operation: erase has locked `curr` too.
abbrev pub release : Update → Outcome → Stage
release erase o = free_curr o
release (insert value) o = free_pred o

-- Behind acquireLock(&(pred->lock)).
abbrev pub behind_pred : Update → Stage
behind_pred erase = test_curr
behind_pred (insert value) = see_pred

abbrev pub finish : Update → (k : ℕ) → Outcome → Pc
finish u k again = starting u k
finish u k (gives v) = returned v

module _ (cf : Config) (tid : ℕ) where
  -- Behind the inner loop.
  unfoldable pub arrives : Update → (k pred curr : ℕ) → State → State
  arrives erase k pred curr s =
      if s.mem.key curr == k
      then goes tid (critical erase k pred curr test_pred) s
      else leaves tid (returned cf.no_value) s
  arrives (insert value) k pred curr s = goes tid (critical (insert value) k pred curr test_pred) s

  -- Where validateLinks has answered true.
  abbrev pub accepted : Update → (k curr : ℕ) → Memory → Stage
  accepted erase k curr m = copying
  accepted (insert value) k curr m =
      if m.key curr == k then free_pred (gives (m.val curr)) else linking

  -- The store of doInsert; erase has none at this point.
  abbrev pub store : Update → (k pred curr a : ℕ) → Memory → Memory
  store erase k pred curr a m = m
  store (insert value) k pred curr a m = joins pred curr a k value m

  -- One step from the locks on; `a` is what the allocator returns.
  unfoldable pub work : (a : ℕ) → Update → (k pred curr : ℕ) → Stage → State → State
  work a u k pred curr test_pred s =
      if s.mem.lock pred == 0 then goes tid (critical u k pred curr swap_pred) s else s
  work a u k pred curr swap_pred s =
      if s.mem.lock pred == 0
      then goes tid (critical u k pred curr (behind_pred u))
          (record s { mem = set_lock pred (suc tid) s.mem })
      else goes tid (critical u k pred curr test_pred) s
  work a u k pred curr test_curr s =
      if s.mem.lock curr == 0 then goes tid (critical u k pred curr swap_curr) s else s
  work a u k pred curr swap_curr s =
      if s.mem.lock curr == 0
      then goes tid (critical u k pred curr see_pred)
          (record s { mem = set_lock curr (suc tid) s.mem })
      else goes tid (critical u k pred curr test_curr) s
  work a u k pred curr see_pred s =
      if s.mem.marked pred
      then goes tid (critical u k pred curr (release u again)) s
      else goes tid (critical u k pred curr see_curr) s
  work a u k pred curr see_curr s =
      if s.mem.marked curr
      then goes tid (critical u k pred curr (release u again)) s
      else goes tid (critical u k pred curr see_next) s
  work a u k pred curr see_next s =
      if s.mem.next pred == curr
      then goes tid (critical u k pred curr (accepted u k curr s.mem)) s
      else goes tid (critical u k pred curr (release u again)) s
  work a u k pred curr linking s =
      goes tid (critical u k pred curr (free_pred (gives cf.no_value)))
        (record s { mem = store u k pred curr a s.mem })
  work a u k pred curr copying s = goes tid (critical u k pred curr (marking (s.mem.next curr))) s
  work a u k pred curr (marking c_nxt) s =
      goes tid (critical u k pred curr (cutting c_nxt)) (record s { mem = marks curr s.mem })
  work a u k pred curr (cutting c_nxt) s =
      goes tid (critical u k pred curr (free_curr (gives (s.mem.val curr))))
        (record s { mem = cuts pred curr c_nxt s.mem })
  work a u k pred curr (free_curr o) s =
      goes tid (critical u k pred curr (free_pred o)) (record s { mem = set_lock curr 0 s.mem })
  work a u k pred curr (free_pred o) s =
      leaves tid (finish u k o) (record s { mem = set_lock pred 0 s.mem })

  -- One step of a thread that stands at a point.
  unfoldable pub act : (a : ℕ) → Pc → State → State
  act a idle s = s
  act a (answered b) s = s
  act a (returned v) s = s
  act a (looking_up k) s = goes tid (scanning k (s.mem.next 0)) (start_op tid s)
  act a (scanning k curr) s =
      if ltb (s.mem.key curr) k
      then goes tid (scanning k (s.mem.next curr)) s
      else if s.mem.key curr == k
      then goes tid (reading k curr) s
      else leaves tid (answered false) s
  act a (reading k curr) s =
      if s.mem.marked curr
      then leaves tid (answered false) s
      else leaves tid (answered (not (s.mem.val curr == cf.no_value))) s
  act a (starting u k) s =
      goes tid (walking u k (s.mem.next 0) (s.mem.next (s.mem.next 0))) (start_op tid s)
  act a (walking u k pred curr) s =
      if ltb (s.mem.key curr) k
      then goes tid (walking u k curr (s.mem.next curr)) s
      else arrives u k pred curr s
  act a (critical u k pred curr st) s = work a u k pred curr st s

  unfoldable pub advance : (a : ℕ) → State → State
  unfolding act
  advance a s = act a (s.pc tid) s

-- The calls of contains, erase and insertIfAbsent.
unfoldable pub call_contains : (tid k : ℕ) → State → State
call_contains tid k s = goes tid (looking_up k) s

unfoldable pub call_update : (tid : ℕ) → Update → (k : ℕ) → State → State
call_update tid u k s = goes tid (starting u k) s

-- The constructor: the node `max`, and a head node in front of it at the address `head`.
unfoldable pub create : Config → ℕ → State
create cf head = record {
  mem = record {
    next = update (update (λ _. 0) head cf.tail) 0 head;
    marked = λ _. false;
    key = update (update (λ _. 0) cf.tail cf.key_max) head cf.key_min;
    val = λ _. 0;
    lock = λ _. 0;
    status = update (update (update (λ _. unused) cf.tail in_list) head in_list) 0 in_list;
    retired = [];
  };
  pc = λ _. idle;
  active = λ _. false;
}

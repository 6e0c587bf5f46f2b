-- ===== src/Ds/HmList.antt =====
-- ds/hmlist/hmlist_impl.h: the Harris-Michael list. Each atomic load, store and compare-and-swap is
-- a step of its own, and the steps of any number of threads interleave; a thread's local variables
-- stand in its program counter. Nodes are even addresses, 0 is NULL, and bit 0 of a word is the mark.
-- Memory that is handed back is not given out again, which is what a reclaimer is for.
pub mod Paths
pub mod Shape
pub mod Evolve
pub mod Threads
pub mod Invariant
pub mod Act
pub mod Runs
pub mod Safety
pub mod Contents
pub mod Effects
pub mod Spec
pub mod Points
pub mod OwnSteps
pub mod Keeps
pub mod Linear
pub mod Refines
pub mod Duty
pub mod Marks
pub mod Quiet
pub mod Sums
pub mod Protected
pub mod Solo
use pop_setbench.Base.{
  ℕ, zero, suc, ◌+◌, ◌*◌, ◌/◌, ◌%◌, Bool, true, false, List, [], ◌∷◌, leb, ◌==◌, if◌then◌else◌,
  update,
}

-- getMk, getPtr, mixPtrMk and setMk
abbrev pub get_mk : ℕ → Bool
get_mk word = word % 2 == 1

abbrev pub get_ptr : ℕ → ℕ
get_ptr word = word / 2 * 2

abbrev pub mix_ptr_mk : ℕ → Bool → ℕ
mix_ptr_mk node mk = if mk then node / 2 * 2 + 1 else node

abbrev pub set_mk : ℕ → ℕ
set_mk node = mix_ptr_mk node true

-- The constants of a list, and the address of its tail node.
pub record Config : Type 0 where
  pub key_min : ℕ
  pub key_max : ℕ
  pub no_value : ℕ
  pub tail : ℕ

-- What became of an address: not given out, allocated by a thread that has not linked it, linked into
-- the list at some time, or handed back without having been linked.
pub data Status : Type 0 where
  unused in_list dropped : Status
  owned : ℕ → Status

-- The location 0 is `&head`, and a location n is `&n->next`; `status` is not in the source, and
-- `retired` records the calls of `recmgr->retire`, the last one first.
pub record Memory : Type 0 where
  pub link : ℕ → ℕ
  pub key : ℕ → ℕ
  pub val : ℕ → ℕ
  pub status : ℕ → Status
  pub retired : List ℕ

-- Who has called list_search: `cleanup` is the second call of erase, whose result is not used.
pub data Caller : Type 0 where
  contains erase : Caller
  insert : (value new_node : ℕ) → Caller
  cleanup : (res : ℕ) → Caller

-- Where a thread stands, and its local variables there. In list_search: at the start of the outer
-- loop, at the head of the inner loop, behind the first load of `curr->next`, behind the second one,
-- and before the compare-and-swap that unlinks. Then doInsert before its store and before its
-- compare-and-swap, doInsert behind endOp when it has found its key, before it reads `curr->val`,
-- and erase before its two.
pub data Pc : Type 0 where
  idle : Pc
  answered : Bool → Pc
  returned : ℕ → Pc
  seeking : (c : Caller) (k : ℕ) → Pc
  at_node : (c : Caller) (k prev curr : ℕ) → Pc
  loaded : (c : Caller) (k prev curr nxt : ℕ) (cmark : Bool) → Pc
  checked : (c : Caller) (k prev curr nxt : ℕ) (cmark : Bool) → Pc
  unlinking : (c : Caller) (k prev curr nxt : ℕ) → Pc
  storing : (k value new_node prev curr : ℕ) → Pc
  linking : (k value new_node prev curr : ℕ) → Pc
  reading : (curr : ℕ) → Pc
  marking : (k prev curr next : ℕ) → Pc
  cutting : (k prev curr next res : ℕ) → Pc

-- `active` says for each thread whether it is between recmgr->startOp and recmgr->endOp.
pub record State : Type 0 where
  pub mem : Memory
  pub pc : ℕ → Pc
  pub active : ℕ → Bool

abbrev pub goes : ℕ → Pc → State → State
goes tid p s = record s { pc = update s.pc tid p }

abbrev pub start_op : ℕ → State → State
start_op tid s = record s { active = update s.active tid true }

abbrev pub end_op : ℕ → State → State
end_op tid s = record s { active = update s.active tid false }

-- `recmgr->endOp(tid); return ...`
abbrev pub leaves : ℕ → Pc → State → State
leaves tid p s = goes tid p (end_op tid s)

abbrev pub writes : ℕ → ℕ → Memory → Memory
writes n word m = record m { link = update m.link n word }

-- The store of new_node, with NULL in `next`, at the address `a` that the allocator returns.
unfoldable pub new_node : (tid a k value : ℕ) → Memory → Memory
new_node tid a k value m = record m {
  link = update m.link a 0;
  key = update m.key a k;
  val = update m.val a value;
  status = update m.status a (owned tid);
}

-- The swap of `prev` from `curr` to `nxt`, and the call of retire behind it.
unfoldable pub unlinks : (prev curr nxt : ℕ) → Memory → Memory
unlinks prev curr nxt m = record m { link = update m.link prev nxt; retired = curr ∷ m.retired }

-- The swap that links a new node.
unfoldable pub links : (prev new_node : ℕ) → Memory → Memory
links prev new_node m = record m {
  link = update m.link prev new_node;
  status = update m.status new_node in_list;
}

unfoldable pub drops : ℕ → Memory → Memory
drops new_node m = record m { status = update m.status new_node dropped }

module _ (cf : Config) where
  -- What the caller does with the result of list_search.
  unfoldable pub respond : ℕ → Caller → (k : ℕ) → Bool → (prev curr nxt : ℕ) → State → State
  respond tid contains k found prev curr nxt s = leaves tid (answered found) s
  respond tid erase k found prev curr nxt s =
      if found then goes tid (marking k prev curr nxt) s else leaves tid (returned cf.no_value) s
  respond tid (insert value new) k found prev curr nxt s =
      if found
      then leaves tid (reading curr) (record s { mem = drops new s.mem })
      else goes tid (storing k value new prev curr) s
  respond tid (cleanup res) k found prev curr nxt s = leaves tid (returned res) s

  -- One step of a thread that stands at `p`.
  unfoldable pub act : ℕ → Pc → State → State
  act tid idle s = s
  act tid (answered b) s = s
  act tid (returned v) s = s
  act tid (seeking c k) s = goes tid (at_node c k 0 (s.mem.link 0)) s
  act tid (at_node c k prev curr) s =
      if curr == 0
      then respond tid c k false prev curr 0 s
      else goes tid (loaded c k prev curr (get_ptr (s.mem.link curr)) (get_mk (s.mem.link curr))) s
  act tid (loaded c k prev curr nxt cmark) s =
      if mix_ptr_mk nxt cmark == s.mem.link curr
      then goes tid (checked c k prev curr nxt cmark) s
      else goes tid (seeking c k) s
  act tid (checked c k prev curr nxt cmark) s =
      if s.mem.link prev == curr
      then (if cmark
          then goes tid (unlinking c k prev curr nxt) s
          else if leb k (s.mem.key curr)
          then respond tid c k (s.mem.key curr == k) prev curr nxt s
          else goes tid (at_node c k curr nxt) s)
      else goes tid (seeking c k) s
  act tid (unlinking c k prev curr nxt) s =
      if s.mem.link prev == curr
      then goes tid (at_node c k prev nxt) (record s { mem = unlinks prev curr nxt s.mem })
      else goes tid (seeking c k) s
  act tid (storing k value new prev curr) s =
      goes tid (linking k value new prev curr) (record s { mem = writes new curr s.mem })
  act tid (linking k value new prev curr) s =
      if s.mem.link prev == curr
      then leaves tid (returned cf.no_value) (record s { mem = links prev new s.mem })
      else goes tid (seeking (insert value new) k) s
  act tid (reading curr) s = goes tid (returned (s.mem.val curr)) s
  act tid (marking k prev curr next) s =
      if s.mem.link curr == next
      then goes tid (cutting k prev curr next (s.mem.val curr))
          (record s { mem = writes curr (set_mk next) s.mem })
      else leaves tid (seeking erase k) s
  act tid (cutting k prev curr next res) s =
      if s.mem.link prev == curr
      then leaves tid (returned res) (record s { mem = unlinks prev curr next s.mem })
      else goes tid (seeking (cleanup res) k) s

  unfoldable pub advance : ℕ → State → State
  unfolding act
  advance tid s = act tid (s.pc tid) s

-- The calls of contains, insertIfAbsent and erase; `a` is what the allocator returns.
unfoldable pub call_contains : (tid k : ℕ) → State → State
call_contains tid k s = goes tid (seeking contains k) (start_op tid s)

unfoldable pub call_erase : (tid k : ℕ) → State → State
call_erase tid k s = goes tid (seeking erase k) (start_op tid s)

unfoldable pub call_insert : (tid k value a : ℕ) → State → State
call_insert tid k value a s =
    goes tid (seeking (insert value a) k)
      (start_op tid (record s { mem = new_node tid a k value s.mem }))

-- The constructor: the tail, and a head node in front of it at the address `head`.
unfoldable pub create : Config → ℕ → State
create cf head = record {
  mem = record {
    link = update (update (λ _. 0) head cf.tail) 0 head;
    key = update (update (λ _. 0) cf.tail cf.key_max) head cf.key_min;
    val = λ _. 0;
    status = update (update (update (λ _. unused) cf.tail in_list) head in_list) 0 in_list;
    retired = [];
  };
  pc = λ _. idle;
  active = λ _. false;
}

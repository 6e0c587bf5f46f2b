-- ===== src/Tests/ArrayList.antt =====
-- Runs of common/recordmgr/arraylist.h.
use pop_setbench.Base.{ℕ, ◌+◌, ◌==◌, ◌≡◌, some, if◌then◌else◌}
use pop_setbench.Blocks.Cells.{hit}
use pop_setbench.Blocks.ArrayList.{ArrayList, erase_obj, copies, erase_obj-copies}

abbrev three : ArrayList
three = record { capacity = 4; size = 3; cells = λ i. 100 + i }

erase_obj-copies_example :
    (after : ArrayList) × (erase_obj 101 three ≡ some after)
    × ((p : ℕ) → copies p three ≡ copies p after + (if copies 101 three == 0 then 0 else hit p 101))
erase_obj-copies_example = erase_obj-copies 101 three

-- ===== src/Pipeline/Comparer.antt =====
-- archive/notifier/src/comparer.rs: which number the executor gets next.
use sub_archive.Prelude.{List, [], ◌∷◌, ◌+◌, ltb, if◌then◌else◌}
use sub_archive.Chain.{BlockNumber}

-- The number that `compare` sends to the executor, given the best number of the backend: the next
-- one, or, where there is none yet, the same again after three seconds. The wait blocks the task.
unfoldable pub compare : BlockNumber → BlockNumber → BlockNumber
compare block_number best_num = if ltb block_number best_num then block_number + 1 else block_number

-- The loop over the channel `comparer_recv`: what it sends, given what it will receive before it closes,
-- each with the best number of the backend at that turn.
unfoldable run : List (BlockNumber × BlockNumber) → List BlockNumber
unfolding compare
run [] = []
run ((block_number, best_num) ∷ rest) = compare block_number best_num ∷ run rest

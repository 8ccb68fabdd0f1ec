-- ===== src/Pipeline/Archived.antt =====
-- What the tasks come to together: the blocks of the chain in the database.
use sub_archive.Prelude.{◌+◌, ◌≤◌, [], ◌∷◌, List, true, ◌≡◌, ◌≢◌, arith, inl, inr, length}
use sub_archive.Prelude.Int.{int_eq}
use sub_archive.Prelude.Assoc.{contains_key}
use sub_archive.Chain.{BlockNumber}
use sub_archive.Notifier.Task.{Notifier}
use sub_archive.Pipeline.Accounting.{executed_blocks_accounted}
use sub_archive.Pipeline.Turns.{Always}
use sub_archive.Pipeline.Progress.{executor_reaches}
use sub_archive.Pipeline.System.{System, init, Reach, here, next}

Reach-trans : {J : Type 0} {s t u : System J} → Reach s t → Reach t u → Reach s u
Reach-trans r here = r
Reach-trans r (next r' st) = next (Reach-trans r r') st

-- Let the executor have been through `from` last, and let the backend's best number be `k` or more from then
-- on, where `k` is from the first number on and not 0. However the tasks go on, once the executor has taken
-- `k + 1 - from` more turns and the archiver has taken what was sent to it and nothing was
-- lost, the database has block `k`.
pub block_archived :
    {J : Type 0} {start best : BlockNumber} {notifier : Notifier J} {s t : System J}
    (from k : BlockNumber) (older : List BlockNumber)
    → Reach (init start best notifier) s
    → s.done ≡ from ∷ older
    → start ≤ k
    → k ≢ 0
    → (run : Reach s t) → Always (λ u. k ≤ u.best) run
    → length s.done + k + 1 ≤ from + length t.done
    → t.archiver_queue ≡ []
    → t.lost ≡ []
    → contains_key (t.notifier.db.bind k) t.notifier.db.tables.blocks ≡ true
block_archived {s = s} {t = t} from k older r d lo positive run has turns drained none_lost =
    let been = executor_reaches from k older r d lo run has turns in
    elim (executed_blocks_accounted k (Reach-trans r run) been positive) [
      | inl (waiting, _) ↦ absurd (ground (arith, waiting, drained))
      | inr (inl stored) ↦ stored
      | inr (inr lost) ↦ absurd (ground (arith, lost, none_lost))
    ]

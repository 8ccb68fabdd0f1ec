-- ===== src/Service/NetworkLaws.antt =====
-- What the network hears of imported and of finalized blocks.
use sub_archive.Prelude.{
  List, [], ◌∷◌, ◌++◌, Option, none, some, Bool, if◌then◌else◌, map, ◌≡◌, ◌≢◌, refl, arith, ◌∙◌,
  sym,
}
use sub_archive.Chain.{Hash, BlockNumber, Header}
use sub_archive.Client.Notifies.{BlockImportNotification, FinalityNotification}
use sub_archive.Service.Network.{
  Event, imported_block, finalized_blocks, network_polled, status_sink, state_sink, Call,
  announce_block, new_best_block_imported, on_block_finalized, status, network_state, last_ready,
  on_imported, build_network_future,
}

-- What the client reports of finalized blocks before its import stream ends.
abbrev pub finalized_reports : List Event → List FinalityNotification
finalized_reports [] = []
finalized_reports (imported_block none ∷ rest) = []
finalized_reports (imported_block (some n) ∷ rest) = finalized_reports rest
finalized_reports (finalized_blocks item ready ∷ rest) = (item ∷ ready) ++ finalized_reports rest
finalized_reports (network_polled ∷ rest) = finalized_reports rest
finalized_reports (status_sink ∷ rest) = finalized_reports rest
finalized_reports (state_sink ∷ rest) = finalized_reports rest

-- What it reports of imported blocks before that.
abbrev pub import_reports : List Event → List BlockImportNotification
import_reports [] = []
import_reports (imported_block none ∷ rest) = []
import_reports (imported_block (some n) ∷ rest) = n ∷ import_reports rest
import_reports (finalized_blocks item ready ∷ rest) = import_reports rest
import_reports (network_polled ∷ rest) = import_reports rest
import_reports (status_sink ∷ rest) = import_reports rest
import_reports (state_sink ∷ rest) = import_reports rest

-- The finalized blocks among the calls, the announced ones, and those named as the new best.
abbrev pub told_finalized : List Call → List (Hash × Header)
told_finalized [] = []
told_finalized (on_block_finalized h header ∷ rest) = (h, header) ∷ told_finalized rest
told_finalized (announce_block h ∷ rest) = told_finalized rest
told_finalized (new_best_block_imported h n ∷ rest) = told_finalized rest
told_finalized (status ∷ rest) = told_finalized rest
told_finalized (network_state ∷ rest) = told_finalized rest

abbrev pub announced : List Call → List Hash
announced [] = []
announced (announce_block h ∷ rest) = h ∷ announced rest
announced (on_block_finalized h header ∷ rest) = announced rest
announced (new_best_block_imported h n ∷ rest) = announced rest
announced (status ∷ rest) = announced rest
announced (network_state ∷ rest) = announced rest

abbrev pub told_best : List Call → List (Hash × BlockNumber)
told_best [] = []
told_best (new_best_block_imported h n ∷ rest) = (h, n) ∷ told_best rest
told_best (announce_block h ∷ rest) = told_best rest
told_best (on_block_finalized h header ∷ rest) = told_best rest
told_best (status ∷ rest) = told_best rest
told_best (network_state ∷ rest) = told_best rest

abbrev pub new_bests : List BlockImportNotification → List (Hash × BlockNumber)
new_bests [] = []
new_bests (n ∷ rest) =
    if n.is_new_best then (n.block_hash, n.header.number) ∷ new_bests rest else new_bests rest

abbrev pub block_of : FinalityNotification → Hash × Header
block_of n = (n.block_hash, n.header)

-- The first list is the second without some of its entries.
pub data IsSubsequence : List (Hash × Header) → List (Hash × Header) → Type 0 where
  nothing : IsSubsequence [] []
  without :
      {xs ys : List (Hash × Header)} (y : Hash × Header)
      → IsSubsequence xs ys
      → IsSubsequence xs (y ∷ ys)
  with :
      {xs ys : List (Hash × Header)} (y : Hash × Header)
      → IsSubsequence xs ys
      → IsSubsequence (y ∷ xs) (y ∷ ys)

abbrev pub last {ℓ} : {A : Type ℓ} → List A → Option A
last [] = none
last (x ∷ []) = some x
last (x ∷ y ∷ rest) = last (y ∷ rest)

last-ne-none : {A : Type 0} (x : A) (xs : List A) → last (x ∷ xs) ≢ none
last-ne-none x [] e = ground (arith, e)
last-ne-none x (y ∷ rest) e = last-ne-none y rest e

last-cons :
    {A : Type 0} (x : A) (xs ys : List A) → last xs ≡ last ys → last (x ∷ xs) ≡ last (x ∷ ys)
last-cons x [] [] e = refl
last-cons x [] (y ∷ ys) e = absurd (last-ne-none y ys (sym e))
last-cons x (z ∷ xs) [] e = absurd (last-ne-none z xs e)
last-cons x (z ∷ xs) (y ∷ ys) e = e

last-batch :
    (item : FinalityNotification) (ready rest : List FinalityNotification)
    → last (map block_of ((item ∷ ready) ++ rest))
      ≡ last (block_of (last_ready item ready) ∷ map block_of rest)
last-batch item [] rest = refl
last-batch item (next ∷ ready) rest = last-batch next ready rest

batch-IsSubsequence :
    (xs : List (Hash × Header)) (item : FinalityNotification)
    (ready rest : List FinalityNotification)
    → IsSubsequence xs (map block_of rest)
    → IsSubsequence (block_of (last_ready item ready) ∷ xs) (map block_of ((item ∷ ready) ++ rest))
batch-IsSubsequence xs item [] rest i = with (block_of item) i
batch-IsSubsequence xs item (next ∷ ready) rest i =
    without (block_of item) (batch-IsSubsequence xs next ready rest i)

told_finalized-on_imported :
    (announce : Bool) (n : BlockImportNotification) (calls : List Call)
    → told_finalized (on_imported announce n ++ calls) ≡ told_finalized calls
told_finalized-on_imported announce n calls = ground arith

-- However the finalized blocks that the client reports come together, the network is told of some of
-- them, in their order and once each, and of the last one that is reported, last, unless none is
-- reported before the import stream ends.
pub build_network_future-finalized :
    (announce_imported_blocks : Bool) (events : List Event)
    → IsSubsequence
        (told_finalized (build_network_future announce_imported_blocks events))
        (map block_of (finalized_reports events))
      × (last (told_finalized (build_network_future announce_imported_blocks events))
          ≡ last (map block_of (finalized_reports events)))
unfolding build_network_future
build_network_future-finalized a [] = (nothing, refl)
build_network_future-finalized a (imported_block none ∷ rest) = (nothing, refl)
build_network_future-finalized a (imported_block (some n) ∷ rest) =
    rw (told_finalized-on_imported a n (build_network_future a rest))
      (build_network_future-finalized a rest)
build_network_future-finalized a (finalized_blocks item ready ∷ rest) =
    let later = build_network_future-finalized a rest in
    (
      batch-IsSubsequence _ item ready (finalized_reports rest) later.0,
      last-cons (block_of (last_ready item ready)) (told_finalized (build_network_future a rest))
            (map block_of (finalized_reports rest)) later.1
          ∙ sym (last-batch item ready (finalized_reports rest)),
    )
build_network_future-finalized a (network_polled ∷ rest) = build_network_future-finalized a rest
build_network_future-finalized a (status_sink ∷ rest) = build_network_future-finalized a rest
build_network_future-finalized a (state_sink ∷ rest) = build_network_future-finalized a rest

-- The network is told of each imported block that is the new best one, with its number, in order; and,
-- where this is configured, each imported block is announced, in order; until the import stream ends.
pub build_network_future-imported :
    (announce_imported_blocks : Bool) (events : List Event)
    → (told_best (build_network_future announce_imported_blocks events)
        ≡ new_bests (import_reports events))
      × (announced (build_network_future announce_imported_blocks events) ≡ (
          if announce_imported_blocks
          then map (λ (n : BlockImportNotification). n.block_hash) (import_reports events)
          else []))
unfolding build_network_future
build_network_future-imported a [] = ground arith
build_network_future-imported a (imported_block none ∷ rest) = ground arith
build_network_future-imported a (imported_block (some n) ∷ rest) =
    ground (arith, build_network_future-imported a rest)
build_network_future-imported a (finalized_blocks item ready ∷ rest) =
    build_network_future-imported a rest
build_network_future-imported a (network_polled ∷ rest) = build_network_future-imported a rest
build_network_future-imported a (status_sink ∷ rest) = build_network_future-imported a rest
build_network_future-imported a (state_sink ∷ rest) = build_network_future-imported a rest

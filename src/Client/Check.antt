-- ===== src/Client/Check.antt =====
-- `check_block` of client/service/src/client/client.rs.
use sub_archive.Prelude.{Option, none, some, Bool, false, Result, ok, ◌>>=◌, map_err, if◌then◌else◌}
use sub_archive.Chain.{Hash, BlockNumber, ChainError, hash}
use sub_archive.Client.Rules.{LookupResult, not_special, known_bad, expected, lookup}
use sub_archive.Client.Backend.{
  ImportResult, imported, already_in_chain, known_bad as bad_block, unknown_parent, missing_state,
}
use sub_archive.Client.Status.{Client, BlockStatus, block_status}

-- `ConsensusError::ClientImport`
pub data ConsensusError : Type 0 where
  client_import : ChainError → ConsensusError

pub record BlockCheckParams : Type 0 where
  pub block_hash : Hash
  pub number : BlockNumber
  pub parent_hash : Hash
  pub allow_missing_state : Bool
  pub import_existing : Bool

-- What the block's rule refuses; `none` goes on.
abbrev pub refused_by_rule : LookupResult → Option ImportResult
refused_by_rule known_bad = some bad_block
refused_by_rule (expected expected_hash) = some bad_block
refused_by_rule not_special = none

-- What the block's own status decides.
abbrev pub decided_by_status : Bool → BlockStatus → Option ImportResult
decided_by_status import_existing BlockStatus.in_chain_with_state =
    if import_existing then none else some already_in_chain
decided_by_status import_existing BlockStatus.queued =
    if import_existing then none else some already_in_chain
decided_by_status import_existing BlockStatus.in_chain_pruned = some already_in_chain
decided_by_status import_existing BlockStatus.unknown = none
decided_by_status import_existing BlockStatus.known_bad = some bad_block

-- What the parent's status decides.
abbrev pub decided_by_parent : Bool → BlockStatus → Option ImportResult
decided_by_parent allow_missing_state BlockStatus.in_chain_with_state = none
decided_by_parent allow_missing_state BlockStatus.queued = none
decided_by_parent allow_missing_state BlockStatus.unknown = some unknown_parent
decided_by_parent allow_missing_state BlockStatus.in_chain_pruned =
    if allow_missing_state then none else some missing_state
decided_by_parent allow_missing_state BlockStatus.known_bad = some bad_block

-- An early `return Ok(..)`, or what follows.
abbrev or_go_on {ℓ} : {E A : Type ℓ} → Option A → Result E A → Result E A
or_go_on (some a) rest = ok a
or_go_on none rest = rest

unfoldable pub check_block : Client → BlockCheckParams → Result ConsensusError ImportResult
check_block c p = or_go_on (refused_by_rule (lookup c.block_rules p.number p.block_hash)) (do
  status ← map_err client_import (block_status c (hash p.block_hash))
  or_go_on (decided_by_status p.import_existing status) (do
    parent ← map_err client_import (block_status c (hash p.parent_hash))
    or_go_on (decided_by_parent p.allow_missing_state parent) (ok (imported false))))

-- ===== src/Client/Notifies.antt =====
-- client/service/src/notifies.rs: what those who listen to the client are told.
use sub_archive.Prelude.{
  List, [], ◌∷◌, ◌++◌, Option, none, some, Bool, Result, ok, err, Outcome, returned, panicked,
  if◌then◌else◌,
}
use sub_archive.Chain.{Bytes, Hash, Header, hash, ChainError}
use sub_archive.Client.Backend.{Blockchain, BlockOrigin, TreeRoute}
use sub_archive.Client.Operation.{ImportSummary}

-- The sending end of an unbounded channel, with what was sent on it.
pub record Sink (N : Type 0) : Type 0 where
  pub is_closed : Bool
  pub received : List N

pub record FinalityNotification : Type 0 where
  pub block_hash : Hash
  pub header : Header

pub record BlockImportNotification : Type 0 where
  pub block_hash : Hash
  pub origin : BlockOrigin
  pub header : Header
  pub is_new_best : Bool
  pub tree_route : Option TreeRoute

-- `ClientNotifies`, with the calls of `trigger` on its `storage_notifications`.
pub record ClientNotifies : Type 0 where
  pub storage_notifications : List (Hash × Bytes × Bytes)
  pub import_notification_sinks : List (Sink BlockImportNotification)
  pub finality_notification_sinks : List (Sink FinalityNotification)

module _ {N : Type 0} where
  -- `sinks.retain(|sink| !sink.is_closed())`
  unfoldable pub retain_open : List (Sink N) → List (Sink N)
  retain_open [] = []
  retain_open (sink ∷ sinks) =
      let rest = retain_open sinks in if sink.is_closed then rest else sink ∷ rest

  -- `sinks.retain(|sink| sink.unbounded_send(notification.clone()).is_ok())`
  unfoldable pub send_all : N → List (Sink N) → List (Sink N)
  send_all n [] = []
  send_all n (sink ∷ sinks) =
      let rest = send_all n sinks in
      if sink.is_closed then rest else record sink { received = sink.received ++ n ∷ [] } ∷ rest

abbrev pub FinalitySinks : Type 0
FinalitySinks = List (Sink FinalityNotification)

-- The header that is read for a finalized hash; `expect` panics without one.
abbrev pub notification_of :
    Hash → Result ChainError (Option Header) → Outcome (Result ChainError FinalityNotification)
notification_of h (err e) = returned (err e)
notification_of h (ok none) = panicked
notification_of h (ok (some header)) = returned (ok (record { block_hash = h; header = header }))

module _ (chain : Blockchain) where
  unfoldable pub notify_each :
      List Hash → FinalitySinks → Outcome (Result ChainError (Unit {0})) × FinalitySinks
  notify_each [] sinks = (returned (ok tt), sinks)
  notify_each (h ∷ rest) sinks = elim (notification_of h (chain.header (hash h))) [
    | panicked ↦ (panicked, sinks)
    | returned (err e) ↦ (returned (err e), sinks)
    | returned (ok n) ↦ notify_each rest (send_all n sinks)
  ]

  unfoldable pub notify_finalized :
      List Hash → FinalitySinks → Outcome (Result ChainError (Unit {0})) × FinalitySinks
  notify_finalized [] sinks = (returned (ok tt), retain_open sinks)
  notify_finalized (h ∷ rest) sinks = notify_each (h ∷ rest) sinks

abbrev triggered : ImportSummary → Option (Bytes × Bytes) → List (Hash × Bytes × Bytes)
triggered s none = []
triggered s (some changes) = (s.block_hash, changes.0, changes.1) ∷ []

unfoldable pub notify_imported : Option ImportSummary → ClientNotifies → ClientNotifies
notify_imported none c = record c {
  import_notification_sinks = retain_open c.import_notification_sinks;
}
notify_imported (some s) c =
    let notification : BlockImportNotification = record {
      block_hash = s.block_hash;
      origin = s.origin;
      header = s.header;
      is_new_best = s.is_new_best;
      tree_route = s.tree_route;
    } in
    record c {
      storage_notifications = c.storage_notifications ++ triggered s s.storage_changes;
      import_notification_sinks = send_all notification c.import_notification_sinks;
    }

-- ===== src/Client/Streams.antt =====
-- The streams of notifications and the auxiliary data: `import_notification_stream`,
-- `finality_notification_stream` and `insert_aux` of client/service/src/client/client.rs.
use sub_archive.Prelude.{List, [], ◌∷◌, ◌++◌, Option, none, some, false, map, Result, Outcome}
use sub_archive.Chain.{Bytes, ChainError}
use sub_archive.Client.Backend.{insert_aux as aux}
use sub_archive.Client.Operation.{call}
use sub_archive.Client.Notifies.{Sink, ClientNotifies}
use sub_archive.Client.Lock.{Backend, Node, lock_import_and_run}

-- `tracing_unbounded(..)`: the end that is sent on.
abbrev pub new_sink : {N : Type 0} → Sink N
new_sink = record { is_closed = false; received = [] }

-- The stream that is returned is what its sink receives.
abbrev pub import_notification_stream : ClientNotifies → ClientNotifies
import_notification_stream n = record n {
  import_notification_sinks = n.import_notification_sinks ++ new_sink ∷ [];
}

abbrev pub finality_notification_stream : ClientNotifies → ClientNotifies
finality_notification_stream n = record n {
  finality_notification_sinks = n.finality_notification_sinks ++ new_sink ∷ [];
}

-- `apply_aux`: the entries to insert, then the keys to delete.
abbrev pub aux_entries : List (Bytes × Bytes) → List Bytes → List (Bytes × Option Bytes)
aux_entries insert delete =
    map (λ (p : Bytes × Bytes). (p.0, some p.1)) insert ++ map (λ (k : Bytes). (k, none)) delete

unfoldable pub insert_aux :
    {S : Type 0}
    → Backend S
    → List (Bytes × Bytes)
    → List Bytes
    → Node S
    → Outcome (Result ChainError (Unit {0})) × Node S
insert_aux b insert delete n =
    lock_import_and_run b (call (b.accepts n.backend) (aux (aux_entries insert delete))) n

-- ===== src/Pipeline/Versions.antt =====
-- Where the versions in the database come from: the cache of the executor, over all of its turns.
use sub_archive.Prelude.{
  arith, ℕ, Option, some, returned, Outcome, ok, ◌≡◌, ◌⊎◌, inl, inr, refl, sym, All,
}
use std.Path.{subst}
use sub_archive.Prelude.Int.{ℤ, int_eq}
use sub_archive.Prelude.Assoc.{lookup}
use sub_archive.Chain.{Bytes, BlockNumber, number}
use sub_archive.Postgres.Tables.{BlockRow}
use sub_archive.Postgres.Statements.{block_row}
use sub_archive.Notifier.Task.{Notifier}
use sub_archive.Notifier.Archive.{ArchiveSendMsg}
use sub_archive.Executor.VersionCache.{RuntimeVersion, Versions, executed_version}
use sub_archive.Executor.VersionLaws.{Holds, get_by_id-Holds, get_by_id-answers, get_by_id-read}
use sub_archive.Executor.Block.{BlockExecutor}
use sub_archive.Executor.Archive.{Sent, archive}
use sub_archive.Executor.Sends.{archive-cases, archive-versions}
use sub_archive.Pipeline.System.{
  System, Step, import, execute, execute_panic, compare_next, stored, failed, store_panic, init,
  Reach, here, next,
}
use sub_archive.Pipeline.Turns.{All-heard, IsTurn, newest, newest_panic, earlier}
use sub_archive.Pipeline.Traces.{
  drop-IsTraced, answers-IsTraced, IsTraced, IsTraced-map, store-IsTraced, begins-IsTraced,
}

module _ {J : Type 0} where
  -- In a turn of the run, the runtime answers the version for a code of that hash.
  pub record IsAnswered {begun t : System J} (run : Reach begun t) (h : ℕ) (v : RuntimeVersion)
      : Type 1 where
    pub State : Type 0
    pub x : BlockExecutor State J
    pub n : BlockNumber
    pub turn : IsTurn State x n run
    pub code : Bytes
    pub hashed : x.externals.make_hash (some code) ≡ h
    pub answered : executed_version x.externals code ≡ ok v

  -- A message that a turn of the run has sent: its version is one that the runtime answers, in this turn or
  -- an earlier one, for a code of the hash that the code in the block's state has.
  pub record IsVersioned {begun t : System J} (run : Reach begun t) (msg : ArchiveSendMsg J)
      : Type 1 where
    pub State : Type 0
    pub x : BlockExecutor State J
    pub n : BlockNumber
    pub turn : IsTurn State x n run
    pub own_number : msg.0.block_num ≡ n
    pub state : State
    pub code : Option Bytes
    pub found : x.externals.state_at (number n) ≡ ok state
    pub has_code : x.externals.code_at state ≡ some code
    pub version : RuntimeVersion
    pub own_version : msg.0.spec_version ≡ version.spec_version
    pub answered : IsAnswered run (x.externals.make_hash code) version

  module _ {begun t u : System J} (run : Reach begun t) (st : Step t u) where
    IsAnswered-earlier :
        (h : ℕ) (v : RuntimeVersion) → IsAnswered run h v → IsAnswered (next run st) h v
    IsAnswered-earlier h v i = record {
      State = i.State;
      x = i.x;
      n = i.n;
      turn = earlier run st i.turn;
      code = i.code;
      hashed = i.hashed;
      answered = i.answered;
    }

    IsVersioned-earlier :
        (msg : ArchiveSendMsg J) → IsVersioned run msg → IsVersioned (next run st) msg
    IsVersioned-earlier msg i = record {
      State = i.State;
      x = i.x;
      n = i.n;
      turn = earlier run st i.turn;
      own_number = i.own_number;
      state = i.state;
      code = i.code;
      found = i.found;
      has_code = i.has_code;
      version = i.version;
      own_version = i.own_version;
      answered = IsAnswered-earlier _ i.version i.answered;
    }

  module _ {S : Type 0} (x : BlockExecutor S J) (n : BlockNumber) (versions : Versions)
      {begun t : System J} (run : Reach begun t) (turn : IsTurn S x n run)
      (holds : Holds (IsAnswered run) versions) where
    answers_now :
        (code : Bytes) (v : RuntimeVersion)
        → executed_version x.externals code ≡ ok v
        → IsAnswered run (x.externals.make_hash (some code)) v
    answers_now code v e = record {
      State = S;
      x = x;
      n = n;
      turn = turn;
      code = code;
      hashed = refl;
      answered = e;
    }

    archive-Holds : Holds (IsAnswered run) (archive x n versions).1.versions
    archive-Holds = elim (archive-versions x n versions) [
      | inl same ↦ subst (Holds (IsAnswered run)) (sym same) holds
      | inr looked_up ↦
          subst (Holds (IsAnswered run)) (sym looked_up)
            (get_by_id-Holds x.externals (IsAnswered run) answers_now (number n) versions holds)
    ]

    after-Holds :
        (r : Outcome (Unit {0})) (a : Sent J)
        → archive x n versions ≡ (r, a)
        → Holds (IsAnswered run) a.versions
    after-Holds r a e =
        subst (λ (p : Outcome (Unit {0}) × Sent J). Holds (IsAnswered run) p.1.versions) e
          archive-Holds

    archive-IsVersioned :
        (a : Sent J) → archive x n versions ≡ (returned tt, a) → All (IsVersioned run) a.to_archiver
    archive-IsVersioned a e = elim (archive-cases x n versions a e) [
      | inl none_sent ↦ rw none_sent tt
      | inr h ↦
          let (s, (o, (found, there))) =
            get_by_id-read x.externals (number n) versions h.version h.known in
          rw h.sent (
            record {
              State = S;
              x = x;
              n = n;
              turn = turn;
              own_number = refl;
              state = s;
              code = o;
              found = found;
              has_code = there;
              version = h.version;
              own_version = refl;
              answered =
                  get_by_id-answers x.externals (IsAnswered run) answers_now (number n) versions s o
                    h.version holds found there h.known;
            },
            tt,
          )
    ]

  module _ (start : Notifier J) where
    -- The messages and the rows are versioned, and the cache has what the runtime answered.
    abbrev Known : {begun t : System J} → Reach begun t → System J → Type 1
    Known run s =
        IsTraced start (IsVersioned run) s.archiver_queue s.notifier
        × Holds (IsAnswered run) s.versions

    module _ {begun t : System J} (run : Reach begun t) where
      Step-Known : {u : System J} (st : Step t u) → Known (next run st) t → Known (next run st) u
      Step-Known (import best metadata_at) (i, holds) =
          (answers-IsTraced start _ t.archiver_queue t.notifier metadata_at i, holds)
      Step-Known (execute S x n rest a alive q e) (i, holds) =
          let turn = newest run rest a alive q e in
          (
            record {
              bound = i.bound;
              messages =
                  All-heard _ t.archiver_alive t.archiver_queue a.to_archiver i.messages
                    (archive-IsVersioned x n t.versions _ turn holds a e);
              rows = i.rows;
            },
            after-Holds x n t.versions _ turn holds _ a e,
          )
      Step-Known (execute_panic S x n rest a alive q e) (i, holds) =
          (i, after-Holds x n t.versions _ (newest_panic run rest a alive q e) holds _ a e)
      Step-Known (compare_next n rest q) i = i
      Step-Known (stored m p rest alive q e) (i, holds) =
          (store-IsTraced start _ m p rest t.archiver_queue t.notifier q i, holds)
      Step-Known (failed m p rest e alive q r) (i, holds) =
          (store-IsTraced start _ m p rest t.archiver_queue t.notifier q i, holds)
      Step-Known (store_panic m p rest alive q e) (i, holds) = (
        drop-IsTraced start _ rest _
            (store-IsTraced start _ m p rest t.archiver_queue t.notifier q i),
        holds,
      )

    Reach-Known :
        {first best : BlockNumber} {t : System J} (run : Reach (init first best start) t)
        → Known run t
    Reach-Known here =
        (begins-IsTraced start _, unfold lookup in (λ h v found. absurd (ground (arith, found))))
    Reach-Known (next {t} run st) =
        let (i, holds) = Reach-Known run in
        Step-Known run st (
          IsTraced-map start (IsVersioned-earlier run st) t.archiver_queue t.notifier i,
          λ h v found. IsAnswered-earlier run st h v (holds h v found),
        )

    -- In every reachable state, each row of a block in the database was there at the start, or its version
    -- is one that the runtime answered, in the turn that sent it or an earlier one, for a code of the hash
    -- that the code in the block's state has.
    pub stored_versions_origin :
        {first best : BlockNumber} {t : System J} (k : ℤ) (row : BlockRow J)
        (run : Reach (init first best start) t)
        → lookup k t.notifier.db.tables.blocks ≡ some row
        → (lookup k start.db.tables.blocks ≡ some row)
          ⊎ ((msg : ArchiveSendMsg J) × IsVersioned run msg
              × (k ≡ start.db.bind msg.0.block_num)
              × (row ≡ block_row start.db.bind msg.0))
    stored_versions_origin k row run h = (Reach-Known run).0.rows k row h

-- ===== src/Raft/Snapshot.antt =====
-- raft/raft.go: log compaction. `NewSnapShot`, the handler `InstallSnapshot`, and `sendSnapshot`
-- with its reply handler.
use golang_deep_distributed.Prelude.{
  ℕ, ◌+◌, ◌-◌, true, ◌||◌, Option, none, some, List, [], ◌∷◌, ltb, leb, if◌then◌else◌, ◌>>=◌,
  length, get_elem?, set,
}
use golang_deep_distributed.Persister.{Gob, save_state_and_snapshot, read_snapshot}
use golang_deep_distributed.Raft.State.{
  Raft, LogEntry, Value, Effect, Out, reset_timer, apply, send_install_snapshot,
  InstallSnapshotArgs, InstallSnapshotReply, slice_from, is_leader, turn_to_follow,
}
use golang_deep_distributed.Raft.Persist.{state_data}

module _ {C B : Type 0} where
  unfoldable pub send_snapshot : Raft C B → ℕ → Effect C B
  unfolding read_snapshot
  send_snapshot rf server = send_install_snapshot server (record {
    term = rf.current_term;
    leader_id = rf.me;
    last_included_index = rf.snapshot_index;
    last_included_term = rf.snapshot_term;
    snapshot = read_snapshot rf.persister;
  })

  -- The reply handler of `sendSnapshot`.
  unfoldable pub snapshot_reply_handler : ℕ → InstallSnapshotReply → Raft C B → Raft C B
  unfolding turn_to_follow
  snapshot_reply_handler server reply rf =
      if is_leader rf.state
      then if ltb rf.current_term reply.current_term
        then turn_to_follow (record rf { current_term = reply.current_term })
        else record rf {
          match_index = set rf.match_index server rf.snapshot_index;
          next_index = set rf.next_index server (rf.snapshot_index + 1);
        }
      else rf

module _ {C B : Type 0} (gob : Gob (Value C) B) where
  -- The entry at `index` stays as the first of the log.
  unfoldable pub new_snapshot : Raft C B → B → ℕ → Option (Raft C B)
  unfolding state_data save_state_and_snapshot
  new_snapshot rf snapshot_data index =
      if ltb rf.commit_index index || leb index rf.snapshot_index then some rf else do
        logs ← slice_from rf.logs (index - rf.snapshot_index)
        first ← get_elem? logs 0
        let rf' = record rf { logs = logs; snapshot_index = index; snapshot_term = first.term }
        some (record rf' {
          persister = save_state_and_snapshot rf'.persister (state_data gob rf') snapshot_data;
        })

  -- The log after an installed snapshot: a placeholder, and what the snapshot does not cover.
  abbrev pub install : Raft C B → InstallSnapshotArgs B → List (LogEntry C) → Raft C B
  install rf args rest = record rf {
    logs = record { term = args.last_included_term; command = none } ∷ rest;
    snapshot_index = args.last_included_index;
    snapshot_term = args.last_included_term;
    commit_index = args.last_included_index;
    last_applied = args.last_included_index;
  }

  -- The message to the service, then the state and the snapshot saved together.
  abbrev pub deliver : Raft C B → InstallSnapshotArgs B → ℕ → Out C B InstallSnapshotReply
  deliver rf args term = (
    record rf {
      persister = save_state_and_snapshot rf.persister (state_data gob rf) args.snapshot;
    },
    record { current_term = term },
    reset_timer
        ∷ apply (record {
          command_valid = true;
          command = none;
          command_index = rf.snapshot_index;
          use_snapshot = true;
          snapshot = args.snapshot;
        })
        ∷ [],
  )

  unfoldable pub install_snapshot :
      Raft C B → InstallSnapshotArgs B → Option (Out C B InstallSnapshotReply)
  unfolding state_data save_state_and_snapshot
  install_snapshot rf args =
      if rf.shutdown
      then some (rf, record { current_term = 0 }, [])
      else if ltb args.term rf.current_term || leb args.last_included_index rf.snapshot_index
      then some (rf, record { current_term = rf.current_term }, [])
      else if leb (rf.snapshot_index + length rf.logs - 1) args.last_included_index
      then some (deliver (install rf args []) args rf.current_term)
      else do
        rest ← slice_from rf.logs (args.last_included_index - rf.snapshot_index + 1)
        some (deliver (install rf args rest) args rf.current_term)

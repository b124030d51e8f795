-- ===== src/Raft/Apply.antt =====
-- raft/raft.go: `applyLogEntryDaemon`, one pass of its loop.
use golang_deep_distributed.Prelude.{
  ℕ, ◌+◌, ◌-◌, true, false, Option, none, some, List, [], ◌∷◌, ◌++◌, ltb, if◌then◌else◌, ◌>>=◌,
}
use golang_deep_distributed.Raft.State.{Raft, LogEntry, ApplyMsg, slice_from, slice_to}

module _ {C B : Type 0} (nil_bytes : B) where
  -- The messages for the entries, the first of which has the index.
  unfoldable pub messages : ℕ → List (LogEntry C) → List (ApplyMsg C B)
  messages index [] = []
  messages index (entry ∷ entries) =
      record {
        command_valid = true;
        command = entry.command;
        command_index = index;
        use_snapshot = false;
        snapshot = nil_bytes;
      }
      ∷ messages (index + 1) entries

  -- One pass of the loop; where nothing is new the daemon waits. Go's `rf.Logs[a:b]` panics unless
  -- `0 ≤ a ≤ b` and `b` is at most the capacity: it takes what the array holds beyond the length, which
  -- is an argument.
  unfoldable pub apply_log_entries :
      List (LogEntry C) → Raft C B → Option (Raft C B × List (ApplyMsg C B))
  unfolding messages
  apply_log_entries beyond rf =
      if ltb rf.last_applied rf.commit_index
      then if ltb (rf.last_applied + 1) rf.snapshot_index then none else (do
        upto ← slice_to (rf.logs ++ beyond) (rf.commit_index + 1 - rf.snapshot_index)
        entries ← slice_from upto (rf.last_applied + 1 - rf.snapshot_index)
        some (record rf { last_applied = rf.commit_index }, messages (rf.last_applied + 1) entries))
      else some (rf, [])

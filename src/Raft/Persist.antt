-- ===== src/Raft/Persist.antt =====
-- raft/raft.go: `persist`, `stateData`, `readPersist` and `Make`.
use golang_deep_distributed.Prelude.{
  ℕ, false, Option, none, List, [], ◌∷◌, ◌==◌, if◌then◌else◌, replicate,
}
use golang_deep_distributed.Persister.{Gob, Persister, save_raft_state, read_raft_state}
use golang_deep_distributed.Raft.State.{LogEntry, follower, Raft, Value, int, peer, entries}

module _ {C : Type 0} where
  -- One `Decode` each: the next value of the buffer, if it is of the wanted type. A decode that
  -- fails leaves the variable as it is; the code ignores the error.
  unfoldable pub decode_int : List (Value C) → ℕ → ℕ × List (Value C)
  decode_int (int n ∷ vs) old = (n, vs)
  decode_int (v ∷ vs) old = (old, vs)
  decode_int [] old = (old, [])

  unfoldable pub decode_peer : List (Value C) → Option ℕ → Option ℕ × List (Value C)
  decode_peer (peer p ∷ vs) old = (p, vs)
  decode_peer (v ∷ vs) old = (old, vs)
  decode_peer [] old = (old, [])

  unfoldable pub decode_entries :
      List (Value C) → List (LogEntry C) → List (LogEntry C) × List (Value C)
  decode_entries (entries es ∷ vs) old = (es, vs)
  decode_entries (v ∷ vs) old = (old, vs)
  decode_entries [] old = (old, [])

module _ {C B : Type 0} (gob : Gob (Value C) B) where
  unfoldable pub state_data : Raft C B → B
  state_data rf = gob.encode (
      int rf.current_term
      ∷ peer rf.voted_for
      ∷ entries rf.logs
      ∷ int rf.snapshot_index
      ∷ int rf.snapshot_term
      ∷ [])

  -- `persist` builds the same buffer as `stateData`.
  unfoldable pub persist : Raft C B → Raft C B
  unfolding state_data save_raft_state
  persist rf = record rf { persister = save_raft_state rf.persister (state_data rf) }

  unfoldable pub read_persist : Raft C B → B → Raft C B
  unfolding decode_int decode_peer decode_entries
  read_persist rf bytes =
      if gob.len bytes == 0
      then rf
      else let (term, r₁) = decode_int (gob.decode bytes) rf.current_term in
        let (vote, r₂) = decode_peer r₁ rf.voted_for in
        let (logs, r₃) = decode_entries r₂ rf.logs in
        let (index, r₄) = decode_int r₃ rf.snapshot_index in
        let (snap_term, r₅) = decode_int r₄ rf.snapshot_term in
        record rf {
          current_term = term;
          voted_for = vote;
          logs = logs;
          snapshot_index = index;
          snapshot_term = snap_term;
        }

  -- `Make`, up to its timers and the two daemons that it starts.
  unfoldable pub make : ℕ → ℕ → Persister B → Raft C B
  unfolding read_persist read_raft_state
  make peers me persister =
      let rf : Raft C B = record {
        peers = peers;
        persister = persister;
        me = me;
        shutdown = false;
        state = follower;
        current_term = 0;
        voted_for = none;
        logs = record { term = 0; command = none } ∷ [];
        commit_index = 0;
        last_applied = 0;
        next_index = replicate peers 0;
        match_index = replicate peers 0;
        snapshot_index = 0;
        snapshot_term = 0;
      } in
      let restored = read_persist rf (read_raft_state persister) in
      record restored {
        last_applied = restored.snapshot_index;
        commit_index = restored.snapshot_index;
      }

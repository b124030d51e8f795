-- ===== src/Raft/Append.antt =====
-- raft/raft.go: the handler `AppendEntries`, heartbeats included.
use golang_deep_distributed.Prelude.{
  ℕ, zero, suc, ◌+◌, ◌-◌, min, true, false, ◌&&◌, Option, some, List, [], ◌∷◌, ◌++◌, ltb, ◌==◌,
  if◌then◌else◌, ◌>>=◌, length, get_elem?,
}
use golang_deep_distributed.Persister.{Gob}
use golang_deep_distributed.Raft.State.{
  Raft, Value, Effect, Out, reset_timer, broadcast, AppendEntriesArgs, AppendEntriesReply,
  no_append, log_at, slice_to, is_leader, turn_to_follow,
}
use golang_deep_distributed.Raft.Persist.{persist}

module _ {C B : Type 0} where
  -- The sender of a request that is not stale is the leader of its term.
  unfoldable pub accept_leader : Raft C B → AppendEntriesArgs C → Raft C B
  unfolding turn_to_follow
  accept_leader rf args =
      let rf₁ =
        if ltb rf.current_term args.term then record rf { current_term = args.term } else rf in
      let rf₂ = if is_leader rf₁.state then turn_to_follow rf₁ else rf₁ in
      record rf₂ { voted_for = some args.leader_id }

  -- `preLogIdx` and `preLogTerm`.
  unfoldable pub prev_entry : Raft C B → AppendEntriesArgs C → Option (ℕ × ℕ)
  prev_entry rf args =
      if ltb args.prev_log_index (length rf.logs + rf.snapshot_index)
      then (log_at rf args.prev_log_index >>= λ entry. some (args.prev_log_index, entry.term))
      else some (0, 0)

  -- The backward loop over `rf.Logs[k - 1]`, …, `rf.Logs[0]`: one above the last entry of another
  -- term, or `first` if there is none.
  unfoldable pub first_of_term : Raft C B → ℕ → ℕ → ℕ → Option ℕ
  first_of_term rf term first zero = some first
  first_of_term rf term first (suc k) =
      let rest = first_of_term rf term first k in
      get_elem? rf.logs k >>= λ entry.
      if entry.term == term then rest else some (rf.snapshot_index + k + 1)

  -- `ConflictTerm` and `FirstIndex` of a refusal.
  unfoldable pub conflict_hint : Raft C B → ℕ → ℕ → Option (ℕ × ℕ)
  unfolding first_of_term
  conflict_hint rf pre_index pre_term =
      if pre_term == 0
      then (let first = length rf.logs + rf.snapshot_index in
          get_elem? rf.logs (first - rf.snapshot_index - 1) >>= λ entry. some (entry.term, first))
      else first_of_term rf pre_term (1 + rf.snapshot_index) (pre_index - rf.snapshot_index)
        >>= λ first. some (pre_term, first)

  -- "min(leaderCommit, index of last new entry)"
  unfoldable pub follow_commit : Raft C B → ℕ → ℕ → Raft C B × List (Effect C B)
  follow_commit rf leader_commit last =
      if ltb rf.commit_index leader_commit
      then (record rf { commit_index = min leader_commit last }, broadcast ∷ [])
      else (rf, [])

module _ {C B : Type 0} (gob : Gob (Value C) B) where
  -- The log up to `pre_index`, then the new entries.
  unfoldable pub append_matched :
      Raft C B → AppendEntriesArgs C → ℕ → Option (Out C B AppendEntriesReply)
  unfolding follow_commit persist
  append_matched rf args pre_index = do
    kept ← slice_to rf.logs (pre_index - rf.snapshot_index + 1)
    let rf₁ : Raft C B = record rf { logs = kept ++ args.entries }
    let last = rf₁.snapshot_index + length rf₁.logs - 1
    let (rf₂, signal) = follow_commit rf₁ args.leader_commit last
    entry ← get_elem? rf₂.logs (last - rf₂.snapshot_index)
    some (
      persist gob rf₂,
      record { current_term = 0; success = true; conflict_term = entry.term; first_index = last },
      reset_timer ∷ signal,
    )

  unfoldable pub append_refused : Raft C B → ℕ → ℕ → Option (Out C B AppendEntriesReply)
  unfolding conflict_hint persist
  append_refused rf pre_index pre_term = do
    (term, first) ← conflict_hint rf pre_index pre_term
    some (
      persist gob rf,
      record { current_term = 0; success = false; conflict_term = term; first_index = first },
      reset_timer ∷ [],
    )

  unfoldable pub append_entries :
      Raft C B → AppendEntriesArgs C → Option (Out C B AppendEntriesReply)
  unfolding accept_leader prev_entry append_matched append_refused
  append_entries rf args =
      if rf.shutdown
      then some (rf, no_append, [])
      else if ltb args.term rf.current_term
      then some (
        rf,
        record {
          current_term = rf.current_term;
          success = false;
          conflict_term = 0;
          first_index = 0;
        },
        [],
      )
      else let rf' = accept_leader rf args in
        if ltb args.prev_log_index rf'.snapshot_index
        then some (
          rf',
          record {
            current_term = rf'.current_term;
            success = false;
            conflict_term = rf'.snapshot_term;
            first_index = rf'.snapshot_index;
          },
          reset_timer ∷ [],
        )
        else do
          (pre_index, pre_term) ← prev_entry rf' args
          if pre_index == args.prev_log_index && pre_term == args.prev_log_term
              then append_matched rf' args pre_index
              else append_refused rf' pre_index pre_term

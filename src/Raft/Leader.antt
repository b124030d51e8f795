-- ===== src/Raft/Leader.antt =====
-- raft/raft.go: what a leader does. `Start`, `Kill`, `resetOnElection`, `updateCommitIndex`,
-- `consistencyCheck` with its reply handler, and one round of `heartbeatDaemon`.
use golang_deep_distributed.Prelude.{
  ℕ, zero, suc, ◌+◌, ◌-◌, ◌/◌, min, max, Bool, true, false, not, ◌&&◌, Option, none, some, List, [],
  ◌∷◌, ◌++◌, ltb, leb, ◌==◌, if◌then◌else◌, ◌>>=◌, length, get_elem?, set,
}
use golang_deep_distributed.Persister.{Gob}
use golang_deep_distributed.Raft.State.{
  Raft, LogEntry, Value, Effect, reset_timer, broadcast, start_check, send_append_entries,
  AppendEntriesArgs, AppendEntriesReply, log_at, slice_from, is_leader, turn_to_follow,
}
use golang_deep_distributed.Raft.Persist.{persist}
use golang_deep_distributed.Raft.Snapshot.{send_snapshot}

-- `sort.Ints` on a copy of the slice.
unfoldable pub insert_sorted : ℕ → List ℕ → List ℕ
insert_sorted x [] = x ∷ []
insert_sorted x (y ∷ ys) = if leb x y then x ∷ y ∷ ys else y ∷ insert_sorted x ys

unfoldable pub sort_ints : List ℕ → List ℕ
unfolding insert_sorted
sort_ints [] = []
sort_ints (x ∷ xs) = insert_sorted x (sort_ints xs)

module _ {C : Type 0} where
  -- The loop of the reply handler over `rf.Logs[k]`, …, `rf.Logs[1]`: the position of the last entry
  -- of the term.
  unfoldable pub last_of_term : List (LogEntry C) → ℕ → ℕ → Option (Option ℕ)
  last_of_term logs term zero = some none
  last_of_term logs term (suc k) =
      let rest = last_of_term logs term k in
      get_elem? logs (suc k) >>= λ entry. if entry.term == term then some (some (suc k)) else rest

module _ {C B : Type 0} where
  -- The loop of `resetOnElection` from peer `i` on, with `n` peers left.
  unfoldable pub reset_peers : ℕ → ℕ → ℕ → Raft C B → Raft C B
  reset_peers zero i len rf = rf
  reset_peers (suc n) i len rf = reset_peers n (i + 1) len (record rf {
    match_index = set rf.match_index i (if i == rf.me then len - 1 else 0);
    next_index = set rf.next_index i len;
  })

  unfoldable pub reset_on_election : Raft C B → Raft C B
  unfolding reset_peers
  reset_on_election rf = reset_peers rf.peers 0 (length rf.logs + rf.snapshot_index) rf

  unfoldable pub update_commit_index : Raft C B → Option (Raft C B × List (Effect C B))
  unfolding sort_ints
  update_commit_index rf = do
    target ← get_elem? (sort_ints rf.match_index) (rf.peers / 2)
    if ltb rf.commit_index target && ltb rf.snapshot_index target
        then (log_at rf target >>= λ entry.
            if entry.term == rf.current_term
            then some (record rf { commit_index = target }, broadcast ∷ [])
            else some (rf, []))
        else some (rf, [])

  -- `nextIndex[n]` after a refusal, before it is clamped.
  unfoldable pub conflict_next : Raft C B → AppendEntriesReply → Option ℕ
  unfolding last_of_term
  conflict_next rf reply = if reply.conflict_term == 0 then some reply.first_index else do
    found ← last_of_term rf.logs reply.conflict_term (length rf.logs - 1)
    some (elim found [
      | some i ↦ min (i + rf.snapshot_index) reply.first_index
      | none ↦ reply.first_index
    ])

  -- "snapshot + 1 <= rf.nextIndex[n] <= len(rf.Logs) + snapshot", and one less if it did not move.
  unfoldable pub clamp_next : Raft C B → ℕ → ℕ → ℕ
  clamp_next rf old next =
      let clamped = min (max next (1 + rf.snapshot_index)) (length rf.logs + rf.snapshot_index) in
      if old == clamped then max (clamped - 1) rf.snapshot_index else clamped

  -- The request that `consistencyCheck` builds for a follower whose next entry is `next`.
  -- The position of the previous entry is clipped to the log.
  unfoldable pub append_args : Raft C B → ℕ → Option (AppendEntriesArgs C)
  append_args rf next = do
    let prev_log = next - 1 - rf.snapshot_index
    let clipped = ltb (length rf.logs - 1) prev_log
    prev ← get_elem? rf.logs (if clipped then length rf.logs - 1 else prev_log)
    entries ←
        if ltb next (length rf.logs + rf.snapshot_index)
        then slice_from rf.logs (next - rf.snapshot_index)
        else some []
    some (record {
      term = rf.current_term;
      leader_id = rf.me;
      prev_log_index = if clipped then length rf.logs + rf.snapshot_index - 1 else next - 1;
      prev_log_term = prev.term;
      entries = entries;
      leader_commit = rf.commit_index;
    })

  -- `pre < rf.snapshotIndex` for `pre := rf.nextIndex[n] - 1`, which may be -1, is written without
  -- the subtraction.
  unfoldable pub consistency_check : Raft C B → ℕ → Option (Raft C B × List (Effect C B))
  unfolding send_snapshot append_args
  consistency_check rf n =
      if is_leader rf.state
      then (get_elem? rf.next_index n >>= λ next.
          if ltb next (rf.snapshot_index + 1)
          then some (rf, send_snapshot rf n ∷ [])
          else (append_args rf next >>= λ args. some (rf, send_append_entries n args ∷ [])))
      else some (rf, [])

  -- The loop of `heartbeatDaemon` over the other peers, from peer `i` on, with `n` peers left.
  unfoldable pub start_checks : ℕ → ℕ → ℕ → List (Effect C B)
  start_checks me zero i = []
  start_checks me (suc n) i =
      let rest = start_checks me n (i + 1) in if i == me then rest else start_check i ∷ rest

  -- One round of `heartbeatDaemon`; the flag says that it goes on after its sleep.
  unfoldable pub heartbeat : Raft C B → Bool × List (Effect C B)
  unfolding start_checks
  heartbeat rf =
      if is_leader rf.state
      then if rf.shutdown
        then (false, reset_timer ∷ [])
        else (true, reset_timer ∷ start_checks rf.me rf.peers 0)
      else (false, [])

  -- `Kill`: closing `shutdownCh` a second time panics.
  unfoldable pub kill : Raft C B → Option (Raft C B × List (Effect C B))
  kill rf = if rf.shutdown then none else some (record rf { shutdown = true }, broadcast ∷ [])

  -- The rest of the reply handler after a refusal: a snapshot is needed, or `nextIndex[n]` moves.
  unfoldable pub refused_next : ℕ → Raft C B → ℕ → ℕ → Raft C B × List (Effect C B)
  unfolding clamp_next send_snapshot
  refused_next n rf old next =
      if not (rf.snapshot_index == 0) && leb next rf.snapshot_index
      then (let rf' = record rf { next_index = set rf.next_index n next } in
          (rf', send_snapshot rf' n ∷ []))
      else (record rf { next_index = set rf.next_index n (clamp_next rf old next) }, [])

module _ {C B : Type 0} (gob : Gob (Value C) B) where
  -- The index is -1 (`none`) if the command was not taken.
  unfoldable pub start : Raft C B → C → Raft C B × Option ℕ × ℕ × Bool
  unfolding persist
  start rf command =
      if rf.shutdown
      then (rf, none, 0, false)
      else if is_leader rf.state
      then (let rf' : Raft C B = record rf {
        logs = rf.logs ++ record { term = rf.current_term; command = some command } ∷ [];
      } in
          let index = length rf'.logs - 1 + rf'.snapshot_index in
          (
            persist gob (record rf' {
              next_index = set rf'.next_index rf'.me (index + 1);
              match_index = set rf'.match_index rf'.me index;
            }),
            some index,
            rf'.current_term,
            true,
          ))
      else (rf, none, 0, false)

  -- `none` is the explicit panic on a match index beyond the log, or an index out of range.
  unfoldable pub append_reply_handler :
      ℕ → AppendEntriesReply → Raft C B → Option (Raft C B × List (Effect C B))
  unfolding update_commit_index turn_to_follow persist conflict_next refused_next
  append_reply_handler n reply rf =
      if is_leader rf.state
      then if reply.success
        then if ltb (length rf.logs + rf.snapshot_index - 1) reply.first_index then none else (do
          matched ← get_elem? rf.match_index n
          old ← get_elem? rf.next_index n
          update_commit_index (record rf {
            match_index = set rf.match_index n reply.first_index;
            next_index = set rf.next_index n (reply.first_index + 1);
          }))
        else if ltb rf.current_term reply.current_term
        then some (persist gob (turn_to_follow rf), reset_timer ∷ [])
        else (do
          old ← get_elem? rf.next_index n
          next ← conflict_next rf reply
          some (refused_next n rf old next))
      else some (rf, [])

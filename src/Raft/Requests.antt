-- ===== src/Raft/Requests.antt =====
-- The request that a leader of raft/raft.go builds for a follower (`consistencyCheck`).
use golang_deep_distributed.Prelude.{
  ℕ, ◌+◌, ◌-◌, ◌≤◌, ◌<◌, ◌≡◌, ◌⊎◌, inl, inr, some, [], arith, ltb, if◌then◌else◌, Option-cases,
  length, get_elem?, drop, length-drop,
}
use golang_deep_distributed.Raft.State.{Raft, LogEntry, AppendEntriesArgs, last_index}
use golang_deep_distributed.Raft.Leader.{append_args}

module _ {C B : Type 0} where
  -- The request of `consistencyCheck`, field by field.
  pub record IsRequest (rf : Raft C B) (next : ℕ) (args : AppendEntriesArgs C) : Type 0 where
    pub before : LogEntry C
    pub before_at : get_elem? rf.logs (args.prev_log_index - rf.snapshot_index) ≡ some before
    pub before_term : args.prev_log_term ≡ before.term
    pub low : rf.snapshot_index ≤ args.prev_log_index
    pub high : args.prev_log_index < next
    pub entries :
        (args.entries ≡ [])
        ⊎ ((args.entries ≡ drop (next - rf.snapshot_index) rf.logs)
            × (args.prev_log_index ≡ next - 1))
    pub end : args.prev_log_index + length args.entries ≡ last_index rf
    pub term : args.term ≡ rf.current_term
    pub commit : args.leader_commit ≡ rf.commit_index

  pub append_args-IsRequest :
      (rf : Raft C B) (next : ℕ) (args : AppendEntriesArgs C)
      → append_args rf next ≡ some args
      → rf.snapshot_index < next
      → 1 ≤ length rf.logs
      → IsRequest rf next args
  unfolding append_args
  append_args-IsRequest rf next args h low one =
      let prev_log = next - 1 - rf.snapshot_index in
      let clipped = ltb (length rf.logs - 1) prev_log in
      let pos = if clipped then length rf.logs - 1 else prev_log in
      elim (Option-cases (get_elem? rf.logs pos)) [
        | inl e ↦ absurd (ground (arith, e))
        | inr (before, e) ↦
            let index : args.prev_log_index - rf.snapshot_index ≡ pos = ground (arith, e) in
            record {
              before = before;
              before_at = rw index e;
              before_term = ground (arith, e);
              low = ground (arith, e);
              high = ground (arith, e);
              entries = ground (arith, e);
              end = ground (arith, e, length-drop (next - rf.snapshot_index) rf.logs);
              term = ground (arith, e);
              commit = ground (arith, e);
            }
      ]

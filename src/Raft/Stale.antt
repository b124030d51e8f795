-- ===== src/Raft/Stale.antt =====
-- An AppendEntries request that comes late, at a peer of raft/raft.go that took over later entries.
use golang_deep_distributed.Prelude.{
  ℕ, ◌+◌, ◌-◌, ◌≤◌, ◌<◌, ◌≡◌, ap, ◌∙◌, true, false, some, arith, length, get_elem?, take,
  length-append, length-take, lt_of_get_elem?,
}
use golang_deep_distributed.Persister.{Gob}
use golang_deep_distributed.Raft.State.{
  Raft, LogEntry, Value, Out, AppendEntriesArgs, AppendEntriesReply, last_index,
}
use golang_deep_distributed.Raft.Append.{
  append_entries, accept_leader, prev_entry, append_matched, follow_commit,
}
use golang_deep_distributed.Raft.Persist.{persist}
use golang_deep_distributed.Raft.Matching.{accept_leader_fields, append_matched_fields}
use golang_deep_distributed.Raft.Totality.{append_entries_total}

module _ {C B : Type 0} (gob : Gob (Value C) B) where
  append_matched-commit :
      (rf : Raft C B) (args : AppendEntriesArgs C) (i : ℕ) {out : Out C B AppendEntriesReply}
      → append_matched gob rf args i ≡ some out
      → args.leader_commit ≤ rf.commit_index
      → (out.1.success ≡ true) × (out.0.commit_index ≡ rf.commit_index)
  unfolding append_matched follow_commit persist
  append_matched-commit rf args i h old = ground arith

  -- A running peer that gets a request of its own or a later term, whose previous entry it has above its snapshot,
  -- and whose entries end below the peer's commit index, takes it over, and afterwards its log ends
  -- below its commit index: committed entries are gone.
  pub stale_append_uncommits :
      (rf : Raft C B) (args : AppendEntriesArgs C) {prev : LogEntry C}
      → rf.shutdown ≡ false
      → rf.current_term ≤ args.term
      → rf.snapshot_index ≤ args.prev_log_index
      → get_elem? rf.logs (args.prev_log_index - rf.snapshot_index) ≡ some prev
      → prev.term ≡ args.prev_log_term
      → args.leader_commit ≤ rf.commit_index
      → args.prev_log_index + length args.entries < rf.commit_index
      → (out : Out C B AppendEntriesReply) × (append_entries gob rf args ≡ some out)
        × (out.1.success ≡ true)
        × (out.0.commit_index ≡ rf.commit_index)
        × (last_index out.0 < out.0.commit_index)
  stale_append_uncommits rf args {prev} up now seen at same old short =
      let rf₁ = accept_leader rf args in
      let fields = accept_leader_fields gob rf args in
      let inside = lt_of_get_elem? rf.logs (args.prev_log_index - rf.snapshot_index) at in
      let (out, run, first) = append_entries_total gob rf args (omega (arith, inside)) in
      let found : prev_entry rf₁ args ≡ some (args.prev_log_index, args.prev_log_term) =
        unfold prev_entry in
        ground (
          arith,
          fields,
          inside,
          at,
          same,
          ap (λ ls. get_elem? ls (args.prev_log_index - rf.snapshot_index)) fields.0,
        ) in
      let matched : append_matched gob rf₁ args args.prev_log_index ≡ some out =
        unfold append_entries in ground (arith, run, up, now, seen, found, fields) in
      let (success, commit) =
        append_matched-commit rf₁ args args.prev_log_index {out = out} matched
          (omega (arith, old, fields)) in
      let result = append_matched_fields gob rf₁ args args.prev_log_index {out = out} matched in
      let kept = take (args.prev_log_index - rf₁.snapshot_index + 1) rf₁.logs in
      let size : length out.0.logs ≡ length kept + length args.entries =
        ap length result.0 ∙ length-append kept args.entries in
      (
        out,
        run,
        success,
        commit ∙ fields.2,
        omega (
          arith,
          size,
          length-take (args.prev_log_index - rf₁.snapshot_index + 1) rf₁.logs,
          result.1,
          commit,
          fields,
          short,
          seen,
          result.2,
        ),
      )

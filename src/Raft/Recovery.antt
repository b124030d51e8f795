-- ===== src/Raft/Recovery.antt =====
-- Which operations of raft/raft.go save the state before they answer, and what a crash undoes where
-- they do not.
use golang_deep_distributed.Prelude.{ℕ, ◌≤◌, ◌≡◌, inl, inr, some, List, arith, Option-cases}
use golang_deep_distributed.Persister.{Gob}
use golang_deep_distributed.Raft.State.{
  Raft, Value, Out, AppendEntriesArgs, AppendEntriesReply, InstallSnapshotArgs,
  InstallSnapshotReply, last_log_index_and_term,
}
use golang_deep_distributed.Raft.Persist.{state_data, make}
use golang_deep_distributed.Raft.Vote.{request_vote}
use golang_deep_distributed.Raft.Append.{append_entries, accept_leader, prev_entry}
use golang_deep_distributed.Raft.Snapshot.{install_snapshot}
use golang_deep_distributed.Raft.OneVote.{Rpc, ask_vote, append, install, serve}
use golang_deep_distributed.Raft.Matching.{accept_leader_fields}
use golang_deep_distributed.Raft.Durability.{
  IsDurable, vote-IsDurable, append_matched-IsDurable, append_refused-IsDurable,
}

module _ {C B : Type 0} (gob : Gob (Value C) B) where
  append_entries-IsDurable :
      (rf : Raft C B) (args : AppendEntriesArgs C) {out : Out C B AppendEntriesReply}
      → IsDurable gob rf
      → rf.snapshot_index ≤ args.prev_log_index
      → append_entries gob rf args ≡ some out
      → IsDurable gob out.0
  unfolding append_entries
  append_entries-IsDurable rf args {out} d seen h =
      let rf' = accept_leader rf args in
      elim (Option-cases (prev_entry rf' args)) [
        | inl e ↦ ground (arith, e, accept_leader_fields gob rf args)
        | inr ((i, t), e) ↦ ground (
          arith,
          e,
          accept_leader_fields gob rf args,
          append_matched-IsDurable gob rf' args i {out = out},
          append_refused-IsDurable gob rf' i t {out = out},
        )
      ]

  install_snapshot-IsDurable :
      (rf : Raft C B) (args : InstallSnapshotArgs B) {out : Out C B InstallSnapshotReply}
      → IsDurable gob rf
      → install_snapshot gob rf args ≡ some out
      → IsDurable gob out.0
  unfolding install_snapshot state_data
  install_snapshot-IsDurable rf args d h = ground arith

  -- The request is one that the peer's snapshot does not hide.
  abbrev pub IsSeen : Raft C B → Rpc C B → Type 0
  IsSeen rf (append args) = rf.snapshot_index ≤ args.prev_log_index
  IsSeen rf _ = Unit

  -- Every RPC handler leaves the state saved, if it was saved before, but for an `AppendEntries` that
  -- the peer's snapshot hides.
  pub serve-IsDurable :
      (rpc : Rpc C B) (rf rf' : Raft C B) (votes : List ℕ)
      → IsDurable gob rf
      → IsSeen rf rpc
      → serve gob rpc rf ≡ some (rf', votes)
      → IsDurable gob rf'
  unfolding request_vote
  serve-IsDurable (ask_vote args) rf rf' votes d seen h =
      elim (Option-cases (last_log_index_and_term rf)) [
        | inl e ↦ ground (arith, e)
        | inr ((i, t), e) ↦ ground (arith, e, vote-IsDurable gob rf args i t)
      ]
  serve-IsDurable (append args) rf rf' votes d seen h =
      elim (Option-cases (append_entries gob rf args)) [
        | inl e ↦ ground (arith, e)
        | inr (out, e) ↦ ground (arith, e, append_entries-IsDurable rf args {out = out} d seen e)
      ]
  serve-IsDurable (install args) rf rf' votes d seen h =
      elim (Option-cases (install_snapshot gob rf args)) [
        | inl e ↦ ground (arith, e)
        | inr (out, e) ↦ ground (arith, e, install_snapshot-IsDurable rf args {out = out} d e)
      ]

  -- The peer that comes back after a crash at this moment.
  abbrev pub restarted : Raft C B → Raft C B
  restarted rf = make gob rf.peers rf.me rf.persister

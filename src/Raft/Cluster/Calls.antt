-- ===== src/Raft/Cluster/Calls.antt =====
-- What a call of raft/raft.go that is not about votes leaves alone: a peer's place, the terms in which
-- it may still vote, and, if it leads afterwards, its term.
use golang_deep_distributed.Prelude.{
  ℕ, ◌+◌, ◌≤◌, ◌≡◌, inl, inr, some, List, arith, Option-cases, set,
}
use golang_deep_distributed.Persister.{Gob}
use golang_deep_distributed.Raft.State.{
  Raft, Value, Effect, Out, AppendEntriesArgs, AppendEntriesReply, InstallSnapshotArgs,
  InstallSnapshotReply, leader, turn_to_follow,
}
use golang_deep_distributed.Raft.Persist.{persist}
use golang_deep_distributed.Raft.Append.{
  append_entries, accept_leader, prev_entry, append_matched, append_refused, follow_commit,
}
use golang_deep_distributed.Raft.Snapshot.{new_snapshot, install_snapshot, snapshot_reply_handler}
use golang_deep_distributed.Raft.Leader.{
  start, append_reply_handler, update_commit_index, conflict_next, refused_next, kill,
}
use golang_deep_distributed.Raft.Apply.{apply_log_entries}
use golang_deep_distributed.Raft.OneVote.{next_vote}
use golang_deep_distributed.Raft.Cluster.{
  Work, append, install, append_reply, snapshot_reply, begin, compact, apply, stop,
}

module _ {C B : Type 0} where
  -- From one state of a peer to a later one.
  pub record Keeps (rf rf' : Raft C B) : Type 0 where
    pub peers : rf'.peers ≡ rf.peers
    pub me : rf'.me ≡ rf.me
    pub vote : next_vote rf ≤ next_vote rf'
    pub lead : rf'.state ≡ leader → (rf.state ≡ leader) × (rf'.current_term ≡ rf.current_term)

module _ {C B : Type 0} (gob : Gob (Value C) B) where
  append_matched-Keeps :
      (rf : Raft C B) (args : AppendEntriesArgs C) (i : ℕ) {out : Out C B AppendEntriesReply}
      → append_matched gob rf args i ≡ some out
      → Keeps rf out.0
  unfolding append_matched follow_commit persist
  append_matched-Keeps rf args i h = ground arith

  append_refused-Keeps :
      (rf : Raft C B) (i t : ℕ) {out : Out C B AppendEntriesReply}
      → append_refused gob rf i t ≡ some out
      → Keeps rf out.0
  unfolding append_refused persist
  append_refused-Keeps rf i t h = ground arith

  accept_leader-Keeps :
      (rf : Raft C B) (args : AppendEntriesArgs C) → Keeps rf (accept_leader rf args)
  unfolding accept_leader turn_to_follow
  accept_leader-Keeps rf args = ground arith

  Keeps-trans : {a b c : Raft C B} → Keeps a b → Keeps b c → Keeps a c
  Keeps-trans p q = ground arith

  Keeps-self : (rf : Raft C B) → Keeps rf rf
  Keeps-self rf = ground arith

  append_entries-Keeps :
      (rf : Raft C B) (args : AppendEntriesArgs C) {out : Out C B AppendEntriesReply}
      → append_entries gob rf args ≡ some out
      → Keeps rf out.0
  append_entries-Keeps rf args {out} h =
      let rf₁ = accept_leader rf args in
      let one = accept_leader-Keeps rf args in
      elim (Option-cases (prev_entry rf₁ args)) [
        | inl e ↦ unfold append_entries in ground (arith, e, one)
        | inr ((i, t), e) ↦
            unfold append_entries in
            ground (
              arith,
              e,
              one,
              append_matched-Keeps rf₁ args i {out = out},
              append_refused-Keeps rf₁ i t {out = out},
            )
      ]

  install_snapshot-Keeps :
      (rf : Raft C B) (args : InstallSnapshotArgs B) {out : Out C B InstallSnapshotReply}
      → install_snapshot gob rf args ≡ some out
      → Keeps rf out.0
  unfolding install_snapshot
  install_snapshot-Keeps rf args h = ground arith

  update_commit_index-Keeps :
      (rf : Raft C B) {out : Raft C B × List (Effect C B)}
      → update_commit_index rf ≡ some out
      → Keeps rf out.0
  unfolding update_commit_index
  update_commit_index-Keeps rf h = ground arith

  append_reply_handler-Keeps :
      (n : ℕ) (reply : AppendEntriesReply) (rf : Raft C B) {out : Raft C B × List (Effect C B)}
      → reply.current_term ≤ rf.current_term
      → append_reply_handler gob n reply rf ≡ some out
      → Keeps rf out.0
  unfolding append_reply_handler refused_next
  append_reply_handler-Keeps n reply rf {out} old h =
      let counted : Raft C B = record rf {
        match_index = set rf.match_index n reply.first_index;
        next_index = set rf.next_index n (reply.first_index + 1);
      } in
      elim (Option-cases (conflict_next rf reply)) [
        | inl e ↦ ground (arith, e, update_commit_index-Keeps counted {out = out})
        | inr (next, e) ↦ ground (arith, e, update_commit_index-Keeps counted {out = out})
      ]

  -- Every call that is not about votes keeps them.
  pub Work-Keeps : {rf rf' : Raft C B} → Work gob rf rf' → Keeps rf rf'
  unfolding snapshot_reply_handler turn_to_follow start persist new_snapshot apply_log_entries kill
  Work-Keeps {rf} {rf'} (append args reply es h) =
      append_entries-Keeps rf args {out = (rf', reply, es)} h
  Work-Keeps {rf} {rf'} (install args reply es h) =
      install_snapshot-Keeps rf args {out = (rf', reply, es)} h
  Work-Keeps {rf} {rf'} (append_reply n reply es old h) =
      append_reply_handler-Keeps n reply rf {out = (rf', es)} old h
  Work-Keeps (snapshot_reply n reply h) = ground arith
  Work-Keeps (begin command h) = ground arith
  Work-Keeps (compact bytes at h) = ground arith
  Work-Keeps (apply nil_bytes beyond msgs h) = ground arith
  Work-Keeps (stop es h) = ground arith

-- ===== src/Raft/Durability.antt =====
-- What survives a crash: a peer made anew from its persister has the persistent state that the last
-- `persist` saved, and which operations of raft/raft.go save before they reply.
use golang_deep_distributed.Prelude.{ℕ, ◌≡◌, refl, false, some, [], ◌∷◌, arith, ◌==◌}
use golang_deep_distributed.Persister.{Gob}
use golang_deep_distributed.Raft.State.{
  Raft, Value, int, peer, entries, Out, AppendEntriesArgs, AppendEntriesReply, RequestVoteArgs,
  follower,
}
use golang_deep_distributed.Raft.Persist.{state_data, persist, make, read_persist}
use golang_deep_distributed.Raft.Vote.{vote}
use golang_deep_distributed.Raft.Append.{append_matched, append_refused}

module _ {C B : Type 0} (gob : Gob (Value C) B) where
  -- The peer's store holds its present persistent state.
  abbrev pub IsDurable : Raft C B → Type 0
  IsDurable rf = rf.persister.raftstate ≡ state_data gob rf

  -- Two peers agree on the persistent state of the paper's figure 2 and on the snapshot's position.
  pub record SameState (a b : Raft C B) : Type 0 where
    pub current_term : a.current_term ≡ b.current_term
    pub voted_for : a.voted_for ≡ b.voted_for
    pub logs : a.logs ≡ b.logs
    pub snapshot_index : a.snapshot_index ≡ b.snapshot_index
    pub snapshot_term : a.snapshot_term ≡ b.snapshot_term

  read_persist_lem :
      (old rf : Raft C B) (bytes : B)
      → bytes ≡ state_data gob rf
      → read_persist gob old bytes ≡ record old {
        current_term = rf.current_term;
        voted_for = rf.voted_for;
        logs = rf.logs;
        snapshot_index = rf.snapshot_index;
        snapshot_term = rf.snapshot_term;
      }
  unfolding read_persist state_data
  read_persist_lem old rf bytes saved =
      let rest =
        peer rf.voted_for ∷ entries rf.logs ∷ int rf.snapshot_index ∷ int rf.snapshot_term ∷ [] in
      let values = int rf.current_term ∷ rest in
      let full : (gob.len (gob.encode values) == 0) ≡ false =
        ground (arith, gob.len-encode (int rf.current_term) rest) in
      rw (saved, full, gob.decode-encode values) refl

  -- A peer that is made again from the store of a peer whose state is saved has the same persistent
  -- state, runs, is a follower, and has applied and committed exactly what its snapshot covers.
  pub make-SameState :
      (rf : Raft C B)
      → IsDurable rf
      → let made = make gob rf.peers rf.me rf.persister in
        SameState made rf
        × (made.state ≡ follower)
        × (made.commit_index ≡ rf.snapshot_index)
        × (made.last_applied ≡ rf.snapshot_index)
        × (made.shutdown ≡ false)
  unfolding make
  make-SameState rf saved = rw (read_persist_lem _ rf rf.persister.raftstate saved) (
    record {
      current_term = refl;
      voted_for = refl;
      logs = refl;
      snapshot_index = refl;
      snapshot_term = refl;
    },
    refl,
    refl,
    refl,
    refl,
  )

  pub persist-IsDurable : (rf : Raft C B) → IsDurable (persist gob rf)
  unfolding persist state_data
  persist-IsDurable rf = refl

  pub vote-IsDurable :
      (rf : Raft C B) (args : RequestVoteArgs) (index term : ℕ)
      → IsDurable (vote gob rf args index term).0
  unfolding vote persist state_data
  vote-IsDurable rf args index term = ground arith

  pub append_matched-IsDurable :
      (rf : Raft C B) (args : AppendEntriesArgs C) (i : ℕ) {out : Out C B AppendEntriesReply}
      → append_matched gob rf args i ≡ some out
      → IsDurable out.0
  unfolding append_matched persist state_data
  append_matched-IsDurable rf args i h = ground arith

  pub append_refused-IsDurable :
      (rf : Raft C B) (i t : ℕ) {out : Out C B AppendEntriesReply}
      → append_refused gob rf i t ≡ some out
      → IsDurable out.0
  unfolding append_refused persist state_data
  append_refused-IsDurable rf i t h = ground arith

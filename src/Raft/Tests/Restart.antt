-- ===== src/Raft/Tests/Restart.antt =====
-- Crashes and restarts of a peer of raft/raft.go, on a concrete peer.
use golang_deep_distributed.Prelude.{ℕ, ◌≡◌, refl, none, some, [], ◌∷◌}
use golang_deep_distributed.Raft.State.{Raft, candidate, int, peer, entries, RequestVoteArgs}
use golang_deep_distributed.Raft.Persist.{state_data}
use golang_deep_distributed.Raft.Vote.{request_vote}
use golang_deep_distributed.Raft.OneVote.{ask_vote, serve}
use golang_deep_distributed.Raft.Durability.{IsDurable}
use golang_deep_distributed.Raft.Recovery.{serve-IsDurable}
use golang_deep_distributed.Raft.Tests.{Bytes, gob, entry, behind, ballot}

-- A follower with a snapshot up to index 1, all of it saved.
abbrev compacted : Raft ℕ Bytes
compacted = record behind {
  logs = entry 1 7 ∷ [];
  snapshot_index = 1;
  snapshot_term = 1;
  persister = record {
    raftstate = int 1 ∷ peer none ∷ entries (entry 1 7 ∷ []) ∷ int 1 ∷ int 1 ∷ [];
    snapshot = int 7 ∷ [];
  };
}

compacted-IsDurable : IsDurable gob compacted
unfolding state_data
compacted-IsDurable = refl

serve_runs : (rf : Raft ℕ Bytes) × (serve gob (ask_vote (ballot 2 0)) compacted ≡ some (rf, 2 ∷ []))
unfolding request_vote
serve_runs = (_, refl)

serve-IsDurable_example : IsDurable gob serve_runs.0
serve-IsDurable_example =
    serve-IsDurable gob (ask_vote (ballot 2 0)) compacted serve_runs.0 (2 ∷ []) compacted-IsDurable
      tt serve_runs.1

abbrev candidacy : RequestVoteArgs
candidacy = record { term = 2; candidate_id = 1; last_log_index = 1; last_log_term = 1 }

abbrev compacted_candidate : Raft ℕ Bytes
compacted_candidate = record compacted { voted_for = some 1; current_term = 2; state = candidate }

-- ===== src/Raft/Tests/Lapses.antt =====
-- A leader that votes again, a candidate that counts late votes, and a peer that forgets committed
-- entries, at concrete peers.
use golang_deep_distributed.Prelude.{
  ℕ, ◌<◌, ◌≡◌, refl, inr, true, false, some, List, [], ◌∷◌, arith,
}
use golang_deep_distributed.Raft.State.{
  Raft, RequestVoteArgs, RequestVoteReply, AppendEntriesReply, Effect, Out, leader, follower,
  AppendEntriesArgs, last_index, last_log_index_and_term,
}
use golang_deep_distributed.Raft.Vote.{Canvass, canvass_votes, request_vote}
use golang_deep_distributed.Raft.Leader.{append_reply_handler}
use golang_deep_distributed.Raft.Election.{count_votes, granted}
use golang_deep_distributed.Raft.Append.{append_entries}
use golang_deep_distributed.Raft.Stale.{stale_append_uncommits}
use golang_deep_distributed.Raft.Lapses.{leader_votes_again, late_votes-leader}
use golang_deep_distributed.Raft.Tests.{Bytes, gob, head, ballot}

abbrev refusal : AppendEntriesReply
refusal = record { current_term = 3; success = false; conflict_term = 0; first_index = 0 }

ends : last_log_index_and_term head ≡ some (2, 2)
unfolding last_log_index_and_term
ends = refl

leader_votes_again_example :
    (rf' : Raft ℕ Bytes) × (es : List (Effect ℕ Bytes)) × (append_reply_handler gob 1 refusal head
      ≡ some (rf', es))
    × (rf'.current_term ≡ 2)
    × ((out : Out ℕ Bytes RequestVoteReply) × (request_vote gob rf' (ballot 2 1) ≡ some out)
        × (granted gob out ≡ true))
leader_votes_again_example =
    leader_votes_again gob head 1 refusal (ballot 2 1) {index = 2} {term = 2} refl refl refl
      (omega arith) ends refl (inr (refl, omega arith))

asks :
    (c : Canvass ℕ Bytes) × (args : RequestVoteArgs) × (es : List (Effect ℕ Bytes)) × (canvass_votes
        head
      ≡ some (c, args, es))
unfolding canvass_votes
asks = (_, _, _, refl)

asks_again :
    (c : Canvass ℕ Bytes) × (args : RequestVoteArgs) × (es : List (Effect ℕ Bytes)) × (canvass_votes
        asks.0.rf
      ≡ some (c, args, es))
unfolding canvass_votes asks
asks_again = (_, _, _, refl)

abbrev late_yes : RequestVoteReply
late_yes = record { current_term = 0; vote_granted = true }

late_votes-leader_example :
    let late =
      count_votes gob asks.1
        (late_yes ∷ [])
        (record { rf = asks_again.0.rf; votes = asks.0.votes }) in
    (asks.1.term < asks_again.1.term)
    × (late.rf.state ≡ leader)
    × (late.rf.current_term ≡ asks_again.1.term)
unfolding asks
late_votes-leader_example =
    late_votes-leader gob head asks.0 asks_again.0 asks.1 asks_again.1 asks.2 asks_again.2
      (late_yes ∷ []) asks.3 asks_again.3 (omega arith) (omega arith, tt) (omega arith)

abbrev committed : Raft ℕ Bytes
committed = record head { state = follower; commit_index = 2 }

abbrev old_heartbeat : AppendEntriesArgs ℕ
old_heartbeat = record {
  term = 2;
  leader_id = 1;
  prev_log_index = 0;
  prev_log_term = 0;
  entries = [];
  leader_commit = 0;
}

stale_append_uncommits_example :
    (out : Out ℕ Bytes AppendEntriesReply) × (append_entries gob committed old_heartbeat ≡ some out)
    × (out.1.success ≡ true)
    × (out.0.commit_index ≡ 2)
    × (last_index out.0 < out.0.commit_index)
stale_append_uncommits_example =
    stale_append_uncommits gob committed old_heartbeat refl (omega arith) (omega arith) refl refl
      (omega arith) (omega arith)

-- ===== src/Raft/Cluster/Tests.antt =====
-- An election in a cluster of three peers.
use golang_deep_distributed.Prelude.{ℕ, ◌≡◌, refl, none, some, List, arith}
use golang_deep_distributed.Raft.State.{Raft, RequestVoteArgs, RequestVoteReply, leader, Effect}
use golang_deep_distributed.Raft.Vote.{Canvass, canvass_votes, request_vote, vote_reply_handler}
use golang_deep_distributed.Raft.Persist.{make}
use golang_deep_distributed.Raft.Tests.{Bytes, gob, fresh}
use golang_deep_distributed.Raft.Cluster.{
  update, Mail, Cluster, IsInitial, ask, give, receive, Reach, here, next,
}
use golang_deep_distributed.Raft.Cluster.Safety.{election_safety}

abbrev pub made : Cluster ℕ Bytes
made = record { peer = fresh 3; canvass_term = λ i. 0; votes = λ i. 0; mail = λ k. none }

pub made-IsInitial : IsInitial 3 made
unfolding make
made-IsInitial = record {
  follows = λ i. refl;
  knows_n = λ i. refl;
  knows_me = λ i. refl;
  no_votes = λ i. refl;
  no_mail = λ k. refl;
}

unfoldable pub asks :
    (c : Canvass ℕ Bytes) × (args : RequestVoteArgs) × (es : List (Effect ℕ Bytes)) × (canvass_votes
        (fresh 3 0)
      ≡ some (c, args, es))
unfolding canvass_votes make
asks = (_, _, _, refl)

abbrev pub asking : Cluster ℕ Bytes
asking = record made {
  peer = update made.peer 0 asks.0.rf;
  canvass_term = update made.canvass_term 0 asks.1.term;
  votes = update made.votes 0 asks.0.votes;
}

unfoldable pub gives :
    (rf : Raft ℕ Bytes) × (reply : RequestVoteReply) × (es : List (Effect ℕ Bytes)) × (request_vote
        gob
        (fresh 3 1)
        asks.1
      ≡ some (rf, reply, es))
unfolding request_vote make asks
gives = (_, _, _, refl)

abbrev pub vote_mail : Mail
vote_mail = record { voter = 1; args = asks.1; reply = gives.1 }

abbrev pub answered : Cluster ℕ Bytes
answered = record asking {
  peer = update asking.peer 1 gives.0;
  mail = update asking.mail 7 (some vote_mail);
}

unfoldable pub wins :
    (c : Canvass ℕ Bytes) × (es : List (Effect ℕ Bytes)) × (vote_reply_handler gob asks.1 gives.1
        asks.0
      ≡ (c, es))
    × (c.rf.state ≡ leader)
unfolding vote_reply_handler asks gives make
wins = (_, _, refl, refl)

abbrev pub decided : Cluster ℕ Bytes
decided = record answered {
  peer = update answered.peer 0 wins.0.rf;
  votes = update answered.votes 0 wins.0.votes;
  mail = update answered.mail 7 none;
}

pub decided-Reach : Reach gob 3 decided
unfolding asks
decided-Reach =
    next
      (next (next (here made-IsInitial) (ask 0 asks.0 asks.1 asks.2 (omega arith) asks.3 refl))
        (give 1 7 asks.1 gives.0 gives.1 gives.2 (omega arith) refl gives.3 refl))
      (receive 7 vote_mail wins.0 wins.1 refl (omega arith) refl refl wins.2 refl)

election_safety_example : ◌≡◌ {A = ℕ} 0 0
election_safety_example = election_safety gob 3 decided-Reach 0 0 wins.3 wins.3 refl

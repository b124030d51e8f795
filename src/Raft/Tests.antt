-- ===== src/Raft/Tests.antt =====
-- Concrete peers of raft/raft.go, runs of the handlers on them, and the theorems at these inputs.
pub mod Logs
pub mod Restart
pub mod Lapses
pub mod Daemon
use golang_deep_distributed.Prelude.{
  ℕ, zero, suc, ◌+◌, ◌*◌, ◌≤◌, ◌<◌, ◌≡◌, refl, ◌↔◌, ◌⊎◌, inl, true, false, none, some, List, [],
  ◌∷◌, arith, length, get_elem?, lt_of_get_elem?,
}
use golang_deep_distributed.Persister.{Gob}
use golang_deep_distributed.Raft.State.{
  last_index, Raft, LogEntry, follower, candidate, leader, Value, int, peer, entries, Out, Effect,
  reset_timer, broadcast, send_append_entries, RequestVoteArgs, RequestVoteReply, AppendEntriesArgs,
  AppendEntriesReply, log_at, last_log_index_and_term,
}
use golang_deep_distributed.Raft.Persist.{make, state_data}
use golang_deep_distributed.Raft.Vote.{Canvass, request_vote, fill_request_vote_args}
use golang_deep_distributed.Raft.Append.{append_entries}
use golang_deep_distributed.Raft.Leader.{
  update_commit_index, consistency_check, append_args, append_reply_handler,
}
use golang_deep_distributed.Raft.Election.{
  HasVote, IsUpToDate, granted, request_vote_iff, count_votes, count_votes_iff,
}
use golang_deep_distributed.Raft.OneVote.{ask_vote, serve_all, serve, GrowsFrom, next_vote, append}
use golang_deep_distributed.Raft.Totality.{HasFirst, serve_all_total}
use golang_deep_distributed.Raft.Commit.{
  IsCommittable, update_commit_index-IsCommittable, update_commit_index_half,
}
use golang_deep_distributed.Raft.Sorting.{count_ge}
use golang_deep_distributed.Raft.Replication.{Matches, replicate_round}
use golang_deep_distributed.Raft.Backtrack.{IsHint, IsReal, append_entries-IsHint}
use golang_deep_distributed.Raft.Probing.{probe_moves_back}
use golang_deep_distributed.Raft.Durability.{IsDurable, SameState, make-SameState}
use golang_deep_distributed.Raft.Recovery.{serve-IsDurable, restarted}

-- An encoder whose buffer is the list of values.
abbrev pub Bytes : Type 0
Bytes = List (Value ℕ)

abbrev pub gob : Gob (Value ℕ) Bytes
gob = record {
  nil = [];
  len = length;
  encode = λ vs. vs;
  decode = λ vs. vs;
  len-nil = refl;
  len-encode = λ v vs. omega arith;
  decode-encode = λ vs. refl;
}

abbrev pub entry : ℕ → ℕ → LogEntry ℕ
entry t c = record { term = t; command = some c }

abbrev pub placeholder : LogEntry ℕ
placeholder = record { term = 0; command = none }

abbrev pub fresh : ℕ → ℕ → Raft ℕ Bytes
fresh peers me = make gob peers me (record { raftstate = []; snapshot = [] })

-- The leader of term 2 in a cluster of three.
abbrev pub head : Raft ℕ Bytes
head = record {
  peers = 3;
  persister = record { raftstate = []; snapshot = [] };
  me = 0;
  shutdown = false;
  state = leader;
  current_term = 2;
  voted_for = some 0;
  logs = placeholder ∷ entry 1 7 ∷ entry 2 8 ∷ [];
  commit_index = 1;
  last_applied = 1;
  next_index = 3 ∷ 2 ∷ 3 ∷ [];
  match_index = 2 ∷ 1 ∷ 2 ∷ [];
  snapshot_index = 0;
  snapshot_term = 0;
}

-- Two followers that lack the entry of term 2.
abbrev pub behind : Raft ℕ Bytes
behind = record head {
  me = 1;
  state = follower;
  current_term = 1;
  voted_for = none;
  logs = placeholder ∷ entry 1 7 ∷ [];
}

abbrev lagging : Raft ℕ Bytes
lagging = record behind { me = 2 }

abbrev pub request : AppendEntriesArgs ℕ
request = record {
  term = 2;
  leader_id = 0;
  prev_log_index = 1;
  prev_log_term = 1;
  entries = entry 2 8 ∷ [];
  leader_commit = 1;
}

check_runs : consistency_check head 1 ≡ some (head, send_append_entries 1 request ∷ [])
unfolding consistency_check
check_runs = refl

abbrev accepted : Out ℕ Bytes AppendEntriesReply
accepted = (
  record behind {
    current_term = 2;
    voted_for = some 0;
    logs = head.logs;
    persister = record {
      raftstate = int 2 ∷ peer (some 0) ∷ entries head.logs ∷ int 0 ∷ int 0 ∷ [];
      snapshot = [];
    };
  },
  record { current_term = 0; success = true; conflict_term = 2; first_index = 2 },
  reset_timer ∷ [],
)

append_runs : append_entries gob behind request ≡ some accepted
unfolding append_entries
append_runs = refl

behind-Matches : Matches behind (log_at head)
behind-Matches i mine theirs at at' t zero low le = refl
behind-Matches i mine theirs at at' t (suc zero) low le = refl
behind-Matches i mine theirs at at' t (suc (suc j)) low le =
    absurd (omega (arith, le, lt_of_get_elem? behind.logs i {x = mine} (ground arith)))

replicate_round_example :
    (last_index accepted.0 ≡ last_index head)
    × ((j : ℕ) → accepted.0.snapshot_index ≤ j → log_at accepted.0 j ≡ log_at head j)
replicate_round_example =
    replicate_round gob head behind 1 {l' = head} {args = request} accepted (omega arith) check_runs
      behind-Matches append_runs refl

abbrev pub ballot : ℕ → ℕ → RequestVoteArgs
ballot term id = record { term = term; candidate_id = id; last_log_index = 2; last_log_term = 2 }

abbrev yes_vote : RequestVoteReply
yes_vote = record { current_term = 0; vote_granted = true }

request_vote_iff_example :
    (out : Out ℕ Bytes RequestVoteReply) × (request_vote gob behind (ballot 2 0) ≡ some out)
    × ((granted gob out ≡ true) ↔ (HasVote gob behind (ballot 2 0) × IsUpToDate (ballot 2 0) 1 1))
unfolding last_log_index_and_term
request_vote_iff_example = request_vote_iff gob behind (ballot 2 0) {index = 1} {term = 1} refl refl

-- Three candidates ask, two of them in the same term: two votes.
serve_all_runs :
    (rf : Raft ℕ Bytes) × (serve_all gob
        (ask_vote (ballot 2 0) ∷ ask_vote (ballot 2 2) ∷ ask_vote (ballot 4 2) ∷ [])
        behind
      ≡ some (rf, 2 ∷ 4 ∷ []))
unfolding serve_all request_vote
serve_all_runs = (_, refl)

serve_all_total_example :
    let rpcs = ask_vote (ballot 2 0) ∷ ask_vote (ballot 2 2) ∷ append request ∷ [] in
    (r : Raft ℕ Bytes × List ℕ) × (serve_all gob rpcs behind ≡ some r)
    × HasFirst r.0
    × GrowsFrom (next_vote behind) r.1
serve_all_total_example =
    serve_all_total gob (ask_vote (ballot 2 0) ∷ ask_vote (ballot 2 2) ∷ append request ∷ []) behind
      (omega arith)

abbrev standing : Canvass ℕ Bytes
standing = record { rf = record behind { state = candidate; current_term = 2 }; votes = 1 }

count_votes_iff_example :
    ((count_votes gob (ballot 2 1) (yes_vote ∷ []) standing).rf.state ≡ leader) ↔ (3 < 2 * (1 + 1))
count_votes_iff_example =
    count_votes_iff gob (ballot 2 1) (yes_vote ∷ []) standing (refl, omega arith) (omega arith, tt)

update_commit_index_runs :
    update_commit_index head ≡ some (record head { commit_index = 2 }, broadcast ∷ [])
unfolding update_commit_index
update_commit_index_runs = refl

abbrev wake : List (Effect ℕ Bytes)
wake = broadcast ∷ []

update_commit_index-IsCommittable_example :
    ◌≡◌ {A = ℕ} 2 1 ⊎ ((1 < 2) × IsCommittable head 2 × (wake ≡ broadcast ∷ []))
update_commit_index-IsCommittable_example =
    update_commit_index-IsCommittable head {rf' = record head { commit_index = 2 }} {effects = wake}
      refl refl update_commit_index_runs

-- Two of four peers hold the entry.
abbrev even : Raft ℕ Bytes
even = record head { peers = 4; match_index = 2 ∷ 1 ∷ 2 ∷ 1 ∷ [] }

update_commit_index_half_example :
    (update_commit_index even ≡ some (record even { commit_index = 2 }, broadcast ∷ []))
    × ¬ (4 < 2 * count_ge 2 even.match_index)
update_commit_index_half_example =
    update_commit_index_half even 2 0 2 {entry = entry 2 8} refl refl refl refl (omega arith)
      (omega arith) refl refl

-- The probe for index 2 at a follower whose log ends at index 1.
abbrev probe : AppendEntriesArgs ℕ
probe = record request { prev_log_index = 2; prev_log_term = 2; entries = [] }

abbrev refused : Out ℕ Bytes AppendEntriesReply
refused = (
  record lagging {
    current_term = 2;
    voted_for = some 0;
    persister = record {
      raftstate = int 2 ∷ peer (some 0) ∷ entries lagging.logs ∷ int 0 ∷ int 0 ∷ [];
      snapshot = [];
    };
  },
  record { current_term = 0; success = false; conflict_term = 1; first_index = 2 },
  reset_timer ∷ [],
)

refused_runs : append_entries gob lagging probe ≡ some refused
unfolding append_entries
refused_runs = refl

probe_runs : append_args head 3 ≡ some probe
unfolding append_args
probe_runs = refl

lagging-IsReal : IsReal lagging 2
lagging-IsReal entry at = ground arith

probe_moves_back_example :
    (r : Raft ℕ Bytes × List (Effect ℕ Bytes)) × (append_reply_handler gob 2 refused.1 head
      ≡ some r)
    × ((new : ℕ) × (get_elem? r.0.next_index 2 ≡ some new) × (new < 3))
probe_moves_back_example =
    probe_moves_back gob head lagging 2 3 probe refused refl (omega arith) refl (omega arith)
      probe_runs (omega arith) refl (omega arith) (omega arith) lagging-IsReal refused_runs refl

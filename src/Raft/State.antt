-- ===== src/Raft/State.antt =====
-- raft/raft.go: the data of a Raft peer, its RPC messages, and its persistent state.
--
-- Terms, log indices and peer numbers are Go's `int`; the code never makes them negative except for
-- the two uses of -1 below, so they are natural numbers. `VotedFor` is -1 (`none`) or a peer.
-- A command is an `interface{}` that may be nil: an `Option` of the service's type `C`.
use golang_deep_distributed.Prelude.{
  ℕ, ◌+◌, ◌-◌, Bool, true, false, Option, none, some, List, ltb, if◌then◌else◌, ◌>>=◌, length,
  get_elem?, take, drop,
}
use golang_deep_distributed.Persister.{Persister}

pub record LogEntry (C : Type 0) : Type 0 where
  pub term : ℕ
  pub command : Option C

-- The constants `Follower`, `Candidate`, `Leader`.
pub data Role : Type 0 where
  follower candidate leader : Role

pub record ApplyMsg (C B : Type 0) : Type 0 where
  pub command_valid : Bool
  pub command : Option C
  pub command_index : ℕ
  pub use_snapshot : Bool
  pub snapshot : B

pub record RequestVoteArgs : Type 0 where
  pub term : ℕ
  pub candidate_id : ℕ
  pub last_log_index : ℕ
  pub last_log_term : ℕ

pub record RequestVoteReply : Type 0 where
  pub current_term : ℕ
  pub vote_granted : Bool

pub record AppendEntriesArgs (C : Type 0) : Type 0 where
  pub term : ℕ
  pub leader_id : ℕ
  pub prev_log_index : ℕ
  pub prev_log_term : ℕ
  pub entries : List (LogEntry C)
  pub leader_commit : ℕ

pub record AppendEntriesReply : Type 0 where
  pub current_term : ℕ
  pub success : Bool
  pub conflict_term : ℕ
  pub first_index : ℕ

pub record InstallSnapshotArgs (B : Type 0) : Type 0 where
  pub term : ℕ
  pub leader_id : ℕ
  pub last_included_index : ℕ
  pub last_included_term : ℕ
  pub snapshot : B

pub record InstallSnapshotReply : Type 0 where
  pub current_term : ℕ

-- The struct `Raft`. `peers` is the number of end points; `shutdown` says that `shutdownCh` is
-- closed, which is also what `dead` says.
pub record Raft (C B : Type 0) : Type 0 where
  pub peers : ℕ
  pub persister : Persister B
  pub me : ℕ
  pub shutdown : Bool
  pub state : Role
  pub current_term : ℕ
  pub voted_for : Option ℕ
  pub logs : List (LogEntry C)
  pub commit_index : ℕ
  pub last_applied : ℕ
  pub next_index : List ℕ
  pub match_index : List ℕ
  pub snapshot_index : ℕ
  pub snapshot_term : ℕ

-- What an operation does outside the struct: sends on channels, and goroutines that it starts.
pub data Effect (C B : Type 0) : Type 0 where
  reset_timer : Effect C B
  broadcast : Effect C B
  apply : ApplyMsg C B → Effect C B
  send_append_entries : ℕ → AppendEntriesArgs C → Effect C B
  send_install_snapshot : ℕ → InstallSnapshotArgs B → Effect C B
  send_request_vote : ℕ → RequestVoteArgs → Effect C B
  start_heartbeat : Effect C B
  start_check : ℕ → Effect C B

-- The values that `persist` writes with one encoder.
pub data Value (C : Type 0) : Type 0 where
  int : ℕ → Value C
  peer : Option ℕ → Value C
  entries : List (LogEntry C) → Value C

-- The result of an operation: the new struct, its reply, its effects in order.
abbrev pub Out : Type 0 → Type 0 → Type 0 → Type 0
Out C B R = Raft C B × R × List (Effect C B)

abbrev pub is_leader : Role → Bool
is_leader leader = true
is_leader _ = false

abbrev pub is_candidate : Role → Bool
is_candidate candidate = true
is_candidate _ = false

abbrev pub no_vote : RequestVoteReply
no_vote = record { current_term = 0; vote_granted = false }

abbrev pub no_append : AppendEntriesReply
no_append = record { current_term = 0; success = false; conflict_term = 0; first_index = 0 }

module _ {A : Type 0} where
  -- `xs[n:]` and `xs[:n]`, a fault where `n` is out of range. Go allows `xs[:n]` up to the capacity: a
  -- use that may ask for more than the length is given what the array holds beyond it as well.
  abbrev pub slice_from : List A → ℕ → Option (List A)
  slice_from xs n = if ltb (length xs) n then none else some (drop n xs)

  abbrev pub slice_to : List A → ℕ → Option (List A)
  slice_to xs n = if ltb (length xs) n then none else some (take n xs)

module _ {C B : Type 0} where
  -- `rf.Logs[i-rf.snapshotIndex]`, a fault where Go panics.
  abbrev pub log_at : Raft C B → ℕ → Option (LogEntry C)
  log_at rf i = if ltb i rf.snapshot_index then none else get_elem? rf.logs (i - rf.snapshot_index)

  -- The index of the last entry, `rf.snapshotIndex + len(rf.Logs) - 1`.
  abbrev pub last_index : Raft C B → ℕ
  last_index rf = rf.snapshot_index + length rf.logs - 1

  unfoldable pub last_log_index_and_term : Raft C B → Option (ℕ × ℕ)
  last_log_index_and_term rf = do
    let index = rf.snapshot_index + length rf.logs - 1
    entry ← get_elem? rf.logs (index - rf.snapshot_index)
    some (index, entry.term)

  unfoldable pub turn_to_follow : Raft C B → Raft C B
  turn_to_follow rf = record rf { state = follower; voted_for = none }

  unfoldable pub get_state : Raft C B → ℕ × Bool
  get_state rf = (rf.current_term, is_leader rf.state)

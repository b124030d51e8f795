-- ===== src/Raft/Cluster/Logs.antt =====
-- A cluster of raft/raft.go with the AppendEntries requests that leaders sent: a request may come late,
-- more than once, out of order, at any peer, or never.
--
-- Snapshots are left out: no peer compacts its log or installs a snapshot.
use golang_deep_distributed.Prelude.{ℕ, ◌≤◌, ◌<◌, ◌≡◌, Option, none, some, List, [], ◌∷◌}
use golang_deep_distributed.Persister.{Gob}
use golang_deep_distributed.Raft.State.{
  LogEntry, Raft, Value, Effect, AppendEntriesArgs, AppendEntriesReply, ApplyMsg,
  send_append_entries,
}
use golang_deep_distributed.Raft.Append.{append_entries}
use golang_deep_distributed.Raft.Leader.{start, append_reply_handler, kill, consistency_check}
use golang_deep_distributed.Raft.Apply.{apply_log_entries}
use golang_deep_distributed.Raft.Cluster.{
  Cluster, IsInitial, Step, ask, give, receive, lose, work, update, Work,
}

-- Each request that was sent has a slot of its own.
pub record Sending (C B : Type 0) : Type 0 where
  pub cluster : Cluster C B
  pub sent : ℕ → Option (AppendEntriesArgs C)

-- Every log has only the placeholder that Make puts there.
pub record IsEmpty {C B : Type 0} (s : Sending C B) : Type 0 where
  pub logs : (i : ℕ) → (s.cluster.peer i).logs ≡ record { term = 0; command = none } ∷ []
  pub snapshots : (i : ℕ) → (s.cluster.peer i).snapshot_index ≡ 0
  pub sent : (k : ℕ) → s.sent k ≡ none

module _ {C B : Type 0} (gob : Gob (Value C) B) where
  -- A step of the cluster that is about votes.
  abbrev pub IsVote : {n : ℕ} {s s' : Cluster C B} → Step gob n s s' → Type 0
  IsVote (ask i c args es lt h e) = Unit
  IsVote (give i k args rf' reply es lt free h e) = Unit
  IsVote (receive k m c es there lt now running h e) = Unit
  IsVote (lose k e) = Unit
  IsVote (work i rf' lt w e) = ⊥

  -- A call at one peer that is not about votes, where the requests are those that were sent.
  pub data Call (sent : ℕ → Option (AppendEntriesArgs C)) (rf rf' : Raft C B) : Type 0 where
    deliver :
        (k : ℕ) (args : AppendEntriesArgs C) (reply : AppendEntriesReply) (es : List (Effect C B))
        → sent k ≡ some args
        → append_entries gob rf args ≡ some (rf', reply, es)
        → Call sent rf rf'
    answer :
        (to : ℕ) (reply : AppendEntriesReply) (es : List (Effect C B))
        → reply.current_term ≤ rf.current_term
        → append_reply_handler gob to reply rf ≡ some (rf', es)
        → Call sent rf rf'
    submit : (command : C) → rf' ≡ (start gob rf command).0 → Call sent rf rf'
    report :
        (nil_bytes : B) (beyond : List (LogEntry C)) (msgs : List (ApplyMsg C B))
        → apply_log_entries nil_bytes beyond rf ≡ some (rf', msgs)
        → Call sent rf rf'
    halt : (es : List (Effect C B)) → kill rf ≡ some (rf', es) → Call sent rf rf'

  pub data LogStep (n : ℕ) (s s' : Sending C B) : Type 0 where
    vote : (st : Step gob n s.cluster s'.cluster) → IsVote st → s'.sent ≡ s.sent → LogStep n s s'
    call :
        (i : ℕ) (rf' : Raft C B)
        → i < n
        → Call s.sent (s.cluster.peer i) rf'
        → s' ≡ record s { cluster = record s.cluster { peer = update s.cluster.peer i rf' } }
        → LogStep n s s'
    send :
        (i to k : ℕ) (rf' : Raft C B) (args : AppendEntriesArgs C)
        → s.sent k ≡ none
        → consistency_check (s.cluster.peer i) to ≡ some (rf', send_append_entries to args ∷ [])
        → s' ≡ record s { sent = update s.sent k (some args) }
        → LogStep n s s'

  pub data LogReach (n : ℕ) : Sending C B → Type 0 where
    initial : {s : Sending C B} → IsInitial n s.cluster → IsEmpty s → LogReach n s
    move : {s s' : Sending C B} → LogReach n s → LogStep n s s' → LogReach n s'

  pub Call-Work :
      {sent : ℕ → Option (AppendEntriesArgs C)} {rf rf' : Raft C B}
      → Call sent rf rf'
      → Work gob rf rf'
  Call-Work (deliver k args r es there h) = Work.append args r es h
  Call-Work (answer to r es le h) = Work.append_reply to r es le h
  Call-Work (submit command h) = Work.begin command h
  Call-Work (report nil_bytes beyond msgs h) = Work.apply nil_bytes beyond msgs h
  Call-Work (halt es h) = Work.stop es h

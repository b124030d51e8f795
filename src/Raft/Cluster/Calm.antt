-- ===== src/Raft/Cluster/Calm.antt =====
-- What calls of raft/raft.go do to a peer's log, term and role.
use golang_deep_distributed.Prelude.{
  ℕ, zero, suc, ◌+◌, ◌-◌, ◌≤◌, ◌<◌, ◌≡◌, refl, ◌≢◌, ◌⊎◌, inl, inr, not, ◌&&◌, none, some, List, [],
  ◌∷◌, ◌++◌, arith, ◌==◌, if◌then◌else◌, Bool-cases, Option-cases, length, get_elem?, set, take,
}
use golang_deep_distributed.Persister.{Gob}
use golang_deep_distributed.Raft.State.{
  Raft, LogEntry, Value, Effect, AppendEntriesArgs, AppendEntriesReply, RequestVoteArgs,
  RequestVoteReply, ApplyMsg, candidate, leader, is_leader, turn_to_follow, last_log_index_and_term,
}
use golang_deep_distributed.Raft.Persist.{persist}
use golang_deep_distributed.Raft.Vote.{
  Canvass, canvass_votes, fill_request_vote_args, vote, request_vote, adopt_term,
  vote_reply_handler,
}
use golang_deep_distributed.Raft.Leader.{
  start, append_reply_handler, update_commit_index, conflict_next, refused_next, kill, reset_peers,
  reset_on_election,
}
use golang_deep_distributed.Raft.Apply.{apply_log_entries}

module _ {C B : Type 0} where
  -- The log stays, and who leads or stands afterwards did so before or is in a later term.
  pub record Calm (rf rf' : Raft C B) : Type 0 where
    pub logs : rf'.logs ≡ rf.logs
    pub snapshot : rf'.snapshot_index ≡ rf.snapshot_index
    pub term : rf.current_term ≤ rf'.current_term
    pub lead : rf'.state ≡ leader → (rf.state ≡ leader) × (rf'.current_term ≡ rf.current_term)
    pub stand :
        rf'.state ≡ candidate → (rf.state ≡ candidate) ⊎ (rf.current_term < rf'.current_term)

  pub Calm-trans : {a b c : Raft C B} → Calm a b → Calm b c → Calm a c
  Calm-trans p q = ground arith

  -- A request was taken over: the log up to the entry before its entries, and these.
  pub record Matched (rf rf' : Raft C B) (args : AppendEntriesArgs C) : Type 0 where
    pub prev : LogEntry C
    pub at : get_elem? rf.logs args.prev_log_index ≡ some prev
    pub same : prev.term ≡ args.prev_log_term
    pub logs : rf'.logs ≡ take (args.prev_log_index + 1) rf.logs ++ args.entries
    pub snapshot : rf'.snapshot_index ≡ rf.snapshot_index
    pub term : rf.current_term ≤ rf'.current_term
    pub lead : rf'.state ≢ leader
    pub stand : rf'.state ≡ candidate → rf.state ≡ candidate

  -- `Start` at a leader puts one entry of its term at the end of its log; elsewhere it changes nothing.
  abbrev pub Submitted : Raft C B → Raft C B → C → Type 0
  Submitted rf rf' command =
      (rf.state ≡ leader)
      × (rf'.logs ≡ rf.logs ++ record { term = rf.current_term; command = some command } ∷ [])
      × (rf'.snapshot_index ≡ rf.snapshot_index)
      × (rf'.current_term ≡ rf.current_term)
      × (rf'.state ≡ rf.state)

  -- A request that a leader sends: an entry of its log, and those after it.
  pub record Sends (rf : Raft C B) (args : AppendEntriesArgs C) : Type 0 where
    pub leads : rf.state ≡ leader
    pub term : args.term ≡ rf.current_term
    pub prev : LogEntry C
    pub at : get_elem? rf.logs args.prev_log_index ≡ some prev
    pub same : prev.term ≡ args.prev_log_term
    pub entries :
        (j : ℕ)
        → get_elem? args.entries j ≢ none
        → get_elem? rf.logs (args.prev_log_index + 1 + j) ≡ get_elem? args.entries j

  pub canvass_votes-Calm :
      (rf : Raft C B) {c : Canvass C B} {args : RequestVoteArgs} {es : List (Effect C B)}
      → canvass_votes rf ≡ some (c, args, es)
      → Calm rf c.rf
  unfolding canvass_votes fill_request_vote_args last_log_index_and_term
  canvass_votes-Calm rf h = ground arith

  pub Calm-self : (rf : Raft C B) → Calm rf rf
  Calm-self rf = ground arith

module _ {C B : Type 0} (gob : Gob (Value C) B) where
  vote-Calm :
      (rf : Raft C B) (args : RequestVoteArgs) (index term : ℕ)
      → Calm rf (vote gob rf args index term).0
  unfolding vote adopt_term persist
  vote-Calm rf args index term = ground arith

  pub request_vote-Calm :
      (rf : Raft C B) (args : RequestVoteArgs) {rf' : Raft C B} {reply : RequestVoteReply}
      {es : List (Effect C B)}
      → request_vote gob rf args ≡ some (rf', reply, es)
      → Calm rf rf'
  unfolding request_vote
  request_vote-Calm rf args h = elim (Option-cases (last_log_index_and_term rf)) [
    | inl e ↦ ground (arith, e)
    | inr ((i, t), e) ↦ ground (arith, e, vote-Calm rf args i t)
  ]

  reset_peers-logs :
      (n i len : ℕ) (rf : Raft C B)
      → let rf' = reset_peers n i len rf in
        (rf'.state ≡ rf.state)
        × (rf'.current_term ≡ rf.current_term)
        × (rf'.logs ≡ rf.logs)
        × (rf'.snapshot_index ≡ rf.snapshot_index)
  unfolding reset_peers
  reset_peers-logs zero i len rf = (refl, refl, refl, refl)
  reset_peers-logs (suc n) i len rf = reset_peers-logs n (i + 1) len (record rf {
    match_index = set rf.match_index i (if i == rf.me then len - 1 else 0);
    next_index = set rf.next_index i len;
  })

  -- A vote reply leaves the peer calm, or makes a candidate the leader of its term.
  pub vote_reply_handler-Calm :
      (args : RequestVoteArgs) (reply : RequestVoteReply) (c : Canvass C B) {c' : Canvass C B}
      {es : List (Effect C B)}
      → c.rf.current_term ≡ args.term
      → vote_reply_handler gob args reply c ≡ (c', es)
      → Calm c.rf c'.rf
        ⊎ ((c.rf.state ≡ candidate)
            × (c'.rf.state ≡ leader)
            × (c'.rf.logs ≡ c.rf.logs)
            × (c'.rf.snapshot_index ≡ c.rf.snapshot_index)
            × (c'.rf.current_term ≡ c.rf.current_term))
  unfolding vote_reply_handler turn_to_follow persist reset_on_election
  vote_reply_handler-Calm args reply c now h =
      let fields =
        reset_peers-logs c.rf.peers 0 (length c.rf.logs + c.rf.snapshot_index)
          (record c.rf { state = leader }) in
      ground (arith, fields)

  update_commit_index-Calm :
      (rf : Raft C B) {out : Raft C B × List (Effect C B)}
      → update_commit_index rf ≡ some out
      → Calm rf out.0
  unfolding update_commit_index
  update_commit_index-Calm rf h = ground arith

  pub append_reply_handler-Calm :
      (n : ℕ) (reply : AppendEntriesReply) (rf : Raft C B) {out : Raft C B × List (Effect C B)}
      → reply.current_term ≤ rf.current_term
      → append_reply_handler gob n reply rf ≡ some out
      → Calm rf out.0
  unfolding append_reply_handler refused_next
  append_reply_handler-Calm n reply rf {out} old h =
      let counted : Raft C B = record rf {
        match_index = set rf.match_index n reply.first_index;
        next_index = set rf.next_index n (reply.first_index + 1);
      } in
      elim (Option-cases (conflict_next rf reply)) [
        | inl e ↦ ground (arith, e, update_commit_index-Calm counted {out = out})
        | inr (next, e) ↦ ground (arith, e, update_commit_index-Calm counted {out = out})
      ]

  pub apply_log_entries-Calm :
      (nil_bytes : B) (beyond : List (LogEntry C)) (rf : Raft C B) {rf' : Raft C B}
      {msgs : List (ApplyMsg C B)}
      → apply_log_entries nil_bytes beyond rf ≡ some (rf', msgs)
      → Calm rf rf'
  unfolding apply_log_entries
  apply_log_entries-Calm nil_bytes beyond rf h = ground arith

  pub kill-Calm :
      (rf : Raft C B) {rf' : Raft C B} {es : List (Effect C B)}
      → kill rf ≡ some (rf', es)
      → Calm rf rf'
  unfolding kill
  kill-Calm rf h = ground arith

  pub start-Submitted :
      (rf : Raft C B) (command : C)
      → Calm rf (start gob rf command).0 ⊎ Submitted rf (start gob rf command).0 command
  unfolding start persist
  start-Submitted rf command = elim (Bool-cases (not rf.shutdown && is_leader rf.state)) [
    | inl leads ↦ inr (
      ground (arith, leads),
      ground (arith, leads),
      ground (arith, leads),
      ground (arith, leads),
      ground (arith, leads),
    )
    | inr not_leads ↦ inl (ground (arith, not_leads))
  ]

-- ===== src/Raft/Lapses.antt =====
-- Where raft/raft.go lets two peers lead in one term: a peer that forgets its vote, and a candidate
-- that counts the votes of an earlier term.
use golang_deep_distributed.Prelude.{
  ℕ, ◌+◌, ◌*◌, ◌≤◌, ◌<◌, ◌≡◌, refl, sym, inr, true, false, some, List, [], ◌∷◌, arith, length,
}
use golang_deep_distributed.Persister.{Gob}
use golang_deep_distributed.Raft.State.{
  Raft, Value, Effect, reset_timer, Out, RequestVoteArgs, RequestVoteReply, AppendEntriesReply,
  leader, last_log_index_and_term, turn_to_follow,
}
use golang_deep_distributed.Raft.Persist.{persist}
use golang_deep_distributed.Raft.Vote.{
  Canvass, canvass_votes, fill_request_vote_args, request_vote, vote_reply_handler,
}
use golang_deep_distributed.Raft.Leader.{append_reply_handler, reset_on_election}
use golang_deep_distributed.Raft.Election.{
  IsUpToDate, granted, request_vote_iff, count_votes, grants, NoneNewer, IsRunning, count_votes_iff,
}
use golang_deep_distributed.Raft.Cluster.Votes.{reset_peers-Keeps}

module _ {C B : Type 0} (gob : Gob (Value C) B) where
  -- A leader that voted for itself and hears of a later term in a reply to AppendEntries stays in its
  -- term without a vote, and gives its vote in that term again, to any other candidate with a log as up
  -- to date.
  pub leader_votes_again :
      (rf : Raft C B) (n : ℕ) (reply : AppendEntriesReply) (other : RequestVoteArgs)
      {index term : ℕ}
      → rf.shutdown ≡ false
      → rf.state ≡ leader
      → reply.success ≡ false
      → rf.current_term < reply.current_term
      → last_log_index_and_term rf ≡ some (index, term)
      → other.term ≡ rf.current_term
      → IsUpToDate other index term
      → (rf' : Raft C B) × (es : List (Effect C B)) × (append_reply_handler gob n reply rf
          ≡ some (rf', es))
        × (rf'.current_term ≡ rf.current_term)
        × ((out : Out C B RequestVoteReply) × (request_vote gob rf' other ≡ some out)
            × (granted gob out ≡ true))
  unfolding append_reply_handler last_log_index_and_term turn_to_follow persist
  leader_votes_again rf n reply other {index} {term} up lead failed newer last same fresh =
      let rf' = persist gob (turn_to_follow rf) in
      let (out, served, iff) =
        request_vote_iff gob rf' other {index = index} {term = term} up last in
      (
        rf',
        reset_timer ∷ [],
        ground (arith, lead, failed),
        ground arith,
        (out, served, iff.1 (inr (sym same, refl), fresh)),
      )

  count_votes-term :
      (args : RequestVoteArgs) (replies : List RequestVoteReply) (c : Canvass C B)
      → NoneNewer args.term replies
      → (count_votes gob args replies c).rf.current_term ≡ c.rf.current_term
  unfolding count_votes reset_on_election
  count_votes-term args [] c old = refl
  count_votes-term args (reply ∷ replies) c old =
      let rest = count_votes-term args replies (vote_reply_handler gob args reply c).0 old.1 in
      let fields =
        reset_peers-Keeps gob c.rf.peers 0 (length c.rf.logs + c.rf.snapshot_index)
          (record c.rf { state = leader }) in
      ground (arith, rest, fields)

  -- A peer that asks for votes a second time, in a later term, still counts the replies to its first
  -- requests: if these grant most of the votes, it leads in the later term, in which nobody has voted
  -- for it but itself.
  pub late_votes-leader :
      (rf : Raft C B) (c c' : Canvass C B) (args args' : RequestVoteArgs)
      (es es' : List (Effect C B)) (replies : List RequestVoteReply)
      → canvass_votes rf ≡ some (c, args, es)
      → canvass_votes c.rf ≡ some (c', args', es')
      → 2 ≤ rf.peers
      → NoneNewer args.term replies
      → rf.peers < 2 * (1 + grants replies)
      → let late = count_votes gob args replies (record { rf = c'.rf; votes = c.votes }) in
        (args.term < args'.term) × (late.rf.state ≡ leader) × (late.rf.current_term ≡ args'.term)
  unfolding canvass_votes fill_request_vote_args last_log_index_and_term
  late_votes-leader rf c c' args args' es es' replies first second two old most =
      let late : Canvass C B = record { rf = c'.rf; votes = c.votes } in
      let run : IsRunning gob late = ground (arith, first, second) in
      let wins =
        (count_votes_iff gob args replies late run old).1 (ground (arith, first, second)) in
      let term = count_votes-term args replies late old in
      (ground (arith, first, second), wins, ground (arith, term, first, second))

-- ===== src/Raft/Vote.antt =====
-- raft/raft.go: elections. `fillRequestVoteArgs`, the handler `RequestVote`, and `canvassVotes` with
-- its reply handler.
use golang_deep_distributed.Prelude.{
  ℕ, zero, suc, ◌+◌, ◌/◌, Bool, true, false, ◌&&◌, ◌||◌, Option, none, some, List, [], ◌∷◌, ltb,
  leb, ◌==◌, if◌then◌else◌, ◌>>=◌,
}
use golang_deep_distributed.Persister.{Gob}
use golang_deep_distributed.Raft.State.{
  Raft, follower, candidate, leader, Value, Out, Effect, reset_timer, start_heartbeat,
  send_request_vote, RequestVoteArgs, RequestVoteReply, no_vote, last_log_index_and_term,
  is_candidate, turn_to_follow,
}
use golang_deep_distributed.Raft.Persist.{persist}
use golang_deep_distributed.Raft.Leader.{reset_on_election}

-- Whether the candidate's log is at least as up to date as a log that ends at the index and term.
unfoldable pub up_to_date : RequestVoteArgs → ℕ → ℕ → Bool
up_to_date args last_index last_term =
    (args.last_log_term == last_term && leb last_index args.last_log_index)
    || ltb last_term args.last_log_term

abbrev pub is_none {ℓ} : {A : Type ℓ} → Option A → Bool
is_none none = true
is_none (some a) = false

-- The state in which `canvassVotes` counts: the peer, and the votes so far.
pub record Canvass (C B : Type 0) : Type 0 where
  pub rf : Raft C B
  pub votes : ℕ

module _ {C B : Type 0} where
  -- "turn to candidate and vote to itself"
  unfoldable pub fill_request_vote_args : Raft C B → Option (Raft C B × RequestVoteArgs)
  unfolding last_log_index_and_term
  fill_request_vote_args rf = do
    let rf' = record rf {
      voted_for = some rf.me;
      current_term = rf.current_term + 1;
      state = candidate;
    }
    (index, term) ← last_log_index_and_term rf'
    some (
      rf',
      record {
        term = rf'.current_term;
        candidate_id = rf'.me;
        last_log_index = index;
        last_log_term = term;
      },
    )

  -- A request with a newer term makes its receiver a follower without a vote.
  unfoldable pub adopt_term : Raft C B → RequestVoteArgs → Raft C B
  adopt_term rf args =
      if ltb rf.current_term args.term
      then record rf { current_term = args.term; state = follower; voted_for = none }
      else rf

  -- The loop over the other peers, from peer `i` on, with `n` peers left.
  unfoldable pub request_votes : ℕ → ℕ → ℕ → RequestVoteArgs → List (Effect C B)
  request_votes me zero i args = []
  request_votes me (suc n) i args =
      let rest = request_votes me n (i + 1) args in
      if i == me then rest else send_request_vote i args ∷ rest

  -- `canvassVotes` up to the replies.
  unfoldable pub canvass_votes :
      Raft C B → Option (Canvass C B × RequestVoteArgs × List (Effect C B))
  unfolding fill_request_vote_args request_votes
  canvass_votes rf = do
    (rf', args) ← fill_request_vote_args rf
    some (record { rf = rf'; votes = 1 }, args, request_votes rf'.me rf'.peers 0 args)

module _ {C B : Type 0} (gob : Gob (Value C) B) where
  abbrev pub grant : Raft C B → RequestVoteArgs → Out C B RequestVoteReply
  grant rf args = (
    persist gob (record rf { state = follower; voted_for = some args.candidate_id }),
    record { current_term = 0; vote_granted = true },
    reset_timer ∷ [],
  )

  -- The handler's decision, once its log's end is known.
  unfoldable pub vote : Raft C B → RequestVoteArgs → ℕ → ℕ → Out C B RequestVoteReply
  unfolding up_to_date adopt_term persist
  vote rf args last_index last_term =
      if ltb args.term rf.current_term
      then (persist gob rf, record { current_term = rf.current_term; vote_granted = false }, [])
      else let rf' = adopt_term rf args in
        if is_none rf'.voted_for && up_to_date args last_index last_term
        then grant rf' args
        else (persist gob rf', no_vote, [])

  unfoldable pub request_vote : Raft C B → RequestVoteArgs → Option (Out C B RequestVoteReply)
  unfolding last_log_index_and_term vote
  request_vote rf args = if rf.shutdown then some (rf, no_vote, []) else do
    (last_index, last_term) ← last_log_index_and_term rf
    some (vote rf args last_index last_term)

  -- The reply handler of `canvassVotes`; `vote_args` is what the requests carried.
  unfoldable pub vote_reply_handler :
      RequestVoteArgs → RequestVoteReply → Canvass C B → Canvass C B × List (Effect C B)
  unfolding turn_to_follow persist reset_on_election
  vote_reply_handler vote_args reply c =
      if is_candidate c.rf.state
      then if ltb vote_args.term reply.current_term
        then (
          record c {
            rf = persist gob (turn_to_follow (record c.rf { current_term = reply.current_term }));
          },
          reset_timer ∷ [],
        )
        else if reply.vote_granted
        then if c.votes == c.rf.peers / 2
          then (
            record c { rf = reset_on_election (record c.rf { state = leader }) },
            start_heartbeat ∷ [],
          )
          else (record c { votes = c.votes + 1 }, [])
        else (c, [])
      else (c, [])

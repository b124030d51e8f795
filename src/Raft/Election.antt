-- ===== src/Raft/Election.antt =====
-- Elections: who is granted a vote, at most one vote in a term, and what makes a leader.
-- About `RequestVote` and the reply handler of `canvassVotes` in raft/raft.go.
use golang_deep_distributed.Prelude.{
  ℕ, zero, suc, ◌+◌, ◌-◌, ◌*◌, ◌/◌, ◌≤◌, ◌<◌, ◌≡◌, refl, ◌≢◌, ◌↔◌, ◌⊎◌, inl, inr, Bool, true, false,
  none, some, List, [], ◌∷◌, arith, ◌==◌, if◌then◌else◌, length, set,
}
use golang_deep_distributed.Persister.{Gob}
use golang_deep_distributed.Raft.State.{
  Raft, follower, candidate, leader, Value, Out, RequestVoteArgs, RequestVoteReply,
  last_log_index_and_term,
}
use golang_deep_distributed.Raft.Leader.{reset_peers, reset_on_election}
use golang_deep_distributed.Raft.Vote.{
  Canvass, up_to_date, adopt_term, vote, request_vote, vote_reply_handler,
}

-- The paper's order on logs: by the last term, then by the last index.
abbrev pub IsUpToDate : RequestVoteArgs → ℕ → ℕ → Type 0
IsUpToDate args index term =
    (term < args.last_log_term) ⊎ ((args.last_log_term ≡ term) × (index ≤ args.last_log_index))

up_to_date_iff :
    (args : RequestVoteArgs) (index term : ℕ)
    → (up_to_date args index term ≡ true) ↔ IsUpToDate args index term
unfolding up_to_date
up_to_date_iff args index term = (λ h. ground arith, λ h. ground arith)

module _ {C B : Type 0} (gob : Gob (Value C) B) where
  -- The receiver has a vote to give in the request's term.
  abbrev pub HasVote : Raft C B → RequestVoteArgs → Type 0
  HasVote rf args =
      (rf.current_term < args.term) ⊎ ((rf.current_term ≡ args.term) × (rf.voted_for ≡ none))

  abbrev pub granted : Out C B RequestVoteReply → Bool
  granted out = out.1.vote_granted

  vote-granted :
      (rf : Raft C B) (args : RequestVoteArgs) (index term : ℕ)
      → granted (vote gob rf args index term) ≡ true
      → HasVote rf args × (up_to_date args index term ≡ true)
  unfolding vote adopt_term
  vote-granted rf args index term h = ground arith

  granted-vote :
      (rf : Raft C B) (args : RequestVoteArgs) (index term : ℕ)
      → HasVote rf args
      → up_to_date args index term ≡ true
      → granted (vote gob rf args index term) ≡ true
  unfolding vote adopt_term
  granted-vote rf args index term h u = ground arith

  -- A running peer grants the vote exactly if it has one to give and the candidate's log is at
  -- least as up to date as its own.
  pub request_vote_iff :
      (rf : Raft C B) (args : RequestVoteArgs) {index term : ℕ}
      → rf.shutdown ≡ false
      → last_log_index_and_term rf ≡ some (index, term)
      → (out : Out C B RequestVoteReply) × (request_vote gob rf args ≡ some out)
        × ((granted out ≡ true) ↔ (HasVote rf args × IsUpToDate args index term))
  unfolding request_vote
  request_vote_iff rf args {index} {term} up last = (
    vote gob rf args index term,
    rw (up, last),
    (
      λ h.
          let (v, u) = vote-granted rf args index term h in
          (v, (up_to_date_iff args index term).0 u),
      λ (v, u). granted-vote rf args index term v ((up_to_date_iff args index term).1 u),
    ),
  )

  -- The replies of an election, in the order in which they arrive.
  unfoldable pub count_votes : RequestVoteArgs → List RequestVoteReply → Canvass C B → Canvass C B
  unfolding vote_reply_handler
  count_votes args [] c = c
  count_votes args (reply ∷ replies) c =
      count_votes args replies (vote_reply_handler gob args reply c).0

abbrev pub one_if : Bool → ℕ
one_if true = 1
one_if false = 0

abbrev pub grants : List RequestVoteReply → ℕ
grants [] = 0
grants (reply ∷ replies) = one_if reply.vote_granted + grants replies

-- No reply comes from a later term than the request's.
abbrev pub NoneNewer : ℕ → List RequestVoteReply → Type 0
NoneNewer term [] = Unit
NoneNewer term (reply ∷ replies) = (reply.current_term ≤ term) × NoneNewer term replies

module _ {C B : Type 0} (gob : Gob (Value C) B) where
  reset_peers_fields :
      (n i len : ℕ) (rf : Raft C B)
      → let rf' = reset_peers n i len rf in
        (rf'.state ≡ rf.state) × (rf'.peers ≡ rf.peers) × (rf'.current_term ≡ rf.current_term)
  unfolding reset_peers
  reset_peers_fields zero i len rf = (refl, refl, refl)
  reset_peers_fields (suc n) i len rf = reset_peers_fields n (i + 1) len (record rf {
    match_index = set rf.match_index i (if i == rf.me then len - 1 else 0);
    next_index = set rf.next_index i len;
  })

  -- The canvass still runs: a candidate that has at most half of the votes.
  abbrev pub IsRunning : Canvass C B → Type 0
  IsRunning c = (c.rf.state ≡ candidate) × (c.votes ≤ c.rf.peers / 2)

  vote_reply_handler-over :
      (args : RequestVoteArgs) (reply : RequestVoteReply) (c : Canvass C B)
      → c.rf.state ≢ candidate
      → (vote_reply_handler gob args reply c).0 ≡ c
  unfolding vote_reply_handler
  vote_reply_handler-over args reply c h = ground arith

  count_votes-over :
      (args : RequestVoteArgs) (replies : List RequestVoteReply) (c : Canvass C B)
      → c.rf.state ≢ candidate
      → count_votes gob args replies c ≡ c
  unfolding count_votes
  count_votes-over args [] c h = refl
  count_votes-over args (reply ∷ replies) c h =
      rw (vote_reply_handler-over args reply c h) (count_votes-over args replies c h)

  vote_reply_handler_step :
      (args : RequestVoteArgs) (reply : RequestVoteReply) (c : Canvass C B)
      → IsRunning c
      → let c' = (vote_reply_handler gob args reply c).0 in
        let one = one_if reply.vote_granted in
        ((c'.rf.state ≡ follower) × (args.term < reply.current_term))
        ⊎ ((c'.rf.state ≡ leader) × (c.rf.peers < 2 * (c.votes + one)))
        ⊎ (IsRunning c' × (c'.votes ≡ c.votes + one) × (c'.rf.peers ≡ c.rf.peers))
  unfolding vote_reply_handler reset_on_election
  vote_reply_handler_step args reply c h = ground (
    arith,
    reset_peers_fields c.rf.peers 0 (length c.rf.logs + c.rf.snapshot_index)
        (record c.rf { state = leader }),
  )

  count_votes-leader :
      (args : RequestVoteArgs) (replies : List RequestVoteReply) (c : Canvass C B)
      → IsRunning c
      → (count_votes gob args replies c).rf.state ≡ leader
      → c.rf.peers < 2 * (c.votes + grants replies)
  unfolding count_votes
  count_votes-leader args [] c run h = ground arith
  count_votes-leader args (reply ∷ replies) c run h =
      let c' = (vote_reply_handler gob args reply c).0 in
      elim (vote_reply_handler_step args reply c run) [
        | inl (s, newer) ↦
            absurd (ground (arith, s, h, count_votes-over args replies c' (ground (arith, s))))
        | inr (inl (s, won)) ↦ omega arith
        | inr (inr (run', counted, same)) ↦
            omega (arith, counted, same, count_votes-leader args replies c' run' h)
      ]

  leader-count_votes :
      (args : RequestVoteArgs) (replies : List RequestVoteReply) (c : Canvass C B)
      → IsRunning c
      → NoneNewer args.term replies
      → c.rf.peers < 2 * (c.votes + grants replies)
      → (count_votes gob args replies c).rf.state ≡ leader
  unfolding count_votes
  leader-count_votes args [] c run old h = absurd (omega (arith, run.1))
  leader-count_votes args (reply ∷ replies) c run old h =
      let c' = (vote_reply_handler gob args reply c).0 in
      elim (vote_reply_handler_step args reply c run) [
        | inl (s, newer) ↦ absurd (omega (arith, old.0, newer))
        | inr (inl (s, won)) ↦ rw (count_votes-over args replies c' (ground (arith, s))) s
        | inr (inr (run', counted, same)) ↦
            leader-count_votes args replies c' run' old.1 (omega (arith, counted, same))
      ]

  -- While the canvass runs and no reply shows a later term, the peer becomes leader exactly when the
  -- votes that it had and the votes granted in the replies are more than half of the peers.
  pub count_votes_iff :
      (args : RequestVoteArgs) (replies : List RequestVoteReply) (c : Canvass C B)
      → IsRunning c
      → NoneNewer args.term replies
      → ((count_votes gob args replies c).rf.state ≡ leader)
        ↔ (c.rf.peers < 2 * (c.votes + grants replies))
  count_votes_iff args replies c run old =
      (count_votes-leader args replies c run, leader-count_votes args replies c run old)

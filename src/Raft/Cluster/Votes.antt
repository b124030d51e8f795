-- ===== src/Raft/Cluster/Votes.antt =====
-- Majorities of a set of voters, and what one call of raft/raft.go does to a peer's votes.
use golang_deep_distributed.Prelude.{
  ℕ, zero, suc, ◌+◌, ◌-◌, ◌/◌, ◌≤◌, ◌<◌, ◌≡◌, refl, ap, ◌⊎◌, inl, inr, Bool, true, false, ◌&&◌,
  some, List, arith, ◌==◌, if◌then◌else◌, Bool-cases, Option-cases, length, set,
}
use golang_deep_distributed.Persister.{Gob}
use golang_deep_distributed.Raft.State.{
  Raft, Value, Effect, RequestVoteArgs, RequestVoteReply, candidate, leader, turn_to_follow,
  last_log_index_and_term,
}
use golang_deep_distributed.Raft.Persist.{persist}
use golang_deep_distributed.Raft.Leader.{reset_peers, reset_on_election}
use golang_deep_distributed.Raft.Vote.{
  Canvass, canvass_votes, fill_request_vote_args, vote, request_vote, adopt_term,
  vote_reply_handler,
}
use golang_deep_distributed.Raft.OneVote.{next_vote}
use golang_deep_distributed.Raft.Cluster.{update}
use golang_deep_distributed.Raft.Cluster.Calls.{Keeps}

-- How many of the first `n` voters have the flag.
pub count : (ℕ → Bool) → ℕ → ℕ
count f zero = 0
count f (suc n) = let rest = count f n in if f n then suc rest else rest

pub count-update_ge : (f : ℕ → Bool) (i n : ℕ) → count f n ≤ count (update f i true) n
unfolding count
count-update_ge f i zero = omega arith
count-update_ge f i (suc n) = ground (arith, count-update_ge f i n)

count-update_out : (f : ℕ → Bool) (i n : ℕ) → n ≤ i → count (update f i true) n ≡ count f n
unfolding count
count-update_out f i zero h = refl
count-update_out f i (suc n) h = ground (arith, count-update_out f i n)

pub count-update :
    (f : ℕ → Bool) (i n : ℕ) → i < n → f i ≡ false → count (update f i true) n ≡ suc (count f n)
unfolding count
count-update f i zero lt off = absurd (omega arith)
count-update f i (suc n) lt off = elim (Bool-cases (i == n)) [
  | inl last ↦
      let same : i ≡ n = ground (arith, last) in
      ground (arith, count-update_out f i n, same, ap f same)
  | inr before ↦ ground (arith, count-update f i n, before)
]

pub count-pos : (f : ℕ → Bool) (i n : ℕ) → i < n → f i ≡ true → 1 ≤ count f n
unfolding count
count-pos f i zero lt on = absurd (omega arith)
count-pos f i (suc n) lt on = elim (Bool-cases (i == n)) [
  | inl last ↦ let same : i ≡ n = ground (arith, last) in ground (arith, ap f same)
  | inr before ↦ ground (arith, count-pos f i n, before)
]

pub count_mono :
    (f g : ℕ → Bool) (n : ℕ) → ((v : ℕ) → f v ≡ true → g v ≡ true) → count f n ≤ count g n
unfolding count
count_mono f g zero h = omega arith
count_mono f g (suc n) h = ground (arith, count_mono f g n h, h n)

-- Two sets of voters that are together more than all of them share one.
pub count_overlap :
    (f g : ℕ → Bool) (n : ℕ) → n < count f n + count g n → (v : ℕ) × (f v ≡ true) × (g v ≡ true)
unfolding count
count_overlap f g zero h = absurd (omega arith)
count_overlap f g (suc n) h = elim (Bool-cases (f n && g n)) [
  | inl both ↦ (n, ground (arith, both), ground (arith, both))
  | inr one ↦ count_overlap f g n (ground (arith, one))
]

module _ {C B : Type 0} where
  -- A canvass begins in a term in which the peer could still vote, and uses its vote in it.
  pub record Asks (rf : Raft C B) (c : Canvass C B) (args : RequestVoteArgs) : Type 0 where
    pub peers : c.rf.peers ≡ rf.peers
    pub me : c.rf.me ≡ rf.me
    pub follows : c.rf.state ≡ candidate
    pub one : c.votes ≡ 1
    pub before : next_vote rf ≤ args.term
    pub after : suc args.term ≤ next_vote c.rf

  pub canvass_votes-Asks :
      (rf : Raft C B) {c : Canvass C B} {args : RequestVoteArgs} {es : List (Effect C B)}
      → canvass_votes rf ≡ some (c, args, es)
      → Asks rf c args
  unfolding canvass_votes fill_request_vote_args last_log_index_and_term
  canvass_votes-Asks rf h = ground arith

module _ {C B : Type 0} (gob : Gob (Value C) B) where
  -- A vote request keeps a peer, and a vote is given only in a term in which it had none yet.
  pub record Gives (rf rf' : Raft C B) (args : RequestVoteArgs) (granted : Bool) : Type 0 where
    pub keeps : Keeps rf rf'
    pub before : granted ≡ true → next_vote rf ≤ args.term
    pub after : granted ≡ true → suc args.term ≤ next_vote rf'

  vote-Gives :
      (rf : Raft C B) (args : RequestVoteArgs) (index term : ℕ)
      → let out = vote gob rf args index term in Gives rf out.0 args out.1.vote_granted
  unfolding vote adopt_term persist
  vote-Gives rf args index term = ground arith

  pub request_vote-Gives :
      (rf : Raft C B) (args : RequestVoteArgs) {rf' : Raft C B} {reply : RequestVoteReply}
      {es : List (Effect C B)}
      → request_vote gob rf args ≡ some (rf', reply, es)
      → Gives rf rf' args reply.vote_granted
  unfolding request_vote
  request_vote-Gives rf args h = elim (Option-cases (last_log_index_and_term rf)) [
    | inl e ↦ ground (arith, e)
    | inr ((i, t), e) ↦ ground (arith, e, vote-Gives rf args i t)
  ]

  pub reset_peers-Keeps :
      (n i len : ℕ) (rf : Raft C B)
      → let rf' = reset_peers n i len rf in
        (rf'.state ≡ rf.state)
        × (rf'.peers ≡ rf.peers)
        × (rf'.me ≡ rf.me)
        × (rf'.current_term ≡ rf.current_term)
        × (rf'.voted_for ≡ rf.voted_for)
  unfolding reset_peers
  reset_peers-Keeps zero i len rf = (refl, refl, refl, refl, refl)
  reset_peers-Keeps (suc n) i len rf = reset_peers-Keeps n (i + 1) len (record rf {
    match_index = set rf.match_index i (if i == rf.me then len - 1 else 0);
    next_index = set rf.next_index i len;
  })

  -- A reply that comes in the canvass's own term: the peer keeps its place and its term if it leads, a
  -- leader led before or had half of the votes and gets one more, and a vote more is one granted.
  pub record Counts (c c' : Canvass C B) (granted : Bool) : Type 0 where
    pub peers : c'.rf.peers ≡ c.rf.peers
    pub me : c'.rf.me ≡ c.rf.me
    pub vote : next_vote c.rf ≤ next_vote c'.rf
    pub term : c'.rf.state ≡ leader → c'.rf.current_term ≡ c.rf.current_term
    pub lead :
        c'.rf.state ≡ leader
        → (c.rf.state ≡ leader) ⊎ ((granted ≡ true) × (c.votes ≡ c.rf.peers / 2))
    pub votes : (c'.votes ≤ c.votes) ⊎ ((granted ≡ true) × (c'.votes ≡ c.votes + 1))

  pub vote_reply_handler-Counts :
      (args : RequestVoteArgs) (reply : RequestVoteReply) (c : Canvass C B) {c' : Canvass C B}
      {es : List (Effect C B)}
      → c.rf.current_term ≡ args.term
      → vote_reply_handler gob args reply c ≡ (c', es)
      → Counts c c' reply.vote_granted
  unfolding vote_reply_handler turn_to_follow persist reset_on_election
  vote_reply_handler-Counts args reply c now h =
      let fields =
        reset_peers-Keeps c.rf.peers 0 (length c.rf.logs + c.rf.snapshot_index)
          (record c.rf { state = leader }) in
      ground (arith, fields)

-- ===== src/Raft/Cluster/History.antt =====
-- The votes given and received in a cluster of raft/raft.go: a history, its invariant, and that each
-- step keeps it.
use golang_deep_distributed.Prelude.{
  ℕ, ◌*◌, ◌≤◌, ◌<◌, ◌≡◌, inl, inr, Bool, true, false, Option, none, some, arith, ◌==◌, Bool-cases,
  Option-cases,
}
use golang_deep_distributed.Persister.{Gob}
use golang_deep_distributed.Raft.State.{Raft, Value, RequestVoteArgs, RequestVoteReply, leader}
use golang_deep_distributed.Raft.Vote.{Canvass}
use golang_deep_distributed.Raft.OneVote.{next_vote}
use golang_deep_distributed.Raft.Cluster.{update, Mail, Cluster, IsInitial}
use golang_deep_distributed.Raft.Cluster.Calls.{Keeps}
use golang_deep_distributed.Raft.Cluster.Votes.{count, count-update, count-pos, Asks, Gives, Counts}

-- The history of the votes: to whom a voter gave its vote in a term, and whose votes in a term a
-- candidate has got.
pub record Ledger : Type 0 where
  pub gave : ℕ → ℕ → Option ℕ
  pub got : ℕ → ℕ → ℕ → Bool

abbrev pub give_vote : Ledger → ℕ → ℕ → ℕ → Ledger
give_vote l v t c = record l { gave = update l.gave v (update (l.gave v) t (some c)) }

abbrev pub get_vote : Ledger → ℕ → ℕ → ℕ → Ledger
get_vote l c t v = record l {
  got = update l.got c (update (l.got c) t (update (l.got c t) v true));
}

abbrev pub blank_ledger : Ledger
blank_ledger = record { gave = λ v t. none; got = λ c t v. false }

-- Votes that were got stay got.
abbrev pub Grows : Ledger → Ledger → Type 0
Grows l l' = (c t v : ℕ) → l.got c t v ≡ true → l'.got c t v ≡ true

module _ {C B : Type 0} where
  -- What the history has to do with the cluster: votes were given in terms that are past for the
  -- voter, and got votes were given; a granted reply on its way is a vote not got yet, and the only
  -- one for its vote; a candidate counts no more votes than it got; and a leader got most votes.
  pub record Inv (n : ℕ) (s : Cluster C B) (l : Ledger) : Type 0 where
    knows_n : (i : ℕ) → (s.peer i).peers ≡ n
    knows_me : (i : ℕ) → (s.peer i).me ≡ i
    past : (v t c : ℕ) → l.gave v t ≡ some c → t < next_vote (s.peer v)
    pub held : (c t v : ℕ) → l.got c t v ≡ true → l.gave v t ≡ some c
    due :
        (k : ℕ) (m : Mail)
        → s.mail k ≡ some m
        → m.reply.vote_granted ≡ true
        → (m.voter < n)
          × (l.gave m.voter m.args.term ≡ some m.args.candidate_id)
          × (l.got m.args.candidate_id m.args.term m.voter ≡ false)
    once :
        (k j : ℕ) (m m' : Mail)
        → s.mail k ≡ some m
        → s.mail j ≡ some m'
        → m.reply.vote_granted ≡ true
        → m'.reply.vote_granted ≡ true
        → m.voter ≡ m'.voter
        → m.args.term ≡ m'.args.term
        → k ≡ j
    counted : (c : ℕ) → s.votes c ≤ count (l.got c (s.canvass_term c)) n
    pub won :
        (c : ℕ) → (s.peer c).state ≡ leader → n < 2 * count (l.got c (s.peer c).current_term) n

  pub IsInitial-Inv : {n : ℕ} {s : Cluster C B} → IsInitial n s → Inv n s blank_ledger
  IsInitial-Inv h = record {
    knows_n = h.knows_n;
    knows_me = h.knows_me;
    past = λ v t c e. ground arith;
    held = λ c t v e. ground arith;
    due = λ k m e. ground (arith, h.no_mail k);
    once = λ k j m m' e. ground (arith, h.no_mail k);
    counted = λ c. omega (arith, h.no_votes c);
    won = λ c e. ground (arith, h.follows c);
  }

  -- A vote in a term that was open to the voter was not given before.
  unspent :
      {n : ℕ} {s : Cluster C B} {l : Ledger} (inv : Inv n s l) (v t : ℕ)
      → next_vote (s.peer v) ≤ t
      → l.gave v t ≡ none
  unspent {l} inv v t open_yet = elim (Option-cases (l.gave v t)) [
    | inl e ↦ e
    | inr (c, e) ↦ absurd (omega (arith, inv.past v t c e))
  ]

module _ {C B : Type 0} (gob : Gob (Value C) B) (n : ℕ) {s : Cluster C B} {l : Ledger}
    (inv : Inv n s l) where
  open inv use {knows_n, knows_me, past, held, due, once, counted, won}

  pub work-Inv :
      (i : ℕ) (rf' : Raft C B)
      → Keeps (s.peer i) rf'
      → Inv n (record s { peer = update s.peer i rf' }) l
  work-Inv i rf' k = record {
    knows_n = λ j. ground (arith, knows_n j, knows_n i);
    knows_me = λ j. ground (arith, knows_me j, knows_me i);
    past = λ v t c e. ground (arith, past v t c, past i t c);
    held = held;
    due = due;
    once = once;
    counted = counted;
    won = λ c e. ground (arith, won c, won i);
  }

  pub lose-Inv : (k : ℕ) → Inv n (record s { mail = update s.mail k none }) l
  lose-Inv k = record {
    knows_n = knows_n;
    knows_me = knows_me;
    past = past;
    held = held;
    due = λ j m e. ground (arith, due j m);
    once = λ j j' m m' e e'. ground (arith, once j j' m m');
    counted = counted;
    won = won;
  }

  module _ (i k : ℕ) (args : RequestVoteArgs) (rf' : Raft C B) (reply : RequestVoteReply)
      (lt : i < n) (free : s.mail k ≡ none)
      (g : Gives gob (s.peer i) rf' args reply.vote_granted) where
    abbrev given : Cluster C B
    given = record s {
      peer = update s.peer i rf';
      mail = update s.mail k (some (record { voter = i; args = args; reply = reply }));
    }

    pub refused-Inv : reply.vote_granted ≡ false → Inv n given l
    refused-Inv no_vote = record {
      knows_n = λ j. ground (arith, knows_n j, knows_n i, g.keeps);
      knows_me = λ j. ground (arith, knows_me j, knows_me i, g.keeps);
      past = λ v t c e. ground (arith, past v t c, past i t c, g.keeps);
      held = held;
      due = λ j m e. ground (arith, due j m);
      once = λ j j' m m' e e'. ground (arith, once j j' m m');
      counted = counted;
      won = λ c e. ground (arith, won c, won i, g.keeps);
    }

    pub granted-Inv :
        reply.vote_granted ≡ true → Inv n given (give_vote l i args.term args.candidate_id)
    granted-Inv yes_vote =
        let new : l.gave i args.term ≡ none = unspent inv i args.term (g.before yes_vote) in
        record {
          knows_n = λ j. ground (arith, knows_n j, knows_n i, g.keeps);
          knows_me = λ j. ground (arith, knows_me j, knows_me i, g.keeps);
          past = λ v t c e. ground (arith, past v t c, past i t c, g.keeps, g.after);
          held = λ c t v e. ground (arith, held c t v, new);
          due = λ j m e yes.
              ground (arith, due j m, new, held m.args.candidate_id m.args.term m.voter);
          once = λ j j' m m' e e'. ground (arith, once j j' m m', due j m, due j' m', new);
          counted = counted;
          won = λ c e. ground (arith, won c, won i, g.keeps);
        }

  module _ (i : ℕ) (c : Canvass C B) (args : RequestVoteArgs) (lt : i < n)
      (a : Asks (s.peer i) c args) where
    abbrev asked : Cluster C B
    asked = record s {
      peer = update s.peer i c.rf;
      canvass_term = update s.canvass_term i args.term;
      votes = update s.votes i c.votes;
    }

    abbrev pub own_vote : Ledger
    own_vote = get_vote (give_vote l i args.term i) i args.term i

    pub asked-Inv : Inv n asked own_vote
    asked-Inv =
        let new : l.gave i args.term ≡ none = unspent inv i args.term a.before in
        record {
          knows_n = λ j. ground (arith, knows_n j, knows_n i);
          knows_me = λ j. ground (arith, knows_me j, knows_me i);
          past = λ v t p e. ground (arith, past v t p, past i t p);
          held = λ p t v e. ground (arith, held p t v, new);
          due = λ j m e yes. ground (arith, due j m, new);
          once = λ j j' m m' e e'. ground (arith, once j j' m m');
          counted = λ p. elim (Bool-cases (i == p)) [
            | inl same ↦
                let mine : own_vote.got i args.term i ≡ true = ground arith in
                ground (arith, same, count-pos (own_vote.got i args.term) i n lt mine)
            | inr other ↦ ground (arith, other, counted p)
          ];
          won = λ p e. ground (arith, won p);
        }

  module _ (k : ℕ) (m : Mail) (c : Canvass C B) (there : s.mail k ≡ some m)
      (lt : m.args.candidate_id < n) (now : (s.peer m.args.candidate_id).current_term ≡ m.args.term)
      (running : s.canvass_term m.args.candidate_id ≡ m.args.term)
      (h : Counts gob
        (record { rf = s.peer m.args.candidate_id; votes = s.votes m.args.candidate_id })
        c
        m.reply.vote_granted) where
    abbrev received : Cluster C B
    received = record s {
      peer = update s.peer m.args.candidate_id c.rf;
      votes = update s.votes m.args.candidate_id c.votes;
      mail = update s.mail k none;
    }

    abbrev more_votes : Ledger
    more_votes = get_vote l m.args.candidate_id m.args.term m.voter

    pub unvoted-Inv : m.reply.vote_granted ≡ false → Inv n received l
    unvoted-Inv no_vote =
        let p = m.args.candidate_id in
        record {
          knows_n = λ j. ground (arith, knows_n j, knows_n p);
          knows_me = λ j. ground (arith, knows_me j, knows_me p);
          past = λ v t q e. ground (arith, past v t q, past p t q);
          held = held;
          due = λ j m' e. ground (arith, due j m');
          once = λ j j' m m' e e'. ground (arith, once j j' m m');
          counted = λ q. ground (arith, counted q, counted p);
          won = λ q e. ground (arith, won q, won p);
        }

    pub voted-Inv : m.reply.vote_granted ≡ true → Inv n received more_votes
    voted-Inv yes_vote =
        let p = m.args.candidate_id in
        let (voter, theirs, open_yet) = due k m there yes_vote in
        let more = count-update (l.got p m.args.term) m.voter n voter open_yet in
        record {
          knows_n = λ j. ground (arith, knows_n j, knows_n p);
          knows_me = λ j. ground (arith, knows_me j, knows_me p);
          past = λ v t q e. ground (arith, past v t q, past p t q);
          held = λ q t v e. ground (arith, held q t v, theirs);
          due = λ j m' e yes. ground (arith, due j m', once j k m' m);
          once = λ j j' m m' e e'. ground (arith, once j j' m m');
          counted = λ q. elim (Bool-cases (p == q)) [
            | inl same ↦ ground (arith, same, counted p, more, running)
            | inr other ↦ ground (arith, other, counted q)
          ];
          won = λ q e. elim (Bool-cases (p == q)) [
            | inl same ↦ ground (arith, same, won p, counted p, more, knows_n p)
            | inr other ↦ ground (arith, other, won q)
          ];
        }

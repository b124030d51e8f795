-- ===== src/Raft/Cluster.antt =====
-- A cluster of raft/raft.go: its peers, what their running canvasses count, the vote replies on their
-- way, and the steps by which it moves. A step is one call of an operation at one peer, which its
-- mutex makes atomic.
pub mod Calls
pub mod Votes
pub mod History
pub mod Safety
pub mod Logs
pub mod Calm
pub mod Chains
pub mod LogInv
pub mod Requests
pub mod LogLead
pub mod Matching
pub mod LogTests
pub mod Appended
pub mod Tests
use golang_deep_distributed.Prelude.{
  ℕ, zero, suc, ◌+◌, ◌-◌, ◌*◌, ◌/◌, ◌%◌, ◌^◌, ◌≤◌, ◌<◌, min, max, ◌≡◌, refl, sym, ap, ◌∙◌, subst,
  ◌≢◌, ◌↔◌, ◌⊎◌, inl, inr, Bool, true, false, not, ◌&&◌, ◌||◌, Option, none, some, List, [], ◌∷◌,
  ◌++◌, map, arith, ltb, leb, ◌==◌, if◌then◌else◌, ltb→lt, lt→ltb, leb→le, le→leb, ==_iff,
  Bool-cases, Option-cases, ◌>>=◌, length, get_elem?, set, take, drop, replicate, length-append,
  length-set, length-take, length-drop, take-append-drop, length-replicate, get_elem?_lt,
  lt_of_get_elem?, get_elem?-drop, get_elem?-set_self, get_elem?-set_ne, dec_lt, ltb-false→le,
  leb-false→lt,
}
use golang_deep_distributed.Persister.{Gob}
use golang_deep_distributed.Raft.State.{
  Raft, LogEntry, Value, Effect, Out, RequestVoteArgs, RequestVoteReply, AppendEntriesArgs,
  AppendEntriesReply, InstallSnapshotArgs, InstallSnapshotReply, ApplyMsg, follower, leader,
}
use golang_deep_distributed.Raft.Vote.{Canvass, canvass_votes, request_vote, vote_reply_handler}
use golang_deep_distributed.Raft.Append.{append_entries}
use golang_deep_distributed.Raft.Snapshot.{new_snapshot, install_snapshot, snapshot_reply_handler}
use golang_deep_distributed.Raft.Leader.{start, append_reply_handler, kill}
use golang_deep_distributed.Raft.Apply.{apply_log_entries}

-- A family of values with one changed.
abbrev pub update {ℓ} : {A : Type ℓ} → (ℕ → A) → ℕ → A → ℕ → A
update f i v j = if i == j then v else f j

-- A vote reply on its way: who answered, what was asked, and the answer.
pub record Mail : Type 0 where
  pub voter : ℕ
  pub args : RequestVoteArgs
  pub reply : RequestVoteReply

-- For each peer its state, and the term and the count of votes of its last canvass. Each request has a
-- slot of its own for its reply.
pub record Cluster (C B : Type 0) : Type 0 where
  pub peer : ℕ → Raft C B
  pub canvass_term : ℕ → ℕ
  pub votes : ℕ → ℕ
  pub mail : ℕ → Option Mail

-- Every peer has just been made: it follows, knows its place, and has asked for no vote.
pub record IsInitial {C B : Type 0} (n : ℕ) (s : Cluster C B) : Type 0 where
  pub follows : (i : ℕ) → (s.peer i).state ≡ follower
  pub knows_n : (i : ℕ) → (s.peer i).peers ≡ n
  pub knows_me : (i : ℕ) → (s.peer i).me ≡ i
  pub no_votes : (i : ℕ) → s.votes i ≡ 0
  pub no_mail : (k : ℕ) → s.mail k ≡ none

module _ {C B : Type 0} (gob : Gob (Value C) B) where
  -- A call at one peer that asks for no vote and gives none. A leader that hears of a later term in a
  -- reply to AppendEntries is left out: it steps down without taking the term and forgets its vote.
  pub data Work (rf rf' : Raft C B) : Type 0 where
    append :
        (args : AppendEntriesArgs C) (reply : AppendEntriesReply) (es : List (Effect C B))
        → append_entries gob rf args ≡ some (rf', reply, es)
        → Work rf rf'
    install :
        (args : InstallSnapshotArgs B) (reply : InstallSnapshotReply) (es : List (Effect C B))
        → install_snapshot gob rf args ≡ some (rf', reply, es)
        → Work rf rf'
    append_reply :
        (n : ℕ) (reply : AppendEntriesReply) (es : List (Effect C B))
        → reply.current_term ≤ rf.current_term
        → append_reply_handler gob n reply rf ≡ some (rf', es)
        → Work rf rf'
    snapshot_reply :
        (n : ℕ) (reply : InstallSnapshotReply)
        → rf' ≡ snapshot_reply_handler n reply rf
        → Work rf rf'
    begin : (command : C) → rf' ≡ (start gob rf command).0 → Work rf rf'
    compact : (bytes : B) (at : ℕ) → new_snapshot gob rf bytes at ≡ some rf' → Work rf rf'
    apply :
        (nil_bytes : B) (beyond : List (LogEntry C)) (msgs : List (ApplyMsg C B))
        → apply_log_entries nil_bytes beyond rf ≡ some (rf', msgs)
        → Work rf rf'
    stop : (es : List (Effect C B)) → kill rf ≡ some (rf', es) → Work rf rf'

  -- One step of a cluster of `n` peers. Any request for a vote may arrive, from a peer or not. A reply
  -- reaches its candidate in time: the candidate is still in the term of its last canvass.
  pub data Step (n : ℕ) (s s' : Cluster C B) : Type 0 where
    ask :
        (i : ℕ) (c : Canvass C B) (args : RequestVoteArgs) (es : List (Effect C B))
        → i < n
        → canvass_votes (s.peer i) ≡ some (c, args, es)
        → s' ≡ record s {
          peer = update s.peer i c.rf;
          canvass_term = update s.canvass_term i args.term;
          votes = update s.votes i c.votes;
        }
        → Step n s s'
    give :
        (i k : ℕ) (args : RequestVoteArgs) (rf' : Raft C B) (reply : RequestVoteReply)
        (es : List (Effect C B))
        → i < n
        → s.mail k ≡ none
        → request_vote gob (s.peer i) args ≡ some (rf', reply, es)
        → s' ≡ record s {
          peer = update s.peer i rf';
          mail = update s.mail k (some (record { voter = i; args = args; reply = reply }));
        }
        → Step n s s'
    receive :
        (k : ℕ) (m : Mail) (c : Canvass C B) (es : List (Effect C B))
        → s.mail k ≡ some m
        → m.args.candidate_id < n
        → (s.peer m.args.candidate_id).current_term ≡ m.args.term
        → s.canvass_term m.args.candidate_id ≡ m.args.term
        → vote_reply_handler gob m.args m.reply
            (record { rf = s.peer m.args.candidate_id; votes = s.votes m.args.candidate_id })
          ≡ (c, es)
        → s' ≡ record s {
          peer = update s.peer m.args.candidate_id c.rf;
          votes = update s.votes m.args.candidate_id c.votes;
          mail = update s.mail k none;
        }
        → Step n s s'
    lose : (k : ℕ) → s' ≡ record s { mail = update s.mail k none } → Step n s s'
    work :
        (i : ℕ) (rf' : Raft C B)
        → i < n
        → Work (s.peer i) rf'
        → s' ≡ record s { peer = update s.peer i rf' }
        → Step n s s'

  pub data Reach (n : ℕ) : Cluster C B → Type 0 where
    here : {s : Cluster C B} → IsInitial n s → Reach n s
    next : {s s' : Cluster C B} → Reach n s → Step n s s' → Reach n s'

-- ===== src/Harness/Tests.antt =====
-- The harness over a few messages, and over an election.
use golang_deep_distributed.Prelude.{
  ℕ, zero, suc, ◌<◌, ◌≡◌, refl, true, false, none, some, List, [], ◌∷◌, ◌∙◌, ◌↔◌, ltb,
  if◌then◌else◌, Bool-cases, inl, inr, arith, get_elem?, replicate,
}
use golang_deep_distributed.Prelude.Dict.{lookup, insert, nat_eq}
use golang_deep_distributed.Raft.State.{ApplyMsg}
use golang_deep_distributed.Labrpc.Network.{make_network}
use golang_deep_distributed.Raft.Tests.{Bytes, gob}
use golang_deep_distributed.Raft.Cluster.Tests.{decided, decided-Reach, asks, gives, wins}
use golang_deep_distributed.Raft.Persist.{make}
use golang_deep_distributed.Raft.Vote.{canvass_votes, request_vote, vote_reply_handler}
use golang_deep_distributed.Raft.Cluster.Safety.{still}
use golang_deep_distributed.Harness.One.{
  IsRead, IsAgreed, IsDecided, try_servers, one, one-IsAgreed, one_iff,
}
use golang_deep_distributed.Harness.Config.{Config, read_all}
use golang_deep_distributed.Harness.Checks.{check_one_leader}
use golang_deep_distributed.Harness.Agreement.{Agrees, read_all-Agrees}
use golang_deep_distributed.Harness.OneLeader.{Shows, Finds, check_one_leader-Reach}

abbrev config : Config ℕ Bytes
config = record {
  net = make_network;
  n = 3;
  rafts = some (decided.peer 0) ∷ some (decided.peer 1) ∷ some (decided.peer 2) ∷ [];
  apply_err = replicate 3 false;
  connected = true ∷ true ∷ false ∷ [];
  saved = none ∷ none ∷ none ∷ [];
  endnames = none ∷ none ∷ none ∷ [];
  logs = replicate 3 [];
  max_index = 0;
}

abbrev commit : ℕ → ℕ → ApplyMsg ℕ Bytes
commit index command = record {
  command_valid = true;
  command = some command;
  command_index = index;
  use_snapshot = false;
  snapshot = [];
}

abbrev msgs : List (ℕ × ApplyMsg ℕ Bytes)
msgs = (0, commit 1 7) ∷ (1, commit 1 7) ∷ (0, commit 2 8) ∷ []

accepted : (cfg : Config ℕ Bytes) × (read_all nat_eq msgs config ≡ some cfg)
unfolding read_all lookup insert
accepted = (_, refl)

-- Another value under an index is refused, and so is a message out of order.
other_refused : read_all nat_eq ((0, commit 1 7) ∷ (1, commit 1 8) ∷ []) config ≡ none
unfolding read_all lookup insert
other_refused = refl

gap_refused : read_all nat_eq ((0, commit 1 7) ∷ (0, commit 3 8) ∷ []) config ≡ none
unfolding read_all lookup insert
gap_refused = refl

read_all-Agrees_example : Agrees accepted.0.logs accepted.0.max_index
read_all-Agrees_example =
    read_all-Agrees nat_eq msgs config accepted.0 (record { logs = refl; apply_err = refl })
      accepted.1

config-Shows : Shows 3 (λ i. decided) config
config-Shows = record { servers = refl; peers = λ i lt. peers i lt }
  where
    peers : (i : ℕ) → i < 3 → get_elem? config.rafts i ≡ some (some (decided.peer i))
    peers zero lt = refl
    peers (suc zero) lt = refl
    peers (suc (suc zero)) lt = refl
    peers (suc (suc (suc i))) lt = absurd (omega arith)

check_one_leader-Reach_example : Finds (λ k. config) 10 0 (check_one_leader (λ k. config))
check_one_leader-Reach_example =
    check_one_leader-Reach gob 3 (λ k i. decided) (λ k. config) (λ k. decided-Reach) (λ k i. still)
      (λ k. config-Shows)

-- The command 7 is taken by server 0, the leader, at the third look, and committed at the next one.
abbrev seen : ℕ → Config ℕ Bytes
seen k = if ltb k 3 then config else accepted.0

seen-IsRead : IsRead gob nat_eq 7 seen
unfolding read_all
seen-IsRead k = elim (Bool-cases (ltb k 3)) [
  | inl early ↦ (config, [], record { logs = refl; apply_err = refl }, ground (arith, early))
  | inr late ↦
      (config, msgs, record { logs = refl; apply_err = refl }, accepted.1 ∙ ground (arith, late))
]

agreed : one gob nat_eq 7 seen 3 2 false (1 ∷ []) ≡ some 1
unfolding one accepted lookup insert make canvass_votes request_vote vote_reply_handler asks gives
    wins
agreed = refl

one-IsAgreed_example : IsAgreed gob nat_eq 7 seen 2 1
one-IsAgreed_example = one-IsAgreed gob nat_eq 7 seen 3 2 false (1 ∷ []) 1 seen-IsRead agreed

first_pass : try_servers gob nat_eq 7 seen 3 3 0 0 ≡ some (0, 3, some 1)
unfolding try_servers accepted make canvass_votes request_vote vote_reply_handler asks gives wins
first_pass = refl

one_iff_example :
    (one gob nat_eq 7 seen 3 2 false (1 ∷ []) ≡ some 1) ↔ IsDecided gob nat_eq 7 seen 2 1 3 1
one_iff_example = one_iff gob nat_eq 7 seen 3 2 1 [] 0 3 1 seen-IsRead first_pass

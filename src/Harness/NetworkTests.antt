-- ===== src/Harness/NetworkTests.antt =====
-- The harness of raft/config.go with three servers, one of which is taken off the network.
use golang_deep_distributed.Prelude.{
  ℕ, ◌<◌, ◌≡◌, refl, true, false, some, List, [], ◌∷◌, arith, length,
}
use golang_deep_distributed.Prelude.Dict.{lookup, insert, nat_eq}
use golang_deep_distributed.Labrpc.Network.{make_network, enable, Draws, process_req}
use golang_deep_distributed.Raft.Tests.{Bytes, gob}
use golang_deep_distributed.Harness.Config.{Config}
use golang_deep_distributed.Harness.Servers.{make_config, connect, disconnect}
use golang_deep_distributed.Harness.Ends.{is_on}
use golang_deep_distributed.Harness.Wiring.{IsWired}
use golang_deep_distributed.Harness.Partition.{
  attach, detach, Move, run_moves, IsStarted, unsent, run_moves-process_req,
}
use golang_deep_distributed.Harness.MakeConfig.{make_config-IsWired}

abbrev pub servers : List (List (ℕ × ℕ) × ℕ)
servers =
    ((10, 1) ∷ (11, 2) ∷ (12, 3) ∷ [], 1)
    ∷ ((20, 4) ∷ (21, 5) ∷ (22, 6) ∷ [], 2)
    ∷ ((30, 7) ∷ (31, 8) ∷ (32, 9) ∷ [], 3)
    ∷ []

made : (cfg : Config ℕ Bytes) × (make_config gob false servers ≡ some cfg)
unfolding make_config lookup insert enable
made = (_, refl)

make_config-IsWired_example :
    IsWired made.0
    × IsStarted made.0
    × (made.0.n ≡ length servers)
    × ((a : ℕ) → a < length servers → is_on made.0.connected a ≡ true)
make_config-IsWired_example =
    make_config-IsWired gob false servers made.0 (refl, (refl, (refl, tt))) made.1

ready : IsWired made.0 × IsStarted made.0
ready =
    let (w, started, size, on) =
      make_config-IsWired gob false servers made.0 (refl, (refl, (refl, tt))) made.1 in
    (w, started)

abbrev moves : List Move
moves = detach 1 ∷ attach 1 ∷ detach 2 ∷ []

alone : (cfg : Config ℕ Bytes) × (run_moves moves made.0 ≡ some cfg)
unfolding made disconnect connect lookup insert
alone = (_, refl)

abbrev draws : Draws
draws = record { request = 0; response = 0; reorder = 0 }

run_moves-process_req_example : process_req 12 alone.0.net draws [] make_network ≡ unsent
unfolding made alone
run_moves-process_req_example =
    run_moves-process_req moves made.0 alone.0 0 2 12 draws [] make_network ready.0 ready.1
      (omega arith, (omega arith, (omega arith, tt))) alone.1 refl refl

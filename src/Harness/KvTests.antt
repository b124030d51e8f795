-- ===== src/Harness/KvTests.antt =====
-- The harness of kvraft/config.go with three servers: a partition, a restart and a client.
use golang_deep_distributed.Prelude.{
  ℕ, ◌<◌, ◌≡◌, refl, ◌↔◌, true, false, none, some, List, [], ◌∷◌, arith, get_elem?, set,
}
use golang_deep_distributed.Prelude.Dict.{lookup, insert, nat_eq}
use golang_deep_distributed.Labrpc.Network.{Network, enable}
use golang_deep_distributed.Raft.Persist.{make, persist}
use golang_deep_distributed.Raft.Durability.{persist-IsDurable}
use golang_deep_distributed.Kv.State.{KvServer}
use golang_deep_distributed.Kv.Apply.{generate_snapshot}
use golang_deep_distributed.Kv.Clerk.{Clerk, make_clerk}
use golang_deep_distributed.Kv.Tests.{Bytes, raft_gob, kv_gob, server}
use golang_deep_distributed.Harness.NetworkTests.{servers}
use golang_deep_distributed.Harness.Service.{partition}
use golang_deep_distributed.Harness.Links.{is_in}
use golang_deep_distributed.Harness.Parts.{is_enabled}
use golang_deep_distributed.Harness.KvConfig.{
  KvConfig, make_config, leader, make_partition, shutdown_server, start_server, make_client,
}
use golang_deep_distributed.Harness.Minority.{IsSplit}
use golang_deep_distributed.Harness.KvMade.{IsUp, make_config-IsUp, make_partition_lem}
use golang_deep_distributed.Harness.KvRestart.{IsRestarted, shutdown_start_lem}
use golang_deep_distributed.Harness.KvClients.{IsClient, make_client_lem}

up : (cfg : KvConfig Bytes) × (make_config raft_gob kv_gob false none servers ≡ some cfg)
unfolding make_config lookup insert enable
up = (_, refl)

make_config-IsUp_example : IsUp raft_gob kv_gob up.0 × (up.0.n ≡ 3)
make_config-IsUp_example =
    make_config-IsUp raft_gob kv_gob false none servers up.0 (refl, (refl, (refl, tt))) up.1

up-IsUp : IsUp raft_gob kv_gob up.0
up-IsUp =
    (make_config-IsUp raft_gob kv_gob false none servers up.0 (refl, (refl, (refl, tt))) up.1).0

make_partition_lem_example :
    (p1 p2 : List ℕ) × (make_partition up.0 ≡ some (p1, p2))
    × IsSplit up.0.n 0 p1 p2
    × ((rn : Network) × (partition up.0.endnames p1 p2 up.0.net ≡ some rn)
        × ((a b : ℕ)
            → a < up.0.n
            → b < up.0.n
            → (is_enabled up.0.n up.0.endnames up-IsUp.net rn a b ≡ true)
              ↔ (is_in a p1 ≡ is_in b p1)))
unfolding up leader
make_partition_lem_example =
    make_partition_lem up.0 up-IsUp.net false 0 refl refl (omega arith) refl

-- Server 1 after it took a snapshot.
abbrev kept : KvServer Bytes
kept = record server {
  me = 1;
  rf = make raft_gob 3 1 (record { raftstate = ([], []); snapshot = ([], []) });
}

abbrev shot : KvServer Bytes
shot = (generate_snapshot kv_gob kept 0).0

abbrev saved : KvServer Bytes
saved = record shot { rf = persist raft_gob shot.rf }

abbrev used : KvConfig Bytes
used = record up.0 { kvservers = set up.0.kvservers 1 (some saved) }

used_at : get_elem? used.kvservers 1 ≡ some (some saved)
unfolding up
used_at = refl

shutdown_start_lem_example :
    (off on : KvConfig Bytes) × (shutdown_server raft_gob kv_gob 1 used ≡ some off)
    × (start_server raft_gob kv_gob 1 ((50, 1) ∷ (51, 2) ∷ (52, 3) ∷ []) 7 off ≡ some on)
    × IsRestarted raft_gob kv_gob 1 0 saved kept used on
unfolding up generate_snapshot make persist
shutdown_start_lem_example =
    shutdown_start_lem raft_gob kv_gob 1 0 7 ((50, 1) ∷ (51, 2) ∷ (52, 3) ∷ []) used saved kept
      up-IsUp.net (omega arith) refl refl used_at refl refl refl
      (persist-IsDurable raft_gob shot.rf) refl (refl, refl, (refl, refl, (refl, refl, tt)))

clerk : (r : Clerk × List ℕ) × (make_clerk 3 (9 ∷ []) [] ≡ some r)
unfolding make_clerk
clerk = (_, refl)

make_client_lem_example :
    (handles : List ℕ) × (cfg : KvConfig Bytes) × (make_client
        (0 ∷ 2 ∷ [])
        ((60, 1) ∷ (61, 2) ∷ (62, 3) ∷ [])
        5
        (λ i. 7)
        (9 ∷ [])
        []
        up.0
      ≡ some (clerk.0.0, handles, clerk.0.1, cfg))
    × IsClient (0 ∷ 2 ∷ []) ((60, 1) ∷ (61, 2) ∷ (62, 3) ∷ []) 5 handles up.0 cfg
unfolding up lookup
make_client_lem_example =
    make_client_lem (0 ∷ 2 ∷ []) ((60, 1) ∷ (61, 2) ∷ (62, 3) ∷ []) 5 (λ i. 7) (9 ∷ []) [] clerk.0.1
      clerk.0.0 up.0 (refl, refl, (refl, refl, (refl, refl, tt))) (omega arith, (omega arith, tt))
      clerk.1

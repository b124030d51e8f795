-- ===== src/Raft/Cluster/LogTests.antt =====
-- A command that a leader takes and sends to another peer, in a cluster of three.
use golang_deep_distributed.Prelude.{ℕ, ◌≡◌, refl, none, some, List, [], ◌∷◌, arith, get_elem?}
use golang_deep_distributed.Raft.State.{
  Raft, AppendEntriesArgs, AppendEntriesReply, Effect, send_append_entries,
}
use golang_deep_distributed.Raft.Persist.{make}
use golang_deep_distributed.Raft.Append.{append_entries}
use golang_deep_distributed.Raft.Leader.{start, consistency_check}
use golang_deep_distributed.Raft.Tests.{Bytes, gob, entry}
use golang_deep_distributed.Raft.Cluster.{update, Cluster, ask, give, receive}
use golang_deep_distributed.Raft.Cluster.Logs.{
  Sending, IsEmpty, deliver, submit, vote, call, send, LogReach, initial, move,
}
use golang_deep_distributed.Raft.Cluster.Tests.{
  made, made-IsInitial, asks, gives, wins, asking, vote_mail, answered, decided,
}
use golang_deep_distributed.Raft.Cluster.Matching.{log_matching}

abbrev quiet : Cluster ℕ Bytes → Sending ℕ Bytes
quiet s = record { cluster = s; sent = λ k. none }

made-IsEmpty : IsEmpty (quiet made)
unfolding make
made-IsEmpty = record { logs = λ i. refl; snapshots = λ i. refl; sent = λ k. refl }

decided-LogReach : LogReach gob 3 (quiet decided)
unfolding asks
decided-LogReach =
    move {s' = quiet decided}
      (move {s' = quiet answered}
        (move {s' = quiet asking} (initial made-IsInitial made-IsEmpty)
          (vote (ask 0 asks.0 asks.1 asks.2 (omega arith) asks.3 refl) tt refl))
        (vote (give 1 7 asks.1 gives.0 gives.1 gives.2 (omega arith) refl gives.3 refl) tt refl))
      (vote (receive 7 vote_mail wins.0 wins.1 refl (omega arith) refl refl wins.2 refl) tt refl)

abbrev taken : Raft ℕ Bytes
taken = (start gob wins.0.rf 5).0

abbrev holding : Sending ℕ Bytes
holding = record {
  cluster = record decided { peer = update decided.peer 0 taken };
  sent = λ k. none;
}

asked :
    (rf : Raft ℕ Bytes) × (args : AppendEntriesArgs ℕ) × (consistency_check taken 1
      ≡ some (rf, send_append_entries 1 args ∷ []))
unfolding consistency_check start wins
asked = (_, _, refl)

abbrev on_its_way : Sending ℕ Bytes
on_its_way = record holding { sent = update holding.sent 4 (some asked.1) }

told :
    (rf : Raft ℕ Bytes) × (reply : AppendEntriesReply) × (es : List (Effect ℕ Bytes))
    × (append_entries gob gives.0 asked.1 ≡ some (rf, reply, es))
unfolding append_entries asked gives
told = (_, _, _, refl)

abbrev spread : Sending ℕ Bytes
spread = record on_its_way {
  cluster = record holding.cluster { peer = update holding.cluster.peer 1 told.0 };
}

spread-LogReach : LogReach gob 3 spread
spread-LogReach =
    move
      (move (move decided-LogReach (call 0 taken (omega arith) (submit 5 refl) refl))
        (send 0 1 4 asked.0 asked.1 refl asked.2 refl))
      (call 1 told.0 (omega arith) (deliver 4 asked.1 told.1 told.2 refl told.3) refl)

log_matching_example : get_elem? (taken.logs) 0 ≡ get_elem? told.0.logs 0
unfolding start wins told asked
log_matching_example =
    log_matching gob 3 spread-LogReach 0 1 1 (entry 1 5) (entry 1 5) refl refl refl 0 (omega arith)

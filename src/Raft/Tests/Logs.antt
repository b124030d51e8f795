-- ===== src/Raft/Tests/Logs.antt =====
-- Compaction and delivery of the log of raft/raft.go, on a concrete peer.
use golang_deep_distributed.Prelude.{
  ℕ, ◌+◌, ◌≡◌, refl, true, none, some, List, [], ◌∷◌, arith, ltb, if◌then◌else◌, get_elem?,
}
use golang_deep_distributed.Raft.State.{
  Raft, LogEntry, ApplyMsg, reset_timer, apply, InstallSnapshotArgs, log_at, last_index,
}
use golang_deep_distributed.Raft.Snapshot.{new_snapshot, install_snapshot}
use golang_deep_distributed.Raft.Apply.{apply_log_entries}
use golang_deep_distributed.Raft.Durability.{IsDurable}
use golang_deep_distributed.Raft.Compaction.{
  new_snapshot-keeps, install_snapshot-keeps, above_snapshot,
}
use golang_deep_distributed.Raft.Delivery.{apply_log_entries_lem, delivered, delivery}
use golang_deep_distributed.Raft.Tests.{Bytes, gob, entry, head}

new_snapshot-keeps_example :
    (rf' : Raft ℕ Bytes) × (new_snapshot gob head [] 1 ≡ some rf')
    × ((i : ℕ) → log_at rf' i ≡ (if ltb i 1 then none else log_at head i))
    × (rf'.snapshot_index ≡ 1)
    × (rf'.snapshot_term ≡ 1)
    × (last_index rf' ≡ 2)
    × (rf'.commit_index ≡ 1)
    × IsDurable gob rf'
    × (rf'.persister.snapshot ≡ [])
new_snapshot-keeps_example =
    new_snapshot-keeps gob head [] 1 (entry 1 7) (omega arith) (omega arith) refl

-- A snapshot that covers the first entry.
abbrev part : InstallSnapshotArgs Bytes
part = record {
  term = 2;
  leader_id = 1;
  last_included_index = 1;
  last_included_term = 1;
  snapshot = [];
}

abbrev part_msg : ApplyMsg ℕ Bytes
part_msg = record {
  command_valid = true;
  command = none;
  command_index = 1;
  use_snapshot = true;
  snapshot = [];
}

install_snapshot-keeps_example :
    (rf' : Raft ℕ Bytes) × (install_snapshot gob head part
      ≡ some (rf', record { current_term = 2 }, reset_timer ∷ apply part_msg ∷ []))
    × ((i : ℕ) → log_at rf' i ≡ above_snapshot head part i)
    × (rf'.snapshot_index ≡ 1)
    × IsDurable gob rf'
    × (rf'.persister.snapshot ≡ [])
install_snapshot-keeps_example =
    install_snapshot-keeps gob head part refl (omega arith) (omega arith)

abbrev committed : Raft ℕ Bytes
committed = record head { commit_index = 2 }

-- What a longer log left in the array.
abbrev stale : List (LogEntry ℕ)
stale = entry 9 9 ∷ []

passes :
    apply_log_entries [] stale committed
    ≡ some (record committed { last_applied = 2 }, delivery [] 2 (entry 2 8) ∷ [])
unfolding apply_log_entries
passes = refl

apply_log_entries_lem_example :
    (msgs : List (ApplyMsg ℕ Bytes)) × (apply_log_entries [] stale committed
      ≡ some (record committed { last_applied = 2 }, msgs))
    × ((k : ℕ) → get_elem? msgs k ≡ (if ltb k 1 then delivered [] committed (2 + k) else none))
apply_log_entries_lem_example =
    apply_log_entries_lem [] stale committed (omega arith) (omega arith) (omega arith)

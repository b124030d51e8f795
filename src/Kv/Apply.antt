-- ===== src/Kv/Apply.antt =====
-- kvraft/server.go: `applyDaemon`, one message of Raft at a time; `generateSnapshot`,
-- `readSnapshot`, `StartKVServer` and `Kill`.
use golang_deep_distributed.Prelude.{
  ℕ, true, false, Option, none, some, List, [], ◌∷◌, ltb, ◌==◌, if◌then◌else◌, ◌>>=◌,
}
use golang_deep_distributed.Prelude.Dict.{Dict}
use golang_deep_distributed.Persister.{
  Gob, Persister, save_snapshot, read_snapshot as stored_snapshot,
}
use golang_deep_distributed.Raft.State.{ApplyMsg, Value as RaftValue}
use golang_deep_distributed.Raft.Persist.{make}
use golang_deep_distributed.Raft.Snapshot.{new_snapshot}
use golang_deep_distributed.Raft.Leader.{kill as kill_raft}
use golang_deep_distributed.Kv.State.{Op, LatestReply, KvServer, Value, table, index, replies}
use golang_deep_distributed.Kv.Server.{apply_op, need_snapshot, notify}
use Prim.Native.String.{String}

-- One `Decode` each, as in `readPersist` of Raft: a value of another type leaves the variable.
unfoldable pub decode_table : List Value → Dict String String → Dict String String × List Value
decode_table (table db ∷ vs) old = (db, vs)
decode_table (v ∷ vs) old = (old, vs)
decode_table [] old = (old, [])

unfoldable pub decode_index : List Value → ℕ → ℕ × List Value
decode_index (index n ∷ vs) old = (n, vs)
decode_index (v ∷ vs) old = (old, vs)
decode_index [] old = (old, [])

unfoldable pub decode_replies : List Value → Dict ℕ LatestReply → Dict ℕ LatestReply × List Value
decode_replies (replies d ∷ vs) old = (d, vs)
decode_replies (v ∷ vs) old = (old, vs)
decode_replies [] old = (old, [])

module _ {B : Type 0} (kgob : Gob Value B) where
  unfoldable pub snapshot_data : KvServer B → B
  snapshot_data kv = kgob.encode (table kv.db ∷ index kv.snapshot_index ∷ replies kv.duplicate ∷ [])

  -- The snapshot goes to the persister that the server shares with its Raft peer.
  unfoldable pub generate_snapshot : KvServer B → ℕ → KvServer B × B
  unfolding snapshot_data save_snapshot
  generate_snapshot kv at =
      let kv' = record kv { snapshot_index = at } in
      let bytes = snapshot_data kv' in
      (
        record kv' { rf = record kv'.rf { persister = save_snapshot kv'.rf.persister bytes } },
        bytes,
      )

  unfoldable pub read_snapshot : KvServer B → B → KvServer B
  unfolding decode_table decode_index decode_replies
  read_snapshot kv bytes =
      if kgob.len bytes == 0
      then kv
      else let (db, r₁) = decode_table (kgob.decode bytes) [] in
        let (at, r₂) = decode_index r₁ kv.snapshot_index in
        let (duplicate, r₃) = decode_replies r₂ [] in
        record kv { store = record { db = db; duplicate = duplicate }; snapshot_index = at }

module _ {B : Type 0} (rgob : Gob (RaftValue Op) B) (kgob : Gob Value B) where
  -- "snapshot detection": a snapshot of the server, for Raft to cut its log.
  unfoldable pub compact : KvServer B → ℕ → Option (KvServer B)
  unfolding need_snapshot generate_snapshot
  compact kv at =
      if need_snapshot rgob kv
      then (let (kv', bytes) = generate_snapshot kgob kv at in
          new_snapshot rgob kv'.rf bytes at >>= λ rf. some (record kv' { rf = rf }))
      else some kv

  -- A committed command that the server's snapshot does not cover.
  unfoldable pub apply_command : KvServer B → Op → ℕ → Option (KvServer B × List ℕ)
  unfolding apply_op compact notify
  apply_command kv cmd at = do
    store ← apply_op kv.store cmd
    kv' ← compact (record kv { store = store }) at
    some (notify kv' at)

  -- One message; the channels closed come with the new state.
  unfoldable pub apply_msg : KvServer B → ApplyMsg Op B → Option (KvServer B × List ℕ)
  unfolding read_snapshot generate_snapshot apply_command
  apply_msg kv msg =
      if msg.use_snapshot
      then some
          ((generate_snapshot kgob (read_snapshot kgob kv msg.snapshot) msg.command_index).0, [])
      else elim msg.command [
        | none ↦ some (kv, [])
        | some cmd ↦
            (if ltb kv.snapshot_index msg.command_index
              then apply_command kv cmd msg.command_index
              else some (kv, []))
      ]

  -- `StartKVServer`, up to the daemon that it starts: the snapshot is read first, then the peer is
  -- made from the same persister.
  unfoldable pub start_kv_server : ℕ → ℕ → Persister B → Option ℕ → KvServer B
  unfolding read_snapshot stored_snapshot make
  start_kv_server servers me persister maxraftstate =
      read_snapshot kgob
        (record {
          me = me;
          rf = make rgob servers me persister;
          dead = false;
          maxraftstate = maxraftstate;
          store = record { db = []; duplicate = [] };
          snapshot_index = 0;
          notify_chs = [];
          channels = 0;
        })
        (stored_snapshot persister)

unfoldable pub kill : {B : Type 0} → KvServer B → Option (KvServer B)
unfolding kill_raft
kill kv = kill_raft kv.rf >>= λ out. some (record kv { dead = true; rf = out.0 })

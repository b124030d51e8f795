-- ===== src/Kv/Snapshots.antt =====
-- Snapshots of the service (kvraft/server.go): what a snapshot restores, in a server that starts
-- again and in one that Raft hands it to.
use golang_deep_distributed.Prelude.{
  ℕ, ◌≤◌, max, ◌≡◌, refl, ap, ◌∙◌, true, false, Option, some, List, [], ◌∷◌, arith, ◌==◌,
}
use golang_deep_distributed.Persister.{Gob}
use golang_deep_distributed.Raft.State.{ApplyMsg, Value as RaftValue}
use golang_deep_distributed.Kv.State.{Op, KvServer, Value, table, index, replies}
use golang_deep_distributed.Kv.Apply.{
  snapshot_data, generate_snapshot, read_snapshot, apply_msg, start_kv_server,
}

module _ {B : Type 0} (kgob : Gob Value B) where
  -- Reading back what was generated, into any server.
  pub read_snapshot_lem :
      (kv other : KvServer B) (at : ℕ)
      → read_snapshot kgob other (generate_snapshot kgob kv at).1
        ≡ record other { store = kv.store; snapshot_index = at }
  unfolding read_snapshot generate_snapshot snapshot_data
  read_snapshot_lem kv other at =
      let values = table kv.db ∷ index at ∷ replies kv.duplicate ∷ [] in
      let full : (gob_len values == 0) ≡ false =
        ground (arith, kgob.len-encode (table kv.db) (index at ∷ replies kv.duplicate ∷ [])) in
      rw (full, kgob.decode-encode values) refl
    where
      gob_len : List Value → ℕ
      gob_len vs = kgob.len (kgob.encode vs)

module _ {B : Type 0} (rgob : Gob (RaftValue Op) B) (kgob : Gob Value B) where
  -- The server that starts again from the persister in which a snapshot was saved.
  start_kv_server_lem :
      (kv : KvServer B) (at servers me : ℕ) (max : Option ℕ)
      → let again =
          start_kv_server rgob kgob servers me (generate_snapshot kgob kv at).0.rf.persister max in
        (again.store ≡ kv.store) × (again.snapshot_index ≡ at)
  unfolding start_kv_server generate_snapshot
  start_kv_server_lem kv at servers me max =
      let q = read_snapshot_lem kgob kv _ at in
      (ap (λ (k : KvServer B). k.store) q, ap (λ (k : KvServer B). k.snapshot_index) q)

  -- The server that gets a snapshot from Raft.
  apply_msg_snapshot :
      (kv other : KvServer B) (at : ℕ) (msg : ApplyMsg Op B)
      → msg.use_snapshot ≡ true
      → msg.snapshot ≡ (generate_snapshot kgob kv at).1
      → (given : KvServer B) × (apply_msg rgob kgob other msg ≡ some (given, []))
        × (given.store ≡ kv.store)
        × (given.snapshot_index ≡ msg.command_index)
  unfolding apply_msg
  apply_msg_snapshot kv other at msg used bytes =
      let q = ap (read_snapshot kgob other) bytes ∙ read_snapshot_lem kgob kv other at in
      (
        (generate_snapshot kgob (read_snapshot kgob other msg.snapshot) msg.command_index).0,
        rw used refl,
        ap (λ (k : KvServer B). k.store) q,
        refl,
      )

  apply_msg_late :
      (kv : KvServer B) (late : ApplyMsg Op B)
      → late.use_snapshot ≡ false
      → late.command_index ≤ kv.snapshot_index
      → apply_msg rgob kgob kv late ≡ some (kv, [])
  unfolding apply_msg
  apply_msg_late kv late plain le = ground arith

  -- A snapshot carries the whole service. A server that starts again from the persister in which the
  -- snapshot was saved, and a server that gets the snapshot from Raft, have both maps of the server
  -- that made it, and its index; and both ignore every later message of a command up to that index.
  pub generate_snapshot_restores :
      (kv other : KvServer B) (at servers me : ℕ) (max : Option ℕ) (msg late : ApplyMsg Op B)
      → msg.use_snapshot ≡ true
      → msg.snapshot ≡ (generate_snapshot kgob kv at).1
      → msg.command_index ≡ at
      → late.use_snapshot ≡ false
      → late.command_index ≤ at
      → let again =
          start_kv_server rgob kgob servers me (generate_snapshot kgob kv at).0.rf.persister max in
        (again.store ≡ kv.store)
        × (again.snapshot_index ≡ at)
        × ((given : KvServer B) × (apply_msg rgob kgob other msg ≡ some (given, []))
            × (given.store ≡ kv.store)
            × (given.snapshot_index ≡ at)
            × (apply_msg rgob kgob given late ≡ some (given, []))
            × (apply_msg rgob kgob again late ≡ some (again, [])))
  generate_snapshot_restores kv other at servers me max msg late used bytes here plain le =
      let again =
        start_kv_server rgob kgob servers me (generate_snapshot kgob kv at).0.rf.persister max in
      let (store, position) = start_kv_server_lem kv at servers me max in
      let (given, run, store', position') = apply_msg_snapshot kv other at msg used bytes in
      (
        store,
        position,
        (
          given,
          run,
          store',
          position' ∙ here,
          apply_msg_late given late plain (omega (arith, position', here)),
          apply_msg_late again late plain (omega (arith, position)),
        ),
      )

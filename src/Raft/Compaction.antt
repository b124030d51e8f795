-- ===== src/Raft/Compaction.antt =====
-- Log compaction in raft/raft.go: what `NewSnapShot` and `InstallSnapshot` leave of the log.
use golang_deep_distributed.Prelude.{
  ℕ, zero, suc, ◌+◌, ◌-◌, ◌≤◌, ◌<◌, ◌≡◌, refl, sym, ap, ◌∙◌, inl, inr, true, false, Option, none,
  some, List, [], ◌∷◌, arith, ltb, leb, ◌==◌, if◌then◌else◌, Bool-cases, length, get_elem?, drop,
  length-drop, lt_of_get_elem?, get_elem?-drop, ltb-false→le,
}
use golang_deep_distributed.Persister.{Gob, save_state_and_snapshot}
use golang_deep_distributed.Raft.State.{
  Raft, LogEntry, Value, reset_timer, apply, InstallSnapshotArgs, log_at, last_index,
}
use golang_deep_distributed.Raft.Persist.{state_data}
use golang_deep_distributed.Raft.Snapshot.{new_snapshot, install_snapshot, install, deliver}
use golang_deep_distributed.Raft.Durability.{IsDurable}

module _ {ℓ} {A : Type ℓ} where
  drop_ge : (n : ℕ) (xs : List A) → length xs ≤ n → drop n xs ≡ []
  drop_ge zero [] h = refl
  drop_ge zero (x ∷ xs) h = absurd (omega (arith, h))
  drop_ge (suc n) [] h = refl
  drop_ge (suc n) (x ∷ xs) h = drop_ge n xs (omega arith)

module _ {C B : Type 0} where
  -- The log after an installed snapshot, by index: the placeholder at the snapshot's index, and the old
  -- entries above it.
  abbrev pub above_snapshot : Raft C B → InstallSnapshotArgs B → ℕ → Option (LogEntry C)
  above_snapshot rf args i =
      if ltb i args.last_included_index
      then none
      else if i == args.last_included_index
      then some (record { term = args.last_included_term; command = none })
      else log_at rf i

module _ {C B : Type 0} (gob : Gob (Value C) B) where
  -- The peer after `NewSnapShot` at the index, where the log has the entry.
  abbrev compacted : Raft C B → B → ℕ → LogEntry C → Raft C B
  compacted rf bytes at e =
      let cut : Raft C B = record rf {
        logs = drop (at - rf.snapshot_index) rf.logs;
        snapshot_index = at;
        snapshot_term = e.term;
      } in
      record cut { persister = save_state_and_snapshot cut.persister (state_data gob cut) bytes }

  new_snapshot-compacted :
      (rf : Raft C B) (bytes : B) (at : ℕ) (e : LogEntry C)
      → rf.snapshot_index < at
      → at ≤ rf.commit_index
      → log_at rf at ≡ some e
      → new_snapshot gob rf bytes at ≡ some (compacted rf bytes at e)
  unfolding new_snapshot
  new_snapshot-compacted rf bytes at e above committed here =
      let there : get_elem? rf.logs (at - rf.snapshot_index) ≡ some e = ground arith in
      let inside = lt_of_get_elem? rf.logs (at - rf.snapshot_index) there in
      let first : get_elem? (drop (at - rf.snapshot_index) rf.logs) 0 ≡ some e =
        ground (arith, get_elem?-drop (at - rf.snapshot_index) rf.logs 0) in
      ground (arith, inside, first)

  -- A snapshot of the service at a committed index of the log, above the last one, cuts the log there:
  -- the entries from the index on stay under their indexes, the ones below are gone, the snapshot term
  -- is that of the entry at the index, the log's end and the commit index stay, and the state and the
  -- snapshot are saved together.
  pub new_snapshot-keeps :
      (rf : Raft C B) (bytes : B) (at : ℕ) (e : LogEntry C)
      → rf.snapshot_index < at
      → at ≤ rf.commit_index
      → log_at rf at ≡ some e
      → (rf' : Raft C B) × (new_snapshot gob rf bytes at ≡ some rf')
        × ((i : ℕ) → log_at rf' i ≡ (if ltb i at then none else log_at rf i))
        × (rf'.snapshot_index ≡ at)
        × (rf'.snapshot_term ≡ e.term)
        × (last_index rf' ≡ last_index rf)
        × (rf'.commit_index ≡ rf.commit_index)
        × IsDurable gob rf'
        × (rf'.persister.snapshot ≡ bytes)
  unfolding state_data save_state_and_snapshot
  new_snapshot-keeps rf bytes at e above committed here =
      let there : get_elem? rf.logs (at - rf.snapshot_index) ≡ some e = ground arith in
      let inside = lt_of_get_elem? rf.logs (at - rf.snapshot_index) there in
      (
        compacted rf bytes at e,
        new_snapshot-compacted rf bytes at e above committed here,
        λ i. elim (Bool-cases (ltb i at)) [
          | inl below ↦ ground (arith, below)
          | inr from ↦
              let shift : at - rf.snapshot_index + (i - at) ≡ i - rf.snapshot_index =
                omega (arith, ltb-false→le i at from) in
              ground (arith, from, shift, get_elem?-drop (at - rf.snapshot_index) rf.logs (i - at))
        ],
        refl,
        refl,
        omega (arith, inside, length-drop (at - rf.snapshot_index) rf.logs),
        refl,
        refl,
        refl,
      )

  install_snapshot-rest :
      (rf : Raft C B) (args : InstallSnapshotArgs B) (rest : List (LogEntry C))
      → (i : ℕ) → rf.snapshot_index < args.last_included_index
      → rest ≡ drop (args.last_included_index - rf.snapshot_index + 1) rf.logs
      → log_at (install gob rf args rest) i ≡ above_snapshot rf args i
  install_snapshot-rest rf args rest i above same =
      let n = args.last_included_index in
      elim (Bool-cases (leb i n)) [
        | inl low ↦ elim (Bool-cases (ltb i n)) [
          | inl below ↦ ground (arith, below)
          | inr from ↦ let at : i - n ≡ 0 = ground arith in ground (arith, from, low, at)
        ]
        | inr high ↦
            let at : i - n ≡ suc (i - n - 1) = ground arith in
            let shift : n - rf.snapshot_index + 1 + (i - n - 1) ≡ i - rf.snapshot_index =
              ground arith in
            let read : get_elem? (install gob rf args rest).logs (i - n)
                ≡ get_elem? rest (i - n - 1) =
              ap (get_elem? (install gob rf args rest).logs) at in
            let old : get_elem? rest (i - n - 1) ≡ get_elem? rf.logs (i - rf.snapshot_index) =
              rw same (
                get_elem?-drop (n - rf.snapshot_index + 1) rf.logs (i - n - 1)
                ∙ ap (get_elem? rf.logs) shift) in
            ground (arith, high, read, old)
      ]

  -- `InstallSnapshot` on a running peer, where the request is not stale and its snapshot covers more
  -- than the peer's: it does not fault, the log keeps exactly the old entries above the snapshot after
  -- a placeholder of the snapshot's term, the service is given the snapshot after the timer is reset,
  -- and the state and the snapshot are saved together.
  pub install_snapshot-keeps :
      (rf : Raft C B) (args : InstallSnapshotArgs B)
      → rf.shutdown ≡ false
      → rf.current_term ≤ args.term
      → rf.snapshot_index < args.last_included_index
      → (rf' : Raft C B) × (install_snapshot gob rf args
          ≡ some (
            rf',
            record { current_term = rf.current_term },
            reset_timer
                ∷ apply (record {
                  command_valid = true;
                  command = none;
                  command_index = args.last_included_index;
                  use_snapshot = true;
                  snapshot = args.snapshot;
                })
                ∷ [],
          ))
        × ((i : ℕ) → log_at rf' i ≡ above_snapshot rf args i)
        × (rf'.snapshot_index ≡ args.last_included_index)
        × IsDurable gob rf'
        × (rf'.persister.snapshot ≡ args.snapshot)
  unfolding install_snapshot state_data save_state_and_snapshot
  install_snapshot-keeps rf args up current above =
      let n = args.last_included_index in
      let rest = drop (n - rf.snapshot_index + 1) rf.logs in
      (
        (deliver gob (install gob rf args rest) args rf.current_term).0,
        elim (Bool-cases (leb (rf.snapshot_index + length rf.logs - 1) n)) [
          | inl whole ↦
              let none_left : rest ≡ [] =
                drop_ge (n - rf.snapshot_index + 1) rf.logs (ground (arith, whole)) in
              let empty : install_snapshot gob rf args
                  ≡ some (deliver gob (install gob rf args []) args rf.current_term) =
                ground (arith, whole) in
              empty
              ∙ ap (λ r. some (deliver gob (install gob rf args r) args rf.current_term))
                  (sym none_left)
          | inr part ↦ ground (arith, part)
        ],
        λ i. install_snapshot-rest rf args rest i above refl,
        refl,
        refl,
        refl,
      )

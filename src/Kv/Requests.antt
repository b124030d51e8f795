-- ===== src/Kv/Requests.antt =====
-- A client's request in kvraft/server.go: what a handler hands to Raft, which channel the apply
-- daemon closes for it, and what the reply says.
use mathlib.Core.Path.{ap₂}
use text.Mathlib.Text.{◌==◌ as str_eq}
use golang_deep_distributed.Prelude.{
  ℕ, ◌+◌, ◌-◌, ◌≡◌, refl, sym, ap, ◌∙◌, inl, inr, true, false, Option, none, some, List, [], ◌∷◌,
  ◌++◌, arith, if◌then◌else◌, Option-cases, length, get_elem?, length-append,
}
use golang_deep_distributed.Prelude.Dict.{
  Dict, lookup, insert, lookup-insert, lookup-delete, nat_eq, string_eq, option_nat_eq, beq_refl,
}
use golang_deep_distributed.Persister.{Gob}
use golang_deep_distributed.Raft.State.{
  Raft, LogEntry, Value as RaftValue, log_at, leader, is_leader,
}
use golang_deep_distributed.Raft.Leader.{start}
use golang_deep_distributed.Raft.Snapshot.{new_snapshot}
use golang_deep_distributed.Kv.State.{Op, Store, KvServer, Value, PutAppendArgs, GetArgs, ok}
use golang_deep_distributed.Kv.Server.{
  apply_op, is_fresh, submit, put_append, get_end, still_leads, notify, wait,
}
use golang_deep_distributed.Kv.Apply.{generate_snapshot, compact, apply_command}

module _ {C : Type 0} where
  pub get_elem?-append_last : (xs : List C) (x : C) → get_elem? (xs ++ x ∷ []) (length xs) ≡ some x
  get_elem?-append_last [] x = refl
  get_elem?-append_last (y ∷ xs) x = get_elem?-append_last xs x

module _ {B : Type 0} (rgob : Gob (RaftValue Op) B) where
  -- A running leader appends the command and returns its index.
  start_lem :
      (rf : Raft Op B) (cmd : Op)
      → rf.shutdown ≡ false
      → rf.state ≡ leader
      → let out = start rgob rf cmd in
        (out.0.logs ≡ rf.logs ++ record { term = rf.current_term; command = some cmd } ∷ [])
        × (out.0.snapshot_index ≡ rf.snapshot_index)
        × (out.1 ≡ some (length rf.logs + rf.snapshot_index))
        × (out.2 ≡ rf.current_term)
  unfolding start
  start_lem rf cmd up lead =
      let n = length-append rf.logs (record { term = rf.current_term; command = some cmd } ∷ []) in
      rw (up, lead) (refl, refl, ap some (omega (arith, n)), refl)

  log_at-start :
      (rf : Raft Op B) (cmd : Op)
      → rf.shutdown ≡ false
      → rf.state ≡ leader
      → log_at (start rgob rf cmd).0 (length rf.logs + rf.snapshot_index)
        ≡ some (record { term = rf.current_term; command = some cmd })
  log_at-start rf cmd up lead =
      let (logs, snap, _, _) = start_lem rf cmd up lead in
      let entry : LogEntry Op = record { term = rf.current_term; command = some cmd } in
      let at : length rf.logs + rf.snapshot_index - rf.snapshot_index ≡ length rf.logs =
        omega arith in
      rw (logs, snap, at) (ground (arith, get_elem?-append_last rf.logs entry))

  -- The command that a `PutAppend` request becomes.
  abbrev pub to_op : PutAppendArgs → Op
  to_op args = record {
    key = args.key;
    value = args.value;
    op = args.op;
    client_id = args.client_id;
    seq_no = args.seq_no;
  }

  put_append-submit :
      (kv : KvServer B) (args : PutAppendArgs)
      → kv.rf.state ≡ leader
      → is_fresh kv.store args.client_id args.seq_no ≡ true
      → put_append rgob kv args ≡ (
        (submit rgob kv (to_op args)).0,
        wait
            (submit rgob kv (to_op args)).1
            (submit rgob kv (to_op args)).2
            (submit rgob kv (to_op args)).3,
      )
  unfolding put_append
  put_append-submit kv args lead fresh =
      let leads : is_leader kv.rf.state ≡ true = ap is_leader lead in rw (leads, fresh) refl

  -- A running leader that gets a fresh `PutAppend` puts exactly that command at the end of Raft's log,
  -- in its current term, changes neither map, and waits on a new channel under the entry's index.
  pub put_append-wait :
      (kv : KvServer B) (args : PutAppendArgs)
      → kv.rf.shutdown ≡ false
      → kv.rf.state ≡ leader
      → is_fresh kv.store args.client_id args.seq_no ≡ true
      → let out = put_append rgob kv args in
        let at = length kv.rf.logs + kv.rf.snapshot_index in
        (out.1 ≡ wait (some at) kv.rf.current_term kv.channels)
        × (log_at out.0.rf at
            ≡ some (record { term = kv.rf.current_term; command = some (to_op args) }))
        × (out.0.store ≡ kv.store)
        × (lookup (some at) out.0.notify_chs ≡ some kv.channels)
  unfolding submit
  put_append-wait kv args up lead fresh =
      let (logs, snap, slot, term) = start_lem kv.rf (to_op args) up lead in
      let at = length kv.rf.logs + kv.rf.snapshot_index in
      rw (put_append-submit kv args lead fresh) (
        cc (slot, term),
        log_at-start kv.rf (to_op args) up lead,
        refl,
        rw slot (
            lookup-insert (some at) (some at) kv.channels kv.notify_chs
            ∙ ground (arith, beq_refl option_nat_eq (some at))),
      )

run_op-put :
    (s s' : Store) (cmd : Op)
    → cmd.op ≡ "Put"
    → is_fresh s cmd.client_id cmd.seq_no ≡ true
    → apply_op s cmd ≡ some s'
    → s'.db ≡ insert cmd.key cmd.value s.db
unfolding apply_op
run_op-put s s' cmd put fresh h =
    let get : str_eq cmd.op "Get" ≡ false = rw put refl in
    let is_put : str_eq cmd.op "Put" ≡ true = rw put refl in ground (arith, get, is_put, fresh)

-- The channel under an index, as a list.
abbrev pub opened : ℕ → Dict (Option ℕ) ℕ → List ℕ
opened at chs = elim (lookup (some at) chs) [ some ch ↦ ch ∷ [] | none ↦ [] ]

module _ {B : Type 0} (rgob : Gob (RaftValue Op) B) (kgob : Gob Value B) where
  compact-notify_chs :
      (kv : KvServer B) (at : ℕ) {kv' : KvServer B}
      → compact rgob kgob kv at ≡ some kv'
      → (kv'.notify_chs ≡ kv.notify_chs) × (kv'.store ≡ kv.store)
  unfolding compact
  compact-notify_chs kv at {kv'} h =
      let (made, bytes) = generate_snapshot kgob kv at in
      elim (Option-cases (new_snapshot rgob made.rf bytes at)) [
        | inl e ↦ ground (arith, e)
        | inr (rf, e) ↦ ground (arith, e)
      ]

  notify_lem :
      (kv : KvServer B) (at : ℕ)
      → ((notify kv at).1 ≡ opened at kv.notify_chs)
        × ((notify kv at).0.store ≡ kv.store)
        × ((slot : Option ℕ)
            → lookup slot (notify kv at).0.notify_chs
              ≡ (if option_nat_eq.beq (some at) slot then none else lookup slot kv.notify_chs))
  unfolding notify
  notify_lem kv at = elim (Option-cases (lookup (some at) kv.notify_chs)) [
    | inl e ↦ (
      ground (arith, e),
      ground (arith, e),
      λ slot. ground (arith, e, option_nat_eq.beq_iff (some at) slot),
    )
    | inr (ch, e) ↦ (
      ground (arith, e),
      ground (arith, e),
      λ slot. ground (arith, e, lookup-delete (some at) slot kv.notify_chs),
    )
  ]

  -- Applying a committed command runs it through the duplicate filter, closes exactly the channel under
  -- its index, takes that channel out of the table, and leaves every other waiter.
  pub apply_command_lem :
      (kv : KvServer B) (cmd : Op) (at : ℕ) (kv' : KvServer B) (closed : List ℕ)
      → apply_command rgob kgob kv cmd at ≡ some (kv', closed)
      → (apply_op kv.store cmd ≡ some kv'.store)
        × (closed ≡ opened at kv.notify_chs)
        × ((slot : Option ℕ)
            → lookup slot kv'.notify_chs
              ≡ (if option_nat_eq.beq (some at) slot then none else lookup slot kv.notify_chs))
  unfolding apply_command
  apply_command_lem kv cmd at kv' closed h = elim (Option-cases (apply_op kv.store cmd)) [
    | inl e ↦ absurd (ground (arith, e))
    | inr (s, e) ↦ elim (Option-cases (compact rgob kgob (record kv { store = s }) at)) [
      | inl e' ↦ absurd (ground (arith, e, e'))
      | inr (kv₁, e') ↦
          let (chs, store) = compact-notify_chs (record kv { store = s }) at {kv' = kv₁} e' in
          let (closes, keeps, rest) = notify_lem kv₁ at in
          let q : notify kv₁ at ≡ (kv', closed) = ground (arith, e, e') in
          (
            e ∙ ap some (sym store ∙ sym keeps ∙ ap (λ (o : KvServer B × List ℕ). o.0.store) q),
            sym (ap (λ (o : KvServer B × List ℕ). o.1) q) ∙ closes ∙ ap (opened at) chs,
            λ slot.
                sym (ap (λ (o : KvServer B × List ℕ). lookup slot o.0.notify_chs) q)
                ∙ rest slot
                ∙ ap (λ m. if option_nat_eq.beq (some at) slot then none else lookup slot m) chs,
          )
    ]
  ]

  -- Where the peer still leads, a `Get` whose channel is closed after a fresh `Put` of its key was
  -- applied returns the value that was put.
  get_end-put :
      (kv : KvServer B) (cmd : Op) (at : ℕ) (kv' : KvServer B) (closed : List ℕ) (args : GetArgs)
      (term : ℕ)
      → apply_command rgob kgob kv cmd at ≡ some (kv', closed)
      → cmd.op ≡ "Put"
      → is_fresh kv.store cmd.client_id cmd.seq_no ≡ true
      → args.key ≡ cmd.key
      → still_leads kv' term ≡ true
      → get_end kv' args term ≡ record { wrong_leader = false; err = ok; value = cmd.value }
  unfolding get_end
  get_end-put kv cmd at kv' closed args term h put fresh same leads =
      let applied = (apply_command_lem kv cmd at kv' closed h).0 in
      let db : kv'.db ≡ insert cmd.key cmd.value kv.db =
        run_op-put kv.store kv'.store cmd put fresh applied in
      let found : lookup args.key kv'.db ≡ some cmd.value =
        ap₂ lookup same db
        ∙ lookup-insert cmd.key cmd.key cmd.value kv.db
        ∙ ground (arith, beq_refl string_eq cmd.key) in
      ground (arith, leads, found)

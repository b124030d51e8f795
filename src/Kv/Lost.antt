-- ===== src/Kv/Lost.antt =====
-- A handler of kvraft/server.go whose peer lost its lead between `GetState` and `Start`: the channel on
-- which it waits.
use golang_deep_distributed.Prelude.{
  ℕ, zero, suc, ◌<◌, ◌≡◌, sym, ap, subst, ◌∙◌, ◌≢◌, inl, inr, true, not, ◌||◌, Option, none, some,
  List, [], ◌∷◌, arith, leb, Bool-cases, Option-cases, get_elem?,
}
use golang_deep_distributed.Prelude.Dict.{Dict, lookup, lookup-insert, option_nat_eq}
use golang_deep_distributed.Persister.{Gob}
use golang_deep_distributed.Raft.State.{Raft, ApplyMsg, Value as RaftValue, is_leader}
use golang_deep_distributed.Raft.Leader.{start}
use golang_deep_distributed.Raft.Snapshot.{new_snapshot}
use golang_deep_distributed.Kv.State.{Op, KvServer, Value}
use golang_deep_distributed.Kv.Server.{apply_op, submit, notify}
use golang_deep_distributed.Kv.Apply.{
  generate_snapshot, compact, read_snapshot, apply_command, apply_msg,
}
use golang_deep_distributed.Kv.Requests.{opened, apply_command_lem}

-- The channel is not among those.
abbrev pub Lacks : ℕ → List ℕ → Type 0
Lacks ch closed = (i : ℕ) → get_elem? closed i ≢ some ch

-- Each channel of the table is one of those made so far.
abbrev IsNumbered : {B : Type 0} → KvServer B → Type 0
IsNumbered kv = (slot : Option ℕ) (ch : ℕ) → lookup slot kv.notify_chs ≡ some ch → ch < kv.channels

-- The channel was made, and stands under no index of the log.
abbrev IsUnwoken : {B : Type 0} → ℕ → KvServer B → Type 0
IsUnwoken ch kv = (ch < kv.channels) × ((at : ℕ) → lookup (some at) kv.notify_chs ≢ some ch)

opened-Lacks :
    (at ch : ℕ) (chs : Dict (Option ℕ) ℕ)
    → lookup (some at) chs ≢ some ch
    → Lacks ch (opened at chs)
opened-Lacks at ch chs h i e = elim (Option-cases (lookup (some at) chs)) [
  | inl q ↦ ground (arith, q, e)
  | inr (c, q) ↦ opened_one ch c i (λ same. h (ground (arith, q, same))) (ground (arith, q, e))
]
  where
    opened_one : (ch c i : ℕ) → c ≢ ch → get_elem? (c ∷ []) i ≢ some ch
    opened_one ch c zero h e = h (ground arith)
    opened_one ch c (suc i) h e = ground (arith, e)

module _ {B : Type 0} (rgob : Gob (RaftValue Op) B) (kgob : Gob Value B) where
  -- What happens at a server: a message of Raft is applied, a handler submits a command, or its peer
  -- moves by itself.
  pub data Runs (kv : KvServer B) : KvServer B → Type 0 where
    idle : Runs kv kv
    applied :
        {kv' kv'' : KvServer B} (msg : ApplyMsg Op B) (closed : List ℕ)
        → Runs kv kv'
        → apply_msg rgob kgob kv' msg ≡ some (kv'', closed)
        → Runs kv kv''
    submitted : {kv' : KvServer B} (cmd : Op) → Runs kv kv' → Runs kv (submit rgob kv' cmd).0
    peer_moved :
        {kv' : KvServer B} (rf : Raft Op B) → Runs kv kv' → Runs kv (record kv' { rf = rf })

  compact-channels :
      (kv : KvServer B) (at : ℕ) {kv' : KvServer B}
      → compact rgob kgob kv at ≡ some kv'
      → kv'.channels ≡ kv.channels
  unfolding compact generate_snapshot
  compact-channels kv at {kv'} h =
      let (made, bytes) = generate_snapshot kgob kv at in
      elim (Option-cases (new_snapshot rgob made.rf bytes at)) [
        | inl e ↦ ground (arith, e)
        | inr (rf, e) ↦ ground (arith, e)
      ]

  notify-channels : (kv : KvServer B) (at : ℕ) → (notify kv at).0.channels ≡ kv.channels
  unfolding notify
  notify-channels kv at = elim (Option-cases (lookup (some at) kv.notify_chs)) [
    | inl e ↦ ground (arith, e)
    | inr (ch, e) ↦ ground (arith, e)
  ]

  apply_command-channels :
      (kv : KvServer B) (cmd : Op) (at : ℕ) {kv' : KvServer B} {closed : List ℕ}
      → apply_command rgob kgob kv cmd at ≡ some (kv', closed)
      → kv'.channels ≡ kv.channels
  unfolding apply_command
  apply_command-channels kv cmd at {kv'} {closed} h = elim (Option-cases (apply_op kv.store cmd)) [
    | inl e ↦ absurd (ground (arith, e))
    | inr (s, e) ↦ elim (Option-cases (compact rgob kgob (record kv { store = s }) at)) [
      | inl e' ↦ absurd (ground (arith, e, e'))
      | inr (kv₁, e') ↦
          let q : notify kv₁ at ≡ (kv', closed) = ground (arith, e, e') in
          sym (ap (λ (o : KvServer B × List ℕ). o.0.channels) q)
          ∙ notify-channels kv₁ at
          ∙ compact-channels (record kv { store = s }) at {kv' = kv₁} e'
    ]
  ]

  -- A message makes no channel, puts none into the table, and closes only those under an index.
  abbrev Closes : KvServer B → KvServer B → List ℕ → Type 0
  Closes kv kv' closed =
      (kv'.channels ≡ kv.channels)
      × ((slot : Option ℕ) (ch : ℕ)
          → lookup slot kv'.notify_chs ≡ some ch
          → lookup slot kv.notify_chs ≡ some ch)
      × ((ch : ℕ) → ((at : ℕ) → lookup (some at) kv.notify_chs ≢ some ch) → Lacks ch closed)

  Closes-none :
      (kv kv' : KvServer B) (closed : List ℕ)
      → kv'.channels ≡ kv.channels
      → kv'.notify_chs ≡ kv.notify_chs
      → closed ≡ []
      → Closes kv kv' closed
  Closes-none kv kv' closed made chs none_closed = (
    made,
    λ slot ch e. ap (lookup slot) (sym chs) ∙ e,
    λ ch h i e. ground (arith, none_closed, e),
  )

  apply_msg-Closes :
      (kv : KvServer B) (msg : ApplyMsg Op B) (kv' : KvServer B) (closed : List ℕ)
      → apply_msg rgob kgob kv msg ≡ some (kv', closed)
      → Closes kv kv' closed
  unfolding apply_msg read_snapshot generate_snapshot
  apply_msg-Closes kv msg kv' closed h = elim (Option-cases msg.command) [
    | inl e ↦ Closes-none kv kv' closed (ground (arith, e)) (ground (arith, e)) (ground (arith, e))
    | inr (cmd, e) ↦
        elim (Bool-cases (msg.use_snapshot || leb msg.command_index kv.snapshot_index)) [
          | inl other ↦
              Closes-none kv kv' closed (ground (arith, e, other)) (ground (arith, e, other))
                (ground (arith, e, other))
          | inr plain ↦
              let run : apply_command rgob kgob kv cmd msg.command_index ≡ some (kv', closed) =
                ground (arith, e, plain) in
              let (store, closes, rest) =
                apply_command_lem rgob kgob kv cmd msg.command_index kv' closed run in
              (
                apply_command-channels kv cmd msg.command_index run,
                λ slot ch q. ground (arith, rest slot, q),
                λ ch out.
                    subst (Lacks ch) (sym closes)
                      (opened-Lacks msg.command_index ch kv.notify_chs (out msg.command_index)),
              )
        ]
  ]

  submit-IsNumbered :
      (kv : KvServer B) (cmd : Op) → IsNumbered kv → IsNumbered (submit rgob kv cmd).0
  unfolding submit
  submit-IsNumbered kv cmd all slot ch e =
      let new = (start rgob kv.rf cmd).1 in
      ground (arith, e, all slot ch, lookup-insert new slot kv.channels kv.notify_chs)

  submit-IsUnwoken :
      (kv : KvServer B) (cmd : Op) (ch : ℕ) → IsUnwoken ch kv → IsUnwoken ch (submit rgob kv cmd).0
  unfolding submit
  submit-IsUnwoken kv cmd ch (made, out) = (
    omega (arith, made),
    λ at e.
        let new = (start rgob kv.rf cmd).1 in
        ground (arith, e, made, out at, lookup-insert new (some at) kv.channels kv.notify_chs),
  )

  Runs-IsNumbered : {kv kv' : KvServer B} → Runs kv kv' → IsNumbered kv → IsNumbered kv'
  Runs-IsNumbered idle all = all
  Runs-IsNumbered (applied {kv'} {kv''} msg closed run h) all =
      let (made, old, closes) = apply_msg-Closes kv' msg kv'' closed h in
      λ slot ch e. ground (arith, made, Runs-IsNumbered run all slot ch (old slot ch e))
  Runs-IsNumbered (submitted {kv'} cmd run) all =
      submit-IsNumbered kv' cmd (Runs-IsNumbered run all)
  Runs-IsNumbered (peer_moved rf run) all = Runs-IsNumbered run all

  Runs-IsUnwoken : (ch : ℕ) {kv kv' : KvServer B} → Runs kv kv' → IsUnwoken ch kv → IsUnwoken ch kv'
  Runs-IsUnwoken ch idle lost = lost
  Runs-IsUnwoken ch (applied {kv'} {kv''} msg closed run h) lost =
      let (made, old, closes) = apply_msg-Closes kv' msg kv'' closed h in
      let (below, out) = Runs-IsUnwoken ch run lost in
      (ground (arith, made, below), λ at e. out at (old (some at) ch e))
  Runs-IsUnwoken ch (submitted {kv'} cmd run) lost =
      submit-IsUnwoken kv' cmd ch (Runs-IsUnwoken ch run lost)
  Runs-IsUnwoken ch (peer_moved rf run) lost = Runs-IsUnwoken ch run lost

  empty-IsNumbered : (kv : KvServer B) → kv.notify_chs ≡ [] → IsNumbered kv
  unfolding lookup
  empty-IsNumbered kv empty slot ch e = absurd (ground (arith, ap (lookup slot) empty, e))

  -- A peer that was shut down or does not lead gives no index.
  start-none :
      (rf : Raft Op B) (cmd : Op)
      → (rf.shutdown || not (is_leader rf.state)) ≡ true
      → (start rgob rf cmd).1 ≡ none
  unfolding start
  start-none rf cmd h = ground (arith, h)

  lost-IsUnwoken :
      (kv : KvServer B) (cmd : Op)
      → IsNumbered kv
      → (start rgob kv.rf cmd).1 ≡ none
      → IsUnwoken kv.channels (submit rgob kv cmd).0
  unfolding submit
  lost-IsUnwoken kv cmd all slot = (
    omega arith,
    λ at e. ground (
      arith,
      e,
      slot,
      all (some at) kv.channels,
      lookup-insert (start rgob kv.rf cmd).1 (some at) kv.channels kv.notify_chs,
    ),
  )

  -- A handler that submits its command at a peer that does not lead any more, or was shut down, waits
  -- on a new channel under the index -1. Whatever the server does before, from a table without channels,
  -- and after, in messages applied, commands submitted and moves of its peer, no message of Raft closes
  -- that channel, so that the handler is not woken.
  pub apply_msg_lost :
      {made kv later next : KvServer B} (cmd : Op) (msg : ApplyMsg Op B) (closed : List ℕ)
      → made.notify_chs ≡ []
      → Runs made kv
      → (kv.rf.shutdown || not (is_leader kv.rf.state)) ≡ true
      → Runs (submit rgob kv cmd).0 later
      → apply_msg rgob kgob later msg ≡ some (next, closed)
      → ((submit rgob kv cmd).1 ≡ none)
        × (lookup none (submit rgob kv cmd).0.notify_chs ≡ some (submit rgob kv cmd).3)
        × Lacks (submit rgob kv cmd).3 closed
  unfolding submit
  apply_msg_lost {made = made} {kv = kv} {later = later} {next = next} cmd msg closed empty before
        lost after h =
      let slot = start-none kv.rf cmd lost in
      let all = Runs-IsNumbered before (empty-IsNumbered made empty) in
      let (below, out) = Runs-IsUnwoken kv.channels after (lost-IsUnwoken kv cmd all slot) in
      let (same, old, closes) = apply_msg-Closes later msg next closed h in
      (
        slot,
        rw slot (ground (arith, lookup-insert {K = Option ℕ} none none kv.channels kv.notify_chs)),
        closes kv.channels out,
      )

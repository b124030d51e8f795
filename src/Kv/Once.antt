-- ===== src/Kv/Once.antt =====
-- Each request takes effect once: the duplicate table of kvraft/server.go against a description by
-- the history of commands.
use Prim.Native.String.{String, ◌++◌ as str_append}
use text.Mathlib.Text.{◌==◌ as str_eq}
use golang_deep_distributed.Prelude.{
  ℕ, ◌≤◌, ◌≡◌, refl, ap, ◌∙◌, ◌⊎◌, inl, inr, Bool, true, false, not, ◌&&◌, ◌||◌, Option, some, List,
  [], ◌∷◌, arith, leb, ◌==◌, if◌then◌else◌, Bool-cases, ◌>>=◌,
}
use golang_deep_distributed.Prelude.Dict.{Dict, lookup, insert, lookup-insert, nat_eq, string_eq}
use golang_deep_distributed.Kv.State.{Op, LatestReply, Store, blank}
use golang_deep_distributed.Kv.Server.{value_of, is_fresh, run_op, apply_op, record_reply}

-- The operation is one of the three that the service knows.
abbrev pub IsValid : Op → Type 0
IsValid cmd =
    (str_eq cmd.op "Get" ≡ true) ⊎ ((str_eq cmd.op "Put" ≡ true) ⊎ (str_eq cmd.op "Append" ≡ true))

abbrev pub AllValid : List Op → Type 0
AllValid [] = Unit
AllValid (cmd ∷ cmds) = IsValid cmd × AllValid cmds

-- An earlier command of the client has this sequence number or a later one.
abbrev pub is_stale : List Op → ℕ → ℕ → Bool
is_stale [] client seq = false
is_stale (cmd ∷ seen) client seq =
    (cmd.client_id == client && leb seq cmd.seq_no) || is_stale seen client seq

-- The commands that are not stale when they come, `seen` having come before.
abbrev pub first_uses : List Op → List Op → List Op
first_uses seen [] = []
first_uses seen (cmd ∷ cmds) =
    let rest = first_uses (cmd ∷ seen) cmds in
    if is_stale seen cmd.client_id cmd.seq_no then rest else cmd ∷ rest

-- A command by itself, with no table.
unfoldable pub exec : Dict String String → Op → Dict String String
unfolding value_of
exec db cmd =
    if str_eq cmd.op "Get"
    then db
    else if str_eq cmd.op "Put"
    then insert cmd.key cmd.value db
    else insert cmd.key (str_append (value_of db cmd.key) cmd.value) db

unfoldable pub exec_all : Dict String String → List Op → Dict String String
unfolding exec
exec_all db [] = db
exec_all db (cmd ∷ cmds) = exec_all (exec db cmd) cmds

-- The commands of a log, applied in order by a server.
unfoldable pub apply_all : Store → List Op → Option Store
unfolding apply_op
apply_all s [] = some s
apply_all s (cmd ∷ cmds) = let rest = λ (s' : Store). apply_all s' cmds in apply_op s cmd >>= rest

is_stale-le :
    (seen : List Op) (client p q : ℕ)
    → is_stale seen client p ≡ true
    → q ≤ p
    → is_stale seen client q ≡ true
is_stale-le [] client p q h le = h
is_stale-le (cmd ∷ seen) client p q h le = ground (arith, is_stale-le seen client p q)

-- The table knows of each client what the history says.
abbrev pub Tracks : List Op → Store → Type 0
Tracks seen s = (client seq : ℕ) → is_fresh s client seq ≡ not (is_stale seen client seq)

-- A known command runs: it does to the map what it does by itself, and enters its number in the
-- table, with some value.
run_op_fields :
    (s : Store) (cmd : Op)
    → IsValid cmd
    → (s' : Store) × (run_op s cmd ≡ some s')
      × (s'.db ≡ exec s.db cmd)
      × ((v : String) × (s'.duplicate ≡ record_reply s cmd v))
unfolding run_op exec
run_op_fields s cmd v = elim (Bool-cases (str_eq cmd.op "Get")) [
  | inl g ↦ (
    record s { duplicate = record_reply s cmd (value_of s.db cmd.key) },
    rw g,
    rw g,
    (value_of s.db cmd.key, refl),
  )
  | inr g ↦ elim (Bool-cases (str_eq cmd.op "Put")) [
    | inl p ↦ (
      record { db = insert cmd.key cmd.value s.db; duplicate = record_reply s cmd "" },
      rw (g, p),
      rw (g, p),
      ("", refl),
    )
    | inr p ↦ (
      record {
        db = insert cmd.key (str_append (value_of s.db cmd.key) cmd.value) s.db;
        duplicate = record_reply s cmd "";
      },
      ground (arith, g, p, v),
      rw (g, p),
      ("", refl),
    )
  ]
]

-- A command that is not stale enters the table.
Tracks-fresh :
    (seen : List Op) (s s' : Store) (cmd : Op) (v : String)
    → Tracks seen s
    → is_stale seen cmd.client_id cmd.seq_no ≡ false
    → s'.duplicate ≡ record_reply s cmd v
    → Tracks (cmd ∷ seen) s'
unfolding is_fresh
Tracks-fresh seen s s' cmd v t new e client seq =
    let dup : LatestReply = record { seq = cmd.seq_no; reply = record blank { value = v } } in
    let q = ap (lookup client) e ∙ lookup-insert cmd.client_id client dup s.duplicate in
    elim (Bool-cases (cmd.client_id == client)) [
      | inl same ↦
          ground (arith, q, same, new, t client seq, is_stale-le seen client seq cmd.seq_no)
      | inr other ↦ ground (arith, q, other, t client seq)
    ]

-- A command that is stale changes nothing that the table shows.
Tracks-stale :
    (seen : List Op) (s : Store) (cmd : Op)
    → Tracks seen s
    → is_stale seen cmd.client_id cmd.seq_no ≡ true
    → Tracks (cmd ∷ seen) s
Tracks-stale seen s cmd t old client seq =
    elim (Bool-cases (cmd.client_id == client && leb seq cmd.seq_no)) [
      | inl hit ↦ ground (arith, hit, t client seq, is_stale-le seen cmd.client_id cmd.seq_no seq)
      | inr miss ↦ ground (arith, miss, t client seq)
    ]

apply_op-stale :
    (s : Store) (cmd : Op) → is_fresh s cmd.client_id cmd.seq_no ≡ false → apply_op s cmd ≡ some s
unfolding apply_op
apply_op-stale s cmd h = ground (arith, h)

apply_op-fresh :
    (s : Store) (cmd : Op)
    → is_fresh s cmd.client_id cmd.seq_no ≡ true
    → apply_op s cmd ≡ run_op s cmd
unfolding apply_op
apply_op-fresh s cmd h = rw h

apply_all-first_uses :
    (cmds seen : List Op) (s : Store)
    → AllValid cmds
    → Tracks seen s
    → (s' : Store) × (apply_all s cmds ≡ some s') × (s'.db ≡ exec_all s.db (first_uses seen cmds))
unfolding apply_all exec_all
apply_all-first_uses [] seen s v t = (s, refl, refl)
apply_all-first_uses (cmd ∷ cmds) seen s v t =
    elim (Bool-cases (is_stale seen cmd.client_id cmd.seq_no)) [
      | inl old ↦
          let (s', run, same) =
            apply_all-first_uses cmds (cmd ∷ seen) s v.1 (Tracks-stale seen s cmd t old) in
          (s', rw (apply_op-stale s cmd (t cmd.client_id cmd.seq_no ∙ ap not old)) run, rw old same)
      | inr new ↦
          let (s₁, one, db, (w, d)) = run_op_fields s cmd v.0 in
          let (s', run, same) =
            apply_all-first_uses cmds (cmd ∷ seen) s₁ v.1 (Tracks-fresh seen s s₁ cmd w t new d) in
          (
            s',
            rw (apply_op-fresh s cmd (t cmd.client_id cmd.seq_no ∙ ap not new), one) run,
            rw new (same ∙ ap (λ db'. exec_all db' (first_uses (cmd ∷ seen) cmds)) db),
          )
    ]

-- A server with an empty table that applies a log of known commands, requests repeated in it as often
-- as the clients retried, never panics, and its map is what the first uses alone do: a command whose
-- client has sent this sequence number or a later one before has no effect.
pub apply_all_once :
    (cmds : List Op) (db : Dict String String)
    → AllValid cmds
    → (s : Store) × (apply_all (record { db = db; duplicate = [] }) cmds ≡ some s)
      × (s.db ≡ exec_all db (first_uses [] cmds))
unfolding is_fresh lookup
apply_all_once cmds db v =
    apply_all-first_uses cmds [] (record { db = db; duplicate = [] }) v (λ client seq. refl)

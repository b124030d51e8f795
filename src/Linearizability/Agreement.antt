-- ===== src/Linearizability/Agreement.antt =====
-- The model of linearizability/models.go and the service of kvraft/server.go agree: the history of a
-- service that runs commands one after the other is one that the model takes, key by key.
use Prim.Native.String.{String, ◌++◌ as str_append}
use text.Mathlib.Text.{◌==◌ as str_eq}
use golang_deep_distributed.Prelude.{
  ℕ, ◌+◌, ◌≡◌, refl, sym, ap, ◌∙◌, inl, inr, true, Option, none, some, List, [], ◌∷◌, ◌++◌, arith,
  if◌then◌else◌, Bool-cases,
}
use golang_deep_distributed.Prelude.Dict.{Dict, lookup, insert, lookup-insert, string_eq, beq_refl}
use golang_deep_distributed.Kv.State.{Op, Store}
use golang_deep_distributed.Kv.Server.{value_of}
use golang_deep_distributed.Kv.Once.{
  exec, exec_all, AllValid, first_uses, apply_all, apply_all_once,
}
use golang_deep_distributed.Linearizability.KvModel.{
  KvOutput, Operation, init, step, part, partition_from, partition,
}

-- The operation code of a command's name.
abbrev pub code : Op → ℕ
code cmd = if str_eq cmd.op "Get" then 0 else if str_eq cmd.op "Put" then 1 else 2

-- A command at a time, with the value of its key as its output.
abbrev pub observed : ℕ → Dict String String → Op → Operation
observed time db cmd = record {
  input = record { op = code cmd; key = cmd.key; value = cmd.value };
  call = time;
  output = record { value = value_of db cmd.key };
  return_time = time;
}

-- The history of the commands, run one after the other on the map.
unfoldable pub history : ℕ → Dict String String → List Op → List Operation
history time db [] = []
history time db (cmd ∷ cmds) = observed time db cmd ∷ history (time + 1) (exec db cmd) cmds

-- The model's run over operations: its last state, if it takes every output.
unfoldable pub replay : String → List Operation → Option String
replay st [] = some st
replay st (v ∷ ops) =
    let (taken, st') = step st v.input v.output in
    let rest = replay st' ops in if taken then rest else none

abbrev of_key : String → List Operation → List Operation
of_key key [] = []
of_key key (v ∷ ops) = if str_eq v.input.key key then v ∷ of_key key ops else of_key key ops

append_assoc : (xs ys zs : List Operation) → (xs ++ ys) ++ zs ≡ xs ++ (ys ++ zs)
append_assoc [] ys zs = refl
append_assoc (x ∷ xs) ys zs = ap (λ l. x ∷ l) (append_assoc xs ys zs)

append_nil : (xs : List Operation) → xs ++ [] ≡ xs
append_nil [] = refl
append_nil (x ∷ xs) = ap (λ l. x ∷ l) (append_nil xs)

part-partition_from :
    (key : String) (ops : List Operation) (m : Dict String (List Operation))
    → part key (partition_from m ops) ≡ part key m ++ of_key key ops
unfolding partition_from
part-partition_from key [] m = sym (append_nil (part key m))
part-partition_from key (v ∷ ops) m =
    let k = v.input.key in
    let rest = part-partition_from key ops (insert k (part k m ++ v ∷ []) m) in
    let found = lookup-insert k key (part k m ++ v ∷ []) m in
    elim (Bool-cases (str_eq k key)) [
      | inl same ↦
          let eq : k ≡ key = (string_eq.beq_iff k key).0 same in
          let one : part key (insert k (part k m ++ v ∷ []) m) ≡ part k m ++ v ∷ [] =
            ground (arith, found, same) in
          let cons : v ∷ of_key key ops ≡ of_key key (v ∷ ops) = rw same refl in
          rest
          ∙ ap (λ l. l ++ of_key key ops) one
          ∙ append_assoc (part k m) (v ∷ []) (of_key key ops)
          ∙ ap (λ x. part x m ++ (v ∷ of_key key ops)) eq
          ∙ ap (λ l. part key m ++ l) cons
      | inr other ↦
          let one : part key (insert k (part k m ++ v ∷ []) m) ≡ part key m =
            ground (arith, found, other) in
          let skip : of_key key ops ≡ of_key key (v ∷ ops) = rw other refl in
          rest ∙ ap (λ l. l ++ of_key key ops) one ∙ ap (λ l. part key m ++ l) skip
    ]

exec-step :
    (db : Dict String String) (cmd : Op) (key : String) (out : KvOutput)
    → value_of (exec db cmd) key ≡ (
        if str_eq cmd.key key
        then (step
            (value_of db key)
            (record { op = code cmd; key = cmd.key; value = cmd.value })
            out).1
        else value_of db key)
unfolding exec step value_of
exec-step db cmd key out =
    let appended = str_append (value_of db cmd.key) cmd.value in
    let put = lookup-insert cmd.key key cmd.value db in
    let app = lookup-insert cmd.key key appended db in
    elim (Bool-cases (str_eq cmd.key key)) [
      | inl same ↦
          let eq : cmd.key ≡ key = (string_eq.beq_iff cmd.key key).0 same in
          elim (Bool-cases (str_eq cmd.op "Get")) [
            | inl g ↦ ground (arith, same, g)
            | inr g ↦ elim (Bool-cases (str_eq cmd.op "Put")) [
              | inl p ↦ ground (arith, same, g, p, put)
              | inr p ↦ ground (arith, same, g, p, app, eq)
            ]
          ]
      | inr other ↦ elim (Bool-cases (str_eq cmd.op "Get")) [
        | inl g ↦ ground (arith, other, g)
        | inr g ↦ elim (Bool-cases (str_eq cmd.op "Put")) [
          | inl p ↦ ground (arith, other, g, p, put)
          | inr p ↦ ground (arith, other, g, p, app)
        ]
      ]
    ]

-- The model takes the output of a command at its key.
step_taken :
    (db : Dict String String) (cmd : Op)
    → (step (value_of db cmd.key) (observed 0 db cmd).input (observed 0 db cmd).output).0 ≡ true
unfolding step
step_taken db cmd = ground (arith, beq_refl string_eq (value_of db cmd.key))

replay-cons :
    (st : String) (v : Operation) (ops : List Operation)
    → (step st v.input v.output).0 ≡ true
    → replay st (v ∷ ops) ≡ replay (step st v.input v.output).1 ops
unfolding replay
replay-cons st v ops h = rw h refl

replay-history :
    (key : String) (time : ℕ) (cmds : List Op) (db : Dict String String)
    → replay (value_of db key) (of_key key (history time db cmds))
      ≡ some (value_of (exec_all db cmds) key)
unfolding replay history exec_all
replay-history key time [] db = refl
replay-history key time (cmd ∷ cmds) db =
    let past = history (time + 1) (exec db cmd) cmds in
    let rest = replay-history key (time + 1) cmds (exec db cmd) in
    let moves = exec-step db cmd key (observed 0 db cmd).output in
    elim (Bool-cases (str_eq cmd.key key)) [
      | inl same ↦
          let seen = observed time db cmd in
          let eq : cmd.key ≡ key = (string_eq.beq_iff cmd.key key).0 same in
          let sel : of_key key (seen ∷ past) ≡ seen ∷ of_key key past = rw same refl in
          let taken : (step (value_of db key) seen.input seen.output).0 ≡ true =
            ap (λ k. (step (value_of db k) seen.input seen.output).0) (sym eq)
            ∙ step_taken db cmd in
          let moved : value_of (exec db cmd) key
              ≡ (step (value_of db key) seen.input seen.output).1 =
            moves ∙ rw same refl in
          ap (replay (value_of db key)) sel
          ∙ replay-cons (value_of db key) seen (of_key key past) taken
          ∙ ap (λ st. replay st (of_key key past)) (sym moved)
          ∙ rest
      | inr other ↦
          let sel : of_key key (observed time db cmd ∷ past) ≡ of_key key past = rw other refl in
          let stays : value_of (exec db cmd) key ≡ value_of db key = moves ∙ rw other refl in
          ap (replay (value_of db key)) sel
          ∙ ap (λ st. replay st (of_key key past)) (sym stays)
          ∙ rest
    ]

-- A server that applies any list of known commands, in which clients repeat requests, does what the
-- model allows: in the history of the first uses, each at a time of its own with the value of its key
-- as its output, the part of every key is one that the model takes step by step from its initial
-- state, and it ends in the value that the server's map then has for the key.
pub partition-history :
    (key : String) (cmds : List Op)
    → AllValid cmds
    → (s : Store) × (apply_all (record { db = []; duplicate = [] }) cmds ≡ some s)
      × (replay init (part key (partition (history 0 [] (first_uses [] cmds))))
          ≡ some (value_of s.db key))
unfolding partition value_of lookup
partition-history key cmds v =
    let (s, run, same) = apply_all_once cmds [] v in
    let ops = first_uses [] cmds in
    (
      s,
      run,
      ap (replay init) (part-partition_from key (history 0 [] ops) [])
          ∙ replay-history key 0 ops []
          ∙ ap (λ db. some (value_of db key)) (sym same),
    )

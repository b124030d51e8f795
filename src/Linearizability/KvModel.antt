-- ===== src/Linearizability/KvModel.antt =====
-- linearizability/model.go and linearizability/models.go: operations, and the model of the service
-- against which histories are checked.
--
-- Go's `Partition` returns the values of a map in any order; here it is the map.
use Prim.Native.String.{String, ◌++◌ as str_append}
use text.Mathlib.Text.{◌==◌ as str_eq}
use golang_deep_distributed.Prelude.{
  ℕ, Bool, true, none, some, List, [], ◌∷◌, ◌++◌, ◌==◌, if◌then◌else◌,
}
use golang_deep_distributed.Prelude.Dict.{Dict, lookup, insert, string_eq}

pub record KvInput : Type 0 where
  pub op : ℕ
  pub key : String
  pub value : String

pub record KvOutput : Type 0 where
  pub value : String

pub record Operation : Type 0 where
  pub input : KvInput
  pub call : ℕ
  pub output : KvOutput
  pub return_time : ℕ

-- `Init`
abbrev pub init : String
init = ""

unfoldable pub step : String → KvInput → KvOutput → Bool × String
step st inp out =
    if inp.op == 0
    then (str_eq out.value st, st)
    else if inp.op == 1
    then (true, inp.value)
    else (true, str_append st inp.value)

-- `m[key]`, nil for a missing key.
abbrev pub part : String → Dict String (List Operation) → List Operation
part key m = elim (lookup key m) [ some ops ↦ ops | none ↦ [] ]

-- The loop of `Partition`, from a map on.
unfoldable pub partition_from :
    Dict String (List Operation) → List Operation → Dict String (List Operation)
partition_from m [] = m
partition_from m (v ∷ history) =
    let key = v.input.key in partition_from (insert key (part key m ++ v ∷ []) m) history

unfoldable pub partition : List Operation → Dict String (List Operation)
unfolding partition_from
partition history = partition_from [] history

-- ===== src/Harness/Config.antt =====
-- raft/config.go: the struct `config`, the readers of applyCh that `start1` starts, `nCommitted` and
-- `wait`.
--
-- A fatal error, of the test or of the process, and an index out of range are `none`. A reader handles
-- a message under the harness's mutex, so one message is one step. Time and statistics are left out.
use golang_deep_distributed.Prelude.{
  ℕ, zero, suc, ◌+◌, ◌-◌, Bool, true, false, not, ◌&&◌, ◌||◌, Option, none, some, List, [], ◌∷◌,
  ltb, leb, if◌then◌else◌, ◌>>=◌, get_elem?, set,
}
use golang_deep_distributed.Prelude.Dict.{Dict, lookup, insert, nat_eq, Eq, option_beq}
use golang_deep_distributed.Persister.{Persister}
use golang_deep_distributed.Labrpc.Network.{Network}
use golang_deep_distributed.Raft.State.{Raft, ApplyMsg, get_state}

-- The names of a server's ends are `none` while the slice is nil. `apply_err` tells whether there is a
-- message.
pub record Config (C B : Type 0) : Type 0 where
  pub net : Network
  pub n : ℕ
  pub rafts : List (Option (Raft C B))
  pub apply_err : List Bool
  pub connected : List Bool
  pub saved : List (Option (Persister B))
  pub endnames : List (Option (List ℕ))
  pub logs : List (Dict ℕ (Option C))
  pub max_index : ℕ

abbrev pub is_there : {A : Type 0} → Option A → Bool
is_there none = false
is_there (some a) = true

module _ {C : Type 0} (eq : Eq C) where
  -- Some server has another value for the index.
  unfoldable pub is_taken : ℕ → Option C → List (Dict ℕ (Option C)) → Bool
  is_taken index v [] = false
  is_taken index v (log ∷ logs) =
      elim (lookup index log) [ some old ↦ not (option_beq eq.beq old v) | none ↦ false ]
      || is_taken index v logs

  -- The loop of `nCommitted` over the servers.
  unfoldable pub count_committed :
      ℕ → List Bool → List (Dict ℕ (Option C)) → ℕ → Option C → Option (ℕ × Option C)
  count_committed index [] logs count cmd = some (count, cmd)
  count_committed index (err ∷ errs) [] count cmd = none
  count_committed index (err ∷ errs) (log ∷ logs) count cmd =
      let skip = count_committed index errs logs count cmd in
      let add = λ (cmd1 : Option C). count_committed index errs logs (count + 1) cmd1 in
      if err then none else elim (lookup index log) [
        | none ↦ skip
        | some cmd1 ↦ (if ltb 0 count && not (option_beq eq.beq cmd cmd1) then none else add cmd1)
      ]

module _ {C B : Type 0} (eq : Eq C) where
  -- The reader of server `i` gets a message.
  unfoldable pub read_msg : ℕ → ApplyMsg C B → Config C B → Option (Config C B)
  unfolding is_taken
  read_msg i m cfg =
      if not m.command_valid
      then some cfg
      else (get_elem? cfg.logs i >>= λ log.
          let taken = is_taken eq m.command_index m.command cfg.logs in
          let prevok = is_there (lookup (m.command_index - 1) log) in
          let cfg' : Config C B = record cfg {
            logs = set cfg.logs i (insert m.command_index m.command log);
            max_index =
                if ltb cfg.max_index m.command_index then m.command_index else cfg.max_index;
          } in
          if taken || (ltb 1 m.command_index && not prevok) then none else some cfg')

  -- The readers get messages in some order, each with its server.
  unfoldable pub read_all : List (ℕ × ApplyMsg C B) → Config C B → Option (Config C B)
  unfolding read_msg
  read_all [] cfg = some cfg
  read_all ((i, m) ∷ msgs) cfg = read_msg i m cfg >>= read_all msgs

  unfoldable pub n_committed : ℕ → Config C B → Option (ℕ × Option C)
  unfolding count_committed
  n_committed index cfg = count_committed eq index cfg.apply_err cfg.logs 0 none

  -- Some peer has a term above the one that the wait started in; a peer that is nil panics.
  unfoldable pub has_moved_on : ℕ → List (Option (Raft C B)) → Option Bool
  has_moved_on start_term [] = some false
  has_moved_on start_term (none ∷ rafts) = none
  has_moved_on start_term (some rf ∷ rafts) =
      let rest = has_moved_on start_term rafts in
      if ltb start_term (get_state rf).0 then some true else rest

  -- The loop of `wait` and the test after it, with the rounds left and the number of looks so far.
  -- What a look finds is `seen`. The result is `none` inside where it returns -1, as a peer has moved on.
  unfoldable pub wait_from :
      ℕ → ℕ → Option ℕ → (ℕ → Config C B) → ℕ → ℕ → Option (Option (Option C))
  unfolding n_committed has_moved_on
  wait_from index n start_term seen zero look =
      n_committed index (seen look) >>= λ (nd, cmd). if ltb nd n then none else some (some cmd)
  wait_from index n start_term seen (suc rounds) look =
      let rest = wait_from index n start_term seen rounds (look + 1) in
      n_committed index (seen look) >>= λ (nd, cmd).
      if leb n nd
      then (n_committed index (seen (look + 1)) >>= λ (nd', cmd').
          if ltb nd' n then none else some (some cmd'))
      else (elim start_term [
        | none ↦ rest
        | some t ↦ has_moved_on t (seen look).rafts >>= λ moved. if moved then some none else rest
      ])

  unfoldable pub wait : ℕ → ℕ → Option ℕ → (ℕ → Config C B) → Option (Option (Option C))
  unfolding wait_from
  wait index n start_term seen = wait_from index n start_term seen 30 0

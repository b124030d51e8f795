-- ===== src/Harness/Checks.antt =====
-- raft/config.go: `checkOneLeader`, `checkTerms` and `checkNoLeader`.
--
-- A fatal error of the test, a peer that is nil and an index out of range are `none`.
use golang_deep_distributed.Prelude.{
  ℕ, zero, suc, ◌+◌, Bool, true, false, not, ◌&&◌, Option, none, some, List, [], ◌∷◌, ◌++◌, ltb,
  ◌==◌, if◌then◌else◌, ◌>>=◌, length, get_elem?,
}
use golang_deep_distributed.Prelude.Dict.{Dict, lookup, insert, nat_eq}
use golang_deep_distributed.Raft.State.{Raft, get_state}
use golang_deep_distributed.Harness.Config.{Config}

-- Reading a Go map of slices: nil for a missing key.
abbrev pub list_at : ℕ → Dict ℕ (List ℕ) → List ℕ
list_at k m = elim (lookup k m) [ some is ↦ is | none ↦ [] ]

-- The greater of the terms seen so far and one more; `none` is the -1 that the loop starts with.
abbrev pub later : Option ℕ → ℕ → Option ℕ
later none term = some term
later (some last) term = if ltb last term then some term else some last

-- The loop over the terms of the map: the last one with a leader.
unfoldable pub last_term : Dict ℕ (List ℕ) → Option ℕ → Option (Option ℕ)
last_term [] last = some last
last_term ((term, leaders) ∷ found) last =
    let rest = last_term found (later last term) in if ltb 1 (length leaders) then none else rest

module _ {C B : Type 0} where
  -- The loop over the servers, from number `i` on: the connected leaders of each term.
  unfoldable pub collect_leaders :
      ℕ → List Bool → List (Option (Raft C B)) → Dict ℕ (List ℕ) → Option (Dict ℕ (List ℕ))
  collect_leaders i [] rafts found = some found
  collect_leaders i (on ∷ connected) [] found = none
  collect_leaders i (on ∷ connected) (r ∷ rafts) found =
      let rest = λ (found' : Dict ℕ (List ℕ)). collect_leaders (i + 1) connected rafts found' in
      if on
      then (r >>= λ rf. rest (
          if (get_state rf).1
          then insert (get_state rf).0 (list_at (get_state rf).0 found ++ (i ∷ [])) found
          else found))
      else rest found

  -- One round of `checkOneLeader`: the leader that it returns, if there is one.
  -- One look. The configuration holds, for each server, its flag and its peer as they were when the loop
  -- read them, one server after another.
  unfoldable pub check_leaders : Config C B → Option (Option ℕ)
  unfolding collect_leaders last_term
  check_leaders cfg = collect_leaders 0 cfg.connected cfg.rafts [] >>= λ leaders.
      last_term leaders none >>= λ last.
      if length leaders == 0
      then some none
      else (last >>= λ term. get_elem? (list_at term leaders) 0 >>= λ i. some (some i))

  -- `checkOneLeader` with the rounds left; what a round finds is `seen`.
  unfoldable pub check_one_leader_from : (ℕ → Config C B) → ℕ → ℕ → Option ℕ
  unfolding check_leaders
  check_one_leader_from seen zero look = none
  check_one_leader_from seen (suc rounds) look =
      let rest = check_one_leader_from seen rounds (look + 1) in
      check_leaders (seen look) >>= λ r. elim r [ some i ↦ some i | none ↦ rest ]

  unfoldable pub check_one_leader : (ℕ → Config C B) → Option ℕ
  unfolding check_one_leader_from
  check_one_leader seen = check_one_leader_from seen 10 0

  -- The loop of `checkTerms`: the term that it found so far, `none` for -1.
  unfoldable pub agreed_term : List Bool → List (Option (Raft C B)) → Option ℕ → Option (Option ℕ)
  agreed_term [] rafts term = some term
  agreed_term (on ∷ connected) [] term = none
  agreed_term (on ∷ connected) (r ∷ rafts) term =
      let rest = λ (term' : Option ℕ). agreed_term connected rafts term' in
      if on
      then (r >>= λ rf. elim term [
        | none ↦ rest (some (get_state rf).0)
        | some t ↦ if t == (get_state rf).0 then rest (some t) else none
      ])
      else rest term

  unfoldable pub check_terms : Config C B → Option (Option ℕ)
  unfolding agreed_term
  check_terms cfg = agreed_term cfg.connected cfg.rafts none

  -- The loop of `checkNoLeader`: whether it ends without a fatal error.
  unfoldable pub has_no_leader : List Bool → List (Option (Raft C B)) → Bool
  has_no_leader [] rafts = true
  has_no_leader (on ∷ connected) [] = false
  has_no_leader (on ∷ connected) (r ∷ rafts) =
      let rest = has_no_leader connected rafts in
      if on then elim r [ none ↦ false | some rf ↦ not (get_state rf).1 && rest ] else rest

  unfoldable pub check_no_leader : Config C B → Bool
  unfolding has_no_leader
  check_no_leader cfg = has_no_leader cfg.connected cfg.rafts

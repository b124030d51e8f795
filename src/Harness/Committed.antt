-- ===== src/Harness/Committed.antt =====
-- What `nCommitted` of raft/config.go counts, after any messages that the readers accepted.
use golang_deep_distributed.Prelude.{
  ℕ, zero, suc, ◌+◌, ◌<◌, ◌≡◌, refl, ap, ◌∙◌, inl, inr, false, not, ◌&&◌, Option, none, some, List,
  [], ◌∷◌, arith, ltb, if◌then◌else◌, Option-cases, length, replicate,
}
use golang_deep_distributed.Prelude.Dict.{Dict, lookup, nat_eq, Eq, option_beq, option_beq_iff}
use golang_deep_distributed.Raft.State.{ApplyMsg}
use golang_deep_distributed.Harness.Config.{
  Config, is_there, read_all, count_committed, n_committed,
}
use golang_deep_distributed.Harness.Agreement.{holds, IsFresh, IsFresh-IsSound, read_all-IsSound}

-- How many servers have the index.
abbrev pub holders : {C : Type 0} → ℕ → List (Dict ℕ (Option C)) → ℕ
holders k [] = 0
holders k (log ∷ logs) = if is_there (lookup k log) then suc (holders k logs) else holders k logs

module _ {C : Type 0} (eq : Eq C) where
  all_of :
      (k : ℕ) (log : Dict ℕ (Option C)) (logs : List (Dict ℕ (Option C))) (cmd : Option C)
      → ((v : Option C) → lookup k log ≡ some v → v ≡ cmd)
      → ((i : ℕ) (v : Option C) → holds logs i k ≡ some v → v ≡ cmd)
      → (i : ℕ) (v : Option C) → holds (log ∷ logs) i k ≡ some v
      → v ≡ cmd
  all_of k log logs cmd first others zero v h = first v h
  all_of k log logs cmd first others (suc i) v h = others i v h

  count_committed_lem :
      (k : ℕ) (logs : List (Dict ℕ (Option C))) (count : ℕ) (cmd : Option C)
      → ((i j : ℕ) (v w : Option C) → holds logs i k ≡ some v → holds logs j k ≡ some w → v ≡ w)
      → (0 < count → (i : ℕ) (v : Option C) → holds logs i k ≡ some v → v ≡ cmd)
      → (cmd' : Option C) × (count_committed eq k (replicate (length logs) false) logs count cmd
          ≡ some (count + holders k logs, cmd'))
        × (0 < count → cmd' ≡ cmd)
        × ((i : ℕ) (v : Option C) → holds logs i k ≡ some v → v ≡ cmd')
  unfolding count_committed
  count_committed_lem k [] count cmd same old =
      (cmd, ground arith, λ h. refl, λ i v h. absurd (ground (arith, h)))
  count_committed_lem k (log ∷ logs) count cmd same old = elim (Option-cases (lookup k log)) [
    | inl e ↦
        let (cmd', run, keep, all) =
          count_committed_lem k logs count cmd (λ i j. same (suc i) (suc j))
            (λ lt i. old lt (suc i)) in
        (
          cmd',
          ground (arith, e, run),
          keep,
          all_of k log logs cmd' (λ v h. absurd (ground (arith, e, h))) all,
        )
    | inr (v, e) ↦
        let fits : (ltb 0 count && not (option_beq eq.beq cmd v)) ≡ false =
          ground (arith, option_beq_iff eq cmd v, λ (lt : 0 < count). old lt 0 v e) in
        let (cmd', run, keep, all) =
          count_committed_lem k logs (count + 1) v (λ i j. same (suc i) (suc j))
            (λ lt i w h. same (suc i) 0 w v h e) in
        (
          cmd',
          ground (arith, e, fits, run),
          λ lt. keep (omega arith) ∙ old lt 0 v e,
          all_of k log logs cmd' (λ w h. ground (arith, e, h, keep)) all,
        )
  ]

module _ {C B : Type 0} (eq : Eq C) where
  -- After any messages that the readers accepted, `nCommitted` of an index is not a fatal error: it is
  -- the number of servers that have the index, and a value that all of them have there.
  pub n_committed_lem :
      (msgs : List (ℕ × ApplyMsg C B)) (cfg cfg' : Config C B) (index : ℕ)
      → IsFresh cfg
      → read_all eq msgs cfg ≡ some cfg'
      → (cmd : Option C) × (n_committed eq index cfg' ≡ some (holders index cfg'.logs, cmd))
        × ((i : ℕ) (v : Option C) → holds cfg'.logs i index ≡ some v → v ≡ cmd)
  unfolding n_committed
  n_committed_lem msgs cfg cfg' index f h =
      let s = read_all-IsSound eq msgs cfg cfg' h (IsFresh-IsSound eq cfg f) in
      let (cmd, run, keep, all) =
        count_committed_lem eq index cfg'.logs 0 none (λ i j. s.agrees.same i j index)
          (λ lt. absurd (omega arith)) in
      (
        cmd,
        ap (λ errs. count_committed eq index errs cfg'.logs 0 none) s.quiet
            ∙ run
            ∙ ap (λ c. some (c, cmd)) (omega arith),
        all,
      )

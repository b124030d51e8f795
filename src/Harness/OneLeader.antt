-- ===== src/Harness/OneLeader.antt =====
-- What `checkOneLeader` of raft/config.go finds in a cluster that runs the protocol.
use golang_deep_distributed.Prelude.{
  ℕ_discrete, ℕ, zero, suc, ◌+◌, ◌-◌, ◌≤◌, dec_lt, ◌<◌, ◌≡◌, refl, sym, ◌∙◌, subst, ◌⊎◌, inl, inr,
  Bool, Option, none, some, List, arith, Option-cases, length, get_elem?, lt_of_get_elem?,
}
use golang_deep_distributed.Prelude.Dict.{nat_eq}
use golang_deep_distributed.Raft.State.{Raft, get_state}
use golang_deep_distributed.Persister.{Gob}
use golang_deep_distributed.Raft.State.{Value, leader}
use golang_deep_distributed.Raft.Cluster.{Cluster, Reach}
use golang_deep_distributed.Raft.Cluster.Safety.{
  Steps, still, Steps-Reach, Steps-trans, election_safety_later,
}
use golang_deep_distributed.Harness.Config.{Config}
use golang_deep_distributed.Harness.Checks.{
  later, check_leaders, check_one_leader_from, check_one_leader,
}
use golang_deep_distributed.Harness.Leaders.{leads, IsLatest, check_leaders_lem}

module _ {C B : Type 0} where
  -- The servers of the configuration are peers of the cluster, each as it was when the loop read it: the
  -- state of the cluster is given for each server.
  pub record Shows (n : ℕ) (at : ℕ → Cluster C B) (cfg : Config C B) : Type 0 where
    pub servers : length cfg.connected ≡ n
    pub peers : (i : ℕ) → i < n → get_elem? cfg.rafts i ≡ some (some ((at i).peer i))

  -- The cluster goes on while the loop reads one server after another.
  Steps-between :
      (gob : Gob (Value C) B) (n : ℕ) (at : ℕ → Cluster C B)
      → ((i : ℕ) → Steps gob n (at i) (at (suc i)))
      → (i d : ℕ) → Steps gob n (at i) (at (i + d))
  Steps-between gob n at run i zero =
      let same : i + 0 ≡ i = omega arith in subst (λ j. Steps gob n (at i) (at j)) (sym same) still
  Steps-between gob n at run i (suc d) =
      let shift : i + suc d ≡ suc (i + d) = omega arith in
      subst (λ j. Steps gob n (at i) (at j)) (sym shift)
        (Steps-trans gob n (Steps-between gob n at run i d) (run (i + d)))

  -- Leaders of one term that the loop reads are one peer: the one that is read first is still the leader
  -- of the term, as far as the votes go, when the other is read.
  one_leader_read :
      (gob : Gob (Value C) B) (n : ℕ) (at : ℕ → Cluster C B)
      → Reach gob n (at 0)
      → ((i : ℕ) → Steps gob n (at i) (at (suc i)))
      → (k m : ℕ) → k ≤ m
      → ((at k).peer k).state ≡ leader
      → ((at m).peer m).state ≡ leader
      → ((at k).peer k).current_term ≡ ((at m).peer m).current_term
      → k ≡ m
  one_leader_read gob n at reach run k m le lead lead' same =
      let here : 0 + k ≡ k = omega arith in
      let there : k + (m - k) ≡ m = omega (arith, le) in
      let before : Steps gob n (at 0) (at k) =
        subst (λ j. Steps gob n (at 0) (at j)) here (Steps-between gob n at run 0 k) in
      election_safety_later gob n (Steps-Reach gob n reach before)
        (subst (λ j. Steps gob n (at k) (at j)) there (Steps-between gob n at run k (m - k))) k m
        lead lead' same

  leads-lt :
      (connected : List Bool) (rafts : List (Option (Raft C B))) (i t : ℕ)
      → leads connected rafts i ≡ some t
      → i < length connected
  leads-lt connected rafts i t h = elim (Option-cases (get_elem? connected i)) [
    | inl e ↦ absurd (ground (arith, e, h))
    | inr (on, e) ↦ lt_of_get_elem? connected i e
  ]

  leads-leader :
      (connected : List Bool) (rafts : List (Option (Raft C B))) (i t : ℕ) (rf : Raft C B)
      → get_elem? rafts i ≡ some (some rf)
      → leads connected rafts i ≡ some t
      → (rf.state ≡ leader) × (rf.current_term ≡ t)
  unfolding get_state
  leads-leader connected rafts i t rf at h = elim (Option-cases (get_elem? connected i)) [
    | inl e ↦ absurd (ground (arith, e, h))
    | inr (on, e) ↦ (ground (arith, e, at, h), ground (arith, e, at, h))
  ]

  -- A round of `checkOneLeader` over peers of a cluster that goes on meanwhile does not find two leaders of
  -- one term, and gives a leader whose term no connected leader exceeds, if there is a connected leader.
  check_leaders-Reach :
      (gob : Gob (Value C) B) (n : ℕ) (state : ℕ → Cluster C B) (cfg : Config C B)
      → Reach gob n (state 0)
      → ((i : ℕ) → Steps gob n (state i) (state (suc i)))
      → Shows n state cfg
      → (r : Option ℕ) × (check_leaders cfg ≡ some r) × IsLatest cfg r
  check_leaders-Reach gob n state cfg reach run shows =
      let at : (i : ℕ)
          → i < length cfg.connected
          → get_elem? cfg.rafts i ≡ some (some ((state i).peer i)) =
        λ i lt. shows.peers i (ground (arith, lt, shows.servers)) in
      let is : (i t : ℕ)
          → leads cfg.connected cfg.rafts i ≡ some t
          → (((state i).peer i).state ≡ leader) × (((state i).peer i).current_term ≡ t) =
        λ i t h.
          leads-leader cfg.connected cfg.rafts i t ((state i).peer i)
            (at i (leads-lt cfg.connected cfg.rafts i t h)) h in
      check_leaders_lem cfg (λ k lt. ((state k).peer k, at k lt))
        (λ k m t h h'.
          let (lead, term) = is k t h in
          let (lead', term') = is m t h' in
          elim (dec_lt m k) [
            | yes after ↦ sym (
                one_leader_read gob n state reach run m k (omega (arith, after)) lead' lead
                  (term' ∙ sym term))
            | no not_after ↦
                one_leader_read gob n state reach run k m (omega (arith, not_after)) lead lead'
                  (term ∙ sym term')
          ])

  -- From one look on: the first look with a leader gives the result, or there was a leader in no look.
  abbrev pub Finds : (ℕ → Config C B) → ℕ → ℕ → Option ℕ → Type 0
  Finds seen rounds look result =
      ((i k : ℕ) × (result ≡ some i)
        × (look ≤ k)
        × (k < look + rounds)
        × IsLatest (seen k) (some i))
      ⊎ ((result ≡ none) × ((k : ℕ) → look ≤ k → k < look + rounds → IsLatest (seen k) none))

  Finds-round :
      (seen : ℕ → Config C B) (rounds look : ℕ) (r : Option ℕ)
      → check_leaders (seen look) ≡ some r
      → IsLatest (seen look) r
      → Finds seen rounds (look + 1) (check_one_leader_from seen rounds (look + 1))
      → Finds seen (suc rounds) look (check_one_leader_from seen (suc rounds) look)
  unfolding check_one_leader_from
  Finds-round seen rounds look none e now rest = elim rest [
    | inl (i, k, run, le, lt, latest) ↦
        inl (i, k, ground (arith, e, run), omega arith, omega arith, latest)
    | inr (run, later) ↦ inr (
      ground (arith, e, run),
      λ k le lt. elim (ℕ_discrete look k) [
        | yes same ↦ subst (λ m. IsLatest (seen m) none) same now
        | no ne ↦ later k (ground (arith, ne)) (omega arith)
      ],
    )
  ]
  Finds-round seen rounds look (some i) e now rest =
      inl (i, look, ground (arith, e), omega arith, omega arith, now)

  check_one_leader_from_lem :
      (seen : ℕ → Config C B) (rounds look : ℕ)
      → ((k : ℕ) → (r : Option ℕ) × (check_leaders (seen k) ≡ some r) × IsLatest (seen k) r)
      → Finds seen rounds look (check_one_leader_from seen rounds look)
  check_one_leader_from_lem seen zero look each =
      inr (unfold check_one_leader_from in refl, λ k le lt. absurd (omega arith))
  check_one_leader_from_lem seen (suc rounds) look each =
      let (r, e, now) = each look in
      Finds-round seen rounds look r e now (check_one_leader_from_lem seen rounds (look + 1) each)

  -- Let each of the ten looks of `checkOneLeader` read, one after another, the peers of a cluster that
  -- takes steps meanwhile and has reached its state by: canvasses, requests for votes, vote replies that
  -- come while their candidate is still in the term that it asked in, lost replies, AppendEntries and
  -- InstallSnapshot requests, replies to AppendEntries of no later term, replies to InstallSnapshot,
  -- commands, compactions, reports of committed entries and shutdowns. Then it fails exactly if no look
  -- reads a connected leader; otherwise its result is, in one of the looks, a connected leader whose
  -- term no connected leader that was read in this look exceeds.
  pub check_one_leader-Reach :
      (gob : Gob (Value C) B) (n : ℕ) (state : ℕ → ℕ → Cluster C B) (seen : ℕ → Config C B)
      → ((k : ℕ) → Reach gob n (state k 0))
      → ((k i : ℕ) → Steps gob n (state k i) (state k (suc i)))
      → ((k : ℕ) → Shows n (state k) (seen k))
      → Finds seen 10 0 (check_one_leader seen)
  unfolding check_one_leader
  check_one_leader-Reach gob n state seen reach run shows =
      check_one_leader_from_lem seen 10 0
        (λ k. check_leaders-Reach gob n (state k) (seen k) (reach k) (run k) (shows k))

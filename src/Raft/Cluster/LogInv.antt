-- ===== src/Raft/Cluster/LogInv.antt =====
-- The invariant of the logs in a cluster of raft/raft.go, and that each kind of step keeps it.
use golang_deep_distributed.Prelude.{
  ℕ, zero, suc, ◌+◌, ◌*◌, ◌≤◌, ◌<◌, ◌≡◌, sym, ap, ◌∙◌, subst, ◌≢◌, ◌⊎◌, inl, inr, Option, none,
  some, [], ◌∷◌, arith, ◌==◌, if◌then◌else◌, Bool-cases, get_elem?,
}
use golang_deep_distributed.Raft.State.{Raft, AppendEntriesArgs, candidate, leader}
use golang_deep_distributed.Raft.Cluster.{update, IsInitial}
use golang_deep_distributed.Raft.Cluster.Votes.{count, count_mono}
use golang_deep_distributed.Raft.Cluster.History.{Ledger, Grows, blank_ledger}
use golang_deep_distributed.Raft.Cluster.Logs.{Sending, IsEmpty}
use golang_deep_distributed.Raft.Cluster.Calm.{Calm, Matched, Sends}
use golang_deep_distributed.Raft.Cluster.Chains.{Chains, Certified, Slice, Certified-Slice}

-- The leader that a term had: most votes of the term were for it, and it never stands in it again.
pub record Owns {C B : Type 0} (n : ℕ) (peer : ℕ → Raft C B) (l : Ledger) (t c : ℕ) : Type 0 where
  pub most : n < 2 * count (l.got c t) n
  pub past : t ≤ (peer c).current_term
  pub over : (peer c).current_term ≡ t → (peer c).state ≢ candidate

pub record LogInv {C B : Type 0} (n : ℕ) (peer : ℕ → Raft C B)
    (sent : ℕ → Option (AppendEntriesArgs C)) (l : Ledger) (g : Chains C) : Type 0 where
  pub snapshot : (i : ℕ) → (peer i).snapshot_index ≡ 0
  pub certified : (i : ℕ) → Certified g (peer i).logs
  pub chained : (t : ℕ) → Certified g (g.lead t)
  pub requested : (k : ℕ) (args : AppendEntriesArgs C) → sent k ≡ some args → Slice g args
  pub leading :
      (i : ℕ)
      → (peer i).state ≡ leader
      → (g.lead (peer i).current_term ≡ (peer i).logs) × (g.owner (peer i).current_term ≡ some i)
  pub owned : (t c : ℕ) → g.owner t ≡ some c → Owns n peer l t c
  pub unowned : (t : ℕ) → g.owner t ≡ none → 0 < t → g.lead t ≡ []
  pub standing : (i : ℕ) → (peer i).state ≡ candidate → 0 < (peer i).current_term

abbrev pub first_chains : {C : Type 0} → Chains C
first_chains = record {
  owner = λ t. none;
  lead = λ t. if t == 0 then record { term = 0; command = none } ∷ [] else [];
}

first-Certified :
    {C : Type 0} → Certified {C = C} first_chains (record { term = 0; command = none } ∷ [])
first-Certified zero e at m le = ground (arith, at)
first-Certified (suc k) e at m le = ground (arith, at)

module _ {C B : Type 0} where
  pub IsEmpty-LogInv :
      {n : ℕ} {s : Sending C B}
      → IsInitial n s.cluster
      → IsEmpty s
      → LogInv n s.cluster.peer s.sent blank_ledger first_chains
  IsEmpty-LogInv {s} h e = record {
    snapshot = e.snapshots;
    certified = λ i. subst (Certified first_chains) (sym (e.logs i)) first-Certified;
    chained = λ t. elim (Bool-cases (t == 0)) [
      | inl first ↦
          subst (Certified first_chains) {x = record { term = 0; command = none } ∷ []}
            (ground (arith, first)) first-Certified
      | inr other ↦ λ k x at m le. absurd (ground (arith, at, other))
    ];
    requested = λ k args there. absurd (ground (arith, there, e.sent k));
    leading = λ i leads. absurd (ground (arith, leads, h.follows i));
    owned = λ t c there. absurd (ground (arith, there));
    unowned = λ t there pos. ground (arith, pos);
    standing = λ i stands. absurd (ground (arith, stands, h.follows i));
  }

module _ {C B : Type 0} (n : ℕ) (peer : ℕ → Raft C B) (sent : ℕ → Option (AppendEntriesArgs C))
    (l l' : Ledger) (g : Chains C) (inv : LogInv n peer sent l g) (grows : Grows l l') where
  open inv use {snapshot, certified, chained, requested, leading, owned, unowned, standing}

  -- The owner of a term stays its owner when a peer's term does not fall and it does not stand in its term again.
  pub Owns-update :
      (i : ℕ) (rf' : Raft C B) (t c : ℕ)
      → (peer i).current_term ≤ rf'.current_term
      → (rf'.state ≡ candidate
          → ((peer i).state ≡ candidate) ⊎ ((peer i).current_term < rf'.current_term))
      → g.owner t ≡ some c
      → Owns n (update peer i rf') l' t c
  Owns-update i rf' t c le stands owns =
      let o = owned t c owns in
      let more = count_mono (l.got c t) (l'.got c t) n (grows c t) in
      record {
        most = omega (arith, o.most, more);
        past = ground (arith, o.past, le);
        over = λ now stand. ground (arith, o.past, o.over, le, stands, now, stand);
      }

  pub Grows-LogInv : LogInv n peer sent l' g
  Grows-LogInv = record {
    snapshot = snapshot;
    certified = certified;
    chained = chained;
    requested = requested;
    leading = leading;
    owned = λ t c owns.
        let o = owned t c owns in
        let more = count_mono (l.got c t) (l'.got c t) n (grows c t) in
        record { most = omega (arith, o.most, more); past = o.past; over = o.over };
    unowned = unowned;
    standing = standing;
  }

  pub Calm-LogInv :
      (i : ℕ) (rf' : Raft C B) → Calm (peer i) rf' → LogInv n (update peer i rf') sent l' g
  Calm-LogInv i rf' calm = record {
    snapshot = λ j. ground (arith, snapshot j, snapshot i, calm.snapshot);
    certified = λ j. elim (Bool-cases (i == j)) [
      | inl mine ↦ subst (Certified g) (ground (arith, mine, calm.logs)) (certified i)
      | inr other ↦ subst (Certified g) (ground (arith, other)) (certified j)
    ];
    chained = chained;
    requested = requested;
    leading = λ j leads. elim (Bool-cases (i == j)) [
      | inl mine ↦ ground (arith, mine, leads, calm.lead, calm.logs, leading i)
      | inr other ↦ ground (arith, other, leads, leading j)
    ];
    owned = λ t c owns. Owns-update i rf' t c calm.term calm.stand owns;
    unowned = unowned;
    standing = λ j stands. ground (arith, stands, calm.stand, calm.term, standing i, standing j);
  }

  pub Matched-LogInv :
      (i : ℕ) (rf' : Raft C B) (k : ℕ) (args : AppendEntriesArgs C)
      → sent k ≡ some args
      → Matched (peer i) rf' args
      → LogInv n (update peer i rf') sent l' g
  Matched-LogInv i rf' k args there matched = record {
    snapshot = λ j. ground (arith, snapshot j, snapshot i, matched.snapshot);
    certified = λ j. elim (Bool-cases (i == j)) [
      | inl mine ↦ subst (Certified g) (ground (arith, mine, matched.logs)) (
          Certified-Slice g (peer i).logs args matched.prev (certified i) chained
            (requested k args there) matched.at matched.same)
      | inr other ↦ subst (Certified g) (ground (arith, other)) (certified j)
    ];
    chained = chained;
    requested = requested;
    leading = λ j leads. ground (arith, leads, matched.lead, leading j);
    owned =
        λ t c owns. Owns-update i rf' t c matched.term (λ stands. inl (matched.stand stands)) owns;
    unowned = unowned;
    standing =
        λ j stands. ground (arith, stands, matched.stand, matched.term, standing i, standing j);
  }

  -- A request that a leader sends is a part of its log.
  pub sent-LogInv :
      (i k : ℕ) (args : AppendEntriesArgs C)
      → Sends (peer i) args
      → LogInv n peer (update sent k (some args)) l g
  sent-LogInv i k args sends = record {
    snapshot = snapshot;
    certified = certified;
    chained = chained;
    requested = λ j other there. elim (Bool-cases (k == j)) [
      | inl mine ↦
          let lead : g.lead args.term ≡ (peer i).logs =
            ap g.lead sends.term ∙ (leading i sends.leads).0 in
          subst (Slice g) {x = args} (ground (arith, there, mine)) (record {
            prev = sends.prev;
            at = ap (λ xs. get_elem? xs args.prev_log_index) lead ∙ sends.at;
            same = sends.same;
            entries = λ m some_there.
                ap (λ xs. get_elem? xs (args.prev_log_index + 1 + m)) lead
                ∙ sends.entries m some_there;
          })
      | inr later ↦ requested j other (ground (arith, there, later))
    ];
    leading = leading;
    owned = owned;
    unowned = unowned;
    standing = standing;
  }

-- ===== src/Raft/Cluster/LogLead.antt =====
-- How the log of a term's leader begins and gets longer in a cluster of raft/raft.go.
use golang_deep_distributed.Prelude.{
  ℕ, ◌*◌, ◌≤◌, ◌<◌, ◌≡◌, sym, ap, ◌∙◌, subst, inl, inr, true, Option, none, some, [], arith, ◌==◌,
  Bool-cases, Option-cases, get_elem?,
}
use golang_deep_distributed.Raft.State.{Raft, LogEntry, AppendEntriesArgs, candidate, leader}
use golang_deep_distributed.Raft.Cluster.{update}
use golang_deep_distributed.Raft.Cluster.Votes.{count, count_mono, count_overlap}
use golang_deep_distributed.Raft.Cluster.History.{Ledger, Grows}
use golang_deep_distributed.Raft.Cluster.Calm.{Submitted}
use golang_deep_distributed.Raft.Cluster.Chains.{
  Chains, Certified, Extends, Certified-Extends, Slice-Extends, get_elem?-inside, Certified-snoc,
}
use golang_deep_distributed.Raft.Cluster.LogInv.{LogInv, Owns, Owns-update}

module _ {C B : Type 0} (n : ℕ) (peer : ℕ → Raft C B) (sent : ℕ → Option (AppendEntriesArgs C))
    (l l' : Ledger) (g : Chains C) (inv : LogInv n peer sent l g) (grows : Grows l l') (i : ℕ)
    (rf' : Raft C B) where
  open inv use {snapshot, certified, chained, requested, leading, owned, unowned, standing}

  -- The leaders' logs when the log of the leader of the peer's term is the peer's.
  abbrev pub lead_by : Chains C
  lead_by = record {
    owner = update g.owner rf'.current_term (some i);
    lead = update g.lead rf'.current_term rf'.logs;
  }

  -- The fields of the invariant after a peer leads its term with a log that holds what was known of the term.
  lead-LogInv :
      Extends g lead_by
      → Certified lead_by rf'.logs
      → rf'.state ≡ leader
      → rf'.snapshot_index ≡ 0
      → (peer i).current_term ≤ rf'.current_term
      → n < 2 * count (l'.got i rf'.current_term) n
      → ((j : ℕ) → (peer j).state ≡ leader → (peer j).current_term ≡ rf'.current_term → j ≡ i)
      → LogInv n (update peer i rf') sent l' lead_by
  lead-LogInv ext cert leads snap le most alone = record {
    snapshot = λ j. ground (arith, snapshot j, snap);
    certified = λ j. elim (Bool-cases (i == j)) [
      | inl mine ↦ subst (Certified lead_by) {x = rf'.logs} (ground (arith, mine)) cert
      | inr other ↦
          subst (Certified lead_by) {x = (peer j).logs} (ground (arith, other))
            (Certified-Extends g lead_by (peer j).logs ext (certified j))
    ];
    chained = λ t. elim (Bool-cases (rf'.current_term == t)) [
      | inl mine ↦ subst (Certified lead_by) {x = rf'.logs} (ground (arith, mine)) cert
      | inr other ↦
          subst (Certified lead_by) {x = g.lead t} (ground (arith, other))
            (Certified-Extends g lead_by (g.lead t) ext (chained t))
    ];
    requested = λ k args there. Slice-Extends g lead_by args ext (requested k args there);
    leading = λ j led. elim (Bool-cases (i == j)) [
      | inl mine ↦ ground (arith, mine)
      | inr other ↦ ground (arith, other, led, leading j, alone j)
    ];
    owned = λ t c owns. elim (Bool-cases (rf'.current_term == t)) [
      | inl mine ↦
          let same : t ≡ rf'.current_term = ground (arith, mine) in
          let who : c ≡ i = ground (arith, mine, owns) in
          subst (λ u. Owns n (update peer i rf') l' u c) (sym same)
            (subst (λ u. Owns n (update peer i rf') l' rf'.current_term u) (sym who)
              (record {
                most = most;
                past = ground arith;
                over = λ now stand. ground (arith, stand, leads);
              }))
      | inr other ↦
          Owns-update n peer sent l l' g inv grows i rf' t c le
            (λ stand. absurd (ground (arith, stand, leads))) (ground (arith, other, owns))
    ];
    unowned = λ t none_there pos. ground (arith, none_there, pos, unowned t);
    standing = λ j stands. ground (arith, stands, leads, standing j);
  }

  -- A leader put an entry of its term at the end of its log.
  pub submit-LogInv :
      (command : C) → Submitted (peer i) rf' command → LogInv n (update peer i rf') sent l' lead_by
  submit-LogInv command (leads, logs, snap, term, state) =
      let (lead, owner) = leading i leads in
      let o = owned (peer i).current_term i owner in
      let now : g.lead rf'.current_term ≡ (peer i).logs = ap g.lead term ∙ lead in
      let ext : Extends g lead_by = λ t j there. elim (Bool-cases (rf'.current_term == t)) [
        | inl mine ↦
            let is : g.lead t ≡ (peer i).logs = ap g.lead (ground (arith, mine)) ∙ now in
            let at : get_elem? (g.lead t) j ≡ get_elem? (peer i).logs j =
              ap (λ xs. get_elem? xs j) is in
            ap (λ xs. get_elem? xs j) (ground (arith, mine) ∙ logs)
            ∙ get_elem?-inside (peer i).logs _ j (λ missing. there (at ∙ missing))
            ∙ sym at
        | inr other ↦ ground (arith, other)
      ] in
      let e : LogEntry C = record { term = (peer i).current_term; command = some command } in
      let cert : Certified lead_by rf'.logs = subst (Certified lead_by) (sym logs) (
        Certified-snoc lead_by (peer i).logs e
          (Certified-Extends g lead_by (peer i).logs ext (certified i))
          (ground (arith, term) ∙ logs)) in
      let more =
        count_mono (l.got i (peer i).current_term) (l'.got i (peer i).current_term) n
          (grows i (peer i).current_term) in
      let most : n < 2 * count (l'.got i rf'.current_term) n =
        subst (λ u. n < 2 * count (l'.got i u) n) (sym term) (omega (arith, o.most, more)) in
      lead-LogInv ext cert (state ∙ leads) (snap ∙ snapshot i) (omega (arith, term)) most
        (λ j led same. ground (arith, leading j led, same, term, owner))

  -- A candidate won its election: no peer led its term before.
  pub elected-LogInv :
      ((c t v : ℕ) → l'.got c t v ≡ true → l'.gave v t ≡ some c)
      → n < 2 * count (l'.got i rf'.current_term) n
      → (peer i).state ≡ candidate
      → rf'.state ≡ leader
      → rf'.logs ≡ (peer i).logs
      → rf'.snapshot_index ≡ (peer i).snapshot_index
      → rf'.current_term ≡ (peer i).current_term
      → LogInv n (update peer i rf') sent l' lead_by
  elected-LogInv held most stood leads logs snap term =
      let t = rf'.current_term in
      let free : g.owner t ≡ none = elim (Option-cases (g.owner t)) [
        | inl none_yet ↦ none_yet
        | inr (c, owns) ↦
            let o = owned t c owns in
            let more = count_mono (l.got c t) (l'.got c t) n (grows c t) in
            let (v, mine, theirs) =
              count_overlap (l'.got i t) (l'.got c t) n (omega (arith, most, o.most, more)) in
            let same : c ≡ i = cc (held i t v mine, held c t v theirs) in
            absurd (ground (arith, same, o.over, term, stood))
      ] in
      let nothing : g.lead t ≡ [] = unowned t free (omega (arith, term, standing i stood)) in
      let ext : Extends g lead_by = λ u j there. elim (Bool-cases (t == u)) [
        | inl mine ↦
            absurd (there (ap (λ xs. get_elem? xs j) (ap g.lead (ground (arith, mine)) ∙ nothing)))
        | inr other ↦ ground (arith, other)
      ] in
      lead-LogInv ext
        (subst (Certified lead_by) (sym logs)
          (Certified-Extends g lead_by (peer i).logs ext (certified i)))
        leads (snap ∙ snapshot i) (omega (arith, term)) most
        (λ j led same. absurd (ground (arith, leading j led, same, free)))

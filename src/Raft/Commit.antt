-- ===== src/Raft/Commit.antt =====
-- What a leader commits: an entry of its own term that a majority holds.
-- About `updateCommitIndex` of raft/raft.go.
use golang_deep_distributed.Prelude.{
  ℕ, suc, ◌*◌, ◌/◌, ◌%◌, ◌<◌, ◌≡◌, ◌⊎◌, inl, inr, ◌&&◌, some, List, [], ◌∷◌, arith, ltb, ◌==◌,
  Bool-cases, Option-cases, length, get_elem?,
}
use golang_deep_distributed.Raft.State.{Raft, LogEntry, Effect, broadcast, log_at}
use golang_deep_distributed.Raft.Leader.{sort_ints, update_commit_index}
use golang_deep_distributed.Raft.Sorting.{
  count_ge, count_ge-sort_ints, sort_ints-IsSorted, length-sort_ints, count_ge-sorted,
  count_ge-occurs, get_elem?-sorted,
}

module _ {C B : Type 0} where
  -- The index is committed by the rule of the paper: an entry of the current term stands there,
  -- and more than half of the peers hold it.
  pub record IsCommittable (rf : Raft C B) (index : ℕ) : Type 0 where
    pub entry : LogEntry C
    pub at : log_at rf index ≡ some entry
    pub current : entry.term ≡ rf.current_term
    pub majority : rf.peers < 2 * count_ge index rf.match_index

  update_commit_index-IsCommittable_at :
      (rf : Raft C B) (target : ℕ) (entry : LogEntry C)
      → length rf.match_index ≡ rf.peers
      → rf.peers % 2 ≡ 1
      → get_elem? (sort_ints rf.match_index) (rf.peers / 2) ≡ some target
      → log_at rf target ≡ some entry
      → entry.term ≡ rf.current_term
      → IsCommittable rf target
  update_commit_index-IsCommittable_at rf target entry len odd e at current = record {
    entry = entry;
    at = at;
    current = current;
    majority = omega (
      arith,
      len,
      odd,
      length-sort_ints rf.match_index,
      count_ge-sort_ints target rf.match_index,
      count_ge-sorted (sort_ints rf.match_index) (rf.peers / 2) {t = target}
          (sort_ints-IsSorted rf.match_index) e,
    );
  }

  -- In a cluster of an odd number of peers, `updateCommitIndex` leaves the commit index, or raises it
  -- to an entry of the current term that more than half of the peers hold, and then it wakes the
  -- daemon that applies entries.
  pub update_commit_index-IsCommittable :
      (rf : Raft C B) {rf' : Raft C B} {effects : List (Effect C B)}
      → length rf.match_index ≡ rf.peers
      → rf.peers % 2 ≡ 1
      → update_commit_index rf ≡ some (rf', effects)
      → (rf'.commit_index ≡ rf.commit_index)
        ⊎ ((rf.commit_index < rf'.commit_index)
            × IsCommittable rf rf'.commit_index
            × (effects ≡ broadcast ∷ []))
  unfolding update_commit_index
  update_commit_index-IsCommittable rf {rf'} {effects} len odd h =
      elim (Option-cases (get_elem? (sort_ints rf.match_index) (rf.peers / 2))) [
        | inl e ↦ absurd (ground (arith, e))
        | inr (target, e) ↦ elim (Option-cases (log_at rf target)) [
          | inl e' ↦ ground (arith, e, e')
          | inr (entry, e') ↦
              elim (Bool-cases (
                (ltb rf.commit_index target && ltb rf.snapshot_index target)
                && (entry.term == rf.current_term))) [
                  | inl t ↦
                      let q : rf'.commit_index ≡ target = ground (arith, e, e', t) in
                      inr (
                        ground (arith, e, e', t),
                        rw q (
                            update_commit_index-IsCommittable_at rf target entry len odd e e'
                              (ground (arith, t))),
                        ground (arith, e, e', t),
                      )
                  | inr f ↦ inl (ground (arith, e, e', f))
                ]
        ]
      ]

module _ {C B : Type 0} where
  -- With an even number of peers and a match index for each, half of them is enough: if exactly half of
  -- the peers hold a leader's entry of the current term, which is past the commit index and the
  -- snapshot, and one of them holds nothing beyond it, the leader commits it without a majority.
  pub update_commit_index_half :
      (rf : Raft C B) (half peer target : ℕ) {entry : LogEntry C}
      → rf.peers ≡ 2 * half
      → length rf.match_index ≡ rf.peers
      → get_elem? rf.match_index peer ≡ some target
      → count_ge target rf.match_index ≡ half
      → rf.commit_index < target
      → rf.snapshot_index < target
      → log_at rf target ≡ some entry
      → entry.term ≡ rf.current_term
      → (update_commit_index rf ≡ some (record rf { commit_index = target }, broadcast ∷ []))
        × ¬ (rf.peers < 2 * count_ge target rf.match_index)
  unfolding update_commit_index
  update_commit_index_half rf half peer target even len at exact above over entry_at current =
      let mid : rf.peers / 2 ≡ half = omega (arith, even) in
      let occurs = count_ge-occurs rf.match_index peer {t = target} at in
      let median : get_elem? (sort_ints rf.match_index) half ≡ some target =
        get_elem?-sorted (sort_ints rf.match_index) half target (sort_ints-IsSorted rf.match_index)
          (omega (
            arith,
            even,
            len,
            exact,
            length-sort_ints rf.match_index,
            count_ge-sort_ints target rf.match_index,
          ))
          (omega (
            arith,
            occurs,
            count_ge-sort_ints target rf.match_index,
            count_ge-sort_ints (suc target) rf.match_index,
          )) in
      (rw (mid, median) (ground (arith, entry_at)), λ majority. omega (arith, exact, even))

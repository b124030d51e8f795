-- ===== src/Raft/Cluster/Requests.antt =====
-- The AppendEntries requests that `consistencyCheck` of raft/raft.go sends.
use golang_deep_distributed.Prelude.{
  ℕ, ◌+◌, ◌-◌, ◌≤◌, ◌≡◌, sym, ap, ◌∙◌, inl, inr, some, [], ◌∷◌, arith, ltb, if◌then◌else◌,
  Bool-cases, Option-cases, length, get_elem?, drop, lt_of_get_elem?, get_elem?-drop,
}
use golang_deep_distributed.Raft.State.{Raft, AppendEntriesArgs, leader, send_append_entries}
use golang_deep_distributed.Raft.Leader.{consistency_check, append_args}
use golang_deep_distributed.Raft.Cluster.Calm.{Sends}

module _ {C B : Type 0} where
  append_args-Sends :
      (rf : Raft C B) (next : ℕ) {args : AppendEntriesArgs C}
      → rf.state ≡ leader
      → rf.snapshot_index ≡ 0
      → append_args rf next ≡ some args
      → 1 ≤ next
      → Sends rf args
  unfolding append_args
  append_args-Sends rf next {args} leads snap h le =
      let clipped = ltb (length rf.logs - 1) (next - 1 - rf.snapshot_index) in
      let pos = if clipped then length rf.logs - 1 else next - 1 - rf.snapshot_index in
      elim (Option-cases (get_elem? rf.logs pos)) [
        | inl e ↦ absurd (ground (arith, e))
        | inr (prev, e) ↦
            let where_at : args.prev_log_index ≡ pos =
              ground (arith, e, snap, lt_of_get_elem? rf.logs pos e) in
            record {
              leads = leads;
              term = ground (arith, e);
              prev = prev;
              at = ap (get_elem? rf.logs) where_at ∙ e;
              same = ground (arith, e);
              entries = λ j some_there.
                  elim (Bool-cases (ltb next (length rf.logs + rf.snapshot_index))) [
                    | inr past ↦ absurd (some_there (ground (arith, e, past)))
                    | inl inside ↦
                        let is : args.entries ≡ drop (next - rf.snapshot_index) rf.logs =
                          ground (arith, e, inside) in
                        let shift : args.prev_log_index + 1 + j ≡ next - rf.snapshot_index + j =
                          ground (arith, where_at, snap, inside, le) in
                        ap (get_elem? rf.logs) shift
                        ∙ sym (get_elem?-drop (next - rf.snapshot_index) rf.logs j)
                        ∙ ap (λ es. get_elem? es j) (sym is)
                  ];
            }
      ]

  pub consistency_check-Sends :
      (rf : Raft C B) (to : ℕ) {rf' : Raft C B} {args : AppendEntriesArgs C}
      → rf.snapshot_index ≡ 0
      → consistency_check rf to ≡ some (rf', send_append_entries to args ∷ [])
      → Sends rf args
  unfolding consistency_check
  consistency_check-Sends rf to {rf'} {args} snap h =
      elim (Option-cases (get_elem? rf.next_index to)) [
        | inl e ↦ absurd (ground (arith, e, h))
        | inr (next, e) ↦ elim (Option-cases (append_args rf next)) [
          | inl f ↦ absurd (ground (arith, e, f, h))
          | inr (built, f) ↦
              let same : built ≡ args = ground (arith, e, f, h) in
              append_args-Sends rf next (ground (arith, e, f, h)) snap (f ∙ ap some same)
                (ground (arith, e, f, h, snap))
        ]
      ]

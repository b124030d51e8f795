-- ===== src/Raft/Cluster/Appended.antt =====
-- What AppendEntries of raft/raft.go does to a peer's log, term and role.
use golang_deep_distributed.Prelude.{
  ◌≢◌, ℕ, ◌+◌, ◌-◌, ◌<◌, ◌≡◌, sym, ap, ◌∙◌, ◌≢◌, ◌⊎◌, inl, inr, not, ◌&&◌, some, ◌++◌, arith, ltb,
  ◌==◌, Bool-cases, Option-cases, length, get_elem?, take, get_elem?_lt,
}
use golang_deep_distributed.Persister.{Gob}
use golang_deep_distributed.Raft.State.{
  Raft, Value, Out, AppendEntriesArgs, AppendEntriesReply, candidate, leader, turn_to_follow,
}
use golang_deep_distributed.Raft.Persist.{persist}
use golang_deep_distributed.Raft.Append.{
  append_entries, accept_leader, prev_entry, append_matched, append_refused, follow_commit,
}
use golang_deep_distributed.Raft.Cluster.Calm.{Calm, Matched}

module _ {C B : Type 0} (gob : Gob (Value C) B) where
  accept_leader-Calm :
      (rf : Raft C B) (args : AppendEntriesArgs C)
      → let rf' = accept_leader rf args in
        Calm rf rf' × (rf'.state ≢ leader) × (rf'.state ≡ candidate → rf.state ≡ candidate)
  unfolding accept_leader turn_to_follow
  accept_leader-Calm rf args = ground arith

  append_refused-Calm :
      (rf : Raft C B) (i t : ℕ) {out : Out C B AppendEntriesReply}
      → append_refused gob rf i t ≡ some out
      → Calm rf out.0
  unfolding append_refused persist
  append_refused-Calm rf i t h = ground arith

  append_matched-logs :
      (rf : Raft C B) (args : AppendEntriesArgs C) (i : ℕ) {out : Out C B AppendEntriesReply}
      → rf.snapshot_index ≡ 0
      → append_matched gob rf args i ≡ some out
      → (i < length rf.logs)
        × (out.0.logs ≡ take (i + 1) rf.logs ++ args.entries)
        × (out.0.snapshot_index ≡ rf.snapshot_index)
        × (out.0.current_term ≡ rf.current_term)
        × (out.0.state ≡ rf.state)
  unfolding append_matched follow_commit persist
  append_matched-logs rf args i {out} snap h =
      let e : i - rf.snapshot_index + 1 ≡ i + 1 = omega (arith, snap) in
      ground (arith, e, ap (λ m. take m rf.logs) e)

  pub append_entries-Calm :
      (rf : Raft C B) (args : AppendEntriesArgs C) {out : Out C B AppendEntriesReply}
      → rf.snapshot_index ≡ 0
      → append_entries gob rf args ≡ some out
      → Calm rf out.0 ⊎ Matched rf out.0 args
  append_entries-Calm rf args {out} snap h =
      let rf₁ = accept_leader rf args in
      let (one, quiet, stands) = accept_leader-Calm rf args in
      elim (Option-cases (prev_entry rf₁ args)) [
        | inl e ↦ inl (unfold append_entries in ground (arith, e, one))
        | inr ((i, t), e) ↦
            elim (Bool-cases (i == args.prev_log_index && t == args.prev_log_term)) [
              | inl fits ↦
                  elim (Bool-cases (
                    not rf.shutdown
                    && not (ltb args.term rf.current_term)
                    && not (ltb args.prev_log_index rf₁.snapshot_index))) [
                      | inl taken ↦
                          let run : append_matched gob rf₁ args i ≡ some out =
                            unfold append_entries in ground (arith, e, fits, taken) in
                          let (inside, logs, snap', term, state) =
                            append_matched-logs rf₁ args i {out = out} (one.snapshot ∙ snap) run in
                          let (prev, at) =
                            get_elem?_lt rf.logs args.prev_log_index
                              (ground (arith, inside, fits, one.logs)) in
                          let is : i ≡ args.prev_log_index = ground (arith, fits) in
                          let taken_over : take (i + 1) rf₁.logs
                              ≡ take (args.prev_log_index + 1) rf.logs =
                            ap (λ m. take (m + 1) rf₁.logs) is
                            ∙ ap (take (args.prev_log_index + 1)) one.logs in
                          inr (record {
                            prev = prev;
                            at = at;
                            same =
                                unfold prev_entry in
                                ground (
                                  arith,
                                  e,
                                  at,
                                  one.logs,
                                  ap (λ ls. get_elem? ls args.prev_log_index) one.logs,
                                  one.snapshot,
                                  snap,
                                  inside,
                                  fits,
                                  is,
                                );
                            logs = logs ∙ ap (λ ls. ls ++ args.entries) taken_over;
                            snapshot = snap' ∙ one.snapshot;
                            term = omega (arith, term, one.term);
                            lead = λ l. quiet (sym state ∙ l);
                            stand = λ l. stands (sym state ∙ l);
                          })
                      | inr other ↦ inl (unfold append_entries in ground (arith, e, one, other))
                    ]
              | inr differs ↦ inl (
                  unfold append_entries in
                  ground (arith, e, one, differs, append_refused-Calm rf₁ i t {out = out}))
            ]
      ]

-- ===== src/Raft/Backtrack.antt =====
-- Log repair: what a follower's refusal tells, and that each refusal moves the leader back.
-- About the failure branch of `AppendEntries` and of `consistencyCheckReplyHandler` (raft/raft.go).
use golang_deep_distributed.Prelude.{
  ℕ, zero, suc, ◌+◌, ◌-◌, ◌≤◌, ◌<◌, max, ◌≡◌, refl, sym, ap, ◌∙◌, ◌≢◌, inl, inr, false, none, some,
  arith, ltb, ◌==◌, Bool-cases, Option-cases, length, get_elem?, lt_of_get_elem?, dec_lt,
  ltb-false→le,
}
use golang_deep_distributed.Persister.{Gob}
use golang_deep_distributed.Raft.State.{
  Raft, LogEntry, Value, Out, AppendEntriesArgs, AppendEntriesReply, log_at, last_index,
}
use golang_deep_distributed.Raft.Append.{
  accept_leader, prev_entry, append_refused, append_entries, first_of_term, conflict_hint,
}
use golang_deep_distributed.Raft.Leader.{last_of_term, conflict_next, clamp_next}
use golang_deep_distributed.Raft.Matching.{
  append_refused-success, accept_leader_fields, append_matched_fields,
}

module _ {C B : Type 0} where
  -- The entries of the log from an index on and below another have one term.
  abbrev pub HasTerm : Raft C B → ℕ → ℕ → ℕ → Type 0
  HasTerm rf term from upto =
      (j : ℕ) (entry : LogEntry C)
      → from ≤ j
      → j < upto
      → log_at rf j ≡ some entry
      → entry.term ≡ term

  -- The scan ends at the first entry of the run of the term that ends below the position.
  first_of_term_run :
      (rf : Raft C B) (term k : ℕ) {r : ℕ}
      → first_of_term rf term (1 + rf.snapshot_index) k ≡ some r
      → (rf.snapshot_index < r)
        × (r ≤ rf.snapshot_index + max 1 k)
        × HasTerm rf term r (rf.snapshot_index + k)
  unfolding first_of_term
  first_of_term_run rf term zero h =
      (ground arith, ground arith, λ j entry low high at. absurd (ground arith))
  first_of_term_run rf term (suc k) {r} h = elim (Option-cases (get_elem? rf.logs k)) [
    | inl e ↦ absurd (ground (arith, e))
    | inr (here, e) ↦ elim (Bool-cases (here.term == term)) [
      | inl t ↦
          let (low, high, run) = first_of_term_run rf term k {r = r} (ground (arith, e, t)) in
          (
            low,
            omega arith,
            λ j entry from upto at. elim (dec_lt j (rf.snapshot_index + k)) [
              | yes below ↦ run j entry from below at
              | no last ↦ ground (arith, e, t)
            ],
          )
      | inr f ↦ (
        ground (arith, e, f),
        ground (arith, e, f),
        λ j entry from upto at. absurd (ground (arith, e, f)),
      )
    ]
  ]

  -- The leader never tries an entry past the one that the follower asks for.
  pub conflict_next-le :
      (rf : Raft C B) (reply : AppendEntriesReply) {next : ℕ}
      → conflict_next rf reply ≡ some next
      → next ≤ reply.first_index
  unfolding conflict_next
  conflict_next-le rf reply h =
      elim (Option-cases (last_of_term rf.logs reply.conflict_term (length rf.logs - 1))) [
        | inl e ↦ ground (arith, e)
        | inr (none, e) ↦ ground (arith, e)
        | inr (some i, e) ↦ ground (arith, e)
      ]

  -- The new `nextIndex` is one of the log, or the snapshot's, and it always moves.
  pub clamp_next_bounds :
      (rf : Raft C B) (old next : ℕ)
      → 1 ≤ length rf.logs
      → (rf.snapshot_index ≤ clamp_next rf old next)
        × (clamp_next rf old next ≤ last_index rf + 1)
        × (clamp_next rf old next ≢ old)
  unfolding clamp_next
  clamp_next_bounds rf old next one = ground arith

  pub clamp_next-lt :
      (rf : Raft C B) (old next : ℕ)
      → 1 ≤ length rf.logs
      → rf.snapshot_index < old
      → next ≤ old
      → clamp_next rf old next < old
  unfolding clamp_next
  clamp_next-lt rf old next one low le = ground arith

  -- A hint names an index above the snapshot and at most one past the refused entry; from there to
  -- the refused entry the follower has entries of the named term only.
  pub record IsHint (rf : Raft C B) (prev term first : ℕ) : Type 0 where
    pub above : rf.snapshot_index < first
    pub within : first ≤ prev + 1
    pub run : HasTerm rf term first (prev + 1)

  conflict_hint-beyond :
      (rf : Raft C B) (prev term first : ℕ)
      → 1 ≤ length rf.logs
      → length rf.logs + rf.snapshot_index ≤ prev
      → conflict_hint rf 0 0 ≡ some (term, first)
      → IsHint rf prev term first
  unfolding conflict_hint
  conflict_hint-beyond rf prev term first one beyond h =
      let q : first ≡ length rf.logs + rf.snapshot_index =
        elim (Option-cases
          (get_elem? rf.logs (length rf.logs + rf.snapshot_index - rf.snapshot_index - 1))) [
            | inl e ↦ absurd (ground (arith, e))
            | inr (entry, e) ↦ ground (arith, e)
          ] in
      record {
        above = omega arith;
        within = omega arith;
        run = λ j entry low high at.
            absurd (ground (arith, lt_of_get_elem? rf.logs (j - rf.snapshot_index) {x = entry}));
      }

  conflict_hint-mismatch :
      (rf : Raft C B) (prev term first : ℕ) {entry : LogEntry C}
      → rf.snapshot_index ≤ prev
      → log_at rf prev ≡ some entry
      → 1 ≤ entry.term
      → conflict_hint rf prev entry.term ≡ some (term, first)
      → IsHint rf prev term first
  unfolding conflict_hint
  conflict_hint-mismatch rf prev term first {entry} low at real h =
      let k = prev - rf.snapshot_index in
      elim (Option-cases (first_of_term rf entry.term (1 + rf.snapshot_index) k)) [
        | inl e ↦ absurd (ground (arith, e))
        | inr (r, e) ↦
            let (above, within, run) = first_of_term_run rf entry.term k {r = r} e in
            let q : first ≡ r = ground (arith, e) in
            let t : term ≡ entry.term = ground (arith, e) in
            record {
              above = rw q above;
              within = omega arith;
              run = λ j other from upto at'. elim (dec_lt j prev) [
                | yes below ↦ run j other (omega arith) (omega arith) at' ∙ sym t
                | no last ↦ let same : j ≡ prev = omega arith in ground (arith, at, rw same at at')
              ];
            }
      ]

module _ {C B : Type 0} where
  log_at-same :
      (rf rf' : Raft C B)
      → rf'.logs ≡ rf.logs
      → rf'.snapshot_index ≡ rf.snapshot_index
      → (i : ℕ) → log_at rf' i ≡ log_at rf i
  log_at-same rf rf' logs index i = rw (logs, index) refl

  IsHint-same :
      (rf rf' : Raft C B) (prev term first : ℕ)
      → rf'.logs ≡ rf.logs
      → rf'.snapshot_index ≡ rf.snapshot_index
      → IsHint rf' prev term first
      → IsHint rf prev term first
  IsHint-same rf rf' prev term first logs index hint = record {
    above = omega (arith, index, hint.above);
    within = hint.within;
    run = λ j entry from upto at. hint.run j entry from upto (rw (logs, index) at);
  }

-- The index names no entry of the placeholder's term 0 but, possibly, none at all.
abbrev pub IsReal : {C B : Type 0} → Raft C B → ℕ → Type 0
IsReal {C} rf i = (entry : LogEntry C) → log_at rf i ≡ some entry → 1 ≤ entry.term

module _ {C B : Type 0} (gob : Gob (Value C) B) where
  append_refused-IsHint :
      (rf : Raft C B) (args : AppendEntriesArgs C) {out : Out C B AppendEntriesReply} (i t : ℕ)
      → 1 ≤ length rf.logs
      → rf.snapshot_index ≤ args.prev_log_index
      → IsReal rf args.prev_log_index
      → prev_entry rf args ≡ some (i, t)
      → append_refused gob rf i t ≡ some out
      → IsHint rf args.prev_log_index out.1.conflict_term out.1.first_index
  unfolding prev_entry
  append_refused-IsHint rf args {out} i t one low real found refused =
      let hint = (append_refused-success gob rf i t {out = out} refused).4 in
      elim (Bool-cases (ltb args.prev_log_index (length rf.logs + rf.snapshot_index))) [
        | inl inside ↦ elim (Option-cases (log_at rf args.prev_log_index)) [
          | inl e ↦ absurd (ground (arith, e, inside))
          | inr (entry, e) ↦
              conflict_hint-mismatch rf args.prev_log_index _ _ {entry = entry} low e (real entry e)
                (ground (arith, e, inside, hint))
        ]
        | inr beyond ↦
            conflict_hint-beyond rf args.prev_log_index _ _ one
              (ltb-false→le args.prev_log_index (length rf.logs + rf.snapshot_index) beyond)
              (ground (arith, beyond, hint))
      ]

  -- A running follower that refuses a request of its term or a later one, for an index that its
  -- snapshot does not hide, keeps its log, and replies with a correct hint.
  pub append_entries-IsHint :
      (rf : Raft C B) (args : AppendEntriesArgs C) (out : Out C B AppendEntriesReply)
      → 1 ≤ length rf.logs
      → rf.shutdown ≡ false
      → rf.current_term ≤ args.term
      → rf.snapshot_index ≤ args.prev_log_index
      → IsReal rf args.prev_log_index
      → append_entries gob rf args ≡ some out
      → out.1.success ≡ false
      → (out.0.logs ≡ rf.logs)
        × (out.0.snapshot_index ≡ rf.snapshot_index)
        × (out.1.current_term ≡ 0)
        × IsHint rf args.prev_log_index out.1.conflict_term out.1.first_index
  unfolding append_entries
  append_entries-IsHint rf args out one up new low real h s =
      let rf' = accept_leader rf args in
      let fields = accept_leader_fields gob rf args in
      elim (Option-cases (prev_entry rf' args)) [
        | inl e ↦ absurd (ground (arith, e, fields))
        | inr ((i, t), e) ↦
            let refused : append_refused gob rf' i t ≡ some out =
              ground (arith, e, fields, append_matched_fields gob rf' args i {out = out}) in
            let kept = append_refused-success gob rf' i t {out = out} refused in
            (
              kept.1 ∙ fields.0,
              kept.2 ∙ fields.1,
              kept.5,
              IsHint-same rf rf' _ _ _ fields.0 fields.1 (
                  append_refused-IsHint rf' args {out = out} i t
                    (omega (arith, one, ap (length {A = LogEntry C}) fields.0))
                    (omega (arith, fields))
                    (λ entry at.
                      real entry
                        (sym (log_at-same rf rf' fields.0 fields.1 args.prev_log_index) ∙ at))
                    e refused),
            )
      ]

-- ===== src/Raft/Matching.antt =====
-- Log replication: what an accepted `AppendEntries` (raft/raft.go) leaves in the follower's log,
-- and that it keeps the log matching property.
use golang_deep_distributed.Prelude.{
  ℕ, zero, suc, ◌+◌, ◌-◌, ◌≤◌, ◌<◌, min, max, ◌≡◌, ap, ◌⊎◌, inl, inr, true, false, some, List, [],
  ◌∷◌, ◌++◌, arith, ltb, if◌then◌else◌, Bool-cases, Option-cases, length, get_elem?, take,
}
use golang_deep_distributed.Persister.{Gob}
use golang_deep_distributed.Raft.State.{
  Raft, LogEntry, Value, Out, AppendEntriesArgs, AppendEntriesReply, log_at, last_index,
  turn_to_follow,
}
use golang_deep_distributed.Raft.Persist.{persist}
use golang_deep_distributed.Raft.Append.{
  accept_leader, prev_entry, append_matched, append_refused, append_entries, follow_commit,
  conflict_hint,
}

module _ {ℓ} {A : Type ℓ} where
  -- The elements of a list that keeps a prefix of another and goes on with new ones.
  pub get_elem?-take-append :
      (n : ℕ) (xs ys : List A) (i : ℕ)
      → n ≤ length xs
      → get_elem? (take n xs ++ ys) i ≡ (if ltb i n then get_elem? xs i else get_elem? ys (i - n))
  get_elem?-take-append zero xs ys i h = ground arith
  get_elem?-take-append (suc n) [] ys i h = absurd (omega arith)
  get_elem?-take-append (suc n) (x ∷ xs) ys zero h = ground arith
  get_elem?-take-append (suc n) (x ∷ xs) ys (suc i) h =
      ground (arith, get_elem?-take-append n xs ys i)

module _ {C B : Type 0} (gob : Gob (Value C) B) where
  pub accept_leader_fields :
      (rf : Raft C B) (args : AppendEntriesArgs C)
      → let rf' = accept_leader rf args in
        (rf'.logs ≡ rf.logs)
        × (rf'.snapshot_index ≡ rf.snapshot_index)
        × (rf'.commit_index ≡ rf.commit_index)
        × (rf.current_term ≤ rf'.current_term)
        × (args.term ≤ rf'.current_term)
  unfolding accept_leader turn_to_follow
  accept_leader_fields rf args = ground arith

  follow_commit_fields :
      (rf : Raft C B) (commit last : ℕ)
      → let rf' = (follow_commit rf commit last).0 in
        (rf'.logs ≡ rf.logs)
        × (rf'.snapshot_index ≡ rf.snapshot_index)
        × (rf.commit_index ≤ rf'.commit_index ⊎ (last < rf.commit_index))
        × (rf'.commit_index ≤ max rf.commit_index (min commit last))
  unfolding follow_commit
  follow_commit_fields rf commit last = ground arith

  pub append_matched_fields :
      (rf : Raft C B) (args : AppendEntriesArgs C) (i : ℕ) {out : Out C B AppendEntriesReply}
      → append_matched gob rf args i ≡ some out
      → (out.0.logs ≡ take (i - rf.snapshot_index + 1) rf.logs ++ args.entries)
        × (i - rf.snapshot_index + 1 ≤ length rf.logs)
        × (out.0.snapshot_index ≡ rf.snapshot_index)
        × (out.1.success ≡ true)
        × (out.1.first_index ≡ last_index out.0)
        × (out.0.commit_index ≤ max rf.commit_index (min args.leader_commit (last_index out.0)))
  unfolding append_matched persist
  append_matched_fields rf args i {out} h =
      let kept = take (i - rf.snapshot_index + 1) rf.logs in
      let rf₁ = record rf { logs = kept ++ args.entries } in
      let rf₂ = (follow_commit rf₁ args.leader_commit (last_index rf₁)).0 in
      elim (Bool-cases (ltb (length rf.logs) (i - rf.snapshot_index + 1))) [
        | inl e ↦ absurd (ground (arith, e))
        | inr e ↦ elim (Option-cases (get_elem? rf₂.logs (last_index rf₁ - rf₂.snapshot_index))) [
          | inl e' ↦ absurd (ground (arith, e, e'))
          | inr (entry, e') ↦
              ground (arith, e, e', follow_commit_fields rf₁ args.leader_commit (last_index rf₁))
        ]
      ]

  pub append_refused-success :
      (rf : Raft C B) (i t : ℕ) {out : Out C B AppendEntriesReply}
      → append_refused gob rf i t ≡ some out
      → (out.1.success ≡ false)
        × (out.0.logs ≡ rf.logs)
        × (out.0.snapshot_index ≡ rf.snapshot_index)
        × (out.0.commit_index ≡ rf.commit_index)
        × (conflict_hint rf i t ≡ some (out.1.conflict_term, out.1.first_index))
        × (out.1.current_term ≡ 0)
  unfolding append_refused persist
  append_refused-success rf i t h = ground arith

  -- What a reply of success says about the request and the follower's log before it.
  pub record IsAccepted (rf : Raft C B) (args : AppendEntriesArgs C)
      (out : Out C B AppendEntriesReply) : Type 0 where
    pub entry : LogEntry C
    pub at : log_at rf args.prev_log_index ≡ some entry
    pub agrees : entry.term ≡ args.prev_log_term
    pub not_stale : rf.current_term ≤ args.term
    pub from_snapshot : rf.snapshot_index ≤ args.prev_log_index
    pub in_log : args.prev_log_index - rf.snapshot_index + 1 ≤ length rf.logs
    pub logs :
        out.0.logs ≡ take (args.prev_log_index - rf.snapshot_index + 1) rf.logs ++ args.entries
    pub snapshot_index : out.0.snapshot_index ≡ rf.snapshot_index
    pub first_index : out.1.first_index ≡ last_index out.0
    pub commit :
        out.0.commit_index ≤ max rf.commit_index (min args.leader_commit (last_index out.0))

  -- A success comes from the branch of a matching entry.
  append_entries-matched :
      (rf : Raft C B) (args : AppendEntriesArgs C) (out : Out C B AppendEntriesReply)
      → append_entries gob rf args ≡ some out
      → out.1.success ≡ true
      → (prev_entry (accept_leader rf args) args ≡ some (args.prev_log_index, args.prev_log_term))
        × (append_matched gob (accept_leader rf args) args args.prev_log_index ≡ some out)
        × (rf.snapshot_index ≤ args.prev_log_index)
        × (rf.current_term ≤ args.term)
  unfolding append_entries
  append_entries-matched rf args out h s =
      let rf' = accept_leader rf args in
      elim (Option-cases (prev_entry rf' args)) [
        | inl e ↦ absurd (ground (arith, e, accept_leader_fields rf args))
        | inr ((i, t), e) ↦
            ground
              (arith, e, accept_leader_fields rf args, append_refused-success rf' i t {out = out})
      ]

  prev_entry-at :
      (rf : Raft C B) (args : AppendEntriesArgs C) {t : ℕ}
      → prev_entry rf args ≡ some (args.prev_log_index, t)
      → 1 ≤ length rf.logs
      → (entry : LogEntry C) × (log_at rf args.prev_log_index ≡ some entry) × (entry.term ≡ t)
  unfolding prev_entry
  prev_entry-at rf args h one = elim (Option-cases (log_at rf args.prev_log_index)) [
    | inl e ↦ absurd (ground (arith, e))
    | inr (entry, e) ↦ (entry, e, ground (arith, e))
  ]

  pub append_entries-IsAccepted :
      (rf : Raft C B) (args : AppendEntriesArgs C) (out : Out C B AppendEntriesReply)
      → append_entries gob rf args ≡ some out
      → out.1.success ≡ true
      → IsAccepted rf args out
  append_entries-IsAccepted rf args out h s =
      let rf' = accept_leader rf args in
      let (found, matched, low, new) = append_entries-matched rf args out h s in
      let fields = accept_leader_fields rf args in
      let result = append_matched_fields rf' args args.prev_log_index {out = out} matched in
      let (entry, at, agrees) = prev_entry-at rf' args found (omega (arith, result)) in
      record {
        entry = entry;
        at = ground (arith, at, fields);
        agrees = agrees;
        not_stale = new;
        from_snapshot = low;
        in_log = omega (arith, result, fields, ap (length {A = LogEntry C}) fields.0);
        logs = ground (arith, result, fields);
        snapshot_index = ground (arith, result, fields);
        first_index = ground (arith, result, fields);
        commit = omega (arith, result, fields);
      }

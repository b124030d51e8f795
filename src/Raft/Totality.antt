-- ===== src/Raft/Totality.antt =====
-- The RPC handlers of raft/raft.go do not fault: a peer whose log has its first entry serves every
-- request, whatever its arguments, and keeps that entry or a new one in its place.
use golang_deep_distributed.Prelude.{
  ℕ, zero, suc, ◌+◌, ◌-◌, ◌≤◌, ◌<◌, ◌≡◌, refl, ap, inl, inr, ◌&&◌, ◌||◌, some, List, [], ◌∷◌, ◌++◌,
  arith, ltb, ◌==◌, if◌then◌else◌, Bool-cases, Option-cases, length, take, length-append,
  length-take, get_elem?_lt,
}
use golang_deep_distributed.Persister.{Gob}
use golang_deep_distributed.Raft.State.{
  Raft, Value, Out, AppendEntriesArgs, AppendEntriesReply, RequestVoteArgs, RequestVoteReply,
  InstallSnapshotArgs, InstallSnapshotReply, last_log_index_and_term, turn_to_follow,
}
use golang_deep_distributed.Raft.Persist.{persist}
use golang_deep_distributed.Raft.Vote.{vote, request_vote, adopt_term}
use golang_deep_distributed.Raft.Append.{
  accept_leader, prev_entry, append_matched, append_refused, append_entries, first_of_term,
  conflict_hint, follow_commit,
}
use golang_deep_distributed.Raft.Snapshot.{install_snapshot}
use golang_deep_distributed.Raft.OneVote.{
  Rpc, ask_vote, append, install, serve, serve_all, GrowsFrom, next_vote, serve_all-GrowsFrom,
}

module _ {C B : Type 0} where
  -- The log has its first entry, which stands for everything that the snapshot covers.
  abbrev pub HasFirst : Raft C B → Type 0
  HasFirst rf = 1 ≤ length rf.logs

  last_log_index_and_term_total :
      (rf : Raft C B) → HasFirst rf → (end : ℕ × ℕ) × (last_log_index_and_term rf ≡ some end)
  unfolding last_log_index_and_term
  last_log_index_and_term_total rf one =
      let at : rf.snapshot_index + length rf.logs - 1 - rf.snapshot_index ≡ length rf.logs - 1 =
        omega arith in
      let (e, here) = get_elem?_lt rf.logs (length rf.logs - 1) (omega arith) in
      ((rf.snapshot_index + length rf.logs - 1, e.term), ground (arith, at, here))

  first_of_term_total :
      (rf : Raft C B) (term first k : ℕ)
      → k ≤ length rf.logs
      → (r : ℕ) × (first_of_term rf term first k ≡ some r)
  unfolding first_of_term
  first_of_term_total rf term first zero le = (first, refl)
  first_of_term_total rf term first (suc k) le =
      let (rest, e) = first_of_term_total rf term first k (omega arith) in
      let (entry, here) = get_elem?_lt rf.logs k (omega arith) in
      elim (Bool-cases (entry.term == term)) [
        | inl same ↦ (rest, ground (arith, e, here, same))
        | inr other ↦ (rf.snapshot_index + k + 1, ground (arith, e, here, other))
      ]

  conflict_hint_total :
      (rf : Raft C B) (i t : ℕ)
      → HasFirst rf
      → i - rf.snapshot_index ≤ length rf.logs
      → (hint : ℕ × ℕ) × (conflict_hint rf i t ≡ some hint)
  unfolding conflict_hint
  conflict_hint_total rf i t one le =
      let first = length rf.logs + rf.snapshot_index in
      let (entry, here) = get_elem?_lt rf.logs (first - rf.snapshot_index - 1) (omega arith) in
      let (r, e) = first_of_term_total rf t (1 + rf.snapshot_index) (i - rf.snapshot_index) le in
      elim (Bool-cases (t == 0)) [
        | inl new ↦ ((entry.term, first), ground (arith, here, new))
        | inr known ↦ ((t, r), ground (arith, e, known))
      ]

  -- Where the snapshot does not hide the previous entry, it is read; it lies in the log if it is found.
  prev_entry_total :
      (rf : Raft C B) (args : AppendEntriesArgs C)
      → rf.snapshot_index ≤ args.prev_log_index
      → HasFirst rf
      → (p : ℕ × ℕ) × (prev_entry rf args ≡ some p)
        × (p.0 - rf.snapshot_index ≤ length rf.logs)
        × (p.0 ≡ args.prev_log_index → p.0 < length rf.logs + rf.snapshot_index)
  unfolding prev_entry
  prev_entry_total rf args seen one =
      elim (Bool-cases (ltb args.prev_log_index (length rf.logs + rf.snapshot_index))) [
        | inl inside ↦
            let (e, here) =
              get_elem?_lt rf.logs (args.prev_log_index - rf.snapshot_index)
                (ground (arith, inside)) in
            (
              (args.prev_log_index, e.term),
              ground (arith, inside, here),
              ground (arith, inside),
              λ same. ground (arith, inside),
            )
        | inr past ↦ ((0, 0), ground (arith, past), omega arith, λ same. ground (arith, past))
      ]

module _ {C B : Type 0} (gob : Gob (Value C) B) where
  append_matched_total :
      (rf : Raft C B) (args : AppendEntriesArgs C) (i : ℕ)
      → rf.snapshot_index ≤ i
      → i < length rf.logs + rf.snapshot_index
      → (out : Out C B AppendEntriesReply) × (append_matched gob rf args i ≡ some out)
        × HasFirst out.0
  unfolding append_matched follow_commit persist
  append_matched_total rf args i seen inside =
      let kept = take (i - rf.snapshot_index + 1) rf.logs in
      let logs = kept ++ args.entries in
      let last = rf.snapshot_index + length logs - 1 in
      let n = length-take (i - rf.snapshot_index + 1) rf.logs in
      let some_left : 1 ≤ length logs = omega (arith, length-append kept args.entries, n) in
      let (e, here) = get_elem?_lt logs (last - rf.snapshot_index) (omega arith) in
      elim (Option-cases (append_matched gob rf args i)) [
        | inl f ↦ absurd (ground (arith, here, n))
        | inr (out, f) ↦ (out, f, ground (arith, here, n, some_left))
      ]

  append_refused_total :
      (rf : Raft C B) (i t : ℕ)
      → HasFirst rf
      → i - rf.snapshot_index ≤ length rf.logs
      → (out : Out C B AppendEntriesReply) × (append_refused gob rf i t ≡ some out) × HasFirst out.0
  unfolding append_refused persist
  append_refused_total rf i t one le =
      let ((term, first), e) = conflict_hint_total rf i t one le in
      elim (Option-cases (append_refused gob rf i t)) [
        | inl f ↦ absurd (ground (arith, e))
        | inr (out, f) ↦ (out, f, ground (arith, e))
      ]

  accept_leader_lem :
      (rf : Raft C B) (args : AppendEntriesArgs C)
      → ((accept_leader rf args).logs ≡ rf.logs)
        × ((accept_leader rf args).snapshot_index ≡ rf.snapshot_index)
  unfolding accept_leader turn_to_follow
  accept_leader_lem rf args = ground arith

  pub append_entries_total :
      (rf : Raft C B) (args : AppendEntriesArgs C)
      → HasFirst rf
      → (out : Out C B AppendEntriesReply) × (append_entries gob rf args ≡ some out)
        × HasFirst out.0
  unfolding append_entries
  append_entries_total rf args one =
      let rf' = accept_leader rf args in
      let (logs, snap) = accept_leader_lem rf args in
      let one' : HasFirst rf' = omega (arith, ap length logs) in
      elim (Bool-cases (
        rf.shutdown
        || (ltb args.term rf.current_term || ltb args.prev_log_index rf'.snapshot_index))) [
          | inl early ↦ elim (Option-cases (append_entries gob rf args)) [
            | inl f ↦ absurd (ground (arith, early))
            | inr (out, f) ↦ (out, f, ground (arith, early, one'))
          ]
          | inr late ↦
              let ((i, t), e, within, inside) =
                prev_entry_total rf' args (ground (arith, late)) one' in
              elim (Bool-cases (i == args.prev_log_index && t == args.prev_log_term)) [
                | inl found ↦
                    let (out, f, one'') =
                      append_matched_total rf' args i (ground (arith, late, found))
                        (inside (ground (arith, found))) in
                    (out, ground (arith, late, e, found, f), one'')
                | inr other ↦
                    let (out, f, one'') = append_refused_total rf' i t one' within in
                    (out, ground (arith, late, e, other, f), one'')
              ]
        ]

  request_vote_total :
      (rf : Raft C B) (args : RequestVoteArgs)
      → HasFirst rf
      → (out : Out C B RequestVoteReply) × (request_vote gob rf args ≡ some out) × HasFirst out.0
  unfolding request_vote vote adopt_term persist
  request_vote_total rf args one =
      let ((i, t), e) = last_log_index_and_term_total rf one in
      elim (Option-cases (request_vote gob rf args)) [
        | inl f ↦ absurd (ground (arith, e))
        | inr (out, f) ↦ (out, f, ground (arith, e))
      ]

  install_snapshot_total :
      (rf : Raft C B) (args : InstallSnapshotArgs B)
      → HasFirst rf
      → (out : Out C B InstallSnapshotReply) × (install_snapshot gob rf args ≡ some out)
        × HasFirst out.0
  unfolding install_snapshot
  install_snapshot_total rf args one = elim (Option-cases (install_snapshot gob rf args)) [
    | inl f ↦ absurd (ground arith)
    | inr (out, f) ↦ (out, f, ground arith)
  ]

  serve_total :
      (rpc : Rpc C B) (rf : Raft C B)
      → HasFirst rf
      → (r : Raft C B × List ℕ) × (serve gob rpc rf ≡ some r) × HasFirst r.0
  serve_total (ask_vote args) rf one =
      let (out, e, one') = request_vote_total rf args one in
      ((out.0, if out.1.vote_granted then args.term ∷ [] else []), ground (arith, e), one')
  serve_total (append args) rf one =
      let (out, e, one') = append_entries_total rf args one in
      ((out.0, []), ground (arith, e), one')
  serve_total (install args) rf one =
      let (out, e, one') = install_snapshot_total rf args one in
      ((out.0, []), ground (arith, e), one')

  serve_all-HasFirst :
      (rpcs : List (Rpc C B)) (rf : Raft C B)
      → HasFirst rf
      → (r : Raft C B × List ℕ) × (serve_all gob rpcs rf ≡ some r) × HasFirst r.0
  unfolding serve_all
  serve_all-HasFirst [] rf one = ((rf, []), refl, one)
  serve_all-HasFirst (rpc ∷ rpcs) rf one =
      let ((rf₁, ts), e, one') = serve_total rpc rf one in
      let ((rf₂, more), e', one'') = serve_all-HasFirst rpcs rf₁ one' in
      ((rf₂, ts ++ more), ground (arith, e, e'), one'')

  -- A peer whose log has its first entry serves any sequence of RequestVote, AppendEntries and
  -- InstallSnapshot requests, whatever their arguments, without a fault, and its log still has a first
  -- entry after them; and the votes that it gave went to strictly growing terms.
  pub serve_all_total :
      (rpcs : List (Rpc C B)) (rf : Raft C B)
      → HasFirst rf
      → (r : Raft C B × List ℕ) × (serve_all gob rpcs rf ≡ some r)
        × HasFirst r.0
        × GrowsFrom (next_vote rf) r.1
  serve_all_total rpcs rf one =
      let (r, e, one') = serve_all-HasFirst rpcs rf one in
      (r, e, one', serve_all-GrowsFrom gob rpcs rf e)

-- ===== src/Raft/OneVote.antt =====
-- A peer gives at most one vote in a term, whatever RPCs it serves and in whatever order.
-- About the three handlers of raft/raft.go.
use golang_deep_distributed.Prelude.{
  ℕ, suc, ◌≤◌, ◌≡◌, inl, inr, true, Option, some, List, [], ◌∷◌, ◌++◌, arith, if◌then◌else◌,
  Option-cases, ◌>>=◌,
}
use golang_deep_distributed.Persister.{Gob}
use golang_deep_distributed.Raft.State.{
  Raft, Value, Out, RequestVoteArgs, AppendEntriesArgs, InstallSnapshotArgs,
  last_log_index_and_term, AppendEntriesReply, InstallSnapshotReply, turn_to_follow,
}
use golang_deep_distributed.Raft.Vote.{adopt_term, vote, request_vote, is_none}
use golang_deep_distributed.Raft.Append.{
  append_entries, accept_leader, append_matched, append_refused, follow_commit, prev_entry,
}
use golang_deep_distributed.Raft.Snapshot.{install_snapshot}
use golang_deep_distributed.Raft.Persist.{persist}

-- An incoming RPC.
pub data Rpc (C B : Type 0) : Type 0 where
  ask_vote : RequestVoteArgs → Rpc C B
  append : AppendEntriesArgs C → Rpc C B
  install : InstallSnapshotArgs B → Rpc C B

-- The terms of the list grow strictly, from the bound on.
abbrev pub GrowsFrom : ℕ → List ℕ → Type 0
GrowsFrom low [] = Unit
GrowsFrom low (t ∷ ts) = (low ≤ t) × GrowsFrom (suc t) ts

GrowsFrom-le : (low high : ℕ) (ts : List ℕ) → low ≤ high → GrowsFrom high ts → GrowsFrom low ts
GrowsFrom-le low high [] h g = tt
GrowsFrom-le low high (t ∷ ts) h g = (omega arith, g.1)

module _ {C B : Type 0} where
  -- The first term in which the peer may still vote.
  abbrev pub next_vote : Raft C B → ℕ
  next_vote rf = if is_none rf.voted_for then rf.current_term else suc rf.current_term

module _ {C B : Type 0} (gob : Gob (Value C) B) where
  -- Serves one RPC: the new state, and the terms of the votes that it gave.
  abbrev pub serve : Rpc C B → Raft C B → Option (Raft C B × List ℕ)
  serve (ask_vote args) rf = request_vote gob rf args >>= λ out.
      some (out.0, if out.1.vote_granted then args.term ∷ [] else [])
  serve (append args) rf = append_entries gob rf args >>= λ out. some (out.0, [])
  serve (install args) rf = install_snapshot gob rf args >>= λ out. some (out.0, [])

  unfoldable pub serve_all : List (Rpc C B) → Raft C B → Option (Raft C B × List ℕ)
  serve_all [] rf = some (rf, [])
  serve_all (rpc ∷ rpcs) rf =
      let rest = λ (rf' : Raft C B). serve_all rpcs rf' in
      serve rpc rf >>= λ one. rest one.0 >>= λ more. some (more.0, one.1 ++ more.1)

  vote-next_vote :
      (rf : Raft C B) (args : RequestVoteArgs) (index term : ℕ)
      → let out = vote gob rf args index term in
        (out.1.vote_granted ≡ true → (next_vote rf ≤ args.term) × (suc args.term ≤ next_vote out.0))
        × (next_vote rf ≤ next_vote out.0)
  unfolding vote adopt_term persist
  vote-next_vote rf args index term = ground arith

  append_matched-next_vote :
      (rf : Raft C B) (args : AppendEntriesArgs C) (i : ℕ) {out : Out C B AppendEntriesReply}
      → append_matched gob rf args i ≡ some out
      → next_vote rf ≡ next_vote out.0
  unfolding append_matched follow_commit persist
  append_matched-next_vote rf args i h = ground arith

  append_refused-next_vote :
      (rf : Raft C B) (i t : ℕ) {out : Out C B AppendEntriesReply}
      → append_refused gob rf i t ≡ some out
      → next_vote rf ≡ next_vote out.0
  unfolding append_refused persist
  append_refused-next_vote rf i t h = ground arith

  accept_leader-next_vote :
      (rf : Raft C B) (args : AppendEntriesArgs C)
      → next_vote rf ≤ next_vote (accept_leader rf args)
  unfolding accept_leader turn_to_follow
  accept_leader-next_vote rf args = ground arith

  append_entries-next_vote :
      (rf : Raft C B) (args : AppendEntriesArgs C) {out : Out C B AppendEntriesReply}
      → append_entries gob rf args ≡ some out
      → next_vote rf ≤ next_vote out.0
  append_entries-next_vote rf args {out} h =
      elim (Option-cases (prev_entry (accept_leader rf args) args)) [
        | inl e ↦ unfold append_entries in ground (arith, e, accept_leader-next_vote rf args)
        | inr ((i, t), e) ↦
            unfold append_entries in
            ground (
              arith,
              e,
              accept_leader-next_vote rf args,
              append_matched-next_vote (accept_leader rf args) args i {out = out},
              append_refused-next_vote (accept_leader rf args) i t {out = out},
            )
      ]

  install_snapshot-next_vote :
      (rf : Raft C B) (args : InstallSnapshotArgs B) {out : Out C B InstallSnapshotReply}
      → install_snapshot gob rf args ≡ some out
      → next_vote rf ≡ next_vote out.0
  unfolding install_snapshot
  install_snapshot-next_vote rf args h = ground arith

  -- What one RPC gives, put before votes that start from the new state.
  serve-GrowsFrom :
      (rpc : Rpc C B) (rf rf' : Raft C B) (ts more : List ℕ)
      → serve rpc rf ≡ some (rf', ts)
      → GrowsFrom (next_vote rf') more
      → GrowsFrom (next_vote rf) (ts ++ more)
  unfolding request_vote
  serve-GrowsFrom (ask_vote args) rf rf' ts more h g =
      elim (Option-cases (last_log_index_and_term rf)) [
        | inl e ↦ ground (arith, e, GrowsFrom-le (next_vote rf) (next_vote rf') more)
        | inr ((i, t), e) ↦ ground (
          arith,
          e,
          vote-next_vote rf args i t,
          GrowsFrom-le (next_vote rf) (next_vote rf') more,
          GrowsFrom-le (suc args.term) (next_vote rf') more,
        )
      ]
  serve-GrowsFrom (append args) rf rf' ts more h g =
      elim (Option-cases (append_entries gob rf args)) [
        | inl e ↦ ground (arith, e)
        | inr (out, e) ↦ ground (
          arith,
          e,
          append_entries-next_vote rf args {out = out} e,
          GrowsFrom-le (next_vote rf) (next_vote rf') more,
        )
      ]
  serve-GrowsFrom (install args) rf rf' ts more h g =
      elim (Option-cases (install_snapshot gob rf args)) [
        | inl e ↦ ground (arith, e)
        | inr (out, e) ↦ ground (
          arith,
          e,
          install_snapshot-next_vote rf args {out = out} e,
          GrowsFrom-le (next_vote rf) (next_vote rf') more,
        )
      ]

  -- In any sequence of RPCs that a peer serves, the votes it gives go to strictly growing terms,
  -- all of them terms in which it had not voted before: it gives at most one vote in a term.
  pub serve_all-GrowsFrom :
      (rpcs : List (Rpc C B)) (rf : Raft C B) {rf' : Raft C B} {ts : List ℕ}
      → serve_all rpcs rf ≡ some (rf', ts)
      → GrowsFrom (next_vote rf) ts
  unfolding serve_all
  serve_all-GrowsFrom [] rf h = ground arith
  serve_all-GrowsFrom (rpc ∷ rpcs) rf {rf'} {ts} h = elim (Option-cases (serve rpc rf)) [
    | inl e ↦ absurd (ground (arith, e))
    | inr ((rf₁, one), e) ↦ elim (Option-cases (serve_all rpcs rf₁)) [
      | inl e' ↦ absurd (ground (arith, e, e'))
      | inr ((rf₂, more), e') ↦
          let q : ts ≡ one ++ more = ground (arith, e, e') in
          rw q (serve-GrowsFrom rpc rf rf₁ one more e (serve_all-GrowsFrom rpcs rf₁ e'))
    ]
  ]

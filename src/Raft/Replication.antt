-- ===== src/Raft/Replication.antt =====
-- Log replication from a leader to a follower: the log matching property, and the two halves of an
-- `AppendEntries` exchange (raft/raft.go, `consistencyCheck` and `AppendEntries`).
use golang_deep_distributed.Prelude.{
  ℕ, ◌+◌, ◌-◌, ◌≤◌, ◌<◌, ◌≡◌, sym, ap, ◌∙◌, inl, inr, true, Option, some, [], ◌∷◌, arith, leb,
  if◌then◌else◌, leb→le, Bool-cases, Option-cases, length, get_elem?, take, length-append,
  length-take, dec_lt, lt_of_get_elem?, none, get_elem?-drop, leb-false→lt,
}
use golang_deep_distributed.Persister.{Gob}
use golang_deep_distributed.Raft.State.{
  Raft, LogEntry, Value, Out, AppendEntriesArgs, AppendEntriesReply, log_at, last_index,
  send_append_entries,
}
use golang_deep_distributed.Raft.Append.{append_entries}
use golang_deep_distributed.Raft.Leader.{append_args, consistency_check}
use golang_deep_distributed.Raft.Matching.{
  get_elem?-take-append, IsAccepted, append_entries-IsAccepted,
}
use golang_deep_distributed.Raft.Requests.{append_args-IsRequest}

-- A log as the entries at its absolute indices.
abbrev pub Log : Type 0 → Type 0
Log C = ℕ → Option (LogEntry C)

module _ {C : Type 0} where
  -- The request carries a segment of the log, and the term of the entry before it.
  pub record IsSegment (log : Log C) (args : AppendEntriesArgs C) : Type 0 where
    pub before : LogEntry C
    pub before_at : log args.prev_log_index ≡ some before
    pub before_term : before.term ≡ args.prev_log_term
    pub entries_at :
        (k : ℕ)
        → k < length args.entries
        → get_elem? args.entries k ≡ log (args.prev_log_index + 1 + k)

module _ {C B : Type 0} where
  -- The log matching property: where a peer's log and another have entries of one term at an index,
  -- they have the same entries up to there, as far as the peer still has them.
  abbrev pub Matches : Raft C B → Log C → Type 0
  Matches rf log =
      (i : ℕ) (mine theirs : LogEntry C)
      → log_at rf i ≡ some mine
      → log i ≡ some theirs
      → mine.term ≡ theirs.term
      → (j : ℕ) → rf.snapshot_index ≤ j
      → j ≤ i
      → log_at rf j ≡ log j

module _ {C B : Type 0} (gob : Gob (Value C) B) where
  -- The follower's log after an accepted request, index by index.
  log_at-append_entries :
      (rf : Raft C B) (args : AppendEntriesArgs C) {out : Out C B AppendEntriesReply}
      → IsAccepted gob rf args out
      → (j : ℕ) → rf.snapshot_index ≤ j
      → log_at out.0 j ≡ (
          if leb j args.prev_log_index
          then log_at rf j
          else get_elem? args.entries (j - (args.prev_log_index + 1)))
  log_at-append_entries rf args {out} a j low =
      let n = args.prev_log_index - rf.snapshot_index + 1 in
      let split = get_elem?-take-append n rf.logs args.entries (j - rf.snapshot_index) a.in_log in
      let low' = a.from_snapshot in
      let same : j - rf.snapshot_index - n ≡ j - (args.prev_log_index + 1) = omega arith in
      rw (a.logs, a.snapshot_index, split, same) (ground arith)

  -- Log matching: if a follower's log matches a log, and the follower accepts a request that carries
  -- a segment of it, then the follower's whole log equals that log.
  append_entries-Matches :
      (rf : Raft C B) (log : Log C) (args : AppendEntriesArgs C) (out : Out C B AppendEntriesReply)
      → Matches rf log
      → IsSegment log args
      → append_entries gob rf args ≡ some out
      → out.1.success ≡ true
      → (j : ℕ) → out.0.snapshot_index ≤ j
      → j ≤ last_index out.0
      → log_at out.0 j ≡ log j
  append_entries-Matches rf log args out m seg h s j low high =
      let a = append_entries-IsAccepted gob rf args out h s in
      let low' : rf.snapshot_index ≤ j = omega (arith, a.snapshot_index) in
      let n = args.prev_log_index - rf.snapshot_index + 1 in
      log_at-append_entries rf args a j low' ∙ elim (Bool-cases (leb j args.prev_log_index)) [
        | inl old ↦ rw old (
            m args.prev_log_index a.entry seg.before a.at seg.before_at
              (a.agrees ∙ sym seg.before_term) j low' (leb→le j args.prev_log_index old))
        | inr new ↦ rw new (
            seg.entries_at (j - (args.prev_log_index + 1)) (
              omega (
                arith,
                a.from_snapshot,
                a.in_log,
                a.snapshot_index,
                ap (length {A = LogEntry C}) a.logs,
                length-append (take n rf.logs) args.entries,
                length-take n rf.logs,
                leb-false→lt j args.prev_log_index new,
              ))
            ∙ ap log (omega (arith, leb-false→lt j args.prev_log_index new)))
      ]

module _ {C B : Type 0} where
  -- Every request that a leader builds for a follower whose next entry it still has carries a segment
  -- of the leader's log.
  append_args-IsSegment :
      (rf : Raft C B) (next : ℕ) (args : AppendEntriesArgs C)
      → append_args rf next ≡ some args
      → rf.snapshot_index < next
      → 1 ≤ length rf.logs
      → IsSegment (log_at rf) args
  append_args-IsSegment rf next args h low one =
      let r = append_args-IsRequest rf next args h low one in
      record {
        before = r.before;
        before_at = ground (arith, r.before_at, r.low);
        before_term = sym r.before_term;
        entries_at = λ k lt. elim r.entries [
          | inl e ↦ absurd (omega (arith, ap (length {A = LogEntry C}) e))
          | inr (e, p) ↦
              let at : next - rf.snapshot_index + k
                  ≡ args.prev_log_index + 1 + k - rf.snapshot_index =
                omega arith in
              rw (e, get_elem?-drop (next - rf.snapshot_index) rf.logs k, at)
                (ground (arith, r.low))
        ];
      }

  consistency_check-args :
      (rf : Raft C B) (n : ℕ) {rf' : Raft C B} {args : AppendEntriesArgs C}
      → consistency_check rf n ≡ some (rf', send_append_entries n args ∷ [])
      → (next : ℕ) × (append_args rf next ≡ some args) × (rf.snapshot_index < next)
  unfolding consistency_check
  consistency_check-args rf n {rf'} {args} h = elim (Option-cases (get_elem? rf.next_index n)) [
    | inl e ↦ absurd (ground (arith, e))
    | inr (next, e) ↦ elim (Option-cases (append_args rf next)) [
      | inl e' ↦ absurd (ground (arith, e, e'))
      | inr (args', e') ↦ (next, ground (arith, e, e'), ground (arith, e, e'))
    ]
  ]

  -- Nothing stands past the end of a log.
  log_at_past : (rf : Raft C B) (j : ℕ) → last_index rf < j → log_at rf j ≡ none
  log_at_past rf j past = elim (Option-cases (get_elem? rf.logs (j - rf.snapshot_index))) [
    | inl e ↦ ground (arith, e)
    | inr (entry, e) ↦ elim (dec_lt j rf.snapshot_index) [
      | yes before ↦ ground (arith, before)
      | no not_before ↦ absurd (
          omega (
            arith,
            past,
            not_before,
            lt_of_get_elem? rf.logs (j - rf.snapshot_index) {x = entry} e,
          ))
    ]
  ]

module _ {C B : Type 0} (gob : Gob (Value C) B) where
  -- The end of the follower's log after an accepted request.
  last_index-append_entries :
      (rf : Raft C B) (args : AppendEntriesArgs C) {out : Out C B AppendEntriesReply}
      → IsAccepted gob rf args out
      → last_index out.0 ≡ args.prev_log_index + length args.entries
  last_index-append_entries rf args {out} a =
      let n = args.prev_log_index - rf.snapshot_index + 1 in
      omega (
        arith,
        a.from_snapshot,
        a.in_log,
        a.snapshot_index,
        ap (length {A = LogEntry C}) a.logs,
        length-append (take n rf.logs) args.entries,
        length-take n rf.logs,
      )

  -- One round of replication: if the follower's log matches the log of a leader that has one, the
  -- leader's consistency check sends an AppendEntries request, and the follower accepts it, then the
  -- follower's log ends where the leader's ends, and is the leader's, entry for entry, from the
  -- follower's snapshot on.
  pub replicate_round :
      (l f : Raft C B) (n : ℕ) {l' : Raft C B} {args : AppendEntriesArgs C}
      (out : Out C B AppendEntriesReply)
      → 1 ≤ length l.logs
      → consistency_check l n ≡ some (l', send_append_entries n args ∷ [])
      → Matches f (log_at l)
      → append_entries gob f args ≡ some out
      → out.1.success ≡ true
      → (last_index out.0 ≡ last_index l)
        × ((j : ℕ) → out.0.snapshot_index ≤ j → log_at out.0 j ≡ log_at l j)
  replicate_round l f n {l'} {args} out one sent m h s =
      let (next, built, low) = consistency_check-args l n {rf' = l'} {args = args} sent in
      let request = append_args-IsRequest l next args built low one in
      let end : last_index out.0 ≡ last_index l =
        last_index-append_entries f args (append_entries-IsAccepted gob f args out h s)
        ∙ request.end in
      (
        end,
        λ j from. elim (dec_lt (last_index out.0) j) [
          | no inside ↦
              append_entries-Matches gob f (log_at l) args out m
                (append_args-IsSegment l next args built low one) h s j from (omega (arith, inside))
          | yes past ↦ log_at_past out.0 j past ∙ sym (log_at_past l j (omega (arith, end, past)))
        ],
      )

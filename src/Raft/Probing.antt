-- ===== src/Raft/Probing.antt =====
-- The leader's side of log repair: each refusal moves `nextIndex` strictly back, so that probing
-- ends. About `consistencyCheck` and `consistencyCheckReplyHandler` of raft/raft.go.
use golang_deep_distributed.Prelude.{
  ℕ, zero, suc, ◌+◌, ◌-◌, ◌≤◌, ◌<◌, min, ◌≡◌, refl, inl, inr, false, not, ◌&&◌, Option, none, some,
  List, arith, leb, ◌==◌, Bool-cases, length, get_elem?, get_elem?_lt, lt_of_get_elem?,
  get_elem?-set_self,
}
use golang_deep_distributed.Persister.{Gob}
use golang_deep_distributed.Raft.State.{
  Raft, LogEntry, Value, Effect, Out, AppendEntriesArgs, AppendEntriesReply, leader,
}
use golang_deep_distributed.Raft.Append.{append_entries}
use golang_deep_distributed.Raft.Leader.{
  last_of_term, conflict_next, clamp_next, refused_next, append_args, append_reply_handler,
}
use golang_deep_distributed.Raft.Backtrack.{
  IsReal, append_entries-IsHint, conflict_next-le, clamp_next-lt,
}
use golang_deep_distributed.Raft.Requests.{append_args-IsRequest}

module _ {C : Type 0} where
  last_of_term_total :
      (logs : List (LogEntry C)) (term k : ℕ)
      → k < length logs
      → (found : Option ℕ) × (last_of_term logs term k ≡ some found)
  unfolding last_of_term
  last_of_term_total logs term zero h = (none, refl)
  last_of_term_total logs term (suc k) h =
      let (entry, e) = get_elem?_lt logs (suc k) h in
      let (found, f) = last_of_term_total logs term k (omega arith) in
      elim (Bool-cases (entry.term == term)) [
        | inl t ↦ (some (suc k), ground (arith, e, t))
        | inr t ↦ (found, ground (arith, e, t, f))
      ]

module _ {C B : Type 0} where
  conflict_next_total :
      (rf : Raft C B) (reply : AppendEntriesReply)
      → 1 ≤ length rf.logs
      → (next : ℕ) × (conflict_next rf reply ≡ some next)
  unfolding conflict_next
  conflict_next_total rf reply one =
      let (found, f) =
        last_of_term_total rf.logs reply.conflict_term (length rf.logs - 1) (omega arith) in
      elim (Bool-cases (reply.conflict_term == 0)) [
        | inl z ↦ (reply.first_index, rw z)
        | inr z ↦ (
          elim found [
            | some i ↦ min (i + rf.snapshot_index) reply.first_index
            | none ↦ reply.first_index
          ],
          rw (z, f),
        )
      ]

  refused_next-lt :
      (rf : Raft C B) (n old next : ℕ)
      → 1 ≤ length rf.logs
      → n < length rf.next_index
      → rf.snapshot_index < old
      → next ≤ old
      → (new : ℕ) × (get_elem? (refused_next n rf old next).0.next_index n ≡ some new) × (new < old)
  unfolding refused_next
  refused_next-lt rf n old next one inside low le =
      elim (Bool-cases (not (rf.snapshot_index == 0) && leb next rf.snapshot_index)) [
        | inl s ↦ (next, rw s (get_elem?-set_self rf.next_index n next inside), ground (arith, s))
        | inr s ↦ (
          clamp_next rf old next,
          rw s (get_elem?-set_self rf.next_index n (clamp_next rf old next) inside),
          clamp_next-lt rf old next one low le,
        )
      ]

module _ {C B : Type 0} (gob : Gob (Value C) B) where
  append_reply_handler-lt :
      (rf : Raft C B) (n old : ℕ) (reply : AppendEntriesReply)
      → rf.state ≡ leader
      → 1 ≤ length rf.logs
      → get_elem? rf.next_index n ≡ some old
      → rf.snapshot_index < old
      → reply.success ≡ false
      → reply.current_term ≤ rf.current_term
      → reply.first_index ≤ old
      → (r : Raft C B × List (Effect C B)) × (append_reply_handler gob n reply rf ≡ some r)
        × ((new : ℕ) × (get_elem? r.0.next_index n ≡ some new) × (new < old))
  unfolding append_reply_handler
  append_reply_handler-lt rf n old reply lead one at low failed same le =
      let (next, e) = conflict_next_total rf reply one in
      (
        refused_next n rf old next,
        ground (arith, lead, e),
        refused_next-lt rf n old next one (lt_of_get_elem? rf.next_index n at) low
            (omega (arith, conflict_next-le rf reply {next = next} e)),
      )

  -- A probe that a follower refuses moves the leader strictly back. The leader, whose log is not empty
  -- and whose snapshot ends before the follower's `nextIndex`, sends the request for that index; the
  -- follower runs, has a log, is in no later term than the leader, has no snapshot that hides the
  -- request's previous index and has there no entry of the placeholder's term 0, and it refuses; then
  -- the leader handles the reply without a fault, and `nextIndex` for that follower is smaller.
  pub probe_moves_back :
      (l f : Raft C B) (n old : ℕ) (args : AppendEntriesArgs C) (out : Out C B AppendEntriesReply)
      → l.state ≡ leader
      → 1 ≤ length l.logs
      → get_elem? l.next_index n ≡ some old
      → l.snapshot_index < old
      → append_args l old ≡ some args
      → 1 ≤ length f.logs
      → f.shutdown ≡ false
      → f.current_term ≤ l.current_term
      → f.snapshot_index ≤ args.prev_log_index
      → IsReal f args.prev_log_index
      → append_entries gob f args ≡ some out
      → out.1.success ≡ false
      → (r : Raft C B × List (Effect C B)) × (append_reply_handler gob n out.1 l ≡ some r)
        × ((new : ℕ) × (get_elem? r.0.next_index n ≡ some new) × (new < old))
  probe_moves_back l f n old args out lead one at low built one' up new from real h s =
      let request = append_args-IsRequest l old args built low one in
      let (_, _, zeroed, hint) =
        append_entries-IsHint gob f args out one' up (omega (arith, request.term)) from real h s in
      append_reply_handler-lt l n old out.1 lead one at low s (omega (arith, zeroed))
        (omega (arith, hint.within, request.high))

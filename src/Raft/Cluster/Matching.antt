-- ===== src/Raft/Cluster/Matching.antt =====
-- Log matching in a cluster of raft/raft.go.
use golang_deep_distributed.Prelude.{
  ℕ, ◌≤◌, ◌≡◌, sym, ap, ◌∙◌, subst, inl, inr, Option, some, arith, get_elem?,
}
use golang_deep_distributed.Persister.{Gob}
use golang_deep_distributed.Raft.Cluster.{update}
use golang_deep_distributed.Raft.Cluster.History.{
  Ledger, Inv, Grows, blank_ledger, IsInitial-Inv, work-Inv,
}
use golang_deep_distributed.Raft.Cluster.Calls.{Work-Keeps}
use golang_deep_distributed.Raft.Cluster.Logs.{Sending}
use golang_deep_distributed.Raft.Cluster.Calm.{Calm, Submitted}
use golang_deep_distributed.Raft.Cluster.Chains.{Chains}
use golang_deep_distributed.Raft.State.{Raft, LogEntry, Value, AppendEntriesArgs}
use golang_deep_distributed.Raft.Cluster.LogInv.{
  LogInv, IsEmpty-LogInv, first_chains, Calm-LogInv, Grows-LogInv, Matched-LogInv, sent-LogInv,
}
use golang_deep_distributed.Raft.Cluster.LogLead.{lead_by, submit-LogInv, elected-LogInv}
use golang_deep_distributed.Raft.Cluster.{Cluster, Step, ask, give, receive, lose, work}
use golang_deep_distributed.Raft.Cluster.Logs.{
  IsVote, Call, deliver, answer, submit, report, halt, vote, call, send, LogReach, initial, move,
  Call-Work,
}
use golang_deep_distributed.Raft.Cluster.Calm.{
  canvass_votes-Calm, request_vote-Calm, vote_reply_handler-Calm, append_reply_handler-Calm,
  apply_log_entries-Calm, kill-Calm, start-Submitted,
}
use golang_deep_distributed.Raft.Cluster.Appended.{append_entries-Calm}
use golang_deep_distributed.Raft.Cluster.Requests.{consistency_check-Sends}
use golang_deep_distributed.Raft.Cluster.Safety.{Step-Inv}

module _ {C B : Type 0} (gob : Gob (Value C) B) (n : ℕ) where
  -- A step about votes keeps the invariant of the logs.
  vote-LogInv :
      {s s' : Cluster C B} {l l' : Ledger} {sent : ℕ → Option (AppendEntriesArgs C)} {g : Chains C}
      → LogInv n s.peer sent l g
      → Inv n s' l'
      → Grows l l'
      → (st : Step gob n s s') → IsVote gob st
      → (g' : Chains C) × LogInv n s'.peer sent l' g'
  vote-LogInv {s} {s'} {l} {l'} {sent} {g} inv after grows (ask i c args es lt h e) is = (
    g,
    subst (λ u. LogInv n u.peer sent l' g) (sym e)
        (Calm-LogInv n s.peer sent l l' g inv grows i c.rf (canvass_votes-Calm (s.peer i) h)),
  )
  vote-LogInv {s} {s'} {l} {l'} {sent} {g} inv after grows (give i k args rf' reply es lt free h e)
        is =
      (
        g,
        subst (λ u. LogInv n u.peer sent l' g) (sym e)
            (Calm-LogInv n s.peer sent l l' g inv grows i rf'
              (request_vote-Calm gob (s.peer i) args h)),
      )
  vote-LogInv {s} {s'} {l} {l'} {sent} {g} inv after grows
        (receive k m c es there lt now running h e) is =
      let p = m.args.candidate_id in
      elim (vote_reply_handler-Calm gob m.args m.reply _ now h) [
        | inl calm ↦ (
          g,
          subst (λ u. LogInv n u.peer sent l' g) (sym e)
              (Calm-LogInv n s.peer sent l l' g inv grows p c.rf calm),
        )
        | inr (stood, leads, logs, snap, term) ↦
            let most = (subst (λ u. Inv n u l') e after).won p in
            let g' = lead_by n s.peer sent l l' g inv grows p c.rf in
            (
              g',
              subst (λ u. LogInv n u.peer sent l' g') (sym e)
                  (elected-LogInv n s.peer sent l l' g inv grows p c.rf after.held
                    (ground (arith, most, leads)) stood leads logs snap term),
            )
      ]
  vote-LogInv {s} {s'} {l} {l'} {sent} {g} inv after grows (lose k e) is = (
    g,
    subst (λ u. LogInv n u.peer sent l' g) (sym e) (Grows-LogInv n s.peer sent l l' g inv grows),
  )
  vote-LogInv inv after grows (work i rf' lt w e) is = absurd is

  -- A call at a peer keeps it.
  call-LogInv :
      {peer : ℕ → Raft C B} {l : Ledger} {sent : ℕ → Option (AppendEntriesArgs C)} {g : Chains C}
      → LogInv n peer sent l g
      → (i : ℕ) (rf' : Raft C B) → Call gob sent (peer i) rf'
      → (g' : Chains C) × LogInv n (update peer i rf') sent l g'
  call-LogInv {peer} {l} {sent} {g} inv i rf' (deliver k args reply es there h) =
      elim (append_entries-Calm gob (peer i) args (inv.snapshot i) h) [
        | inl calm ↦ (g, Calm-LogInv n peer sent l l g inv (λ c t v on. on) i rf' calm)
        | inr matched ↦
            (g, Matched-LogInv n peer sent l l g inv (λ c t v on. on) i rf' k args there matched)
      ]
  call-LogInv {peer} {l} {sent} {g} inv i rf' (answer to reply es old h) = (
    g,
    Calm-LogInv n peer sent l l g inv (λ c t v on. on) i rf'
        (append_reply_handler-Calm gob to reply (peer i) old h),
  )
  call-LogInv {peer} {l} {sent} {g} inv i rf' (submit command h) =
      elim (start-Submitted gob (peer i) command) [
        | inl calm ↦ (
          g,
          Calm-LogInv n peer sent l l g inv (λ c t v on. on) i rf'
              (subst (Calm (peer i)) (sym h) calm),
        )
        | inr submitted ↦ (
          lead_by n peer sent l l g inv (λ c t v on. on) i rf',
          submit-LogInv n peer sent l l g inv (λ c t v on. on) i rf' command
              (subst (λ u. Submitted (peer i) u command) (sym h) submitted),
        )
      ]
  call-LogInv {peer} {l} {sent} {g} inv i rf' (report nil_bytes beyond msgs h) = (
    g,
    Calm-LogInv n peer sent l l g inv (λ c t v on. on) i rf'
        (apply_log_entries-Calm gob nil_bytes beyond (peer i) h),
  )
  call-LogInv {peer} {l} {sent} {g} inv i rf' (halt es h) =
      (g, Calm-LogInv n peer sent l l g inv (λ c t v on. on) i rf' (kill-Calm gob (peer i) h))

  -- Every cluster that is reached has a history of votes and leaders' logs for which both invariants hold.
  LogReach-LogInv :
      {s : Sending C B}
      → LogReach gob n s
      → (l : Ledger) × (g : Chains C) × Inv n s.cluster l × LogInv n s.cluster.peer s.sent l g
  LogReach-LogInv (initial h e) = (blank_ledger, first_chains, IsInitial-Inv h, IsEmpty-LogInv h e)
  LogReach-LogInv {s = s'} (move {s} r (vote st is same)) =
      let (l, g, inv, log_inv) = LogReach-LogInv r in
      let (l', after, grows) = Step-Inv gob n inv st in
      let (g', log_after) = vote-LogInv log_inv after grows st is in
      (l', g', after, subst (λ u. LogInv n s'.cluster.peer u l' g') (sym same) log_after)
  LogReach-LogInv (move {s} r (call i rf' lt c e)) =
      let (l, g, inv, log_inv) = LogReach-LogInv r in
      let (g', log_after) = call-LogInv log_inv i rf' c in
      (
        l,
        g',
        subst (λ u. Inv n u.cluster l) (sym e)
            (work-Inv gob n inv i rf' (Work-Keeps gob (Call-Work gob c))),
        subst (λ u. LogInv n u.cluster.peer u.sent l g') (sym e) log_after,
      )
  LogReach-LogInv (move {s} r (send i to k rf' args free h e)) =
      let (l, g, inv, log_inv) = LogReach-LogInv r in
      (
        l,
        g,
        subst (λ u. Inv n u.cluster l) (sym e) inv,
        subst (λ u. LogInv n u.cluster.peer u.sent l g) (sym e)
            (sent-LogInv n s.cluster.peer s.sent l l g log_inv (λ c t v on. on) i k args
              (consistency_check-Sends (s.cluster.peer i) to (log_inv.snapshot i) h)),
      )

-- In every state that a cluster without snapshots reaches by canvasses, votes, vote replies that come while
-- their candidate is still in the term that it asked in, AppendEntries requests that leaders sent and that come
-- late, again, out of order or never, replies to them of no later term, commands, reports of committed entries
-- and shutdowns: two logs that have an entry of the same term at one position are the same up to there.
pub log_matching :
    {C B : Type 0} (gob : Gob (Value C) B) (n : ℕ) {s : Sending C B}
    → LogReach gob n s
    → (i j k : ℕ) (e e' : LogEntry C) → get_elem? (s.cluster.peer i).logs k ≡ some e
    → get_elem? (s.cluster.peer j).logs k ≡ some e'
    → e.term ≡ e'.term
    → (m : ℕ) → m ≤ k
    → get_elem? (s.cluster.peer i).logs m ≡ get_elem? (s.cluster.peer j).logs m
log_matching gob n r i j k e e' one other same m le =
    let (l, g, inv, log_inv) = LogReach-LogInv gob n r in
    log_inv.certified i k e one m le
    ∙ ap (λ t. get_elem? (g.lead t) m) same
    ∙ sym (log_inv.certified j k e' other m le)

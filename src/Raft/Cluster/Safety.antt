-- ===== src/Raft/Cluster/Safety.antt =====
-- At most one leader in a term, in a cluster of raft/raft.go.
use golang_deep_distributed.Prelude.{ℕ, ◌*◌, ◌<◌, ◌≡◌, sym, subst, inl, inr, arith, Bool-cases}
use golang_deep_distributed.Persister.{Gob}
use golang_deep_distributed.Raft.State.{Value, leader}
use golang_deep_distributed.Raft.Cluster.{
  Cluster, Step, ask, give, receive, lose, work, Reach, here, next,
}
use golang_deep_distributed.Raft.Cluster.Calls.{Work-Keeps}
use golang_deep_distributed.Raft.Cluster.Votes.{
  count, count_mono, count_overlap, canvass_votes-Asks, request_vote-Gives,
  vote_reply_handler-Counts,
}
use golang_deep_distributed.Raft.Cluster.History.{
  Ledger, Grows, Inv, give_vote, get_vote, blank_ledger, own_vote, IsInitial-Inv, work-Inv,
  lose-Inv, asked-Inv, granted-Inv, refused-Inv, voted-Inv, unvoted-Inv,
}

-- Every step keeps the invariant, with a history that may be longer.
pub Step-Inv :
    {C B : Type 0} (gob : Gob (Value C) B) (n : ℕ) {s s' : Cluster C B} {l : Ledger}
    → Inv n s l
    → Step gob n s s'
    → (l' : Ledger) × Inv n s' l' × Grows l l'
Step-Inv gob n {s} {l} inv (ask i c args es lt h e) =
    let l' = own_vote gob n inv i c args lt (canvass_votes-Asks (s.peer i) h) in
    (
      l',
      subst (λ u. Inv n u l') (sym e)
          (asked-Inv gob n inv i c args lt (canvass_votes-Asks (s.peer i) h)),
      λ p t v on. ground (arith, on),
    )
Step-Inv gob n {s} {l} inv (give i k args rf' reply es lt free h e) =
    let g = request_vote-Gives gob (s.peer i) args h in
    elim (Bool-cases reply.vote_granted) [
      | inl yes_vote ↦ (
        give_vote l i args.term args.candidate_id,
        subst (λ u. Inv n u (give_vote l i args.term args.candidate_id)) (sym e)
            (granted-Inv gob n inv i k args rf' reply lt free g yes_vote),
        λ p t v on. on,
      )
      | inr no_vote ↦ (
        l,
        subst (λ u. Inv n u l) (sym e) (refused-Inv gob n inv i k args rf' reply lt free g no_vote),
        λ p t v on. on,
      )
    ]
Step-Inv gob n {s} {l} inv (receive k m c es there lt now running h e) =
    let counts = vote_reply_handler-Counts gob m.args m.reply _ now h in
    elim (Bool-cases m.reply.vote_granted) [
      | inl yes_vote ↦
          let l' = get_vote l m.args.candidate_id m.args.term m.voter in
          (
            l',
            subst (λ u. Inv n u l') (sym e)
                (voted-Inv gob n inv k m c there lt now running counts yes_vote),
            λ p t v on. ground (arith, on),
          )
      | inr no_vote ↦ (
        l,
        subst (λ u. Inv n u l) (sym e)
            (unvoted-Inv gob n inv k m c there lt now running counts no_vote),
        λ p t v on. on,
      )
    ]
Step-Inv gob n {l} inv (lose k e) =
    (l, subst (λ u. Inv n u l) (sym e) (lose-Inv gob n inv k), λ p t v on. on)
Step-Inv gob n {s} {l} inv (work i rf' lt w e) = (
  l,
  subst (λ u. Inv n u l) (sym e) (work-Inv gob n inv i rf' (Work-Keeps gob w)),
  λ p t v on. on,
)

Reach-Inv :
    {C B : Type 0} (gob : Gob (Value C) B) (n : ℕ) {s : Cluster C B}
    → Reach gob n s
    → (l : Ledger) × Inv n s l
Reach-Inv gob n (here h) = (blank_ledger, IsInitial-Inv h)
Reach-Inv gob n (next r st) =
    let (l, inv) = Reach-Inv gob n r in let (l', inv', grows) = Step-Inv gob n inv st in (l', inv')

-- A run of steps from one state of the cluster to another.
pub data Steps {C B : Type 0} (gob : Gob (Value C) B) (n : ℕ) (s : Cluster C B)
    : Cluster C B → Type 0 where
  still : Steps gob n s s
  more : {s' s'' : Cluster C B} → Steps gob n s s' → Step gob n s' s'' → Steps gob n s s''

pub Steps-Reach :
    {C B : Type 0} (gob : Gob (Value C) B) (n : ℕ) {s s' : Cluster C B}
    → Reach gob n s
    → Steps gob n s s'
    → Reach gob n s'
Steps-Reach gob n r still = r
Steps-Reach gob n r (more run st) = next (Steps-Reach gob n r run) st

pub Steps-trans :
    {C B : Type 0} (gob : Gob (Value C) B) (n : ℕ) {s s' s'' : Cluster C B}
    → Steps gob n s s'
    → Steps gob n s' s''
    → Steps gob n s s''
Steps-trans gob n run still = run
Steps-trans gob n run (more rest st) = more (Steps-trans gob n run rest) st

Steps-Inv :
    {C B : Type 0} (gob : Gob (Value C) B) (n : ℕ) {s s' : Cluster C B} {l : Ledger}
    → Inv n s l
    → Steps gob n s s'
    → (l' : Ledger) × Inv n s' l' × Grows l l'
Steps-Inv gob n {l = l} inv still = (l, inv, λ c t v on. on)
Steps-Inv gob n inv (more run st) =
    let (l', inv', grows) = Steps-Inv gob n inv run in
    let (l'', inv'', grows') = Step-Inv gob n inv' st in
    (l'', inv'', λ c t v on. grows' c t v (grows c t v on))

-- A leader of a term now and a leader of that term some steps later are the same peer.
pub election_safety_later :
    {C B : Type 0} (gob : Gob (Value C) B) (n : ℕ) {s s' : Cluster C B}
    → Reach gob n s
    → Steps gob n s s'
    → (i j : ℕ) → (s.peer i).state ≡ leader
    → (s'.peer j).state ≡ leader
    → (s.peer i).current_term ≡ (s'.peer j).current_term
    → i ≡ j
election_safety_later gob n {s} {s'} r run i j one other same =
    let (l, inv) = Reach-Inv gob n r in
    let (l', inv', grows) = Steps-Inv gob n inv run in
    let t = (s'.peer j).current_term in
    let most : n < 2 * count (l.got i t) n =
      subst (λ u. n < 2 * count (l.got i u) n) same (inv.won i one) in
    let kept = count_mono (l.got i t) (l'.got i t) n (grows i t) in
    let (v, first, second) =
      count_overlap (l'.got i t) (l'.got j t) n (omega (arith, most, kept, inv'.won j other)) in
    cc (inv'.held i t v first, inv'.held j t v second)

-- In every state that a cluster of peers just made reaches by canvasses, requests for votes, vote
-- replies that come while their candidate is still in the term that it asked in, lost replies,
-- AppendEntries and InstallSnapshot requests, replies to AppendEntries of no later term, replies to
-- InstallSnapshot, commands, compactions, reports of committed entries and shutdowns, two leaders of
-- one term are the same peer.
pub election_safety :
    {C B : Type 0} (gob : Gob (Value C) B) (n : ℕ) {s : Cluster C B}
    → Reach gob n s
    → (i j : ℕ) → (s.peer i).state ≡ leader
    → (s.peer j).state ≡ leader
    → (s.peer i).current_term ≡ (s.peer j).current_term
    → i ≡ j
election_safety gob n r i j one other same = election_safety_later gob n r still i j one other same

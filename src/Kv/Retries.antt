-- ===== src/Kv/Retries.antt =====
-- How the client of kvraft/client.go retries: the same request, server after server in a ring, and
-- one sequence number for each request that ends.
use Prim.Native.String.{String}
use text.Mathlib.Text.{◌==◌ as str_eq}
use native.Mathlib.Nat.{mod-add-mod}
use golang_deep_distributed.Prelude.{
  ltb, ℕ, zero, suc, ◌+◌, ◌%◌, ◌≡◌, refl, ◌≢◌, ◌⊎◌, inl, inr, Bool, true, false, not, ◌&&◌, none,
  some, List, [], ◌∷◌, arith, if◌then◌else◌, length, get_elem?,
}
use golang_deep_distributed.Kv.State.{GetReply, PutAppendReply, ok}
use golang_deep_distributed.Kv.Clerk.{
  after_send, Clerk, Outcome, timeout, returned, Call, wrap, advance, get_args, put_args, get,
  put_append,
}

-- The requests went round the servers, from the clerk's leader on, each with the same arguments.
abbrev pub GoesRound : {Args : Type 0} → Clerk → Args → List (ℕ × Args) → Type 0
GoesRound ck args sent =
    (i : ℕ)
    → get_elem? sent i
      ≡ (if ltb i (length sent) then some ((ck.leader + i) % ck.servers, args) else none)

-- The call has ended and used up its sequence number, or it has sent a request for each outcome and
-- still has the number.
abbrev pub Counts : {Args R O : Type 0} → Clerk → List O → Call Args R → Type 0
Counts ck outcomes c =
    ((c.result ≡ none) × (c.clerk.seq ≡ ck.seq) × (length c.sent ≡ length outcomes))
    ⊎ ((c.result ≢ none) × (c.clerk.seq ≡ ck.seq + 1))

next_server : (leader i n : ℕ) → (leader % n + 1 + i) % n ≡ (leader + suc i) % n
next_server leader i n =
    let shift : leader % n + 1 + i ≡ leader % n + suc i = omega arith in
    rw shift (mod-add-mod leader n (suc i))

first_server : (leader n : ℕ) → leader % n ≡ (leader + 0) % n
first_server leader n = let same : leader + 0 ≡ leader = omega arith in rw same refl

GoesRound-cons :
    {Args : Type 0} (ck : Clerk) (args : Args) (sent : List (ℕ × Args))
    → GoesRound (advance (wrap ck)) args sent
    → GoesRound ck args (((wrap ck).leader, args) ∷ sent)
GoesRound-cons ck args sent h zero = ground (arith, first_server ck.leader ck.servers)
GoesRound-cons ck args sent h (suc i) = ground (arith, h i, next_server ck.leader i ck.servers)

GoesRound-one :
    {Args : Type 0} (ck : Clerk) (args : Args) → GoesRound ck args (((wrap ck).leader, args) ∷ [])
GoesRound-one ck args = GoesRound-cons ck args [] (λ i. ground arith)

-- A call that ends with its last reply.
abbrev ended : {Args R : Type 0} → Clerk → R → Call Args R
ended ck r = record {
  sent = [];
  clerk = record (wrap ck) { seq = (wrap ck).seq + 1 };
  result = some r;
}

-- One more round before a call that goes on, or that ends here.
GoesRound-round :
    {Args R O : Type 0} (ck : Clerk) (args : Args) (outcomes : List O) (o : O) (r : R) (b : Bool)
    → (again : Call Args R) → GoesRound (advance (wrap ck)) args again.sent
    → Counts (advance (wrap ck)) outcomes again
    → again.clerk.id ≡ ck.id
    → let c = after_send (wrap ck).leader args (if b then ended ck r else again) in
      GoesRound ck args c.sent × Counts ck (o ∷ outcomes) c × (c.clerk.id ≡ ck.id)
GoesRound-round ck args outcomes o r true again round counts id =
    (GoesRound-one ck args, inr (ground arith, refl), refl)
GoesRound-round ck args outcomes o r false again round counts id =
    (GoesRound-cons ck args _ round, ground (arith, counts), id)

-- PutAppend sends its requests to the servers in a ring, from the leader that the clerk knows, each
-- request with the same key, value, operation, client id and sequence number; the clerk keeps its
-- id, and its sequence number grows by one if the call ends, and stays otherwise, when one request
-- was sent for each outcome.
pub put_append-GoesRound :
    (key value op : String) (outcomes : List (Outcome PutAppendReply)) (ck : Clerk)
    → let c = put_append key value op outcomes ck in
      GoesRound ck (put_args ck key value op) c.sent × Counts ck outcomes c × (c.clerk.id ≡ ck.id)
unfolding put_append
put_append-GoesRound key value op [] ck = (λ i. ground arith, inl (refl, refl, refl), refl)
put_append-GoesRound key value op (timeout ∷ outcomes) ck =
    let (round, counts, id) = put_append-GoesRound key value op outcomes (advance (wrap ck)) in
    (GoesRound-cons ck (put_args ck key value op) _ round, ground (arith, counts), id)
put_append-GoesRound key value op (returned done reply ∷ outcomes) ck =
    let (round, counts, id) = put_append-GoesRound key value op outcomes (advance (wrap ck)) in
    GoesRound-round ck (put_args ck key value op) outcomes (returned done reply) tt
      ((done && not reply.wrong_leader) && str_eq reply.err ok)
      (put_append key value op outcomes (advance (wrap ck))) round counts id

-- Get sends its requests to the servers in a ring, from the leader that the clerk knows, each
-- request with the same key, client id and sequence number; the clerk keeps its id, and its
-- sequence number grows by one if the call ends, and stays otherwise, when one request was sent for
-- each outcome.
pub get-GoesRound :
    (key : String) (outcomes : List (Outcome GetReply)) (ck : Clerk)
    → let c = get key outcomes ck in
      GoesRound ck (get_args ck key) c.sent × Counts ck outcomes c × (c.clerk.id ≡ ck.id)
unfolding get
get-GoesRound key [] ck = (λ i. ground arith, inl (refl, refl, refl), refl)
get-GoesRound key (timeout ∷ outcomes) ck =
    let (round, counts, id) = get-GoesRound key outcomes (advance (wrap ck)) in
    (GoesRound-cons ck (get_args ck key) _ round, ground (arith, counts), id)
get-GoesRound key (returned done reply ∷ outcomes) ck =
    let (round, counts, id) = get-GoesRound key outcomes (advance (wrap ck)) in
    GoesRound-round ck (get_args ck key) outcomes (returned done reply)
      (if str_eq reply.err ok then reply.value else "") (done && not reply.wrong_leader)
      (get key outcomes (advance (wrap ck))) round counts id

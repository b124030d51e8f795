-- ===== src/Kv/Progress.antt =====
-- The calls of kvraft/client.go end: one server that answers is enough.
use Prim.Native.String.{String}
use text.Mathlib.Text.{◌==◌ as str_eq}
use native.Mathlib.Nat.{mod-add-mod, mod-lt, add-mod-mod, add-mod_right, mod-eq_of_lt}
use golang_deep_distributed.Prelude.{
  ℕ, zero, suc, ◌+◌, ◌-◌, ◌%◌, ◌≤◌, ◌<◌, ◌≡◌, sym, ap, ◌∙◌, ◌≢◌, inl, inr, Bool, true, false, not,
  ◌&&◌, none, some, List, [], ◌∷◌, arith, Bool-cases, length, get_elem?, ◌⊎◌, dec_lt,
  lt_of_get_elem?,
}
use golang_deep_distributed.Kv.State.{GetReply, PutAppendReply, ok}
use golang_deep_distributed.Kv.Clerk.{
  Clerk, Outcome, timeout, returned, Call, get, put_append, wrap, advance, put_args, get_args,
}
use golang_deep_distributed.Kv.Retries.{GoesRound, Counts, put_append-GoesRound, get-GoesRound}

-- An answer that ends PutAppend, and one that ends Get.
abbrev pub ends_put : Outcome PutAppendReply → Bool
ends_put timeout = false
ends_put (returned done reply) = (done && not reply.wrong_leader) && str_eq reply.err ok

abbrev pub ends_get : Outcome GetReply → Bool
ends_get timeout = false
ends_get (returned done reply) = done && not reply.wrong_leader

-- A call that has ended, after at most so many requests.
abbrev EndsWithin : {Args R : Type 0} → ℕ → Call Args R → Type 0
EndsWithin most c = (c.result ≢ none) × (length c.sent ≤ most)

put_append-EndsWithin :
    (key value op : String) (outcomes : List (Outcome PutAppendReply)) (ck : Clerk) (i : ℕ)
    (o : Outcome PutAppendReply)
    → get_elem? outcomes i ≡ some o
    → ends_put o ≡ true
    → EndsWithin (i + 1) (put_append key value op outcomes ck)
unfolding put_append
put_append-EndsWithin key value op [] ck i o at good = absurd (ground (arith, at))
put_append-EndsWithin key value op (timeout ∷ outcomes) ck zero o at good =
    absurd (ground (arith, at, good))
put_append-EndsWithin key value op (timeout ∷ outcomes) ck (suc i) o at good =
    let (ended, few) =
      put_append-EndsWithin key value op outcomes (advance (wrap ck)) i o at good in
    (ended, ground (arith, few))
put_append-EndsWithin key value op (returned done reply ∷ outcomes) ck zero o at good =
    let here : ((done && not reply.wrong_leader) && str_eq reply.err ok) ≡ true =
      ground (arith, at, good) in
    (λ e. ground (arith, here, e), ground (arith, here))
put_append-EndsWithin key value op (returned done reply ∷ outcomes) ck (suc i) o at good =
    let (ended, few) =
      put_append-EndsWithin key value op outcomes (advance (wrap ck)) i o at good in
    elim (Bool-cases ((done && not reply.wrong_leader) && str_eq reply.err ok)) [
      | inl here ↦ (λ e. ground (arith, here, e), ground (arith, here))
      | inr there ↦ (λ e. ground (arith, there, e, ended), ground (arith, there, few))
    ]

get-EndsWithin :
    (key : String) (outcomes : List (Outcome GetReply)) (ck : Clerk) (i : ℕ) (o : Outcome GetReply)
    → get_elem? outcomes i ≡ some o
    → ends_get o ≡ true
    → EndsWithin (i + 1) (get key outcomes ck)
unfolding get
get-EndsWithin key [] ck i o at good = absurd (ground (arith, at))
get-EndsWithin key (timeout ∷ outcomes) ck zero o at good = absurd (ground (arith, at, good))
get-EndsWithin key (timeout ∷ outcomes) ck (suc i) o at good =
    let (ended, few) = get-EndsWithin key outcomes (advance (wrap ck)) i o at good in
    (ended, ground (arith, few))
get-EndsWithin key (returned done reply ∷ outcomes) ck zero o at good =
    let here : (done && not reply.wrong_leader) ≡ true = ground (arith, at, good) in
    (λ e. ground (arith, here, e), ground (arith, here))
get-EndsWithin key (returned done reply ∷ outcomes) ck (suc i) o at good =
    let (ended, few) = get-EndsWithin key outcomes (advance (wrap ck)) i o at good in
    elim (Bool-cases (done && not reply.wrong_leader)) [
      | inl here ↦ (λ e. ground (arith, here, e), ground (arith, here))
      | inr there ↦ (λ e. ground (arith, there, e, ended), ground (arith, there, few))
    ]

-- The server that is asked in some round.
asked : (leader n k : ℕ) → k < n → (i : ℕ) × (i < n) × ((leader + i) % n ≡ k)
asked leader n k lt =
    let z = k + (n - leader % n) in
    let below : leader % n < n = mod-lt leader (omega (arith, lt)) in
    let sum : leader % n + z ≡ k + n = omega (arith, below) in
    (
      z % n,
      mod-lt z (omega (arith, lt)),
      add-mod-mod leader z n
          ∙ sym (mod-add-mod leader n z)
          ∙ ap (λ m. m % n) sum
          ∙ add-mod_right k n
          ∙ mod-eq_of_lt lt,
    )

-- Whenever a request of the call went to the server, the outcome of that request is of the kind.
abbrev pub Answers :
    {Args R : Type 0} → (Outcome R → Bool) → ℕ → List (ℕ × Args) → List (Outcome R) → Type 0
Answers ends k sent outcomes =
    (i : ℕ) (args : _)
    → get_elem? sent i ≡ some (k, args)
    → (o : Outcome _) × (get_elem? outcomes i ≡ some o) × (ends o ≡ true)

-- A call that has ended, and has sent no server two requests.
abbrev pub HasEnded : {Args R : Type 0} → ℕ → Call Args R → Type 0
HasEnded most c =
    (c.result ≢ none)
    × (length c.sent ≤ most)
    × ((i j k : ℕ) (args args' : _)
        → get_elem? c.sent i ≡ some (k, args)
        → get_elem? c.sent j ≡ some (k, args')
        → i ≡ j)

-- Where a turn of the ring comes to.
ring_mod :
    (a n i : ℕ)
    → a < n
    → i < n
    → ((a + i < n) × ((a + i) % n ≡ a + i)) ⊎ ((n ≤ a + i) × ((a + i) % n ≡ a + i - n))
ring_mod a n i lt lt' = elim (dec_lt (a + i) n) [
  | yes low ↦ inl (low, mod-eq_of_lt low)
  | no high ↦
      let back : a + i ≡ a + i - n + n = omega (arith, high) in
      let small : a + i - n < n = omega (arith, lt, lt') in
      inr (
        omega (arith, high),
        ap (λ m. m % n) back ∙ add-mod_right (a + i - n) n ∙ mod-eq_of_lt small,
      )
]

-- Two rounds of one turn of the ring ask different servers.
same_round : (leader n i j : ℕ) → i < n → j < n → (leader + i) % n ≡ (leader + j) % n → i ≡ j
same_round leader n i j lt lt' same =
    let a = leader % n in
    let below : a < n = mod-lt leader (omega (arith, lt)) in
    let same' : (a + i) % n ≡ (a + j) % n =
      mod-add-mod leader n i ∙ same ∙ sym (mod-add-mod leader n j) in
    elim (ring_mod a n i below lt) [
      | inl (low, e) ↦ elim (ring_mod a n j below lt') [
        | inl (low', e') ↦ let sums : a + i ≡ a + j = sym e ∙ same' ∙ e' in omega (arith, sums)
        | inr (high', e') ↦
            let sums : a + i ≡ a + j - n = sym e ∙ same' ∙ e' in
            absurd (omega (arith, sums, high', lt'))
      ]
      | inr (high, e) ↦ elim (ring_mod a n j below lt') [
        | inl (low', e') ↦
            let sums : a + i - n ≡ a + j = sym e ∙ same' ∙ e' in
            absurd (omega (arith, sums, high, lt))
        | inr (high', e') ↦
            let sums : a + i - n ≡ a + j - n = sym e ∙ same' ∙ e' in
            omega (arith, sums, high, high')
      ]
    ]

-- The server of a request that went round the ring.
GoesRound-at :
    {Args : Type 0} (ck : Clerk) (args : Args) (sent : List (ℕ × Args))
    → GoesRound ck args sent
    → (i k : ℕ) (a : Args) → get_elem? sent i ≡ some (k, a)
    → (ck.leader + i) % ck.servers ≡ k
GoesRound-at ck args sent round i k a at =
    let lt = lt_of_get_elem? sent i {x = (k, a)} at in ground (arith, round i, at, lt)

-- A call that goes round the ring sends no server two requests, if it sends no more than there are
-- servers.
GoesRound-once :
    {Args : Type 0} (ck : Clerk) (args : Args) (sent : List (ℕ × Args))
    → GoesRound ck args sent
    → length sent ≤ ck.servers
    → (i j k : ℕ) (a a' : Args) → get_elem? sent i ≡ some (k, a)
    → get_elem? sent j ≡ some (k, a')
    → i ≡ j
GoesRound-once ck args sent round few i j k a a' at at' =
    let lt = lt_of_get_elem? sent i {x = (k, a)} at in
    let lt' = lt_of_get_elem? sent j {x = (k, a')} at' in
    same_round ck.leader ck.servers i j (omega (arith, lt, few)) (omega (arith, lt', few))
      (GoesRound-at ck args sent round i k a at ∙ sym (GoesRound-at ck args sent round j k a' at'))

module _ {Args R S : Type 0} (ends : Outcome R → Bool) (ck : Clerk) (args : Args)
    (outcomes : List (Outcome R)) (c : Call Args S) where
  -- A call that goes round the ring ends within one turn if a server answers.
  GoesRound-HasEnded :
      (k : ℕ)
      → k < ck.servers
      → ck.servers ≤ length outcomes
      → GoesRound ck args c.sent
      → Counts ck outcomes c
      → ((i : ℕ) (o : Outcome R)
          → get_elem? outcomes i ≡ some o
          → ends o ≡ true
          → EndsWithin (i + 1) c)
      → Answers ends k c.sent outcomes
      → HasEnded ck.servers c
  GoesRound-HasEnded k lt enough round counts within answers =
      let (i, below, at) = asked ck.leader ck.servers k lt in
      let (done, few) : (c.result ≢ none) × (length c.sent ≤ ck.servers) =
        elim (dec_lt i (length c.sent)) [
          | yes sent ↦
              let here : get_elem? c.sent i ≡ some (k, args) = ground (arith, round i, at, sent) in
              let (o, there, good) = answers i args here in
              let (done, few) = within i o there good in (done, omega (arith, few, below))
          | no not_sent ↦ elim counts [
            | inl (waits, seq, all) ↦ absurd (omega (arith, all, enough, below, not_sent))
            | inr (done, seq) ↦ (done, omega (arith, below, not_sent))
          ]
        ] in
      (done, few, GoesRound-once ck args c.sent round few)

-- Let the rounds be at least as many as the servers. If one server's outcome of every PutAppend request
-- that goes to it is that the command was applied, PutAppend ends, and if one server's outcome of every
-- Get request that goes to it is a reply of the leader, Get ends; neither sends two requests to one
-- server.
pub calls-HasEnded :
    (key value op : String) (puts : List (Outcome PutAppendReply)) (gets : List (Outcome GetReply))
    (ck : Clerk) (k l : ℕ)
    → k < ck.servers
    → l < ck.servers
    → ck.servers ≤ length puts
    → ck.servers ≤ length gets
    → Answers ends_put k (put_append key value op puts ck).sent puts
    → Answers ends_get l (get key gets ck).sent gets
    → HasEnded ck.servers (put_append key value op puts ck) × HasEnded ck.servers (get key gets ck)
calls-HasEnded key value op puts gets ck k l lt lt' enough enough' put_answers get_answers =
    let (round, counts, id) = put_append-GoesRound key value op puts ck in
    let (round', counts', id') = get-GoesRound key gets ck in
    (
      GoesRound-HasEnded ends_put ck (put_args ck key value op) puts
          (put_append key value op puts ck) k lt enough round counts
          (put_append-EndsWithin key value op puts ck) put_answers,
      GoesRound-HasEnded ends_get ck (get_args ck key) gets (get key gets ck) l lt' enough' round'
          counts' (get-EndsWithin key gets ck) get_answers,
    )

-- ===== src/Kv/Clerk.antt =====
-- kvraft/client.go: a client that retries a request, server after server, until one answers.
--
-- What the network and the clock do is a list of outcomes, one for each round of the loop: the timer
-- fires first, or `Call` returns. The loop runs over the list; at its end it is still retrying.
use Prim.Native.String.{String}
use text.Mathlib.Text.{◌==◌ as str_eq}
use golang_deep_distributed.Prelude.{
  ℕ, ◌+◌, ◌%◌, Bool, false, not, ◌&&◌, ◌||◌, Option, none, some, List, [], ◌∷◌, ◌==◌, if◌then◌else◌,
  ◌>>=◌,
}
use golang_deep_distributed.Kv.State.{GetArgs, GetReply, PutAppendArgs, PutAppendReply, ok}

pub record Clerk : Type 0 where
  pub servers : ℕ
  pub leader : ℕ
  pub seq : ℕ
  pub id : ℕ

-- `clients[x]`
abbrev pub is_used : List ℕ → ℕ → Bool
is_used [] x = false
is_used (c ∷ clients) x = c == x || is_used clients x

-- `generateID` over the numbers that `nrand` draws: the new id, and the set of ids with it.
unfoldable pub generate_id : List ℕ → List ℕ → Option (ℕ × List ℕ)
generate_id [] clients = none
generate_id (x ∷ draws) clients =
    let again = generate_id draws clients in
    if is_used clients x then again else some (x, x ∷ clients)

unfoldable pub make_clerk : ℕ → List ℕ → List ℕ → Option (Clerk × List ℕ)
unfolding generate_id
make_clerk servers draws clients = do
  (id, clients') ← generate_id draws clients
  some (record { servers = servers; leader = servers; seq = 1; id = id }, clients')

pub data Outcome (R : Type 0) : Type 0 where
  timeout : Outcome R
  returned : Bool → R → Outcome R

-- What a call does: the requests it sent, each with its server, the clerk after it, and the result,
-- if the loop has ended.
pub record Call (Args R : Type 0) : Type 0 where
  pub sent : List (ℕ × Args)
  pub clerk : Clerk
  pub result : Option R

abbrev pub after_send : {Args R : Type 0} → ℕ → Args → Call Args R → Call Args R
after_send server args c = record c { sent = (server, args) ∷ c.sent }

-- `ck.leader %= cnt`
abbrev pub wrap : Clerk → Clerk
wrap ck = record ck { leader = ck.leader % ck.servers }

-- `ck.leader++`
abbrev pub advance : Clerk → Clerk
advance ck = record ck { leader = ck.leader + 1 }

abbrev pub get_args : Clerk → String → GetArgs
get_args ck key = record { key = key; client_id = ck.id; seq_no = ck.seq }

unfoldable pub get : String → List (Outcome GetReply) → Clerk → Call GetArgs String
get key [] ck = record { sent = []; clerk = ck; result = none }
get key (timeout ∷ outcomes) ck =
    let ck' = wrap ck in after_send ck'.leader (get_args ck key) (get key outcomes (advance ck'))
get key (returned done reply ∷ outcomes) ck =
    let ck' = wrap ck in
    let again = get key outcomes (advance ck') in
    after_send ck'.leader (get_args ck key) (
      if done && not reply.wrong_leader
      then record {
        sent = [];
        clerk = record ck' { seq = ck'.seq + 1 };
        result = some (if str_eq reply.err ok then reply.value else "");
      }
      else again)

abbrev pub put_args : Clerk → String → String → String → PutAppendArgs
put_args ck key value op = record {
  key = key;
  value = value;
  op = op;
  client_id = ck.id;
  seq_no = ck.seq;
}

unfoldable pub put_append :
    String → String → String → List (Outcome PutAppendReply) → Clerk → Call PutAppendArgs (Unit {0})
put_append key value op [] ck = record { sent = []; clerk = ck; result = none }
put_append key value op (timeout ∷ outcomes) ck =
    let ck' = wrap ck in
    after_send ck'.leader (put_args ck key value op)
      (put_append key value op outcomes (advance ck'))
put_append key value op (returned done reply ∷ outcomes) ck =
    let ck' = wrap ck in
    let again = put_append key value op outcomes (advance ck') in
    after_send ck'.leader (put_args ck key value op) (
      if (done && not reply.wrong_leader) && str_eq reply.err ok
      then record { sent = []; clerk = record ck' { seq = ck'.seq + 1 }; result = some tt }
      else again)

unfoldable pub put :
    String → String → List (Outcome PutAppendReply) → Clerk → Call PutAppendArgs (Unit {0})
unfolding put_append
put key value = put_append key value "Put"

unfoldable pub append :
    String → String → List (Outcome PutAppendReply) → Clerk → Call PutAppendArgs (Unit {0})
unfolding put_append
append key value = put_append key value "Append"

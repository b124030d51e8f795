-- ===== src/Kv/ProgressTests.antt =====
-- Calls of the client of kvraft/client.go to three servers, one of which answers.
use golang_deep_distributed.Prelude.{zero, suc, refl, true, false, List, [], ◌∷◌, arith}
use golang_deep_distributed.Kv.State.{GetReply, PutAppendReply, ok}
use golang_deep_distributed.Kv.Clerk.{Clerk, Outcome, timeout, returned, get, put_append}
use golang_deep_distributed.Kv.Progress.{Answers, ends_put, ends_get, HasEnded, calls-HasEnded}

abbrev clerk : Clerk
clerk = record { servers = 3; leader = 3; seq = 1; id = 5 }

abbrev puts : List (Outcome PutAppendReply)
puts =
    timeout
    ∷ returned true (record { wrong_leader = true; err = "" })
    ∷ returned true (record { wrong_leader = false; err = ok })
    ∷ []

abbrev gets : List (Outcome GetReply)
gets =
    timeout ∷ returned true (record { wrong_leader = false; err = ok; value = "y" }) ∷ timeout ∷ []

put-Answers : Answers ends_put 2 (put_append "k" "y" "Put" puts clerk).sent puts
unfolding put_append
put-Answers zero args at = absurd (ground (arith, at))
put-Answers (suc zero) args at = absurd (ground (arith, at))
put-Answers (suc (suc zero)) args at = (_, refl, refl)
put-Answers (suc (suc (suc i))) args at = absurd (ground (arith, at))

get-Answers : Answers ends_get 1 (get "k" gets clerk).sent gets
unfolding get
get-Answers zero args at = absurd (ground (arith, at))
get-Answers (suc zero) args at = (_, refl, refl)
get-Answers (suc (suc i)) args at = absurd (ground (arith, at))

calls-HasEnded_example :
    HasEnded 3 (put_append "k" "y" "Put" puts clerk) × HasEnded 3 (get "k" gets clerk)
calls-HasEnded_example =
    calls-HasEnded "k" "y" "Put" puts gets clerk 2 1 (omega arith) (omega arith) (omega arith)
      (omega arith) put-Answers get-Answers

-- ===== src/Linearizability/Tests.antt =====
-- The model of linearizability/models.go on a short history of the service.
use golang_deep_distributed.Prelude.{◌≡◌, refl, inr, some, []}
use golang_deep_distributed.Prelude.Dict.{lookup, insert}
use golang_deep_distributed.Kv.State.{Store}
use golang_deep_distributed.Kv.Server.{value_of}
use golang_deep_distributed.Kv.Once.{apply_all, first_uses}
use golang_deep_distributed.Kv.Tests.{retried}
use golang_deep_distributed.Linearizability.KvModel.{step, init, part, partition}
use golang_deep_distributed.Linearizability.Agreement.{history, replay, partition-history}

replayed : replay init (part "k" (partition (history 0 [] (first_uses [] retried)))) ≡ some "ab"
unfolding replay partition history lookup insert step
replayed = refl

partition-history_example :
    (s : Store) × (apply_all (record { db = []; duplicate = [] }) retried ≡ some s)
    × (replay init (part "k" (partition (history 0 [] (first_uses [] retried))))
        ≡ some (value_of s.db "k"))
partition-history_example =
    partition-history "k" retried (inr (inr refl), (inr (inr refl), (inr (inr refl), tt)))

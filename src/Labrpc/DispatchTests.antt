-- ===== src/Labrpc/DispatchTests.antt =====
-- A server of labrpc/labrpc.go with one service, and a call of it over the network.
use golang_deep_distributed.Prelude.{ℕ, ◌≡◌, refl, true, false, some, List, [], ◌∷◌}
use golang_deep_distributed.Labrpc.Server.{
  Method, make_server, make_service, add_service, dispatch, split_last,
}
use golang_deep_distributed.Labrpc.Dispatch.{svc_meth}
use golang_deep_distributed.Prelude.Dict.{lookup}
use golang_deep_distributed.Labrpc.Network.{process_req, ReplyMsg}
use golang_deep_distributed.Labrpc.ClientEnd.{Codec, ReqMsg, call, returned}
use golang_deep_distributed.Labrpc.EndToEnd.{events_of, call_lem}
use golang_deep_distributed.Labrpc.Tests.{net, draws}

-- A handler that stores its argument and answers with the old one; and a method that is no handler.
abbrev swap : Method (List ℕ)
swap = record {
  name = "Swap";
  exported = true;
  num_in = 3;
  second_is_pointer = true;
  num_out = 0;
  call = λ st args. (args, st);
}

abbrev helper : Method (List ℕ)
helper = record swap { name = "helper"; exported = false }

split : split_last "pkg.Junk.Swap" ≡ some ("pkg.Junk", "Swap")
unfolding split_last
split = refl

abbrev numbers : Codec (List ℕ)
numbers = record {
  encode = λ v. v;
  decode = λ b old. some b;
  blank = [];
  decode-encode = λ v. refl;
}

call_lem_example :
    let rs = add_service (make_service "Junk" (helper ∷ swap ∷ [])) make_server in
    let sent = λ (req : ReqMsg).
      process_req req.endname net draws (events_of rs (1 ∷ []) (net ∷ []) req) net in
    (call numbers numbers 1 (svc_meth "Junk" "Swap") (7 ∷ []) [] false sent
      ≡ some (returned true (1 ∷ [])))
    × ((reply : ReplyMsg) × (dispatch rs (svc_meth "Junk" "Swap") (7 ∷ []) (1 ∷ [])
          ≡ some (reply, 7 ∷ [], record rs { count = 1 })))
unfolding lookup
call_lem_example =
    call_lem numbers numbers (λ st args. (args, st)) make_server "Junk" "Swap" (helper ∷ swap ∷ [])
      swap (1 ∷ []) (7 ∷ []) net net draws (net ∷ []) 1 7 70 refl refl (λ u v. refl) refl refl refl
      refl (refl, refl, tt) refl refl

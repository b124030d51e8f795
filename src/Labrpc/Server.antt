-- ===== src/Labrpc/Server.antt =====
-- labrpc/labrpc.go: `Server` and `Service`, which find the method that a request names.
--
-- What `reflect` says of a method is a record, and `call` stands for the call of it, with the decoding
-- of its argument and the encoding of its reply, on the state of all the receivers of a server. A
-- fatal error (`log.Fatalf`) and a panic are `none`.
use Prim.Native.Char.{code}
use Prim.Native.String.{String}
use golang_deep_distributed.Prelude.{
  ℕ, ◌+◌, Bool, true, ◌&&◌, Option, none, some, List, [], ◌∷◌, ◌==◌, if◌then◌else◌, ◌>>=◌,
}
use golang_deep_distributed.Prelude.Dict.{Dict, lookup, insert, string_eq}
use golang_deep_distributed.Labrpc.Network.{ReplyMsg}

pub record Method (S : Type 0) : Type 0 where
  pub name : String
  pub exported : Bool
  pub num_in : ℕ
  pub second_is_pointer : Bool
  pub num_out : ℕ
  pub call : S → List ℕ → S × List ℕ

pub record Service (S : Type 0) : Type 0 where
  pub name : String
  pub methods : Dict String (Method S)

pub record Server (S : Type 0) : Type 0 where
  pub services : Dict String (Service S)
  pub count : ℕ

-- The text before and after the last dot, if there is one: `strings.LastIndex` and the two slices.
-- Without a dot the first slice panics.
unfoldable pub split_last : String → Option (String × String)
split_last String.[] = none
split_last (String.◌∷◌ c s) =
    let rest = split_last s in
    elim rest [
      | some (before, after) ↦ some (String.◌∷◌ c before, after)
      | none ↦ (if code c == b'.' then some (String.[], s) else none)
    ]

module _ {S : Type 0} where
  -- The method looks like a handler.
  abbrev pub is_suitable : Method S → Bool
  is_suitable m = m.exported && (m.num_in == 3) && m.second_is_pointer && (m.num_out == 0)

  -- The loop of `MakeService` over the methods of a type.
  unfoldable pub suitable_methods :
      List (Method S) → Dict String (Method S) → Dict String (Method S)
  suitable_methods [] found = found
  suitable_methods (m ∷ ms) found =
      suitable_methods ms (if is_suitable m then insert m.name m found else found)

  unfoldable pub make_service : String → List (Method S) → Service S
  unfolding suitable_methods
  make_service name methods = record { name = name; methods = suitable_methods methods [] }

  abbrev pub make_server : Server S
  make_server = record { services = []; count = 0 }

  unfoldable pub add_service : Service S → Server S → Server S
  add_service svc rs = record rs { services = insert svc.name svc rs.services }

  unfoldable pub service_dispatch : Service S → String → List ℕ → S → Option (ReplyMsg × S)
  service_dispatch svc methname args st = lookup methname svc.methods >>= λ m.
      let (st', reply) = m.call st args in some (record { ok = true; reply = reply }, st')

  unfoldable pub dispatch : Server S → String → List ℕ → S → Option (ReplyMsg × S × Server S)
  unfolding split_last service_dispatch
  dispatch rs svc_meth args st = split_last svc_meth >>= λ (service_name, method_name).
      lookup service_name rs.services >>= λ service.
      service_dispatch service method_name args st >>= λ (reply, st').
      some (reply, st', record rs { count = rs.count + 1 })

-- ===== src/Labrpc/Dispatch.antt =====
-- A request reaches the method that it names (labrpc/labrpc.go).
use Prim.Native.Char.{code}
use Prim.Native.String.{String, ◌++◌ as str_append}
use text.Mathlib.TextLemmas.{nil-append, cons-append}
use golang_deep_distributed.Prelude.{
  ℕ, ◌+◌, ◌≡◌, refl, ap, ◌∙◌, inl, inr, Bool, true, false, ◌&&◌, ◌||◌, Option, none, some, List, [],
  ◌∷◌, arith, ◌==◌, if◌then◌else◌, Bool-cases,
}
use golang_deep_distributed.Prelude.Dict.{Dict, lookup, insert, lookup-insert, string_eq, beq_refl}
use golang_deep_distributed.Labrpc.Server.{
  Method, Server, split_last, is_suitable, suitable_methods, make_service, add_service,
  service_dispatch, dispatch,
}

-- No character of the text is a dot.
abbrev pub has_dot : String → Bool
has_dot String.[] = false
has_dot (String.◌∷◌ c s) = (code c == b'.') || has_dot s

split_last-none : (s : String) → has_dot s ≡ false → split_last s ≡ none
unfolding split_last
split_last-none String.[] h = refl
split_last-none (String.◌∷◌ c s) h = ground (arith, split_last-none s)

-- The name of a service and of a method of it, as a client writes them.
abbrev pub svc_meth : String → String → String
svc_meth service method = str_append service (str_append "." method)

split_last-svc_meth :
    (service method : String)
    → has_dot method ≡ false
    → split_last (svc_meth service method) ≡ some (service, method)
unfolding split_last
split_last-svc_meth String.[] method h =
    let dot : svc_meth "" method ≡ String.◌∷◌ "." method =
      nil-append (str_append "." method)
      ∙ cons-append "." String.[] method
      ∙ ap (String.◌∷◌ ".") (nil-append method) in
    rw dot (rw (split_last-none method h) refl)
split_last-svc_meth (String.◌∷◌ c service) method h =
    rw (cons-append c service (str_append "." method))
      (ground (arith, split_last-svc_meth service method h))

module _ {S : Type 0} where
  -- What the loop keeps of the methods: of those with a name, the last suitable one.
  abbrev pub find_method : String → List (Method S) → Option (Method S) → Option (Method S)
  find_method name [] found = found
  find_method name (m ∷ ms) found =
      find_method name ms (if is_suitable m && string_eq.beq m.name name then some m else found)

  suitable_methods-find_method :
      (name : String) (ms : List (Method S)) (found : Dict String (Method S))
      → lookup name (suitable_methods ms found) ≡ find_method name ms (lookup name found)
  unfolding suitable_methods
  suitable_methods-find_method name [] found = refl
  suitable_methods-find_method name (m ∷ ms) found = elim (Bool-cases (is_suitable m)) [
    | inl fits ↦ rw fits (
        suitable_methods-find_method name ms (insert m.name m found)
        ∙ ap (find_method name ms) (lookup-insert m.name name m found))
    | inr unfit ↦ rw unfit (suitable_methods-find_method name ms found)
  ]

  -- A request for a method of a service, by their names joined with a dot, is given to the last
  -- suitable method of that name of the type that the service was made from, whatever services the
  -- server had before: its reply is sent, and the request is counted.
  pub dispatch-add_service :
      (rs : Server S) (service method : String) (ms : List (Method S)) (m : Method S)
      (args : List ℕ) (st : S)
      → has_dot method ≡ false
      → find_method method ms none ≡ some m
      → dispatch (add_service (make_service service ms) rs) (svc_meth service method) args st
        ≡ some (
          record { ok = true; reply = (m.call st args).1 },
          (m.call st args).0,
          record (add_service (make_service service ms) rs) { count = rs.count + 1 },
        )
  unfolding dispatch add_service make_service service_dispatch lookup
  dispatch-add_service rs service method ms m args st plain found =
      let svc = make_service service ms in
      let here : lookup method (suitable_methods ms []) ≡ some m =
        suitable_methods-find_method method ms [] ∙ found in
      let known : lookup service (insert service svc rs.services) ≡ some svc =
        lookup-insert service service svc rs.services
        ∙ ground (arith, beq_refl string_eq service) in
      rw (split_last-svc_meth service method plain, known, here) refl

  -- A request whose text has no dot, or whose service the server does not know, ends the program.
  dispatch-none :
      (rs : Server S) (service method : String) (args : List ℕ) (st : S)
      → has_dot method ≡ false
      → lookup service rs.services ≡ none
      → (dispatch rs method args st ≡ none) × (dispatch rs (svc_meth service method) args st ≡ none)
  unfolding dispatch
  dispatch-none rs service method args st plain unknown = (
    rw (split_last-none method plain) refl,
    rw (split_last-svc_meth service method plain, unknown) refl,
  )

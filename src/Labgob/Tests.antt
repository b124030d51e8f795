-- ===== src/Labgob/Tests.antt =====
-- The checks of labgob/labgob.go on a type that holds itself, and on a small value.
use golang_deep_distributed.Prelude.{
  ℕ, zero, suc, ◌+◌, ◌≡◌, refl, ◌↔◌, ◌⊎◌, true, false, some, [], ◌∷◌, arith,
}
use golang_deep_distributed.Labgob.Types.{
  Shape, struct, elem_of, other, Checker, member, check_value,
}
use golang_deep_distributed.Labgob.Checked.{total, From}
use golang_deep_distributed.Labgob.Closure.{Bounded, IsClosed, check_value_iff}
use golang_deep_distributed.Labgob.Defaults.{Shown, field, end, check_default}

-- A list node: a value with a lower-case name, and a pointer to the next node.
abbrev shape : ℕ → Shape
shape zero = struct ((true, 1) ∷ (false, 2) ∷ [])
shape (suc zero) = elem_of 0
shape (suc (suc t)) = other

abbrev unused : Checker
unused = record { error_count = 0; checked = [] }

node_checked :
    check_value shape 4 0 unused ≡ some (record { error_count = 1; checked = 2 ∷ 1 ∷ 0 ∷ [] })
unfolding check_value
node_checked = refl

shape-Bounded : Bounded shape 3
shape-Bounded zero u lt m = ground arith
shape-Bounded (suc zero) u lt m = ground arith
shape-Bounded (suc (suc t)) u lt m = ground arith

check_value_iff_example :
    (st' : Checker) × (check_value shape 4 0 unused ≡ some st')
    × IsClosed shape 3 st'.checked
    × ((u : ℕ) → (member u st'.checked ≡ true) ↔ ((member u [] ≡ true) ⊎ From shape 0 u))
    × (st'.error_count + total shape 3 [] ≡ 0 + total shape 3 st'.checked)
check_value_iff_example =
    check_value_iff shape 3 4 0 unused shape-Bounded (λ u v m w. ground arith) (omega arith)
      (omega arith)

-- A reply with a field that was set before.
abbrev used_reply : Shown
used_reply = Shown.struct (field (Shown.basic true) (field (Shown.pointer (Shown.basic false)) end))

used_reply_found : check_default used_reply 0 ≡ 1
unfolding check_default
used_reply_found = refl

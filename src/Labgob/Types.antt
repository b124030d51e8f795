-- ===== src/Labgob/Types.antt =====
-- labgob/labgob.go: `checkType`, which looks for lower-case field names in a type and all that it is
-- made of.
--
-- A type is a number. What `reflect` says of a type, its kind and its parts, is a parameter, and so is
-- whether a field's name begins with an upper-case letter (`unicode.IsUpper`). A type may be made of
-- itself, so the recursion takes fuel; `none` means that it ran out. Messages are left out.
use golang_deep_distributed.Prelude.{
  ℕ, zero, suc, ◌+◌, Bool, false, ◌||◌, Option, none, some, List, [], ◌∷◌, ◌==◌, if◌then◌else◌,
  ◌>>=◌,
}

-- `reflect.Kind`, with the parts of a type: the fields of a structure, each with the test of its
-- name; the element of a slice, an array or a pointer; the element and the key of a map.
pub data Shape : Type 0 where
  struct : List (Bool × ℕ) → Shape
  elem_of : ℕ → Shape
  map_of : ℕ → ℕ → Shape
  other : Shape

-- `checked` and `errorCount`.
pub record Checker : Type 0 where
  pub error_count : ℕ
  pub checked : List ℕ

abbrev pub member : ℕ → List ℕ → Bool
member t [] = false
member t (u ∷ us) = u == t || member t us

-- The loop over the fields, with the check of a field's type.
unfoldable pub check_fields :
    (ℕ → Checker → Option Checker) → List (Bool × ℕ) → Checker → Option Checker
check_fields check [] st = some st
check_fields check ((upper, t) ∷ fields) st =
    let rest = λ (st' : Checker). check_fields check fields st' in
    check t (if upper then st else record st { error_count = st.error_count + 1 }) >>= rest

-- The `switch` on the kind.
unfoldable pub check_shape : (ℕ → Checker → Option Checker) → Shape → Checker → Option Checker
unfolding check_fields
check_shape check (struct fields) st = check_fields check fields st
check_shape check (elem_of t) st = check t st
check_shape check (map_of t key) st = check t st >>= check key
check_shape check other st = some st

module _ (shape : ℕ → Shape) where
  unfoldable pub check_type : ℕ → ℕ → Checker → Option Checker
  unfolding check_shape
  check_type zero t st = none
  check_type (suc fuel) t st =
      let rest = check_shape (check_type fuel) (shape t) (record st { checked = t ∷ st.checked }) in
      if member t st.checked then some st else rest

  -- `checkValue` and `Register`, for a value of the type.
  unfoldable pub check_value : ℕ → ℕ → Checker → Option Checker
  unfolding check_type
  check_value fuel t st = check_type fuel t st

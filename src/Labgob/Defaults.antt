-- ===== src/Labgob/Defaults.antt =====
-- labgob/labgob.go: `checkDefault`, which looks for values that are not the default in the variable
-- that is decoded into, down to a depth.
--
-- A value is a structure with its fields, a pointer, a value of a basic kind, of which only matters
-- whether it is the zero value, or a value of another kind (a slice, a map), which is not looked at.
-- The message names a field and is left out.
use golang_deep_distributed.Prelude.{ℕ, zero, suc, ◌+◌, ◌≤◌, ◌≡◌, Bool, arith, ltb, if◌then◌else◌}

mutual
  pub data Shown : Type 0 where
    struct : Fields → Shown
    nil : Shown
    pointer : Shown → Shown
    basic : Bool → Shown
    other : Shown

  pub data Fields : Type 0 where
    end : Fields
    field : Shown → Fields → Fields

-- `checkDefault1`: `errorCount` after it.
unfoldable mutual
  pub check_default1 : Shown → ℕ → ℕ → ℕ
  check_default1 (struct fs) depth errors =
      let rest = check_fields fs depth errors in if ltb 3 depth then errors else rest
  check_default1 nil depth errors = errors
  check_default1 (pointer v) depth errors =
      let rest = check_default1 v (depth + 1) errors in if ltb 3 depth then errors else rest
  check_default1 (basic is_zero) depth errors =
      if ltb 3 depth then errors else if is_zero then errors else errors + 1
  check_default1 other depth errors = errors

  pub check_fields : Fields → ℕ → ℕ → ℕ
  check_fields end depth errors = errors
  check_fields (field v fs) depth errors =
      check_fields fs depth (check_default1 v (depth + 1) errors)

-- `checkDefault` of a value that is not nil.
unfoldable pub check_default : Shown → ℕ → ℕ
unfolding check_default1
check_default v errors = check_default1 v 1 errors

-- The basic values that are not zero, at a distance below a value: a field and what a pointer points
-- to are one further.
mutual
  pub nonzero_at : Shown → ℕ → ℕ
  nonzero_at (struct fs) zero = 0
  nonzero_at (struct fs) (suc k) = nonzero_fields fs k
  nonzero_at nil k = 0
  nonzero_at (pointer v) zero = 0
  nonzero_at (pointer v) (suc k) = nonzero_at v k
  nonzero_at (basic is_zero) zero = if is_zero then 0 else 1
  nonzero_at (basic is_zero) (suc k) = 0
  nonzero_at other k = 0

  pub nonzero_fields : Fields → ℕ → ℕ
  nonzero_fields end k = 0
  nonzero_fields (field v fs) k = nonzero_at v k + nonzero_fields fs k

-- Three numbers, as far as the depth still lets one look.
abbrev in_reach : ℕ → ℕ → ℕ → ℕ → ℕ
in_reach depth a b c =
    (if ltb 3 depth then 0 else a) + (if ltb 2 depth then 0 else b) + (if ltb 1 depth then 0 else c)

mutual
  unfolding check_default1 check_fields nonzero_at nonzero_fields

  check_default1_lem :
      (v : Shown) (depth errors : ℕ)
      → 1 ≤ depth
      → check_default1 v depth errors
        ≡ errors + in_reach depth (nonzero_at v 0) (nonzero_at v 1) (nonzero_at v 2)
  check_default1_lem (struct fs) depth errors h = ground (arith, check_fields_lem fs depth errors)
  check_default1_lem nil depth errors h = ground arith
  check_default1_lem (pointer v) depth errors h =
      ground (arith, check_default1_lem v (depth + 1) errors)
  check_default1_lem (basic is_zero) depth errors h = ground arith
  check_default1_lem other depth errors h = ground arith

  check_fields_lem :
      (fs : Fields) (depth errors : ℕ)
      → 1 ≤ depth
      → check_fields fs depth errors
        ≡ errors
          + (if ltb 2 depth then 0 else nonzero_fields fs 0)
          + (if ltb 1 depth then 0 else nonzero_fields fs 1)
  check_fields_lem end depth errors h = ground arith
  check_fields_lem (field v fs) depth errors h = ground (
    arith,
    check_default1_lem v (depth + 1) errors,
    check_fields_lem fs depth (check_default1 v (depth + 1) errors),
  )

-- `checkDefault` counts exactly the basic values that are not zero and are fewer than three fields or
-- pointers away from the value; what is deeper is not looked at.
check_default_lem :
    (v : Shown) (errors : ℕ)
    → check_default v errors ≡ errors + nonzero_at v 0 + nonzero_at v 1 + nonzero_at v 2
unfolding check_default
check_default_lem v errors = ground (arith, check_default1_lem v 1 errors)

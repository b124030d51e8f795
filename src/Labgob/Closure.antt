-- ===== src/Labgob/Closure.antt =====
-- `checkType` of labgob/labgob.go ends, and looks at exactly the types that a type is made of.
use golang_deep_distributed.Prelude.{
  ℕ, zero, suc, ◌+◌, ◌<◌, ◌≡◌, sym, subst, ◌↔◌, ◌⊎◌, inl, inr, true, some, List, ◌∷◌, arith, ◌==◌,
  Bool-cases,
}
use golang_deep_distributed.Labgob.Types.{Shape, Checker, member, check_type, check_value}
use golang_deep_distributed.Labgob.Checked.{
  parts, unchecked-cons, unchecked-le_bound, total, total-cons, From, self, part, From-trans,
  Grows-self, Works, check_shape_lem,
}

module _ (shape : ℕ → Shape) (n : ℕ) where
  -- The types below the bound are made of types below the bound.
  abbrev pub Bounded : Type 0
  Bounded = (t u : ℕ) → t < n → member u (parts (shape t)) ≡ true → u < n

  check_type_lem : Bounded → (fuel : ℕ) → Works shape n fuel (check_type shape fuel)
  unfolding check_type
  check_type_lem bounded zero t st lt enough = absurd (omega arith)
  check_type_lem bounded (suc fuel) t st lt enough = elim (Bool-cases (member t st.checked)) [
    | inl old ↦ (st, ground (arith, old), Grows-self shape n (From shape t) st, old)
    | inr new ↦
        let marked : Checker = record st { checked = t ∷ st.checked } in
        let less = unchecked-cons n t st.checked lt new in
        let (st', run, g, all) =
          check_shape_lem shape n fuel (check_type shape fuel) (check_type_lem bounded fuel)
            (From shape t) (shape t) marked
            (λ u m. (bounded t u lt m, λ v. From-trans shape (part self m)))
            (omega (arith, less)) in
        (
          st',
          ground (arith, new, run),
          record {
            keeps = λ u m. g.keeps u (ground (arith, m));
            added = λ u m. elim (g.added u m) [
              | inr found ↦ inr found
              | inl before ↦ elim (Bool-cases (t == u)) [
                | inr differ ↦ inl (ground (arith, before, differ))
                | inl same ↦
                    let eq : t ≡ u = ground (arith, same) in
                    inr (
                      subst (From shape t) eq self,
                      λ v w. all v (subst (λ x. member v (parts (shape x)) ≡ true) (sym eq) w),
                    )
              ]
            ];
            counted = omega (arith, g.counted, total-cons shape n t st.checked lt new);
          },
          g.keeps t (ground arith),
        )
  ]

  -- All the parts of the types of the list are in it.
  abbrev pub IsClosed : List ℕ → Type 0
  IsClosed us =
      (u v : ℕ) → member u us ≡ true → member v (parts (shape u)) ≡ true → member v us ≡ true

  From-member :
      (us : List ℕ) {t u : ℕ}
      → IsClosed us
      → member t us ≡ true
      → From shape t u
      → member u us ≡ true
  From-member us closed here self = here
  From-member us closed here (part {u} {v} p m) = closed u v (From-member us closed here p) m

  -- Where the types are numbers below a bound, `checkValue` ends, on fuel above the bound. If the types
  -- checked before had all their parts checked, so do those checked after; these are the ones from
  -- before and all that the value's type is made of, and no others; and each type that was added had
  -- its lower-case field names counted once.
  pub check_value_iff :
      (fuel t : ℕ) (st : Checker)
      → Bounded
      → IsClosed st.checked
      → t < n
      → n < fuel
      → (st' : Checker) × (check_value shape fuel t st ≡ some st')
        × IsClosed st'.checked
        × ((u : ℕ)
            → (member u st'.checked ≡ true) ↔ ((member u st.checked ≡ true) ⊎ From shape t u))
        × (st'.error_count + total shape n st.checked ≡ st.error_count + total shape n st'.checked)
  unfolding check_value
  check_value_iff fuel t st bounded closed lt enough =
      let (st', run, g, here) =
        check_type_lem bounded fuel t st lt (omega (arith, unchecked-le_bound n st.checked)) in
      let closed' : IsClosed st'.checked = λ u v m w. elim (g.added u m) [
        | inl old ↦ g.keeps v (closed u v old w)
        | inr (p, all) ↦ all v w
      ] in
      (
        st',
        run,
        closed',
        λ u. (
          λ m. elim (g.added u m) [ inl old ↦ inl old | inr (p, all) ↦ inr p ],
          λ m. elim m [ inl old ↦ g.keeps u old | inr p ↦ From-member st'.checked closed' here p ],
        ),
        omega (arith, g.counted),
      )

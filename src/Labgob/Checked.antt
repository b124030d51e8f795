-- ===== src/Labgob/Checked.antt =====
-- One call of `checkType` of labgob/labgob.go: it ends, and what it adds to `checked`.
use golang_deep_distributed.Prelude.{
  ℕ, zero, suc, ◌+◌, ◌≤◌, ◌<◌, ◌≡◌, refl, ap, subst, ◌⊎◌, inl, inr, Bool, true, false, Option, some,
  List, [], ◌∷◌, arith, ◌==◌, if◌then◌else◌, Bool-cases, ◌>>=◌,
}
use golang_deep_distributed.Labgob.Types.{
  Shape, struct, elem_of, map_of, other, Checker, member, check_fields, check_shape,
}

-- The types that a type is made of.
abbrev pub parts_of_fields : List (Bool × ℕ) → List ℕ
parts_of_fields [] = []
parts_of_fields ((upper, t) ∷ fields) = t ∷ parts_of_fields fields

abbrev pub parts : Shape → List ℕ
parts (struct fields) = parts_of_fields fields
parts (elem_of t) = t ∷ []
parts (map_of t key) = t ∷ key ∷ []
parts other = []

-- The fields with a lower-case name.
abbrev pub lower_fields : List (Bool × ℕ) → ℕ
lower_fields [] = 0
lower_fields ((upper, t) ∷ fields) = (if upper then 0 else 1) + lower_fields fields

abbrev pub lower_names : Shape → ℕ
lower_names (struct fields) = lower_fields fields
lower_names s = 0

-- How many of the types below the bound are not in the list.
pub unchecked : ℕ → List ℕ → ℕ
unchecked zero us = 0
unchecked (suc n) us = (if member n us then 0 else 1) + unchecked n us

unchecked-le :
    (n : ℕ) (us vs : List ℕ)
    → ((u : ℕ) → member u us ≡ true → member u vs ≡ true)
    → unchecked n vs ≤ unchecked n us
unfolding unchecked
unchecked-le zero us vs h = omega arith
unchecked-le (suc n) us vs h = ground (arith, unchecked-le n us vs h, h n)

pub unchecked-le_bound : (n : ℕ) (us : List ℕ) → unchecked n us ≤ n
unfolding unchecked
unchecked-le_bound zero us = omega arith
unchecked-le_bound (suc n) us = ground (arith, unchecked-le_bound n us)

unchecked-cons_out : (n t : ℕ) (us : List ℕ) → n ≤ t → unchecked n (t ∷ us) ≡ unchecked n us
unfolding unchecked
unchecked-cons_out zero t us out = refl
unchecked-cons_out (suc n) t us out = ground (arith, unchecked-cons_out n t us)

pub unchecked-cons :
    (n t : ℕ) (us : List ℕ)
    → t < n
    → member t us ≡ false
    → unchecked n us ≡ suc (unchecked n (t ∷ us))
unfolding unchecked
unchecked-cons zero t us lt new = absurd (omega arith)
unchecked-cons (suc n) t us lt new = elim (Bool-cases (t == n)) [
  | inl last ↦
      let same : n ≡ t = ground (arith, last) in
      ground (arith, last, ap (λ i. member i us) same, unchecked-cons_out n t us)
  | inr before ↦ ground (arith, unchecked-cons n t us, before)
]

-- A list that has the head and the members of the tail has those of the whole.
member-cons :
    (t u : ℕ) (us vs : List ℕ)
    → member t vs ≡ true
    → (member u us ≡ true → member u vs ≡ true)
    → member u (t ∷ us) ≡ true
    → member u vs ≡ true
member-cons t u us vs head tail m = elim (Bool-cases (t == u)) [
  | inl same ↦ let eq : t ≡ u = ground (arith, same) in subst (λ w. member w vs ≡ true) eq head
  | inr differ ↦ tail (ground (arith, differ))
]

module _ (shape : ℕ → Shape) where
  -- The lower-case field names of the types below the bound that are in the list.
  pub total : ℕ → List ℕ → ℕ
  total zero us = 0
  total (suc n) us = (if member n us then lower_names (shape n) else 0) + total n us

  total-cons_out : (n t : ℕ) (us : List ℕ) → n ≤ t → total n (t ∷ us) ≡ total n us
  unfolding total
  total-cons_out zero t us out = refl
  total-cons_out (suc n) t us out = ground (arith, total-cons_out n t us)

  pub total-cons :
      (n t : ℕ) (us : List ℕ)
      → t < n
      → member t us ≡ false
      → total n (t ∷ us) ≡ lower_names (shape t) + total n us
  unfolding total
  total-cons zero t us lt new = absurd (omega arith)
  total-cons (suc n) t us lt new = elim (Bool-cases (t == n)) [
    | inl last ↦
        let same : n ≡ t = ground (arith, last) in
        ground (
          arith,
          last,
          ap (λ i. member i us) same,
          ap (λ i. lower_names (shape i)) same,
          total-cons_out n t us,
        )
    | inr before ↦ ground (arith, total-cons n t us, before)
  ]

  -- What a type is made of, at any depth.
  pub data From (t : ℕ) : ℕ → Type 0 where
    self : From t t
    part : {u v : ℕ} → From t u → member v (parts (shape u)) ≡ true → From t v

  pub From-trans : {t u v : ℕ} → From t u → From u v → From t v
  From-trans p self = p
  From-trans p (part q m) = part (From-trans p q) m

  -- From one state of the checker to a later one, over types with the property: what was checked
  -- stays; a type that was added has the property, and all its parts are checked; and each type added
  -- has its lower-case names counted once, with `extra` others.
  pub record Grows (n : ℕ) (P : ℕ → Type 0) (extra : ℕ) (st st' : Checker) : Type 0 where
    pub keeps : (u : ℕ) → member u st.checked ≡ true → member u st'.checked ≡ true
    pub added :
        (u : ℕ)
        → member u st'.checked ≡ true
        → (member u st.checked ≡ true)
          ⊎ (P u × ((v : ℕ) → member v (parts (shape u)) ≡ true → member v st'.checked ≡ true))
    pub counted :
        st'.error_count + total n st.checked ≡ st.error_count + extra + total n st'.checked

  pub Grows-self : (n : ℕ) (P : ℕ → Type 0) (st : Checker) → Grows n P 0 st st
  Grows-self n P st = record { keeps = λ u m. m; added = λ u m. inl m; counted = omega arith }

  Grows-trans :
      (n : ℕ) (P : ℕ → Type 0) {x y : ℕ} {a b c : Checker}
      → Grows n P x a b
      → Grows n P y b c
      → Grows n P (x + y) a c
  Grows-trans n P {x} {y} g h = record {
    keeps = λ u m. h.keeps u (g.keeps u m);
    added = λ u m. elim (h.added u m) [
      | inl old ↦ elim (g.added u old) [
        | inl older ↦ inl older
        | inr (p, all) ↦ inr (p, λ v w. h.keeps v (all v w))
      ]
      | inr new ↦ inr new
    ];
    counted = omega (arith, g.counted, h.counted);
  }

  Grows-map :
      (n : ℕ) (P Q : ℕ → Type 0) {x : ℕ} {a b : Checker}
      → ((u : ℕ) → P u → Q u)
      → Grows n P x a b
      → Grows n Q x a b
  Grows-map n P Q f g = record {
    keeps = g.keeps;
    added = λ u m. elim (g.added u m) [ inl old ↦ inl old | inr (p, all) ↦ inr (f u p, all) ];
    counted = g.counted;
  }

  -- `check` ends on every type below the bound and checks it with all that it is made of, where fewer
  -- types than `fuel` are not checked yet.
  abbrev pub Works : ℕ → ℕ → (ℕ → Checker → Option Checker) → Type 0
  Works n fuel check =
      (t : ℕ) (st : Checker)
      → t < n
      → unchecked n st.checked < fuel
      → (st' : Checker) × (check t st ≡ some st')
        × Grows n (From t) 0 st st'
        × (member t st'.checked ≡ true)

  module _ (n fuel : ℕ) (check : ℕ → Checker → Option Checker) (works : Works n fuel check)
      (P : ℕ → Type 0) where
    one_part :
        (t : ℕ) (st : Checker)
        → t < n
        → unchecked n st.checked < fuel
        → ((u : ℕ) → From t u → P u)
        → (st' : Checker) × (check t st ≡ some st')
          × Grows n P 0 st st'
          × (member t st'.checked ≡ true)
    one_part t st lt enough has =
        let (st', run, g, m) = works t st lt enough in (st', run, Grows-map n (From t) P has g, m)

    -- The fields that are left, from any state in which few enough types are not checked.
    abbrev FieldsWork : List (Bool × ℕ) → Type 0
    FieldsWork fields =
        (st : Checker)
        → unchecked n st.checked < fuel
        → (st' : Checker) × (check_fields check fields st ≡ some st')
          × Grows n P (lower_fields fields) st st'
          × ((t : ℕ) → member t (parts_of_fields fields) ≡ true → member t st'.checked ≡ true)

    -- One field, after its name was looked at, and the others.
    one_field :
        (t : ℕ) (fields : List (Bool × ℕ)) (x : ℕ) (st st₀ : Checker)
        → t < n
        → ((u : ℕ) → From t u → P u)
        → FieldsWork fields
        → Grows n P x st st₀
        → unchecked n st₀.checked < fuel
        → (st' : Checker) × ((check t st₀ >>= λ st₁. check_fields check fields st₁) ≡ some st')
          × Grows n P (x + lower_fields fields) st st'
          × ((u : ℕ) → member u (t ∷ parts_of_fields fields) ≡ true → member u st'.checked ≡ true)
    one_field t fields x st st₀ lt has work named enough =
        let (st₁, run, g, m) = one_part t st₀ lt enough has in
        let (st', run', g', all) =
          work st₁ (omega (arith, unchecked-le n st₀.checked st₁.checked g.keeps)) in
        let grown = Grows-trans n P named (Grows-trans n P g g') in
        (
          st',
          ground (arith, run, run'),
          record {
            keeps = grown.keeps;
            added = grown.added;
            counted = omega (arith, grown.counted);
          },
          λ u. member-cons t u (parts_of_fields fields) st'.checked (g'.keeps t m) (all u),
        )

    check_fields_lem :
        (fields : List (Bool × ℕ))
        → ((t : ℕ)
            → member t (parts_of_fields fields) ≡ true
            → (t < n) × ((u : ℕ) → From t u → P u))
        → FieldsWork fields
    unfolding check_fields
    check_fields_lem [] has st enough = (st, refl, Grows-self n P st, λ t m. ground arith)
    check_fields_lem ((true, t) ∷ fields) has st enough =
        let (lt, own) = has t (ground arith) in
        one_field t fields 0 st st lt own (check_fields_lem fields (λ u m. has u (ground arith)))
          (Grows-self n P st) enough
    check_fields_lem ((false, t) ∷ fields) has st enough =
        let (lt, own) = has t (ground arith) in
        let named : Checker = record st { error_count = st.error_count + 1 } in
        one_field t fields 1 st named lt own (check_fields_lem fields (λ u m. has u (ground arith)))
          (record { keeps = λ u m. m; added = λ u m. inl m; counted = omega arith }) enough

    -- All the parts of a type.
    pub check_shape_lem :
        (s : Shape) (st : Checker)
        → ((t : ℕ) → member t (parts s) ≡ true → (t < n) × ((u : ℕ) → From t u → P u))
        → unchecked n st.checked < fuel
        → (st' : Checker) × (check_shape check s st ≡ some st')
          × Grows n P (lower_names s) st st'
          × ((t : ℕ) → member t (parts s) ≡ true → member t st'.checked ≡ true)
    unfolding check_shape
    check_shape_lem (struct fields) st has enough = check_fields_lem fields has st enough
    check_shape_lem (elem_of t) st has enough =
        let (lt, own) = has t (ground arith) in
        let (st', run, g, m) = one_part t st lt enough own in
        (st', run, g, λ u. member-cons t u [] st'.checked m (λ e. ground arith))
    check_shape_lem (map_of t key) st has enough =
        let (lt, own) = has t (ground arith) in
        let (lt', own') = has key (ground arith) in
        let (st₁, run, g, m) = one_part t st lt enough own in
        let (st', run', g', m') =
          one_part key st₁ lt' (omega (arith, unchecked-le n st.checked st₁.checked g.keeps))
            own' in
        (
          st',
          ground (arith, run, run'),
          Grows-trans n P g g',
          λ u.
              member-cons t u (key ∷ []) st'.checked (g'.keeps t m)
                (member-cons key u [] st'.checked m' (λ e. ground arith)),
        )
    check_shape_lem other st has enough = (st, refl, Grows-self n P st, λ t m. ground arith)

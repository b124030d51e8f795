-- ===== src/Harness/Touched.antt =====
-- Which ends the loops of `connect` and `disconnect` in raft/config.go go through, where no two ends
-- have the same name.
use golang_deep_distributed.Prelude.{
  ℕ, zero, suc, ◌<◌, ◌≡◌, refl, sym, ◌∙◌, subst, inl, inr, Bool, true, false, ◌&&◌, Option, some,
  List, [], ◌∷◌, arith, ◌==◌, if◌then◌else◌, Bool-cases, Option-cases, length, get_elem?, set,
}
use golang_deep_distributed.Harness.Ends.{
  is_on, end_name, name_at, opens_outgoing, opens_incoming, closes_outgoing, closes_incoming,
}

pub bool_iff : (p q : Bool) → (p ≡ true → q ≡ true) → (q ≡ true → p ≡ true) → p ≡ q
bool_iff false false f g = refl
bool_iff false true f g = g refl
bool_iff true q f g = sym (f refl)

pub is_on-set :
    (connected : List Bool) (i a : ℕ) (v : Bool)
    → i < length connected
    → is_on (set connected i v) a ≡ (if i == a then v else is_on connected a)
is_on-set [] i a v lt = absurd (omega arith)
is_on-set (on ∷ connected) zero zero v lt = refl
is_on-set (on ∷ connected) zero (suc a) v lt = ground arith
is_on-set (on ∷ connected) (suc i) zero v lt = ground arith
is_on-set (on ∷ connected) (suc i) (suc a) v lt =
    is_on-set connected i a v (omega arith) ∙ ground arith

pub end_name-get_elem? :
    (endnames : List (Option (List ℕ))) (a b : ℕ) {names : List ℕ}
    → get_elem? endnames a ≡ some (some names)
    → end_name endnames a b ≡ get_elem? names b
end_name-get_elem? [] a b at = absurd (ground (arith, at))
end_name-get_elem? (e ∷ endnames) zero b at = ground (arith, at)
end_name-get_elem? (e ∷ endnames) (suc a) b at = end_name-get_elem? endnames a b at

opens_outgoing-true :
    (connected : List Bool) (names : List ℕ) (x : ℕ)
    → opens_outgoing connected names x ≡ true
    → (d : ℕ) × (is_on connected d ≡ true) × (get_elem? names d ≡ some x)
opens_outgoing-true [] names x h = absurd (ground arith)
opens_outgoing-true (on ∷ connected) [] x h = absurd (ground arith)
opens_outgoing-true (on ∷ connected) (name ∷ names) x h = elim (Bool-cases (on && name == x)) [
  | inl here ↦ (0, ground (arith, here), ground (arith, here))
  | inr not_here ↦
      let (d, up, at) = opens_outgoing-true connected names x (ground (arith, h, not_here)) in
      (suc d, up, at)
]

opens_outgoing-of :
    (connected : List Bool) (names : List ℕ) (x d : ℕ)
    → is_on connected d ≡ true
    → get_elem? names d ≡ some x
    → opens_outgoing connected names x ≡ true
opens_outgoing-of [] names x d up at = absurd (ground (arith, up))
opens_outgoing-of (on ∷ connected) [] x d up at = absurd (ground (arith, at))
opens_outgoing-of (on ∷ connected) (name ∷ names) x zero up at = ground (arith, up, at)
opens_outgoing-of (on ∷ connected) (name ∷ names) x (suc d) up at =
    ground (arith, opens_outgoing-of connected names x d up at)

opens_incoming-true :
    (i : ℕ) (connected : List Bool) (endnames : List (Option (List ℕ))) (x : ℕ)
    → opens_incoming i connected endnames x ≡ true
    → (c : ℕ) × (is_on connected c ≡ true) × (end_name endnames c i ≡ some x)
opens_incoming-true i [] endnames x h = absurd (ground arith)
opens_incoming-true i (on ∷ connected) [] x h = absurd (ground arith)
opens_incoming-true i (on ∷ connected) (e ∷ endnames) x h = elim (Option-cases (name_at e i)) [
  | inl none_there ↦
      let (c, up, at) =
        opens_incoming-true i connected endnames x (ground (arith, h, none_there)) in
      (suc c, up, at)
  | inr (name, there) ↦ elim (Bool-cases (on && name == x)) [
    | inl here ↦ (0, ground (arith, here), ground (arith, here, there))
    | inr not_here ↦
        let (c, up, at) =
          opens_incoming-true i connected endnames x (ground (arith, h, there, not_here)) in
        (suc c, up, at)
  ]
]

opens_incoming-of :
    (i : ℕ) (connected : List Bool) (endnames : List (Option (List ℕ))) (x c : ℕ)
    → is_on connected c ≡ true
    → end_name endnames c i ≡ some x
    → opens_incoming i connected endnames x ≡ true
opens_incoming-of i [] endnames x c up at = absurd (ground (arith, up))
opens_incoming-of i (on ∷ connected) [] x c up at = absurd (ground (arith, at))
opens_incoming-of i (on ∷ connected) (e ∷ endnames) x zero up at = ground (arith, up, at)
opens_incoming-of i (on ∷ connected) (e ∷ endnames) x (suc c) up at =
    ground (arith, opens_incoming-of i connected endnames x c up at)

closes_outgoing-true :
    (names : List ℕ) (x : ℕ)
    → closes_outgoing names x ≡ true
    → (d : ℕ) × (get_elem? names d ≡ some x)
closes_outgoing-true [] x h = absurd (ground arith)
closes_outgoing-true (name ∷ names) x h = elim (Bool-cases (name == x)) [
  | inl here ↦ (0, ground (arith, here))
  | inr not_here ↦
      let (d, at) = closes_outgoing-true names x (ground (arith, h, not_here)) in (suc d, at)
]

closes_outgoing-of :
    (names : List ℕ) (x d : ℕ) → get_elem? names d ≡ some x → closes_outgoing names x ≡ true
closes_outgoing-of [] x d at = absurd (ground (arith, at))
closes_outgoing-of (name ∷ names) x zero at = ground (arith, at)
closes_outgoing-of (name ∷ names) x (suc d) at = ground (arith, closes_outgoing-of names x d at)

closes_incoming-true :
    (i : ℕ) (endnames : List (Option (List ℕ))) (x : ℕ)
    → closes_incoming i endnames x ≡ true
    → (c : ℕ) × (end_name endnames c i ≡ some x)
closes_incoming-true i [] x h = absurd (ground arith)
closes_incoming-true i (e ∷ endnames) x h = elim (Option-cases (name_at e i)) [
  | inl none_there ↦
      let (c, at) = closes_incoming-true i endnames x (ground (arith, h, none_there)) in (suc c, at)
  | inr (name, there) ↦ elim (Bool-cases (name == x)) [
    | inl here ↦ (0, ground (arith, here, there))
    | inr not_here ↦
        let (c, at) = closes_incoming-true i endnames x (ground (arith, h, there, not_here)) in
        (suc c, at)
  ]
]

closes_incoming-of :
    (i : ℕ) (endnames : List (Option (List ℕ))) (x c : ℕ)
    → end_name endnames c i ≡ some x
    → closes_incoming i endnames x ≡ true
closes_incoming-of i [] x c at = absurd (ground (arith, at))
closes_incoming-of i (e ∷ endnames) x zero at = ground (arith, at)
closes_incoming-of i (e ∷ endnames) x (suc c) at =
    ground (arith, closes_incoming-of i endnames x c at)

-- No two ends have the same name.
abbrev pub AreDistinct : List (Option (List ℕ)) → Type 0
AreDistinct endnames =
    (a b c d x : ℕ)
    → end_name endnames a b ≡ some x
    → end_name endnames c d ≡ some x
    → (a ≡ c) × (b ≡ d)

module _ (endnames : List (Option (List ℕ))) (distinct : AreDistinct endnames) (i : ℕ)
    {names : List ℕ} (mine : get_elem? endnames i ≡ some (some names)) where
  pub opens_outgoing_lem :
      (connected : List Bool) (a b x : ℕ)
      → end_name endnames a b ≡ some x
      → opens_outgoing connected names x ≡ (a == i && is_on connected b)
  opens_outgoing_lem connected a b x at =
      bool_iff _ _
        (λ h.
          let (d, up, there) = opens_outgoing-true connected names x h in
          ground (arith, up, distinct a b i d x at (end_name-get_elem? endnames i d mine ∙ there)))
        (λ h.
          let same : a ≡ i = ground (arith, h) in
          opens_outgoing-of connected names x b (ground (arith, h)) (
            sym (end_name-get_elem? endnames i b mine)
            ∙ subst (λ c. end_name endnames c b ≡ some x) same at))

  pub closes_outgoing_lem :
      (a b x : ℕ) → end_name endnames a b ≡ some x → closes_outgoing names x ≡ (a == i)
  closes_outgoing_lem a b x at =
      bool_iff _ _
        (λ h.
          let (d, there) = closes_outgoing-true names x h in
          ground (arith, distinct a b i d x at (end_name-get_elem? endnames i d mine ∙ there)))
        (λ h.
          let same : a ≡ i = ground (arith, h) in
          closes_outgoing-of names x b (
            sym (end_name-get_elem? endnames i b mine)
            ∙ subst (λ c. end_name endnames c b ≡ some x) same at))

module _ (endnames : List (Option (List ℕ))) (distinct : AreDistinct endnames) (i : ℕ) where
  pub opens_incoming_lem :
      (connected : List Bool) (a b x : ℕ)
      → end_name endnames a b ≡ some x
      → opens_incoming i connected endnames x ≡ (b == i && is_on connected a)
  opens_incoming_lem connected a b x at =
      bool_iff _ _
        (λ h.
          let (c, up, there) = opens_incoming-true i connected endnames x h in
          ground (arith, up, distinct a b c i x at there))
        (λ h.
          let same : b ≡ i = ground (arith, h) in
          opens_incoming-of i connected endnames x a (ground (arith, h))
            (subst (λ d. end_name endnames a d ≡ some x) same at))

  pub closes_incoming_lem :
      (a b x : ℕ) → end_name endnames a b ≡ some x → closes_incoming i endnames x ≡ (b == i)
  closes_incoming_lem a b x at =
      bool_iff _ _
        (λ h.
          let (c, there) = closes_incoming-true i endnames x h in
          ground (arith, distinct a b c i x at there))
        (λ h.
          let same : b ≡ i = ground (arith, h) in
          closes_incoming-of i endnames x a (subst (λ d. end_name endnames a d ≡ some x) same at))

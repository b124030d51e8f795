-- ===== src/Harness/Leaders.antt =====
-- What a round of `checkOneLeader` of raft/config.go finds, if no two servers lead in one term.
use golang_deep_distributed.Prelude.{
  ℕ_discrete, ℕ, zero, suc, ◌+◌, ◌≤◌, ◌<◌, ◌≡◌, refl, ap, ◌∙◌, ◌≢◌, ◌⊎◌, inl, inr, Bool, true,
  false, ◌&&◌, Option, none, some, List, [], ◌∷◌, arith, ltb, ◌==◌, if◌then◌else◌, Bool-cases,
  Option-cases, ◌>>=◌, length, get_elem?,
}
use golang_deep_distributed.Prelude.Dict.{Dict, lookup, insert, nat_eq, lookup-insert}
use golang_deep_distributed.Raft.State.{Raft, get_state}
use golang_deep_distributed.Harness.Config.{Config}
use golang_deep_distributed.Harness.Checks.{later, last_term, collect_leaders, check_leaders}

-- Every term of the map has one leader.
abbrev Ones : Dict ℕ (List ℕ) → Type 0
Ones [] = Unit
Ones ((term, leaders) ∷ found) = (length leaders ≡ 1) × Ones found

Ones-insert :
    (term i : ℕ) (found : Dict ℕ (List ℕ)) → Ones found → Ones (insert term (i ∷ []) found)
unfolding insert
Ones-insert term i [] ones = ground arith
Ones-insert term i ((t, is) ∷ found) ones = ground (arith, ones, Ones-insert term i found ones.1)

abbrev IsUpTo : Option ℕ → ℕ → Type 0
IsUpTo last t = (m : ℕ) × (last ≡ some m) × (t ≤ m)

later_lem :
    (last : Option ℕ) (term : ℕ)
    → (m : ℕ) × (later last term ≡ some m)
      × (term ≤ m)
      × ((t : ℕ) → last ≡ some t → t ≤ m)
      × ((m ≡ term) ⊎ (last ≡ some m))
later_lem none term = (term, refl, omega arith, λ t e. ground arith, inl refl)
later_lem (some last) term = elim (Bool-cases (ltb last term)) [
  | inl lt ↦ (term, ground (arith, lt), omega arith, λ t e. ground (arith, lt), inl refl)
  | inr ge ↦ (last, ground (arith, ge), ground (arith, ge), λ t e. ground (arith, ge), inr refl)
]

-- What the loop over the terms gives: the greatest one.
last_term_lem :
    (found : Dict ℕ (List ℕ)) (last : Option ℕ)
    → Ones found
    → (last' : Option ℕ) × (last_term found last ≡ some last')
      × ((t : ℕ) → last ≡ some t → IsUpTo last' t)
      × ((t : ℕ) → lookup t found ≢ none → IsUpTo last' t)
      × ((last' ≡ last) ⊎ ((m : ℕ) × (last' ≡ some m) × (lookup m found ≢ none)))
unfolding last_term lookup
last_term_lem [] last ones =
    (last, refl, λ t e. (t, e, omega arith), λ t h. absurd (h refl), inl refl)
last_term_lem ((term, is) ∷ found) last ones =
    let (last', run, old, new, from) = last_term_lem found (later last term) ones.1 in
    let (m, is_later, above, keeps, which) = later_lem last term in
    let (m', found', le) = old m is_later in
    (
      last',
      ground (arith, ones, run),
      λ t e. (m', found', ground (arith, keeps t e, le)),
      λ t h. elim (ℕ_discrete term t) [
        | yes e ↦ (m', found', ground (arith, above, le, e))
        | no ne ↦ new t (λ missing. h (ground (arith, ne, missing)))
      ],
      elim from [
        | inr (t, e, there) ↦ inr (t, e, λ missing. there (ground (arith, missing)))
        | inl same ↦ elim which [
          | inl this ↦ inr (
            term,
            ground (arith, same, is_later, this),
            λ missing. absurd (ground (arith, missing)),
          )
          | inr old ↦ inl (ground (arith, same, is_later, old))
        ]
      ],
    )

lookup-empty :
    (found : Dict ℕ (List ℕ)) (t : ℕ) → (length found == 0) ≡ true → lookup t found ≡ none
unfolding lookup
lookup-empty [] t h = refl
lookup-empty (entry ∷ found) t h = absurd (ground (arith, h))

first_key :
    (found : Dict ℕ (List ℕ)) → (length found == 0) ≡ false → (t : ℕ) × (lookup t found ≢ none)
unfolding lookup
first_key [] h = absurd (ground (arith, h))
first_key ((t, is) ∷ found) h = (t, λ missing. ground (arith, missing))

module _ {C B : Type 0} where
  -- The term that a server leads, if it is connected and a leader.
  abbrev pub leads : List Bool → List (Option (Raft C B)) → ℕ → Option ℕ
  leads connected rafts i = get_elem? connected i >>= λ on. get_elem? rafts i >>= λ r.
      r >>= λ rf. if on && (get_state rf).1 then some (get_state rf).0 else none

  -- What the loop over the servers makes of the map, if no two servers lead in one term.
  record Collects (i : ℕ) (connected : List Bool) (rafts : List (Option (Raft C B)))
      (found found' : Dict ℕ (List ℕ)) : Type 0 where
    run : collect_leaders i connected rafts found ≡ some found'
    ones : Ones found'
    keeps : (t : ℕ) (is : List ℕ) → lookup t found ≡ some is → lookup t found' ≡ some is
    adds : (k t : ℕ) → leads connected rafts k ≡ some t → lookup t found' ≡ some ((i + k) ∷ [])
    only :
        (t : ℕ)
        → lookup t found' ≢ none
        → (lookup t found ≢ none) ⊎ ((k : ℕ) × (leads connected rafts k ≡ some t))

  adds-cons :
      (i : ℕ) (on : Bool) (connected : List Bool) (r : Option (Raft C B))
      (rafts : List (Option (Raft C B))) (found' : Dict ℕ (List ℕ))
      → ((t : ℕ) → leads (on ∷ connected) (r ∷ rafts) 0 ≡ some t → lookup t found' ≡ some (i ∷ []))
      → ((k t : ℕ) → leads connected rafts k ≡ some t → lookup t found' ≡ some ((i + 1 + k) ∷ []))
      → (k t : ℕ) → leads (on ∷ connected) (r ∷ rafts) k ≡ some t
      → lookup t found' ≡ some ((i + k) ∷ [])
  adds-cons i on connected r rafts found' first others zero t h =
      first t h ∙ ap (λ m. some (m ∷ [])) (omega arith)
  adds-cons i on connected r rafts found' first others (suc k) t h =
      others k t h ∙ ap (λ m. some (m ∷ [])) (omega arith)

  collect_leaders_lem :
      (i : ℕ) (connected : List Bool) (rafts : List (Option (Raft C B))) (found : Dict ℕ (List ℕ))
      → Ones found
      → ((k : ℕ) → k < length connected → (rf : Raft C B) × (get_elem? rafts k ≡ some (some rf)))
      → ((k m t : ℕ) → leads connected rafts k ≡ some t → leads connected rafts m ≡ some t → k ≡ m)
      → ((k t : ℕ) → leads connected rafts k ≡ some t → lookup t found ≡ none)
      → (found' : Dict ℕ (List ℕ)) × Collects i connected rafts found found'
  unfolding collect_leaders
  collect_leaders_lem i [] rafts found ones there unique fresh = (
    found,
    record {
      run = refl;
      ones = ones;
      keeps = λ t is h. h;
      adds = λ k t h. absurd (ground (arith, h));
      only = λ t h. inl h;
    },
  )
  collect_leaders_lem i (on ∷ connected) [] found ones there unique fresh =
      absurd (ground (arith, (there 0 (omega arith)).1))
  collect_leaders_lem i (on ∷ connected) (r ∷ rafts) found ones there unique fresh =
      let (rf, is_raft) = there 0 (omega arith) in
      elim (Option-cases (leads (on ∷ connected) (r ∷ rafts) 0)) [
        | inl idle ↦
            let (found', c) =
              collect_leaders_lem (i + 1) connected rafts found ones
                (λ k lt. there (suc k) (omega arith))
                (λ k m t h h'. ground (arith, unique (suc k) (suc m) t h h'))
                (λ k t h. fresh (suc k) t h) in
            (
              found',
              record {
                run = ground (arith, is_raft, idle, c.run);
                ones = c.ones;
                keeps = c.keeps;
                adds =
                    adds-cons i on connected r rafts found'
                      (λ t h. absurd (ground (arith, idle, h))) c.adds;
                only = λ t h. elim (c.only t h) [ inl old ↦ inl old | inr (k, e) ↦ inr (suc k, e) ];
              },
            )
        | inr (term, e) ↦
            let next = insert term (i ∷ []) found in
            let none_yet : lookup term found ≡ none = fresh 0 term e in
            let apart : (k t : ℕ) → leads connected rafts k ≡ some t → lookup t next ≡ none =
              λ k t h. elim (ℕ_discrete term t) [
                | yes same ↦ absurd (ground (arith, same, unique 0 (suc k) t (e ∙ ap some same) h))
                | no ne ↦
                    lookup-insert term t (i ∷ []) found ∙ ground (arith, ne, fresh (suc k) t h)
              ] in
            let (found', c) =
              collect_leaders_lem (i + 1) connected rafts next (Ones-insert term i found ones)
                (λ k lt. there (suc k) (omega arith))
                (λ k m t h h'. ground (arith, unique (suc k) (suc m) t h h'))
                (λ k t h. apart k t h) in
            (
              found',
              record {
                run = ground (arith, is_raft, e, none_yet, c.run);
                ones = c.ones;
                keeps = λ t is h.
                    c.keeps t is
                      (lookup-insert term t (i ∷ []) found ∙ ground (arith, h, none_yet));
                adds =
                    adds-cons i on connected r rafts found'
                      (λ t h.
                        c.keeps t (i ∷ [])
                          (lookup-insert term t (i ∷ []) found ∙ ground (arith, e, h)))
                      c.adds;
                only = λ t h. elim (c.only t h) [
                  | inl old ↦ elim (ℕ_discrete term t) [
                    | yes same ↦ inr (0, e ∙ ap some same)
                    | no ne ↦ inl (λ missing.
                        old (lookup-insert term t (i ∷ []) found ∙ ground (arith, ne, missing)))
                  ]
                  | inr (k, e') ↦ inr (suc k, e')
                ];
              },
            )
      ]

  -- No connected server is a leader, or this one is, and no connected leader has a later term.
  abbrev pub IsLatest : Config C B → Option ℕ → Type 0
  IsLatest cfg none = (i : ℕ) → leads cfg.connected cfg.rafts i ≡ none
  IsLatest cfg (some i) =
      (t : ℕ) × (leads cfg.connected cfg.rafts i ≡ some t)
      × ((j u : ℕ) → leads cfg.connected cfg.rafts j ≡ some u → u ≤ t)

  pub check_leaders_lem :
      (cfg : Config C B)
      → ((k : ℕ)
          → k < length cfg.connected
          → (rf : Raft C B) × (get_elem? cfg.rafts k ≡ some (some rf)))
      → ((k m t : ℕ)
          → leads cfg.connected cfg.rafts k ≡ some t
          → leads cfg.connected cfg.rafts m ≡ some t
          → k ≡ m)
      → (r : Option ℕ) × (check_leaders cfg ≡ some r) × IsLatest cfg r
  unfolding check_leaders lookup
  check_leaders_lem cfg there unique =
      let (found, c) =
        collect_leaders_lem 0 cfg.connected cfg.rafts [] tt there unique (λ k t h. refl) in
      let (last, run, old, above, from) = last_term_lem found none c.ones in
      elim (Bool-cases (length found == 0)) [
        | inl empty ↦ (
          none,
          ground (arith, c.run, run, empty),
          λ i. elim (Option-cases (leads cfg.connected cfg.rafts i)) [
            | inl e ↦ e
            | inr (t, e) ↦ absurd (ground (arith, c.adds i t e, lookup-empty found t empty))
          ],
        )
        | inr full ↦
            let (t, has) = first_key found full in
            let (m, is_m, le) = above t has in
            elim from [
              | inl never ↦ absurd (ground (arith, never, is_m))
              | inr (term, is_term, key) ↦ elim (c.only term key) [
                | inl old ↦ absurd (old refl)
                | inr (k, lead) ↦ (
                  some k,
                  ground (arith, c.run, run, full, is_term, c.adds k term lead),
                  (
                    term,
                    lead,
                    λ j u h.
                        let (v, is_v, up) =
                          above u (λ missing. absurd (ground (arith, c.adds j u h, missing))) in
                        ground (arith, is_v, is_term, up),
                  ),
                )
              ]
            ]
      ]

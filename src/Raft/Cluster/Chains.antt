-- ===== src/Raft/Cluster/Chains.antt =====
-- The logs that the leaders of a cluster of raft/raft.go had, term by term, and what they have to do with
-- the peers' logs.
use golang_deep_distributed.Prelude.{
  ℕ, zero, suc, ◌+◌, ◌-◌, ◌≤◌, ◌≡◌, refl, sym, ap, ◌∙◌, ◌≢◌, inl, inr, Option, none, some, List, [],
  ◌∷◌, ◌++◌, arith, ltb, if◌then◌else◌, Bool-cases, Option-cases, length, get_elem?, take,
  length-take, get_elem?_lt, lt_of_get_elem?,
}
use golang_deep_distributed.Raft.State.{LogEntry, AppendEntriesArgs}

-- For each term its leader, if it had one, and the log of that leader as it was last.
pub record Chains (C : Type 0) : Type 0 where
  pub owner : ℕ → Option ℕ
  pub lead : ℕ → List (LogEntry C)

module _ {C : Type 0} where
  -- Up to each of its entries a log is that of the leader of the entry's term.
  abbrev pub Certified : Chains C → List (LogEntry C) → Type 0
  Certified g xs =
      (k : ℕ) (e : LogEntry C)
      → get_elem? xs k ≡ some e
      → (m : ℕ) → m ≤ k
      → get_elem? xs m ≡ get_elem? (g.lead e.term) m

  -- A request has a part of the log of its term's leader.
  pub record Slice (g : Chains C) (args : AppendEntriesArgs C) : Type 0 where
    pub prev : LogEntry C
    pub at : get_elem? (g.lead args.term) args.prev_log_index ≡ some prev
    pub same : prev.term ≡ args.prev_log_term
    pub entries :
        (j : ℕ)
        → get_elem? args.entries j ≢ none
        → get_elem? (g.lead args.term) (args.prev_log_index + 1 + j) ≡ get_elem? args.entries j

  -- The leaders' logs only get longer.
  abbrev pub Extends : Chains C → Chains C → Type 0
  Extends g g' =
      (t j : ℕ) → get_elem? (g.lead t) j ≢ none → get_elem? (g'.lead t) j ≡ get_elem? (g.lead t) j

  get_elem?_before :
      (xs : List (LogEntry C)) (k m : ℕ) {e : LogEntry C}
      → get_elem? xs k ≡ some e
      → m ≤ k
      → get_elem? xs m ≢ none
  get_elem?_before xs k m at le missing =
      let (x, there) = get_elem?_lt xs m (omega (arith, lt_of_get_elem? xs k at, le)) in
      absurd (ground (arith, there, missing))

  pub Certified-Extends :
      (g g' : Chains C) (xs : List (LogEntry C)) → Extends g g' → Certified g xs → Certified g' xs
  Certified-Extends g g' xs ext c k e at m le =
      let old = c k e at m le in
      old ∙ sym (ext e.term m (λ missing. get_elem?_before xs k m at le (old ∙ missing)))

  pub Slice-Extends :
      (g g' : Chains C) (args : AppendEntriesArgs C) → Extends g g' → Slice g args → Slice g' args
  Slice-Extends g g' args ext s = record {
    prev = s.prev;
    at = ext args.term args.prev_log_index (λ missing. ground (arith, s.at, missing)) ∙ s.at;
    same = s.same;
    entries = λ j there.
        ext args.term (args.prev_log_index + 1 + j)
          (λ missing. there (sym (s.entries j there) ∙ missing))
        ∙ s.entries j there;
  }

  -- A log that is a prefix of a certified one is certified.
  Certified-prefix :
      (g : Chains C) (xs ys : List (LogEntry C))
      → Certified g ys
      → ((k : ℕ) → get_elem? xs k ≢ none → get_elem? xs k ≡ get_elem? ys k)
      → Certified g xs
  Certified-prefix g xs ys c prefix k e at m le =
      prefix m (get_elem?_before xs k m at le)
      ∙ c k e (sym (prefix k (λ missing. ground (arith, at, missing))) ∙ at) m le

  pub get_elem?-append :
      (xs ys : List (LogEntry C)) (k : ℕ)
      → get_elem? (xs ++ ys) k
        ≡ (if ltb k (length xs) then get_elem? xs k else get_elem? ys (k - length xs))
  get_elem?-append [] ys k = ground arith
  get_elem?-append (x ∷ xs) ys zero = ground arith
  get_elem?-append (x ∷ xs) ys (suc k) = get_elem?-append xs ys k ∙ ground arith

  pub get_elem?-inside :
      (xs ys : List (LogEntry C)) (k : ℕ)
      → get_elem? xs k ≢ none
      → get_elem? (xs ++ ys) k ≡ get_elem? xs k
  get_elem?-inside [] ys k there = absurd (there refl)
  get_elem?-inside (x ∷ xs) ys zero there = refl
  get_elem?-inside (x ∷ xs) ys (suc k) there = get_elem?-inside xs ys k there

  get_elem?-last :
      (xs : List (LogEntry C)) (x : LogEntry C) (k : ℕ)
      → get_elem? xs k ≡ none
      → get_elem? (xs ++ x ∷ []) k ≢ none
      → get_elem? (xs ++ x ∷ []) k ≡ some x
  get_elem?-last [] x zero out there = refl
  get_elem?-last [] x (suc k) out there = absurd (there refl)
  get_elem?-last (y ∷ xs) x zero out there = absurd (ground (arith, out))
  get_elem?-last (y ∷ xs) x (suc k) out there = get_elem?-last xs x k out there

  -- A log stays certified with an entry more if it is then the log of that entry's leader.
  pub Certified-snoc :
      (g : Chains C) (xs : List (LogEntry C)) (x : LogEntry C)
      → Certified g xs
      → g.lead x.term ≡ xs ++ x ∷ []
      → Certified g (xs ++ x ∷ [])
  Certified-snoc g xs x c lead k e at m le = elim (Option-cases (get_elem? xs k)) [
    | inl out ↦
        let is : x ≡ e =
          ground (arith, at, get_elem?-last xs x k out (λ missing. ground (arith, at, missing))) in
        ap (λ ys. get_elem? ys m) (sym lead) ∙ ap (λ y. get_elem? (g.lead y.term) m) is
    | inr (y, inside) ↦
        let is : y ≡ e = ground (
          arith,
          at,
          inside,
          get_elem?-inside xs (x ∷ []) k (λ missing. ground (arith, inside, missing)),
        ) in
        get_elem?-inside xs (x ∷ []) m (get_elem?_before xs k m inside le)
        ∙ c k e (inside ∙ ap some is) m le
  ]

  get_elem?-take :
      (n : ℕ) (xs : List (LogEntry C)) (k : ℕ)
      → get_elem? (take n xs) k ≡ (if ltb k n then get_elem? xs k else none)
  get_elem?-take zero xs k = ground arith
  get_elem?-take (suc n) [] k = ground arith
  get_elem?-take (suc n) (x ∷ xs) zero = ground arith
  get_elem?-take (suc n) (x ∷ xs) (suc k) = ground (arith, get_elem?-take n xs k)

  -- The log that a peer has after it took over a request.
  pub Certified-Slice :
      (g : Chains C) (logs : List (LogEntry C)) (args : AppendEntriesArgs C) (prev : LogEntry C)
      → Certified g logs
      → ((t : ℕ) → Certified g (g.lead t))
      → Slice g args
      → get_elem? logs args.prev_log_index ≡ some prev
      → prev.term ≡ args.prev_log_term
      → Certified g (take (args.prev_log_index + 1) logs ++ args.entries)
  Certified-Slice g logs args prev c chained s at same =
      let kept = take (args.prev_log_index + 1) logs in
      let len : length kept ≡ args.prev_log_index + 1 = ground (
        arith,
        length-take (args.prev_log_index + 1) logs,
        lt_of_get_elem? logs args.prev_log_index at,
      ) in
      Certified-prefix g (kept ++ args.entries) (g.lead args.term) (chained args.term) (λ k there.
        let look = get_elem?-append kept args.entries k in
        elim (Bool-cases (ltb k (args.prev_log_index + 1))) [
          | inl before ↦
              let here : get_elem? (kept ++ args.entries) k ≡ get_elem? logs k =
                ground
                  (arith, look, len, before, get_elem?-take (args.prev_log_index + 1) logs k) in
              let le : k ≤ args.prev_log_index = ground (arith, before) in
              here
              ∙ c args.prev_log_index prev at k le
              ∙ ap (λ t. get_elem? (g.lead t) k) (same ∙ sym s.same)
              ∙ sym (chained args.term args.prev_log_index s.prev s.at k le)
          | inr after ↦
              let here : get_elem? (kept ++ args.entries) k
                  ≡ get_elem? args.entries (k - length kept) =
                ground (arith, look, len, after) in
              let shift : args.prev_log_index + 1 + (k - length kept) ≡ k =
                ground (arith, len, after) in
              here
              ∙ sym (s.entries (k - length kept) (λ missing. there (here ∙ missing)))
              ∙ ap (get_elem? (g.lead args.term)) shift
        ])

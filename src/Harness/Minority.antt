-- ===== src/Harness/Minority.antt =====
-- The parts that `make_partition` of kvraft/config.go makes: the leader is in the smaller one.
use golang_deep_distributed.Prelude.{
  ℕ_discrete, length-set, get_elem?-set_self, ℕ, zero, suc, ◌+◌, ◌-◌, ◌/◌, ◌%◌, ◌≤◌, ◌<◌, ◌≡◌, refl,
  sym, ap, ◌∙◌, subst, inl, inr, true, not, some, List, [], ◌∷◌, arith, ltb, leb, ◌==◌,
  if◌then◌else◌, Bool-cases, length, get_elem?, set, replicate, length-set, length-replicate,
  lt_of_get_elem?, get_elem?-set_self, get_elem?-set_ne, replicate,
}
use golang_deep_distributed.Harness.KvConfig.{part_server, part_servers, partition_around}
use golang_deep_distributed.Harness.Links.{is_in, AreBelow}

-- The servers but the leader, in order: the one at a position.
abbrev pub beside : ℕ → ℕ → ℕ
beside l k = if ltb k l then k else k + 1

-- The first `j` positions of the two parts together have the servers but the leader, in order.
pub record IsFilled (l j len1 len2 : ℕ) (p1 p2 : List ℕ) : Type 0 where
  pub size1 : length p1 ≡ len1
  pub size2 : length p2 ≡ len2
  pub front : (k : ℕ) → k < j → k < len1 → get_elem? p1 k ≡ some (beside l k)
  pub back : (k : ℕ) → len1 + k < j → k < len2 → get_elem? p2 k ≡ some (beside l (len1 + k))

part_server-IsFilled :
    (l i j len1 len2 : ℕ) (p1 p2 : List ℕ)
    → IsFilled l j len1 len2 p1 p2
    → j ≡ (if leb i l then i else i - 1)
    → j < len1 + len2
    → (r : ℕ × List ℕ × List ℕ) × (part_server l i j p1 p2 ≡ some r)
      × IsFilled l r.0 len1 len2 r.1 r.2
      × (r.0 ≡ (if leb (i + 1) l then i + 1 else i))
unfolding part_server
part_server-IsFilled l i j len1 len2 p1 p2 f at inside = elim (Bool-cases (i == l)) [
  | inl mine ↦ ((j, p1, p2), ground (arith, mine), f, ground (arith, mine, at))
  | inr other ↦
      let is : beside l j ≡ i = ground (arith, other, at) in
      elim (Bool-cases (ltb j len1)) [
        | inl first ↦ (
          (j + 1, set p1 j i, p2),
          ground (arith, other, first, f.size1),
          record {
            size1 = length-set p1 j i ∙ f.size1;
            size2 = f.size2;
            front = λ k lt below. elim (ℕ_discrete j k) [
              | yes e ↦
                  subst (λ u. get_elem? (set p1 j i) u ≡ some (beside l u)) e
                    (get_elem?-set_self p1 j i (ground (arith, first, f.size1)) ∙ ap some (sym is))
              | no ne ↦ get_elem?-set_ne p1 j k i ne ∙ f.front k (ground (arith, lt, ne)) below
            ];
            back = λ k lt below. f.back k (ground (arith, lt, first)) below;
          },
          ground (arith, other, at),
        )
        | inr second ↦ (
          (j + 1, p1, set p2 (j - length p1) i),
          ground (arith, other, second, f.size1, f.size2, inside),
          record {
            size1 = f.size1;
            size2 = length-set p2 (j - length p1) i ∙ f.size2;
            front = λ k lt below. f.front k (ground (arith, below, second)) below;
            back = λ k lt below. elim (ℕ_discrete (j - length p1) k) [
              | yes e ↦
                  let there : len1 + k ≡ j = ground (arith, e, second, f.size1) in
                  subst (λ u. get_elem? (set p2 (j - length p1) i) u ≡ some (beside l (len1 + k))) e
                    (get_elem?-set_self p2 (j - length p1) i
                        (ground (arith, second, f.size1, f.size2, inside))
                      ∙ ap some (sym is ∙ ap (beside l) (sym there)))
              | no ne ↦
                  get_elem?-set_ne p2 (j - length p1) k i ne
                  ∙ f.back k (ground (arith, lt, ne, f.size1)) below
            ];
          },
          ground (arith, other, at),
        )
      ]
]

part_servers-IsFilled :
    (l i left j len1 len2 : ℕ) (p1 p2 : List ℕ)
    → IsFilled l j len1 len2 p1 p2
    → j ≡ (if leb i l then i else i - 1)
    → l < i + left
    → i + left ≤ len1 + len2
    → (r : List ℕ × List ℕ) × (part_servers l i left j p1 p2 ≡ some r)
      × IsFilled l (i + left - 1) len1 len2 r.0 r.1
unfolding part_servers
part_servers-IsFilled l i zero j len1 len2 p1 p2 f at past fits =
    let is : j ≡ i + 0 - 1 = ground (arith, at, past) in
    ((p1, p2), refl, subst (λ u. IsFilled l u len1 len2 p1 p2) is f)
part_servers-IsFilled l i (suc left) j len1 len2 p1 p2 f at past fits =
    let ((j', q1, q2), run, f', at') =
      part_server-IsFilled l i j len1 len2 p1 p2 f at (ground (arith, at, fits)) in
    let (r, runs, f'') =
      part_servers-IsFilled l (i + 1) left j' len1 len2 q1 q2 f' (ground (arith, at'))
        (omega (arith, past)) (omega (arith, fits)) in
    let is : i + 1 + left - 1 ≡ i + suc left - 1 = omega arith in
    (r, ground (arith, run, runs), subst (λ u. IsFilled l u len1 len2 r.0 r.1) is f'')

is_in-at : (a k : ℕ) (xs : List ℕ) → get_elem? xs k ≡ some a → is_in a xs ≡ true
is_in-at a k [] at = absurd (ground (arith, at))
is_in-at a zero (x ∷ xs) at = ground (arith, at)
is_in-at a (suc k) (x ∷ xs) at = ground (arith, is_in-at a k xs at)

at-is_in : (a : ℕ) (xs : List ℕ) → is_in a xs ≡ true → (k : ℕ) × (get_elem? xs k ≡ some a)
at-is_in a [] there = absurd (ground (arith, there))
at-is_in a (x ∷ xs) there = elim (Bool-cases (x == a)) [
  | inl this ↦ (0, ground (arith, this))
  | inr other ↦ let (k, at) = at-is_in a xs (ground (arith, other, there)) in (suc k, at)
]

all-AreBelow : (n : ℕ) (xs : List ℕ) → ((k x : ℕ) → get_elem? xs k ≡ some x → x < n) → AreBelow n xs
all-AreBelow n [] below = tt
all-AreBelow n (x ∷ xs) below = (below 0 x refl, all-AreBelow n xs (λ k. below (suc k)))

-- Each server is in one of the parts, the leader in the second, which has one server less.
pub record IsSplit (n l : ℕ) (p1 p2 : List ℕ) : Type 0 where
  pub size1 : length p1 ≡ n / 2 + 1
  pub size2 : length p2 ≡ n / 2
  pub sides : (a : ℕ) → a < n → is_in a p1 ≡ not (is_in a p2)
  pub leads : is_in l p2 ≡ true
  pub below1 : AreBelow n p1
  pub below2 : AreBelow n p2

-- What the parts have at each position.
record IsParted (n l : ℕ) (p1 p2 : List ℕ) : Type 0 where
  size1 : length p1 ≡ n / 2 + 1
  size2 : length p2 ≡ n / 2
  front : (k : ℕ) → k < n / 2 + 1 → get_elem? p1 k ≡ some (beside l k)
  back : (k : ℕ) → k + 1 < n / 2 → get_elem? p2 k ≡ some (beside l (n / 2 + 1 + k))
  last : get_elem? p2 (n / 2 - 1) ≡ some l

IsParted-IsSplit :
    (n l : ℕ) (p1 p2 : List ℕ) → n % 2 ≡ 1 → 1 < n → l < n → IsParted n l p1 p2 → IsSplit n l p1 p2
IsParted-IsSplit n l p1 p2 odd more lt p =
    let place1 : (k x : ℕ) → get_elem? p1 k ≡ some x → (k < n / 2 + 1) × (x ≡ beside l k) =
      λ k x at.
        let inside : k < n / 2 + 1 = omega (arith, lt_of_get_elem? p1 k at, p.size1) in
        (inside, ground (arith, at, p.front k inside)) in
    let place2 : (k x : ℕ)
        → get_elem? p2 k ≡ some x
        → (k < n / 2) × (x ≡ (if k + 1 == n / 2 then l else beside l (n / 2 + 1 + k))) =
      λ k x at.
        let inside : k < n / 2 = omega (arith, lt_of_get_elem? p2 k at, p.size2) in
        elim (ℕ_discrete (n / 2 - 1) k) [
          | yes e ↦
              (inside, ground (arith, at, subst (λ u. get_elem? p2 u ≡ some l) e p.last, e, inside))
          | no ne ↦ (inside, ground (arith, at, p.back k, ne, inside))
        ] in
    record {
      size1 = p.size1;
      size2 = p.size2;
      sides = λ a below. elim (Bool-cases (is_in a p1)) [
        | inl one ↦ elim (Bool-cases (is_in a p2)) [
          | inr two ↦ ground (arith, one, two)
          | inl both ↦
              let (k, at) = at-is_in a p1 one in
              let (m, at') = at-is_in a p2 both in
              absurd (ground (arith, place1 k a at, place2 m a at'))
        ]
        | inr one ↦ elim (ℕ_discrete l a) [
          | yes e ↦
              ground
                (arith, one, subst (λ u. is_in u p2 ≡ true) e (is_in-at l (n / 2 - 1) p2 p.last))
          | no ne ↦
              let k = if ltb a l then a else a - 1 in
              let is : beside l k ≡ a = ground (arith, ne) in
              elim (Bool-cases (ltb k (n / 2 + 1))) [
                | inl first ↦ absurd (
                    ground (
                      arith,
                      one,
                      is_in-at a k p1 (p.front k (ground (arith, first)) ∙ ap some is),
                    ))
                | inr second ↦
                    let m = k - (n / 2 + 1) in
                    let there : n / 2 + 1 + m ≡ k = ground (arith, second) in
                    let inside : m + 1 < n / 2 = ground (arith, second, odd, more, below, ne, lt) in
                    ground (
                      arith,
                      one,
                      is_in-at a m p2
                          (p.back m inside ∙ ap (λ u. some (beside l u)) there ∙ ap some is),
                    )
              ]
        ]
      ];
      leads = is_in-at l (n / 2 - 1) p2 p.last;
      below1 = all-AreBelow n p1 (λ k x at. ground (arith, place1 k x at, odd, more));
      below2 = all-AreBelow n p2 (λ k x at. ground (arith, place2 k x at, odd, more, lt));
    }

-- Where the number of servers is odd and not one, `make_partition` splits them, and the leader is in the
-- smaller part.
pub partition_around-IsSplit :
    (n l : ℕ)
    → n % 2 ≡ 1
    → 1 < n
    → l < n
    → (r : List ℕ × List ℕ) × (partition_around n l ≡ some r) × IsSplit n l r.0 r.1
unfolding partition_around
partition_around-IsSplit n l odd more lt =
    let len1 = n / 2 + 1 in
    let len2 = n / 2 in
    let start : IsFilled l 0 len1 len2 (replicate len1 0) (replicate len2 0) = record {
      size1 = length-replicate len1 0;
      size2 = length-replicate len2 0;
      front = λ k lt' below. absurd (omega (arith, lt'));
      back = λ k lt' below. absurd (omega (arith, lt'));
    } in
    let ((p1, q2), run, f) =
      part_servers-IsFilled l 0 n 0 len1 len2 (replicate len1 0) (replicate len2 0) start
        (ground arith) (omega (arith, lt)) (omega (arith, odd)) in
    let p2 = set q2 (length q2 - 1) l in
    let many : 0 < len2 = omega (arith, more) in
    (
      (p1, p2),
      ground (arith, run, f.size2, many),
      IsParted-IsSplit n l p1 p2 odd more lt (record {
        size1 = f.size1;
        size2 = length-set q2 (length q2 - 1) l ∙ f.size2;
        front = λ k inside. f.front k (omega (arith, inside, more, odd)) inside;
        back = λ k inside.
            get_elem?-set_ne q2 (length q2 - 1) k l (λ e. omega (arith, e, inside, f.size2))
            ∙ f.back k (omega (arith, inside, odd)) (omega (arith, inside));
        last =
            ap (λ u. get_elem? p2 (u - 1)) (sym f.size2)
            ∙ get_elem?-set_self q2 (length q2 - 1) l (omega (arith, f.size2, many));
      }),
    )

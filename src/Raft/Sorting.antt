-- ===== src/Raft/Sorting.antt =====
-- `sort.Ints` as raft/raft.go uses it: the sort gives an ascending list, in which as many numbers reach a
-- bound as before, and a position in that list is told by how many do.
use golang_deep_distributed.Prelude.{
  ℕ, zero, suc, ◌+◌, ◌≤◌, ◌<◌, ◌≡◌, refl, inl, inr, some, List, [], ◌∷◌, arith, leb, if◌then◌else◌,
  Bool-cases, length, get_elem?, leb→le,
}
use golang_deep_distributed.Raft.Leader.{insert_sorted, sort_ints}

-- How many of the numbers reach the bound.
abbrev pub count_ge : ℕ → List ℕ → ℕ
count_ge t [] = 0
count_ge t (x ∷ xs) = (if leb t x then 1 else 0) + count_ge t xs

abbrev pub AllGe : ℕ → List ℕ → Type 0
AllGe low [] = Unit
AllGe low (x ∷ xs) = (low ≤ x) × AllGe low xs

abbrev pub IsSorted : List ℕ → Type 0
IsSorted [] = Unit
IsSorted (x ∷ xs) = AllGe x xs × IsSorted xs

AllGe-le : (low high : ℕ) (xs : List ℕ) → low ≤ high → AllGe high xs → AllGe low xs
AllGe-le low high [] h g = tt
AllGe-le low high (x ∷ xs) h g = (omega arith, AllGe-le low high xs h g.1)

AllGe-insert_sorted :
    (low x : ℕ) (xs : List ℕ) → low ≤ x → AllGe low xs → AllGe low (insert_sorted x xs)
unfolding insert_sorted
AllGe-insert_sorted low x [] h g = (h, tt)
AllGe-insert_sorted low x (y ∷ ys) h g = ground (arith, AllGe-insert_sorted low x ys)

insert_sorted-IsSorted : (x : ℕ) (xs : List ℕ) → IsSorted xs → IsSorted (insert_sorted x xs)
unfolding insert_sorted
insert_sorted-IsSorted x [] s = (tt, tt)
insert_sorted-IsSorted x (y ∷ ys) s =
    ground (arith, insert_sorted-IsSorted x ys, AllGe-insert_sorted y x ys, AllGe-le x y ys)

pub sort_ints-IsSorted : (xs : List ℕ) → IsSorted (sort_ints xs)
unfolding sort_ints
sort_ints-IsSorted [] = tt
sort_ints-IsSorted (x ∷ xs) = insert_sorted-IsSorted x (sort_ints xs) (sort_ints-IsSorted xs)

count_ge-insert_sorted :
    (t x : ℕ) (xs : List ℕ) → count_ge t (insert_sorted x xs) ≡ count_ge t (x ∷ xs)
unfolding insert_sorted
count_ge-insert_sorted t x [] = refl
count_ge-insert_sorted t x (y ∷ ys) = ground (arith, count_ge-insert_sorted t x ys)

pub count_ge-sort_ints : (t : ℕ) (xs : List ℕ) → count_ge t (sort_ints xs) ≡ count_ge t xs
unfolding sort_ints
count_ge-sort_ints t [] = refl
count_ge-sort_ints t (x ∷ xs) =
    omega (arith, count_ge-insert_sorted t x (sort_ints xs), count_ge-sort_ints t xs)

length-insert_sorted : (x : ℕ) (xs : List ℕ) → length (insert_sorted x xs) ≡ suc (length xs)
unfolding insert_sorted
length-insert_sorted x [] = refl
length-insert_sorted x (y ∷ ys) = ground (arith, length-insert_sorted x ys)

pub length-sort_ints : (xs : List ℕ) → length (sort_ints xs) ≡ length xs
unfolding sort_ints
length-sort_ints [] = refl
length-sort_ints (x ∷ xs) =
    omega (arith, length-insert_sorted x (sort_ints xs), length-sort_ints xs)

count_ge-AllGe : (t : ℕ) (xs : List ℕ) → AllGe t xs → count_ge t xs ≡ length xs
count_ge-AllGe t [] g = refl
count_ge-AllGe t (x ∷ xs) g = ground (arith, count_ge-AllGe t xs)

-- In a sorted list all numbers from a position on reach the one that stands there.
pub count_ge-sorted :
    (xs : List ℕ) (k : ℕ) {t : ℕ}
    → IsSorted xs
    → get_elem? xs k ≡ some t
    → length xs ≤ k + count_ge t xs
count_ge-sorted [] k s h = omega arith
count_ge-sorted (x ∷ xs) zero {t} s h = ground (arith, count_ge-AllGe t xs, AllGe-le t x xs)
count_ge-sorted (x ∷ xs) (suc k) {t} s h = ground (arith, count_ge-sorted xs k {t = t} s.1 h)

count_ge-le : (low high : ℕ) (xs : List ℕ) → low ≤ high → count_ge high xs ≤ count_ge low xs
count_ge-le low high [] h = omega arith
count_ge-le low high (x ∷ xs) h = ground (arith, h, count_ge-le low high xs h)

count_ge_le_length : (t : ℕ) (xs : List ℕ) → count_ge t xs ≤ length xs
count_ge_le_length t [] = omega arith
count_ge_le_length t (x ∷ xs) = ground (arith, count_ge_le_length t xs)

-- A number that stands in the list makes the difference between its bound and the next one.
pub count_ge-occurs :
    (xs : List ℕ) (m : ℕ) {t : ℕ} → get_elem? xs m ≡ some t → count_ge (suc t) xs < count_ge t xs
count_ge-occurs [] m h = absurd (ground (arith, h))
count_ge-occurs (x ∷ xs) zero {t} h = ground (arith, h, count_ge-le t (suc t) xs (omega arith))
count_ge-occurs (x ∷ xs) (suc m) {t} h = ground (arith, count_ge-occurs xs m {t = t} h)

-- In a sorted list the position of a number that stands in it is told by how many reach the number.
pub get_elem?-sorted :
    (xs : List ℕ) (k t : ℕ)
    → IsSorted xs
    → k + count_ge t xs ≡ length xs
    → count_ge (suc t) xs < count_ge t xs
    → get_elem? xs k ≡ some t
get_elem?-sorted [] k t s e lt = absurd (omega (arith, lt))
get_elem?-sorted (x ∷ xs) zero t s e lt = elim (Bool-cases (leb t x)) [
  | inl le ↦ elim (Bool-cases (leb (suc t) x)) [
    | inl above ↦ absurd (
        ground (
          arith,
          e,
          lt,
          le,
          above,
          count_ge-AllGe (suc t) xs (AllGe-le (suc t) x xs (leb→le (suc t) x above) s.0),
          count_ge-AllGe t xs (AllGe-le t x xs (leb→le t x le) s.0),
        ))
    | inr equal ↦ ground (arith, le, equal)
  ]
  | inr below ↦ absurd (ground (arith, e, below, count_ge_le_length t xs))
]
get_elem?-sorted (x ∷ xs) (suc k) t s e lt = elim (Bool-cases (leb t x)) [
  | inl le ↦
      absurd (ground (arith, e, le, count_ge-AllGe t xs (AllGe-le t x xs (leb→le t x le) s.0)))
  | inr below ↦ get_elem?-sorted xs k t s.1 (ground (arith, e, below)) (ground (arith, lt, below))
]

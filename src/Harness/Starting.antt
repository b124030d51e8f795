-- ===== src/Harness/Starting.antt =====
-- What `start1` of raft/config.go keeps: new ends under names that no end had before.
use golang_deep_distributed.Prelude.{
  ℕ_discrete, ℕ, zero, suc, ◌+◌, ◌<◌, ◌≡◌, refl, sym, ap, ◌∙◌, subst, ◌≢◌, inl, inr, Bool, true,
  false, not, ◌&&◌, ◌||◌, Option, none, some, List, [], ◌∷◌, map, arith, ◌==◌, if◌then◌else◌,
  Bool-cases, Option-cases, length, get_elem?, set,
}
use golang_deep_distributed.Prelude.Dict.{lookup, insert, nat_eq, lookup-insert}
use golang_deep_distributed.Labrpc.Network.{Network, flag_at}
use golang_deep_distributed.Harness.Servers.{make_ends}
use golang_deep_distributed.Harness.Ends.{is_on, end_name}
use golang_deep_distributed.Harness.Touched.{AreDistinct}

abbrev pub first : ℕ × ℕ → ℕ
first (name, pointer) = name

abbrev pub has : List (ℕ × ℕ) → ℕ → Bool
has [] x = false
has ((name, pointer) ∷ names) x = name == x || has names x

has-of :
    (names : List (ℕ × ℕ)) (b x : ℕ) → get_elem? (map first names) b ≡ some x → has names x ≡ true
has-of [] b x at = absurd (ground (arith, at))
has-of ((name, pointer) ∷ names) zero x at = ground (arith, at)
has-of ((name, pointer) ∷ names) (suc b) x at = ground (arith, has-of names b x at)

-- The network after the ends were made: their names were new, and differ from each other.
pub record Makes (names : List (ℕ × ℕ)) (rn rn' : Network) : Type 0 where
  absent : (x : ℕ) → has names x ≡ true → lookup x rn.ends ≡ none
  keeps : (x : ℕ) → lookup x rn.ends ≢ none → lookup x rn'.ends ≢ none
  adds : (x : ℕ) → has names x ≡ true → lookup x rn'.ends ≢ none
  pub flags : (x : ℕ) → flag_at x rn'.enabled ≡ (not (has names x) && flag_at x rn.enabled)
  pub differ :
      (b d x : ℕ)
      → get_elem? (map first names) b ≡ some x
      → get_elem? (map first names) d ≡ some x
      → b ≡ d

differ-cons :
    (name : ℕ) (names : List ℕ)
    → ((b d x : ℕ) → get_elem? names b ≡ some x → get_elem? names d ≡ some x → b ≡ d)
    → ((d : ℕ) → get_elem? names d ≢ some name)
    → (b d x : ℕ) → get_elem? (name ∷ names) b ≡ some x
    → get_elem? (name ∷ names) d ≡ some x
    → b ≡ d
differ-cons name names differ apart zero zero x h h' = refl
differ-cons name names differ apart zero (suc d) x h h' = absurd (apart d (h' ∙ sym h))
differ-cons name names differ apart (suc b) zero x h h' = absurd (apart b (h ∙ sym h'))
differ-cons name names differ apart (suc b) (suc d) x h h' = ap suc (differ b d x h h')

pub make_ends-Makes :
    (j : ℕ) (names : List (ℕ × ℕ)) (rn rn' : Network)
    → make_ends j names rn ≡ some rn'
    → Makes names rn rn'
unfolding make_ends
make_ends-Makes j [] rn rn' h =
    let same : rn ≡ rn' = ground (arith, h) in
    subst (Makes [] rn) same (record {
      absent = λ x h. absurd (ground arith);
      keeps = λ x h. h;
      adds = λ x h. absurd (ground arith);
      flags = λ x. refl;
      differ = λ b d x h h'. absurd (ground arith);
    })
make_ends-Makes j ((name, pointer) ∷ names) rn rn' h = elim (Option-cases (lookup name rn.ends)) [
  | inr (old, e) ↦ absurd (ground (arith, e, h))
  | inl e ↦
      let next : Network = record rn {
        ends = insert name pointer rn.ends;
        enabled = insert name false rn.enabled;
        connections = insert name (some j) (insert name none rn.connections);
      } in
      let m : Makes names next rn' =
        make_ends-Makes (j + 1) names next rn' (ground (arith, e, h)) in
      let ends : (x : ℕ)
          → lookup x next.ends ≡ (if name == x then some pointer else lookup x rn.ends) =
        λ x. lookup-insert name x pointer rn.ends in
      record {
        absent = λ x h. ground (arith, ends x, m.absent x, e);
        keeps = λ x h. m.keeps x (λ missing. ground (arith, ends x, missing, h));
        adds = λ x h. elim (Bool-cases (name == x)) [
          | inl this ↦ m.keeps x (λ missing. ground (arith, ends x, missing, this))
          | inr other ↦ m.adds x (ground (arith, h, other))
        ];
        flags = λ x. ground (arith, m.flags x, lookup-insert name x false rn.enabled);
        differ =
            differ-cons name (map first names) m.differ
              (λ d at. ground (arith, m.absent name (has-of names d name at), ends name));
      }
]

end_name-set :
    (endnames : List (Option (List ℕ))) (i a b : ℕ) (names : List ℕ)
    → i < length endnames
    → end_name (set endnames i (some names)) a b
      ≡ (if i == a then get_elem? names b else end_name endnames a b)
end_name-set [] i a b names lt = absurd (omega arith)
end_name-set (e ∷ endnames) zero zero b names lt = refl
end_name-set (e ∷ endnames) zero (suc a) b names lt = ground arith
end_name-set (e ∷ endnames) (suc i) zero b names lt = ground arith
end_name-set (e ∷ endnames) (suc i) (suc a) b names lt =
    end_name-set endnames i a b names (omega arith) ∙ ground arith

-- Every name in use is the name of an end of the network.
abbrev pub AreMade : List (Option (List ℕ)) → Network → Type 0
AreMade endnames rn = (a b x : ℕ) → end_name endnames a b ≡ some x → lookup x rn.ends ≢ none

pub distinct-set :
    (endnames : List (Option (List ℕ))) (i : ℕ) (names : List (ℕ × ℕ)) (rn rn' : Network)
    → i < length endnames
    → AreDistinct endnames
    → AreMade endnames rn
    → Makes names rn rn'
    → AreDistinct (set endnames i (some (map first names)))
distinct-set endnames i names rn rn' lt distinct made m a b c d x h h' =
    let at = end_name-set endnames i a b (map first names) lt in
    let at' = end_name-set endnames i c d (map first names) lt in
    elim (ℕ_discrete i a) [
      | yes e ↦ elim (ℕ_discrete i c) [
        | yes e' ↦
            (sym e ∙ e', m.differ b d x (ground (arith, at, h, e)) (ground (arith, at', h', e')))
        | no ne' ↦ absurd (
            made c d x (ground (arith, at', h', ne'))
              (m.absent x (has-of names b x (ground (arith, at, h, e)))))
      ]
      | no ne ↦ elim (ℕ_discrete i c) [
        | yes e' ↦ absurd (
            made a b x (ground (arith, at, h, ne))
              (m.absent x (has-of names d x (ground (arith, at', h', e')))))
        | no ne' ↦ distinct a b c d x (ground (arith, at, h, ne)) (ground (arith, at', h', ne'))
      ]
    ]

pub made-set :
    (endnames : List (Option (List ℕ))) (i : ℕ) (names : List (ℕ × ℕ)) (rn rn' : Network)
    → i < length endnames
    → AreMade endnames rn
    → Makes names rn rn'
    → AreMade (set endnames i (some (map first names))) rn'
made-set endnames i names rn rn' lt made m a b x h =
    let at = end_name-set endnames i a b (map first names) lt in
    elim (ℕ_discrete i a) [
      | yes e ↦ m.adds x (has-of names b x (ground (arith, at, h, e)))
      | no ne ↦ m.keeps x (made a b x (ground (arith, at, h, ne)))
    ]

-- A server that is not connected gets new ends: they are disabled, and the old ones are as they were.
pub wired-set :
    (endnames : List (Option (List ℕ))) (connected : List Bool) (i : ℕ) (names : List (ℕ × ℕ))
    (rn rn' : Network)
    → i < length endnames
    → is_on connected i ≡ false
    → AreMade endnames rn
    → Makes names rn rn'
    → ((a b x : ℕ)
        → end_name endnames a b ≡ some x
        → flag_at x rn.enabled ≡ (is_on connected a && is_on connected b))
    → (a b x : ℕ) → end_name (set endnames i (some (map first names))) a b ≡ some x
    → flag_at x rn'.enabled ≡ (is_on connected a && is_on connected b)
wired-set endnames connected i names rn rn' lt off made m wired a b x h =
    let at = end_name-set endnames i a b (map first names) lt in
    elim (ℕ_discrete i a) [
      | yes e ↦
          let off' : is_on connected a ≡ false = subst (λ k. is_on connected k ≡ false) e off in
          ground (arith, m.flags x, has-of names b x (ground (arith, at, h, e)), off')
      | no ne ↦
          let old : end_name endnames a b ≡ some x = ground (arith, at, h, ne) in
          elim (Bool-cases (has names x)) [
            | inl new ↦ absurd (made a b x old (m.absent x new))
            | inr kept ↦ ground (arith, m.flags x, kept, wired a b x old)
          ]
    ]

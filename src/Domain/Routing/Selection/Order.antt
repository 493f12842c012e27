-- ===== src/Domain/Routing/Selection/Order.antt =====
-- The order of the candidates of `resolve_selected`, src/domain/routing.rs.
use my_ai_gateway.Prelude.{
  ℕ, ◌≤◌, ◌<◌, ◌≡◌, ◌⊎◌, Bool, true, false, not, List, [], ◌∷◌, All, leb, inl, inr, Bool-cases,
  arith, if◌then◌else◌,
}
use my_ai_gateway.Domain.Routing.Selection.{Ranked, bit, key_le, insert_key, sort_by_key}

-- `x` comes before `y`: by its key, and at equal keys by its place in the configuration.
abbrev pub comes_before : Ranked → Ranked → Bool
comes_before x y = if key_le x y then (if key_le y x then leb x.index y.index else true) else false

-- The order as a disjunction of comparisons, for the arithmetic.
abbrev Precedes : ℕ → ℕ → ℕ → ℕ → ℕ → ℕ → ℕ → ℕ → Type 0
Precedes a b c d a' b' c' d' =
    (a < a') ⊎ ((a ≡ a') × ((b' < b) ⊎ ((b ≡ b') × ((c < c') ⊎ ((c ≡ c') × (d ≤ d'))))))

Precedes-trans :
    (a b c d a' b' c' d' a'' b'' c'' d'' : ℕ)
    → Precedes a b c d a' b' c' d'
    → Precedes a' b' c' d' a'' b'' c'' d''
    → Precedes a b c d a'' b'' c'' d''
Precedes-trans a b c d a' b' c' d' a'' b'' c'' d'' h k = grind arith

abbrev pub IsBefore : Ranked → Ranked → Type 0
IsBefore x y =
    Precedes (bit (not x.exact)) x.specificity x.mode_rank x.index (bit (not y.exact)) y.specificity
      y.mode_rank y.index

pub of_comes_before : (x y : Ranked) → comes_before x y ≡ true → IsBefore x y
of_comes_before x y h = ground arith

to_comes_before : (x y : Ranked) → IsBefore x y → comes_before x y ≡ true
to_comes_before x y h = ground arith

comes_before_trans :
    (x y z : Ranked) → comes_before x y ≡ true → comes_before y z ≡ true → comes_before x z ≡ true
comes_before_trans x y z h k =
    to_comes_before x z
      (Precedes-trans _ _ _ _ _ _ _ _ _ _ _ _ (of_comes_before x y h) (of_comes_before y z k))

comes_before_of_key_le :
    (x y : Ranked) → key_le x y ≡ true → x.index ≤ y.index → comes_before x y ≡ true
comes_before_of_key_le x y h k = ground arith

comes_before_of_not_key_le : (x y : Ranked) → key_le x y ≡ false → comes_before y x ≡ true
comes_before_of_not_key_le x y h = ground arith

abbrev pub IsSorted : List Ranked → Type 0
IsSorted [] = Unit
IsSorted (x ∷ xs) = All (λ y. comes_before x y ≡ true) xs × IsSorted xs

-- What holds of all holds after sorting, and the other way round.
module _ {ℓ} (P : Ranked → Type ℓ) where
  pub All-insert_key : (x : Ranked) (ys : List Ranked) → P x → All P ys → All P (insert_key x ys)
  unfolding insert_key
  All-insert_key x [] p h = (p, tt)
  All-insert_key x (y ∷ ys) p h = elim (Bool-cases (key_le x y)) [
    | inl t ↦ rw t (p, h)
    | inr f ↦ rw f (h.0, All-insert_key x ys p h.1)
  ]

  pub All-sort_by_key : (xs : List Ranked) → All P xs → All P (sort_by_key xs)
  unfolding sort_by_key
  All-sort_by_key [] h = h
  All-sort_by_key (x ∷ xs) h = All-insert_key x (sort_by_key xs) h.0 (All-sort_by_key xs h.1)

  All-of_insert_key : (x : Ranked) (ys : List Ranked) → All P (insert_key x ys) → P x × All P ys
  unfolding insert_key
  All-of_insert_key x [] h = h
  All-of_insert_key x (y ∷ ys) h = elim (Bool-cases (key_le x y)) [
    | inl t ↦ rw t at h
    | inr f ↦
        let h' : P y × All P (insert_key x ys) = rw f at h in
        let (px, rest) = All-of_insert_key x ys h'.1 in (px, (h'.0, rest))
  ]

  pub All-of_sort_by_key : (xs : List Ranked) → All P (sort_by_key xs) → All P xs
  unfolding sort_by_key
  All-of_sort_by_key [] h = h
  All-of_sort_by_key (x ∷ xs) h =
      let (p, rest) = All-of_insert_key x (sort_by_key xs) h in (p, All-of_sort_by_key xs rest)

All-before :
    (x y : Ranked) (ys : List Ranked)
    → comes_before x y ≡ true
    → All (λ z. comes_before y z ≡ true) ys
    → All (λ z. comes_before x z ≡ true) ys
All-before x y [] h k = tt
All-before x y (z ∷ zs) h k = (comes_before_trans x y z h k.0, All-before x y zs h k.1)

insert_key-IsSorted :
    (x : Ranked) (ys : List Ranked)
    → All (λ y. x.index ≤ y.index) ys
    → IsSorted ys
    → IsSorted (insert_key x ys)
unfolding insert_key
insert_key-IsSorted x [] h s = (tt, tt)
insert_key-IsSorted x (y ∷ ys) h s = elim (Bool-cases (key_le x y)) [
  | inl t ↦ let b = comes_before_of_key_le x y t h.0 in rw t ((b, All-before x y ys b s.0), s)
  | inr f ↦ rw f (
    All-insert_key (λ z. comes_before y z ≡ true) x ys (comes_before_of_not_key_le x y f) s.0,
    insert_key-IsSorted x ys h.1 s.1,
  )
]

-- The candidates keep the order of the configuration.
abbrev pub IsIncreasing : List Ranked → Type 0
IsIncreasing [] = Unit
IsIncreasing (x ∷ xs) = All (λ y. x.index ≤ y.index) xs × IsIncreasing xs

pub sort_by_key-IsSorted : (xs : List Ranked) → IsIncreasing xs → IsSorted (sort_by_key xs)
unfolding sort_by_key
sort_by_key-IsSorted [] h = tt
sort_by_key-IsSorted (x ∷ xs) h =
    insert_key-IsSorted x (sort_by_key xs) (All-sort_by_key (λ y. x.index ≤ y.index) xs h.0)
      (sort_by_key-IsSorted xs h.1)

-- ===== src/Names/Unique.antt =====
-- unique_name_provider_base.go: names that are unique within a run.
-- `decimal` is what `fmt` prints for "%d". The loop takes fuel, for one name more than there are.
use text.Mathlib.TextLemmas.{append_cancel_left, append-nil, cons-ne-nil, cons-append}
use steampipe.Prelude.{
  String, ℕ, List, suc, ◌≡◌, Bool, ◌∷◌, true, ◌==◌, ◌<◌, Option, arith, any, if◌then◌else◌, length,
  false, ◌≤◌, zero, none, ◌∙◌, ◌≢◌, ◌+◌, string_eq, [], Bool-cases, some, sym, inl, refl, eq_of_==,
  inr, eqb, ap, eqb_iff,
}
use steampipe.Prelude.Text.{◌+++◌}

abbrev pub contains : String → List String → Bool
contains name names = any (λ (x : String). x == name) names

abbrev remove_name : String → List String → List String
remove_name k [] = []
remove_name k (x ∷ xs) = if x == k then xs else x ∷ remove_name k xs

length-remove_name :
    (k : String) (xs : List String)
    → contains k xs ≡ true
    → length (remove_name k xs) + 1 ≡ length xs
length-remove_name k [] h = cc
length-remove_name k (x ∷ xs) h = ground (arith, length-remove_name k xs)

contains-remove_name :
    (k j : String) (xs : List String)
    → (k == j) ≡ false
    → contains j xs ≡ true
    → contains j (remove_name k xs) ≡ true
contains-remove_name k j [] other h = cc
contains-remove_name k j (x ∷ xs) other h = ground (arith, contains-remove_name k j xs other)

-- Names that are all different and all in a list are no more than it has.
pub pigeonhole :
    (n : ℕ) (f : ℕ → String) (xs : List String)
    → ((i j : ℕ) → f i ≡ f j → i ≡ j)
    → ((i : ℕ) → i < n → contains (f i) xs ≡ true)
    → n ≤ length xs
pigeonhole zero f xs inj all = omega arith
pigeonhole (suc n) f xs inj all =
    let fewer =
      pigeonhole n f (remove_name (f n) xs) inj
        (λ i lt. contains-remove_name (f n) (f i) xs (differ i lt) (all i (omega arith))) in
    omega (arith, fewer, length-remove_name (f n) xs (all n (omega arith)))
  where
    differ : (i : ℕ) → i < n → (f n == f i) ≡ false
    differ i lt = elim (Bool-cases (f n == f i)) [
      | inl e ↦ absurd (omega (arith, inj n i (eq_of_== (f n) (f i) e)))
      | inr e ↦ e
    ]

module _ (decimal : ℕ → String) where
  -- The name for a suffix; none for 0.
  unfoldable pub candidate : String → ℕ → String
  candidate name zero = name
  candidate name (suc suffix) = name +++ "_" +++ decimal (suc suffix)

  -- The loop, and the name map after it.
  unfoldable pub unique_from : ℕ → List String → String → ℕ → Option (String × List String)
  unfolding candidate
  unique_from zero names name suffix = none
  unique_from (suc fuel) names name suffix =
      let rest = unique_from fuel names name (suffix + 1) in
      if contains (candidate name suffix) names
      then rest
      else some (candidate name suffix, candidate name suffix ∷ names)

  unfoldable pub get_unique_name : List String → String → Option (String × List String)
  unfolding unique_from
  get_unique_name names name = unique_from (length names + 1) names name 0

  module _ (decimal-inj : (m n : ℕ) → decimal m ≡ decimal n → m ≡ n) where
    append_self : (s t : String) → s +++ t ≡ s → t ≡ String.[]
    append_self s t h = append_cancel_left s t String.[] (h ∙ sym (append-nil s))

    suffix-ne-nil : (t : String) → "_" +++ t ≢ ""
    suffix-ne-nil t h = cons-ne-nil "_" (String.[] +++ t) (sym (cons-append "_" String.[] t) ∙ h)

    candidate-inj : (name : String) (m n : ℕ) → candidate name m ≡ candidate name n → m ≡ n
    unfolding candidate
    candidate-inj name zero zero h = refl
    candidate-inj name zero (suc n) h =
        absurd (suffix-ne-nil (decimal (suc n)) (append_self name _ (sym h)))
    candidate-inj name (suc m) zero h =
        absurd (suffix-ne-nil (decimal (suc m)) (append_self name _ h))
    candidate-inj name (suc m) (suc n) h =
        decimal-inj (suc m) (suc n) (append_cancel_left "_" _ _ (append_cancel_left name _ _ h))

    -- All names with suffixes from `low` to `high` are taken.
    abbrev pub TakenFrom : List String → String → ℕ → ℕ → Type 0
    TakenFrom names name low high =
        (i : ℕ) → low ≤ i → i < high → contains (candidate name i) names ≡ true

    -- The loop stops at the first name that is free, or all names that it tried are taken.
    Found : ℕ → List String → String → ℕ → Option (String × List String) → Type 0
    Found fuel names name suffix none = TakenFrom names name suffix (suffix + fuel)
    Found fuel names name suffix (some (unique, names')) =
        (n : ℕ) × (unique ≡ candidate name n)
        × (contains unique names ≡ false)
        × (names' ≡ unique ∷ names)
        × TakenFrom names name suffix n

    one_more :
        (names : List String) (name : String) (low high : ℕ)
        → contains (candidate name low) names ≡ true
        → TakenFrom names name (low + 1) high
        → TakenFrom names name low high
    one_more names name low high first later i ge lt = elim (Bool-cases (eqb low i)) [
      | inl e ↦
          ap (λ (k : ℕ). contains (candidate name k) names) (sym ((eqb_iff low i).0 e)) ∙ first
      | inr e ↦ later i (ground arith) lt
    ]

    Found-suc :
        (fuel : ℕ) (names : List String) (name : String) (suffix : ℕ)
        (r : Option (String × List String))
        → contains (candidate name suffix) names ≡ true
        → Found fuel names name (suffix + 1) r
        → Found (suc fuel) names name suffix r
    unfolding Found
    Found-suc fuel names name suffix none first later =
        one_more names name suffix (suffix + suc fuel) first (λ i ge lt. later i ge (omega arith))
    Found-suc fuel names name suffix (some (unique, names')) first (n, is, free, grown, later) =
        (n, is, free, grown, one_more names name suffix n first later)

    unique_from-Found :
        (fuel : ℕ) (names : List String) (name : String) (suffix : ℕ)
        → Found fuel names name suffix (unique_from fuel names name suffix)
    unfolding unique_from Found
    unique_from-Found zero names name suffix = λ i ge lt. absurd (omega arith)
    unique_from-Found (suc fuel) names name suffix =
        elim (Bool-cases (contains (candidate name suffix) names)) [
          | inl taken ↦ rw taken (
              Found-suc fuel names name suffix (unique_from fuel names name (suffix + 1)) taken
                (unique_from-Found fuel names name (suffix + 1)))
          | inr free ↦ rw free (suffix, refl, free, refl, λ i ge lt. absurd (omega arith))
        ]

    Found-first :
        (names : List String) (name : String) (r : Option (String × List String))
        → Found (length names + 1) names name 0 r
        → (n : ℕ) × (r ≡ some (candidate name n, candidate name n ∷ names))
          × (contains (candidate name n) names ≡ false)
          × TakenFrom names name 0 n
    unfolding Found
    Found-first names name none taken = absurd (
        omega (
          arith,
          pigeonhole (length names + 1) (candidate name) names (candidate-inj name)
              (λ i lt. taken i (omega arith) (omega arith)),
        ))
    Found-first names name (some (unique, names')) (n, is, free, grown, taken) =
        (n, rw (grown, is), ap (λ (u : String). contains u names) (sym is) ∙ free, taken)

    -- `GetUniqueName` ends after at most one round more than there are names: it returns the first of
    -- the name, the name with "_1", with "_2" and so on that is not yet taken, and adds it to the names.
    pub get_unique_name-first :
        (names : List String) (name : String)
        → (n : ℕ) × (get_unique_name names name ≡ some (candidate name n, candidate name n ∷ names))
          × (contains (candidate name n) names ≡ false)
          × TakenFrom names name 0 n
    unfolding get_unique_name
    get_unique_name-first names name =
        Found-first names name (unique_from (length names + 1) names name 0)
          (unique_from-Found (length names + 1) names name 0)

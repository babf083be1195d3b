-- ===== src/Query/History/Push.antt =====
-- query/queryhistory/history.go: one call of `Push` as an operation on the last entries of a log.
use steampipe.Query.History.{history_size, peek, push, trimmed, same_as}
use steampipe.Prelude.{
  [], ◌∷◌, ℕ, String, List, drop, ◌≡◌, length, arith, Bool-cases, if◌then◌else◌, ◌++◌, ◌-◌, ◌∙◌,
  ◌||◌, leb, ◌<◌, inl, ◌≤◌, sym, drop-append, ◌+◌, ap, length-append, inr, drop_at, drop-drop,
  last?, length-drop, drop-nil, last?-drop,
}
use steampipe.Prelude.Text.{blank, trim_space-empty}

-- The last `n` elements of a list.
abbrev pub last_n {ℓ} : {A : Type ℓ} → ℕ → List A → List A
last_n n xs = drop (length xs - n) xs

abbrev pub push_end : List String → String → List String
push_end xs query = xs ++ query ∷ []

pub trimmed-append :
    (xs : List String) (query : String)
    → push_end (trimmed xs) query ≡ last_n history_size (push_end xs query)
trimmed-append xs query =
    let count = length-append xs (query ∷ []) in
    elim (Bool-cases (leb history_size (length xs))) [
      | inl full ↦ rw full (
          let fits : history_size ≤ length xs = ground arith in
          sym (drop-append (length xs - history_size + 1) xs (query ∷ []) (omega arith))
          ∙ drop_at (length xs - history_size + 1) (length (push_end xs query) - history_size) _
              (omega arith))
      | inr room ↦ rw room (
          let small : length xs < history_size = ground arith in
          drop_at 0 (length (push_end xs query) - history_size) (push_end xs query) (omega arith))
    ]

last_n-push_end :
    (n : ℕ) (xs : List String) (query : String)
    → 0 < n
    → last_n n (push_end (last_n n xs) query) ≡ last_n n (push_end xs query)
last_n-push_end n xs query h =
    let k = length xs - n in
    let kept = push_end (drop k xs) query in
    let count = length-append xs (query ∷ []) in
    let kept_count = length-append (drop k xs) (query ∷ []) in
    ap (drop (length kept - n)) (sym (drop-append k xs (query ∷ []) (omega arith)))
    ∙ drop-drop (length kept - n) k (push_end xs query)
    ∙ drop_at (k + (length kept - n)) (length (push_end xs query) - n) (push_end xs query)
        (omega (arith, length-drop k xs))

last?-last_n : (n : ℕ) (xs : List String) → 0 < n → last? (last_n n xs) ≡ last? xs
last?-last_n n [] h = ap last? (drop-nil (0 - n))
last?-last_n n (x ∷ xs) h = last?-drop (length (x ∷ xs) - n) (x ∷ xs) (omega arith)

-- One query, on a history that holds the last entries of `xs`.
pub push_lem :
    (xs : List String) (query : String)
    → (push (record { history = last_n history_size xs }) query).history ≡ (
        if blank query || same_as (last? xs) query
        then last_n history_size xs
        else last_n history_size (push_end xs query))
unfolding push peek
push_lem xs query =
    let here : 0 < history_size = omega arith in
    rw (trim_space-empty query, last?-last_n history_size xs here)
      (ground (
        arith,
        trimmed-append (last_n history_size xs) query,
        last_n-push_end history_size xs query here,
      ))

pub last_n-all : (n : ℕ) (xs : List String) → length xs ≤ n → last_n n xs ≡ xs
last_n-all n xs h = drop_at (length xs - n) 0 xs (omega arith)

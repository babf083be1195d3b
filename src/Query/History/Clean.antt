-- ===== src/Query/History/Clean.antt =====
-- query/queryhistory/history.go: the invariant of the history.
use steampipe.Query.History.{QueryHistory, history_size, push, same_as}
use steampipe.Prelude.{
  [], ◌∷◌, ℕ, String, Option, List, drop, ◌≡◌, some, length, arith, Bool-cases, ◌-◌, ◌∙◌, ◌||◌, inl,
  ◌≤◌, sym, ap, inr, last?, length-drop, ◌≢◌, suc, All, false, subst, ne_of_==, All-drop,
  All-append, zero, none, string_eq,
}
use steampipe.Prelude.Text.{blank}
use mathlib.Core.Option.{some-injective}
use steampipe.Query.History.Push.{push_end, last_n, last_n-all, push_lem}

-- No entry is blank, and no entry repeats the one before it.
abbrev NoRepeat : List String → Type 0
NoRepeat [] = Unit
NoRepeat (x ∷ []) = Unit
NoRepeat (x ∷ y ∷ xs) = (x ≢ y) × NoRepeat (y ∷ xs)

NoRepeat-tail : (x : String) (xs : List String) → NoRepeat (x ∷ xs) → NoRepeat xs
NoRepeat-tail x [] h = tt
NoRepeat-tail x (y ∷ xs) h = h.1

NoRepeat-drop : (n : ℕ) (xs : List String) → NoRepeat xs → NoRepeat (drop n xs)
NoRepeat-drop zero xs h = h
NoRepeat-drop (suc n) [] h = tt
NoRepeat-drop (suc n) (x ∷ xs) h = NoRepeat-drop n xs (NoRepeat-tail x xs h)

NoRepeat-push_end :
    (xs : List String) (query : String)
    → NoRepeat xs
    → last? xs ≢ some query
    → NoRepeat (push_end xs query)
NoRepeat-push_end [] query h d = tt
NoRepeat-push_end (x ∷ []) query h d = (λ e. d (ap some e), tt)
NoRepeat-push_end (x ∷ y ∷ xs) query h d = (h.0, NoRepeat-push_end (y ∷ xs) query h.1 d)

pub record IsClean (q : QueryHistory) : Type 0 where
  pub no_blank : All (λ s. blank s ≡ false) q.history
  pub no_repeat : NoRepeat q.history
  pub within : length q.history ≤ history_size

differs : (o : Option String) (query : String) → same_as o query ≡ false → o ≢ some query
differs none query h = λ e. cc
differs (some last_element) query h = λ e. ne_of_== last_element query h (some-injective _ _ e)

IsClean-push_end :
    (xs : List String) (query : String)
    → All (λ s. blank s ≡ false) xs
    → NoRepeat xs
    → (blank query || same_as (last? xs) query) ≡ false
    → IsClean (record { history = last_n history_size (push_end xs query) })
IsClean-push_end xs query nb nr h =
    let all = push_end xs query in
    let n = length all - history_size in
    record {
      no_blank = All-drop _ n all (All-append _ xs (query ∷ []) nb (ground arith, tt));
      no_repeat =
          NoRepeat-drop n all
            (NoRepeat-push_end xs query nr (differs (last? xs) query (ground arith)));
      within = omega (arith, length-drop n all);
    }

-- A push keeps a history without blank entries, without an entry that repeats the one before it,
-- and within the size limit.
pub push-IsClean : (q : QueryHistory) (query : String) → IsClean q → IsClean (push q query)
push-IsClean q query c =
    let whole = last_n-all history_size q.history c.within in
    let step = push_lem q.history query in
    elim (Bool-cases (blank query || same_as (last? q.history) query)) [
      | inl skipped ↦
          subst (λ h. IsClean (record { history = h })) {x = q.history}
            (sym (
              ap (λ (h : List String). (push (record { history = h }) query).history) (sym whole)
              ∙ step
              ∙ rw (skipped, whole)))
            c
      | inr stored ↦
          subst (λ h. IsClean (record { history = h }))
            {x = last_n history_size (push_end q.history query)}
            (sym (
              ap (λ (h : List String). (push (record { history = h }) query).history) (sym whole)
              ∙ step
              ∙ rw stored))
            (IsClean-push_end q.history query c.no_blank c.no_repeat stored)
    ]

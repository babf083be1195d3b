-- ===== src/Connections/Aggregator/Matches.antt =====
-- What the names of an aggregator connection match.
use mathlib.Core.Option.{some-injective}
use steampipe.Connections.Updates.Settled.{Entries}
use steampipe.Prelude.{
  eq_of_==, [], ◌∷◌, ◌≡◌, some, true, false, inl, inr, arith, refl, String, List, Bool, All, any,
  ◌==◌, ==_refl, ◌⊎◌, string_eq, Bool-cases, Option-cases, sym, if◌then◌else◌, ◌∙◌, subst, ap, not,
  none, ◌&&◌, Option,
}
use steampipe.Connections.Aggregator.{
  Children, match_each, populate_each, is_aggregator, is_matched,
}
use steampipe.Connections.{Connection}
use steampipe.Prelude.Dict.{Dict, lookup, insert, NodupKeys, lookup-insert, insert-NodupKeys}
use steampipe.Prelude.Options.{is_some}

any_at :
    (f : String → Bool) (p : String) (names : List String)
    → any (λ x. x == p) names ≡ true
    → f p ≡ true
    → any f names ≡ true
any_at f p [] asked h = cc
any_at f p (x ∷ names) asked h = elim (Bool-cases (x == p)) [
  | inl same ↦ ground (arith, ap f (eq_of_== x p same) ∙ h)
  | inr other ↦ ground (arith, any_at f p names (ground (arith, asked, other)) h)
]

module _ (matches : String → String → Bool) (plugin : String)
    (connection_map : Dict String Connection) where
  -- Does a name that is no connection of the map match `n`?
  abbrev pub is_wildcard_of : String → String → Bool
  is_wildcard_of n x = not (is_some (lookup x connection_map)) && matches x n

  -- Each child is a connection of the map, under its name; one that no name asks for is matched by
  -- a wildcard, is of the aggregator's plugin and is no aggregator.
  abbrev pub IsChild : List String → String → Connection → Type 0
  IsChild names n child =
      (lookup n connection_map ≡ some child)
      × ((any (λ x. x == n) names ≡ true)
          ⊎ ((child.plugin ≡ plugin)
              × (is_aggregator matches child ≡ false)
              × (any (is_wildcard_of n) names ≡ true)))

  abbrev pub AreChildren : List String → Children → Type 0
  AreChildren names children =
      (n : String) (child : Connection) → lookup n children ≡ some child → IsChild names n child

  insert-AreChildren :
      (names : List String) (k : String) (c : Connection) (children : Children)
      → IsChild names k c
      → AreChildren names children
      → AreChildren names (insert k c children)
  insert-AreChildren names k c children h hs n child e = elim (Bool-cases (k == n)) [
    | inl same ↦
        let own : c ≡ child =
          some-injective _ _ (sym (lookup-insert n k c children ∙ rw same refl) ∙ e) in
        subst (IsChild names n) own (subst (λ x. IsChild names x c) (eq_of_== k n same) h)
    | inr other ↦ hs n child (sym (lookup-insert n k c children ∙ rw other refl) ∙ e)
  ]

  match_each-AreChildren :
      (names : List String) (pattern : String) (connections : Dict String Connection)
      (children : Children)
      → any (λ x. x == pattern) names ≡ true
      → lookup pattern connection_map ≡ none
      → Entries (λ n c. lookup n connection_map ≡ some c) connections
      → AreChildren names children
      → AreChildren names (match_each matches pattern plugin connections children)
  unfolding match_each
  match_each-AreChildren names pattern [] children ask wild h hs = hs
  match_each-AreChildren names pattern ((n, c) ∷ connections) children ask wild (h, rest) hs =
      elim (Bool-cases (is_matched matches pattern plugin n c children)) [
        | inl matched ↦
            rw (matched, match_each)
              (match_each-AreChildren names pattern connections (insert n c children) ask wild rest
                (insert-AreChildren names n c children
                  (
                    h,
                    inr (
                      ground (arith, matched),
                      ground (arith, matched),
                      any_at (is_wildcard_of n) pattern names ask (ground (arith, matched, wild)),
                    ),
                  )
                  hs))
        | inr left_out ↦
            rw (left_out, match_each)
              (match_each-AreChildren names pattern connections children ask wild rest hs)
      ]

  pub populate_each-AreChildren :
      (all_names names : List String) (children : Children)
      → Entries (λ n c. lookup n connection_map ≡ some c) connection_map
      → All (λ n. any (λ x. x == n) all_names ≡ true) names
      → AreChildren all_names children
      → AreChildren all_names (populate_each matches plugin connection_map names children)
  unfolding populate_each
  populate_each-AreChildren all_names [] children h asked hs = hs
  populate_each-AreChildren all_names (n ∷ names) children h (ask, asked) hs =
      elim (Option-cases (lookup n connection_map)) [
        | inl wildcard ↦
            rw (wildcard, populate_each)
              (populate_each-AreChildren all_names names
                (match_each matches n plugin connection_map children) h asked
                (match_each-AreChildren all_names n connection_map children ask wildcard h hs))
        | inr (c, found) ↦
            rw (found, populate_each)
              (populate_each-AreChildren all_names names (insert n c children) h asked
                (insert-AreChildren all_names n c children (found, inl ask) hs))
      ]

  match_each-grows :
      (pattern n : String) (connections : Dict String Connection) (children : Children)
      → is_some (lookup n children) ≡ true
      → is_some (lookup n (match_each matches pattern plugin connections children)) ≡ true
  unfolding match_each
  match_each-grows pattern n [] children h = h
  match_each-grows pattern n ((k, c) ∷ connections) children h =
      match_each-grows pattern n connections
        (if is_matched matches pattern plugin k c children then insert k c children else children)
        (ground (arith, h, lookup-insert n k c children))

  match_each-has :
      (pattern n : String) (child : Connection) (connections : Dict String Connection)
      (children : Children)
      → child.plugin ≡ plugin
      → is_aggregator matches child ≡ false
      → matches pattern n ≡ true
      → lookup n connections ≡ some child
      → is_some (lookup n (match_each matches pattern plugin connections children)) ≡ true
  unfolding match_each lookup
  match_each-has pattern n child [] children same other matched found = cc
  match_each-has pattern n child ((k, c) ∷ connections) children same other matched found =
      let next =
        if is_matched matches pattern plugin k c children then insert k c children else children in
      elim (Bool-cases (k == n)) [
        | inl at_n ↦
            match_each-grows pattern n connections next
              (here (eq_of_== k n at_n) (ground (arith, found, at_n)))
        | inr later ↦
            match_each-has pattern n child connections next same other matched
              (ground (arith, found, later))
      ]
    where
      here :
          k ≡ n
          → c ≡ child
          → is_some (
              lookup n (
                if is_matched matches pattern plugin k c children
                then insert k c children
                else children))
            ≡ true
      here at_n is =
          let of_plugin : (c.plugin == plugin) ≡ true =
            ap (λ (x : Connection). x.plugin == plugin) is
            ∙ ap (λ q. q == plugin) same
            ∙ ==_refl plugin in
          let alone : is_aggregator matches c ≡ false = ap (is_aggregator matches) is ∙ other in
          let fits : matches pattern k ≡ true = ap (matches pattern) at_n ∙ matched in
          subst
            (λ q.
              is_some (
                lookup q (
                  if is_matched matches pattern plugin k c children
                  then insert k c children
                  else children))
              ≡ true)
            at_n (ground (arith, of_plugin, alone, fits, lookup-insert k k c children, ==_refl k))

  populate_each-grows :
      (n : String) (names : List String) (children : Children)
      → is_some (lookup n children) ≡ true
      → is_some (lookup n (populate_each matches plugin connection_map names children)) ≡ true
  unfolding populate_each
  populate_each-grows n [] children h = h
  populate_each-grows n (x ∷ names) children h = elim (Option-cases (lookup x connection_map)) [
    | inl wildcard ↦
        rw (wildcard, populate_each)
          (populate_each-grows n names (match_each matches x plugin connection_map children)
            (match_each-grows x n connection_map children h))
    | inr (c, found) ↦
        rw (found, populate_each)
          (populate_each-grows n names (insert x c children)
            (ground (arith, h, lookup-insert n x c children)))
  ]

  pub populate_each-has :
      (n : String) (child : Connection) (names : List String) (children : Children)
      → IsChild names n child
      → is_some (lookup n (populate_each matches plugin connection_map names children)) ≡ true
  unfolding populate_each
  populate_each-has n child [] children (found, inl asked) = cc
  populate_each-has n child [] children (found, inr (_, _, wild)) = cc
  populate_each-has n child (x ∷ names) children (found, inl asked) = elim (Bool-cases (x == n)) [
    | inl at_n ↦
        let found_x : lookup x connection_map ≡ some child =
          ap (λ q. lookup q connection_map) (eq_of_== x n at_n) ∙ found in
        rw (found_x, populate_each)
          (populate_each-grows n names (insert x child children)
            (ground (arith, at_n, lookup-insert n x child children)))
    | inr later ↦ populate_each-has n child names _ (found, inl (ground (arith, asked, later)))
  ]
  populate_each-has n child (x ∷ names) children (found, inr (same, other, wild)) =
      elim (Bool-cases (is_wildcard_of n x)) [
        | inl matched ↦
            let no_name : lookup x connection_map ≡ none = none_of _ (ground (arith, matched)) in
            rw (no_name, populate_each)
              (populate_each-grows n names (match_each matches x plugin connection_map children) (
                match_each-has x n child connection_map children same other
                  (ground (arith, matched)) found))
        | inr later ↦
            populate_each-has n child names _
              (found, inr (same, other, ground (arith, wild, later)))
      ]
    where
      none_of : (o : Option Connection) → is_some o ≡ false → o ≡ none
      none_of none h = refl
      none_of (some c) h = cc

  pub populate_each-NodupKeys :
      (names : List String) (children : Children)
      → NodupKeys children
      → NodupKeys (populate_each matches plugin connection_map names children)
  unfolding populate_each match_each
  populate_each-NodupKeys [] children u = u
  populate_each-NodupKeys (n ∷ names) children u = elim (Option-cases (lookup n connection_map)) [
    | inl wildcard ↦
        rw (wildcard, populate_each)
          (populate_each-NodupKeys names (match_each matches n plugin connection_map children)
            (matched n connection_map children u))
    | inr (c, found) ↦
        rw (found, populate_each)
          (populate_each-NodupKeys names (insert n c children) (insert-NodupKeys n c children u))
  ]
    where
      matched :
          (pattern : String) (connections : Dict String Connection) (cs : Children)
          → NodupKeys cs
          → NodupKeys (match_each matches pattern plugin connections cs)
      matched pattern [] cs v = v
      matched pattern ((k, c) ∷ connections) cs v =
          matched pattern connections
            (if is_matched matches pattern plugin k c cs then insert k c cs else cs)
            (elim (Bool-cases (is_matched matches pattern plugin k c cs)) [
              | inl yes_ ↦ rw yes_ (insert-NodupKeys k c cs v)
              | inr no_ ↦ rw no_ v
            ])

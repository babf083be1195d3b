-- ===== src/Connections/Schemas/Once.antt =====
-- Every connection stands in one list of the schema map, once.
use steampipe.Connections.Schemas.{
  Sharing, own_schema, same_schema, SchemaMap, names_at, place, each_connection,
  new_connection_schema_map_for_connections, text_at,
}
use steampipe.Prelude.{
  ◌≡◌, none, some, inl, inr, String, List, ℕ, ◌++◌, map, ◌∷◌, All, ◌+◌, if◌then◌else◌, arith, [],
  ◌==◌, ◌≢◌, string_eq, Bool-cases, false, ap, ◌∙◌, Option-cases,
}
use steampipe.Prelude.Dict.{insert, lookup, lookup-insert, lookup-nil, Dict}
use steampipe.Connections.{Connection}
use native.Mathlib.Nat.{zero-add}

unfoldable pub count : String → List String → ℕ
count m [] = 0
count m (n ∷ names) = (if n == m then 1 else 0) + count m names

pub count-append : (m : String) (xs ys : List String) → count m (xs ++ ys) ≡ count m xs + count m ys
unfolding count
count-append m [] ys = omega arith
count-append m (x ∷ xs) ys = omega (arith, count-append m xs ys)

-- How often a connection is listed.
unfoldable pub occurrences : String → SchemaMap → ℕ
unfolding count
occurrences m [] = 0
occurrences m ((k, names) ∷ res) = count m names + occurrences m res

occurrences-insert :
    (m k : String) (names : List String) (res : SchemaMap)
    → occurrences m (insert k names res) + count m (names_at k res)
      ≡ occurrences m res + count m names
unfolding occurrences insert lookup
occurrences-insert m k names [] = omega arith
occurrences-insert m k names ((j, old) ∷ res) = ground (arith, occurrences-insert m k names res)

abbrev pub names_of : List Connection → List String
names_of = map (λ c. c.name)

abbrev pub DistinctNames : List Connection → Type 0
DistinctNames [] = Unit
DistinctNames (c ∷ cs) = All (λ d. (c.name == d.name) ≡ false) cs × DistinctNames cs

-- The connections that are still to come have no entry, and each plugin's connection has one.
pub record IsReady (cs : List Connection) (s : Sharing) : Type 0 where
  pub fresh : All (λ c. lookup c.name s.1 ≡ none) cs
  pub present : (p first : String) → lookup p s.0 ≡ some first → lookup first s.1 ≢ none

occurrences-own_schema :
    (m : String) (c : Connection) (s : Sharing)
    → lookup c.name s.1 ≡ none
    → occurrences m (own_schema c s).1 ≡ occurrences m s.1 + count m (c.name ∷ [])
unfolding own_schema count
occurrences-own_schema m c (pm, res) h =
    let e = occurrences-insert m c.name (c.name ∷ []) res in
    let none_yet : names_at c.name res ≡ [] = rw (h, names_at) in
    omega (arith, e, ap (count m) none_yet)

occurrences-same_schema :
    (m first : String) (c : Connection) (s : Sharing)
    → occurrences m (same_schema first c s).1 ≡ occurrences m s.1 + count m (c.name ∷ [])
unfolding same_schema
occurrences-same_schema m first c (pm, res) = omega (
  arith,
  occurrences-insert m first (names_at first res ++ c.name ∷ []) res,
  count-append m (names_at first res) (c.name ∷ []),
)

own_schema-IsReady :
    (c : Connection) (cs : List Connection) (s : Sharing)
    → All (λ d. (c.name == d.name) ≡ false) cs
    → IsReady (c ∷ cs) s
    → IsReady cs (own_schema c s)
unfolding own_schema
own_schema-IsReady c cs (pm, res) other ready = record {
  fresh = All_zip cs other ready.fresh.1;
  present = λ p first e. ground (
    arith,
    lookup-insert p c.plugin c.name pm,
    lookup-insert first c.name (c.name ∷ []) res,
    ready.present p first,
  );
}
  where
    All_zip :
        (ds : List Connection)
        → All (λ d. (c.name == d.name) ≡ false) ds
        → All (λ d. lookup d.name res ≡ none) ds
        → All (λ d. lookup d.name (insert c.name (c.name ∷ []) res) ≡ none) ds
    All_zip [] h k = tt
    All_zip (d ∷ ds) (h, hs) (k, ks) =
        (lookup-insert d.name c.name (c.name ∷ []) res ∙ rw h k, All_zip ds hs ks)

same_schema-IsReady :
    (first : String) (c : Connection) (cs : List Connection) (s : Sharing)
    → lookup first s.1 ≢ none
    → IsReady (c ∷ cs) s
    → IsReady cs (same_schema first c s)
unfolding same_schema
same_schema-IsReady first c cs (pm, res) old ready = record {
  fresh = still cs ready.fresh.1;
  present = λ p f e.
      ground
        (arith, lookup-insert f first (names_at first res ++ c.name ∷ []) res, ready.present p f);
}
  where
    still :
        (ds : List Connection)
        → All (λ d. lookup d.name res ≡ none) ds
        → All (λ d. lookup d.name (insert first (names_at first res ++ c.name ∷ []) res) ≡ none) ds
    still [] k = tt
    still (d ∷ ds) (k, ks) = (
      ground (arith, lookup-insert d.name first (names_at first res ++ c.name ∷ []) res, old),
      still ds ks,
    )

place-IsReady :
    (dynamic : String) (modes : Dict String String) (c : Connection) (cs : List Connection)
    (s : Sharing)
    → All (λ d. (c.name == d.name) ≡ false) cs
    → IsReady (c ∷ cs) s
    → IsReady cs (place dynamic modes c (lookup c.plugin s.0) s)
unfolding place
place-IsReady dynamic modes c cs s other ready = elim (Option-cases (lookup c.plugin s.0)) [
  | inl new ↦ rw new (own_schema-IsReady c cs s other ready)
  | inr (first, seen) ↦ elim (Bool-cases (text_at c.name modes == dynamic)) [
    | inl own ↦ rw (seen, own) (own_schema-IsReady c cs s other ready)
    | inr shared ↦
        rw (seen, shared)
          (same_schema-IsReady first c cs s (ready.present c.plugin first seen) ready)
  ]
]

occurrences-place :
    (dynamic : String) (modes : Dict String String) (m : String) (c : Connection) (s : Sharing)
    → lookup c.name s.1 ≡ none
    → occurrences m (place dynamic modes c (lookup c.plugin s.0) s).1
      ≡ occurrences m s.1 + count m (c.name ∷ [])
unfolding place
occurrences-place dynamic modes m c s h = elim (Option-cases (lookup c.plugin s.0)) [
  | inl new ↦ rw new (occurrences-own_schema m c s h)
  | inr (first, seen) ↦ elim (Bool-cases (text_at c.name modes == dynamic)) [
    | inl own ↦ rw (seen, own) (occurrences-own_schema m c s h)
    | inr shared ↦ rw (seen, shared) (occurrences-same_schema m first c s)
  ]
]

occurrences-each_connection :
    (dynamic : String) (modes : Dict String String) (m : String) (cs : List Connection)
    (s : Sharing)
    → DistinctNames cs
    → IsReady cs s
    → occurrences m (each_connection dynamic modes cs s).1
      ≡ occurrences m s.1 + count m (names_of cs)
unfolding each_connection count
occurrences-each_connection dynamic modes m [] s u ready = omega arith
occurrences-each_connection dynamic modes m (c ∷ cs) s (other, u) ready =
    let s' = place dynamic modes c (lookup c.plugin s.0) s in
    omega (
      arith,
      occurrences-place dynamic modes m c s ready.fresh.0,
      occurrences-each_connection dynamic modes m cs s' u
          (place-IsReady dynamic modes c cs s other ready),
    )

all_fresh : (cs : List Connection) → All (λ c. lookup {V = List String} c.name [] ≡ none) cs
all_fresh [] = tt
all_fresh (c ∷ cs) = (lookup-nil c.name, all_fresh cs)

-- Connections with distinct names are spread over the lists of the map: each name stands in them
-- as often as it stands among the connections, once if it is one of them and never if it is not.
pub occurrences-new_connection_schema_map_for_connections :
    (dynamic : String) (cs : List Connection) (modes : Dict String String) (m : String)
    → DistinctNames cs
    → occurrences m (new_connection_schema_map_for_connections dynamic cs modes)
      ≡ count m (names_of cs)
unfolding new_connection_schema_map_for_connections occurrences
occurrences-new_connection_schema_map_for_connections dynamic cs modes m u =
    occurrences-each_connection dynamic modes m cs ([], []) u
      (record {
        fresh = all_fresh cs;
        present = λ p first e. ground (arith, lookup-nil {V = String} p, e);
      })
    ∙ zero-add (count m (names_of cs))

-- ===== src/Control/Tree/Filter.antt =====
-- execution_tree.go: which controls run, from the command line, and where the tree starts.
-- The settings are those that viper holds. Parsing a URL query, resolving and running a query, and
-- finding a resource by name are parameters.
use steampipe.Prelude.{
  Option, String, List, ℕ, [], ◌∷◌, get_elem?, ◌⊎◌, some, string_eq, if◌then◌else◌, ◌+◌, ◌++◌, inr,
  none, ◌==◌, inl,
}
use steampipe.Prelude.Dict.{Dict, lookup, insert}
use steampipe.Prelude.Text.{◌+++◌, is_empty}
use steampipe.Control.Tree.{ModTreeItem, inl}

pub record Settings : Type 0 where
  pub where_clause : Option String  -- `--where`, if set
  pub tags : Option (List String)  -- `--tag`, if set

pub data TreeError : Type 0 where
  where_and_tag : TreeError
  query_failed : String → TreeError
  no_resource_name_column : TreeError
  cannot_parse : String → TreeError
  no_resource : String → TreeError

-- A row's values as text, and the names of the columns.
pub record SyncResult : Type 0 where
  pub columns : List String
  pub rows : List (List String)

abbrev pub or_no_values : Option (List String) → List String
or_no_values none = []
or_no_values (some values) = values

abbrev pub values_at : String → Dict String (List String) → List String
values_at k where_map = or_no_values (lookup k where_map)

unfoldable pub add_values :
    List (String × List String) → Dict String (List String) → Dict String (List String)
add_values [] where_map = where_map
add_values ((k, v) ∷ value) where_map =
    add_values value (insert k (values_at k where_map ++ v) where_map)

abbrev pub joined : String → List String → String
joined sep [] = ""
joined sep (s ∷ []) = s
joined sep (s ∷ t ∷ strs) = s +++ sep +++ joined sep (t ∷ strs)

abbrev pub component : String → List String → List String
component key [] = []
component key (x ∷ values) =
    if x == ""
    then component key values
    else (("tags->>'" +++ key +++ "'='" +++ x +++ "'") ∷ component key values)

abbrev pub where_components : Dict String (List String) → List String
where_components [] = []
where_components ((key, values) ∷ where_map) =
    ("(" +++ joined " OR " (component key values) +++ ")") ∷ where_components where_map

-- The last column of that name counts.
unfoldable pub column_index : ℕ → List String → Option ℕ → Option ℕ
column_index i [] found = found
column_index i (c ∷ columns) found =
    column_index (i + 1) columns (if c == "resource_name" then some i else found)

abbrev pub option_list : Option String → List String
option_list none = []
option_list (some s) = s ∷ []

-- Each row has a value for each column.
abbrev pub name_at : ℕ → List String → List String
name_at i row = option_list (get_elem? row i)

abbrev pub names_at : ℕ → List (List String) → List String
names_at i [] = []
names_at i (row ∷ rows) = name_at i row ++ names_at i rows

abbrev pub names_in : Option ℕ → SyncResult → List String ⊎ TreeError
names_in none res = inr no_resource_name_column
names_in (some i) res = inl (names_at i res.rows)

module _ (parse_query : String → List (String × List String))
    (resolve_query : String → String ⊎ String) (execute_sync : String → SyncResult ⊎ String) where
  unfoldable pub where_map_of : List String → Dict String (List String) → Dict String (List String)
  unfolding add_values
  where_map_of [] where_map = where_map
  where_map_of (tag ∷ tags) where_map = where_map_of tags (add_values (parse_query tag) where_map)

  unfoldable pub generate_where_clause_from_tags : List String → String
  unfolding where_map_of
  generate_where_clause_from_tags tags = joined " AND " (where_components (where_map_of tags []))

  -- A text that resolves to itself is no named query.
  abbrev pub full_query : String → String → String
  full_query query where_clause =
      if query == where_clause
      then "select resource_name from steampipe_control where " +++ where_clause
      else query

  abbrev pub names_of_result : SyncResult ⊎ String → List String ⊎ TreeError
  unfolding column_index
  names_of_result (inr err) = inr (query_failed err)
  names_of_result (inl res) = names_in (column_index 0 res.columns none) res

  abbrev pub run_resolved : String → String ⊎ String → List String ⊎ TreeError
  run_resolved where_clause (inr err) = inr (query_failed err)
  run_resolved where_clause (inl query) =
      names_of_result (execute_sync (full_query query where_clause))

  unfoldable pub get_control_map_from_where_clause : String → List String ⊎ TreeError
  get_control_map_from_where_clause where_clause =
      run_resolved where_clause (resolve_query where_clause)

  abbrev pub as_filter : List String ⊎ TreeError → Option (List String) ⊎ TreeError
  as_filter (inr err) = inr err
  as_filter (inl names) = inl (some names)

  -- An empty clause filters nothing.
  abbrev pub run_filter : String → Option (List String) ⊎ TreeError
  unfolding get_control_map_from_where_clause
  run_filter clause =
      if is_empty clause then inl none else as_filter (get_control_map_from_where_clause clause)

  abbrev pub filter_by : Option String → Option (List String) → Option (List String) ⊎ TreeError
  unfolding generate_where_clause_from_tags
  filter_by (some clause) (some tags) = inr where_and_tag
  filter_by none (some tags) = run_filter (generate_where_clause_from_tags tags)
  filter_by (some clause) none = run_filter clause
  filter_by none none = inl none

  unfoldable pub populate_control_filter_map : Settings → Option (List String) ⊎ TreeError
  populate_control_filter_map s = filter_by s.where_clause s.tags

-- `getExecutionRootFromArg`: the workspace mod, a mod by its short name, or a resource that is an item
-- of the tree. A mod is given with its short name.
module _ (parse_resource_name : String → String ⊎ String)
    (get_tree_item : String → Option ModTreeItem) where
  abbrev pub found_item : String → Option ModTreeItem → ModTreeItem ⊎ TreeError
  found_item arg none = inr (no_resource arg)
  found_item arg (some item) = inl item

  abbrev pub parsed_item : String → String ⊎ String → ModTreeItem ⊎ TreeError
  parsed_item arg (inr err) = inr (cannot_parse err)
  parsed_item arg (inl name) = found_item arg (get_tree_item name)

  abbrev pub mod_item : String → Option ModTreeItem → ModTreeItem ⊎ TreeError
  mod_item arg (some item) = inl item
  mod_item arg none = parsed_item arg (parse_resource_name arg)

  unfoldable pub get_execution_root_from_arg :
      ModTreeItem → Dict String ModTreeItem → String → ModTreeItem ⊎ TreeError
  get_execution_root_from_arg workspace_mod mods arg =
      if arg == "all" then inl workspace_mod else mod_item arg (lookup arg mods)

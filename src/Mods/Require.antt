-- ===== src/Mods/Require.antt =====
-- modconfig/requires.go: the mods that a mod requires. The plugins and the version of Steampipe that
-- it requires are left out. `sort` is the sort by name of a list of constraints.
use steampipe.Prelude.{
  string_eq, String, List, Option, Bool, [], ◌∷◌, false, map, some, ◌==◌, ◌&&◌, none,
}
use steampipe.Prelude.Dict.{Dict, lookup, insert, erase}

-- ModVersionConstraint, with the text of its constraint
pub record Required : Type 0 where
  pub name : String
  pub original : String

pub record Require : Type 0 where
  pub mods : List Required
  pub mod_map : Dict String Required

-- initialise, where no constraint fails to parse
unfoldable pub initialise_map : List Required → Dict String Required → Dict String Required
initialise_map [] m = m
initialise_map (r ∷ mods) m = initialise_map mods (insert r.name r m)

unfoldable pub initialise : List Required → Require
unfolding initialise_map
initialise mods = record { mods = mods; mod_map = initialise_map mods [] }

unfoldable pub get_mod_dependency : String → Require → Option Required
get_mod_dependency name r = lookup name r.mod_map

abbrev pub is_required : Required → Option Required → Bool
is_required required none = false
is_required required (some c) = (c.name == required.name) && (c.original == required.original)

unfoldable pub contains_mod : Required → Require → Bool
unfolding get_mod_dependency
contains_mod required r = is_required required (get_mod_dependency required.name r)

module _ (sort : List Required → List Required) where
  -- The list of mods is written back from the map.
  abbrev pub write_back : Dict String Required → Require
  write_back m = record { mods = sort (map (λ (e : String × Required). e.1) m); mod_map = m }

  unfoldable pub put_all : Dict String Required → Dict String Required → Dict String Required
  put_all [] m = m
  put_all ((name, version) ∷ versions) m = put_all versions (insert name version m)

  unfoldable pub add_mod_dependencies : Dict String Required → Require → Require
  unfolding put_all
  add_mod_dependencies versions r = write_back (put_all versions r.mod_map)

  unfoldable pub drop_all : Dict String Required → Dict String Required → Dict String Required
  drop_all [] m = m
  drop_all ((name, version) ∷ versions) m = drop_all versions (erase name m)

  unfoldable pub remove_mod_dependencies : Dict String Required → Require → Require
  unfolding drop_all
  remove_mod_dependencies versions r = write_back (drop_all versions r.mod_map)

-- The map stays as it is.
unfoldable pub remove_all_mod_dependencies : Require → Require
remove_all_mod_dependencies r = record r { mods = [] }

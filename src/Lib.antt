-- ===== src/Lib.antt =====
-- A model of the core of Steampipe: the run of controls and of dashboards, the mods that a workspace
-- installs and locks, the connections and the plugin processes, and the arguments and history of
-- queries. The definitions follow the Go code function by function, under the same names in this library's
-- spelling.
--
-- Parts and files:
--   Connections       steampipeconfig: connections, their state, schemas and plugins, and the updates
--                     that the config asks for; `Refresh` is the refresh of the database, in
--                     db/db_local/local_db_client_connections.go, and `Aggregator` the wildcards.
--   Control/Tree      control/controlexecute/execution_tree.go and the construction and search of
--                     groups in result_group.go. A filter chooses controls (`Filter`); `children_of`
--                     makes the groups, and `take_turn` is one round of `ResultGroup.execute`.
--   Control/Run       control/controlexecute/control_run.go: `execute`, the gathering of rows and the
--                     run status. It reports to the groups and to the progress.
--   Control/Groups    control/controlexecute/result_group.go: the counters that runs add up to the
--                     root, on a heap of groups.
--   Control/Progress  control/controlhooks/progress.go: the counters of the display.
--   Control/Colors    control/controlexecute/dimension_color_map.go, used at the end of `Execute`.
--   Control/Results   control/controlexecute/dimension.go, result_row.go, status_summary.go.
--   Mods/Lock         steampipeconfig/versionmap, with modconfig/mod_name.go: the lock of a workspace.
--   Mods/Require      steampipeconfig/modconfig/requires.go: the mods that a mod requires.
--   Mods/Installer    modinstaller: `installMods` over the lock, with git and files as `Sources`.
--   Plugins           pluginmanager/plugin_manager.go: concurrent requests as a step relation, and the
--                     use of a lock in `Get` (`Plugins.Collect`).
--   Names             steampipeconfig/modconfig/parsed_name.go, parsed_property_path.go,
--                     mod_version_constraint.go and unique_name_provider_base.go.
--   Dashboard/Build   dashboard/dashboardexecute: the constructors of runs (`NewLeafRun` and the others),
--                     which use `Names`; `Root` is `createRootItem` and `ExecuteDashboardNode`.
--   Dashboard/Execution   the `Execute` methods of the same runs, as concurrent steps of goroutines.
--   Query/Args        steampipeconfig/modconfig/query_args.go.
--   Query/Invocation  steampipeconfig/parse/prepared_statement.go: arguments in a call of a query.
--   Query/History     query/queryhistory/history.go.
--   Prelude           lists, maps, texts and numbers that the parts share.
--
-- State is passed explicitly. Structs that are shared through pointers stand on a heap (`Heap` of
-- groups, `heap` of plugins). Go maps are association lists, and theorems speak of them by `lookup`.
-- `int` counters are natural numbers or integers without a bound; `uint8` colours wrap around.
--
-- Bounds and fuel: a climb from group `i` has fuel `suc i`, since a parent is made before its children;
-- the search for a colour has one round for each of the 80 colours of the palette and one call of
-- itself after a reset; the loop over forbidden columns has 256 rounds, one for each uint8; the loop
-- for a unique name has one round more than there are names; the recursion of the installer takes
-- the depth of the dependencies, and dependencies that go round in a circle never end.
--
-- What the environment decides is an argument: the answers to one call of `execute` (`Attempt`,
-- `Stream`), the steps of the operating system in `Plugins.Step`, the answers of the database in
-- `Dashboard.Execution.Steps`, the semver library (`Semver`), git and mod files (`Sources`), the
-- parsing of URLs, queries run on the database (`Control.Tree.Filter`), the plugins and their SDK
-- (`Sdk`), plugin files and hashes (`Environment`), and the running of SQL (`Database`).
--
-- Not modelled: a context that is cancelled while a control gathers its results, files (the history,
-- the lock, what the installer saves and copies), gRPC and process handling, the database client, the
-- display and export of results, the server and events of dashboards, the parsing of HCL, the
-- installer of plugins, and the command line.
pub mod Connections
pub mod Control
pub mod Dashboard
pub mod Mods
pub mod Names
pub mod Plugins
pub mod Prelude
pub mod Query

-- ===== src/Config/Discovery/Tests.antt =====
-- config/discovery.go: files in two directories.
use openharness.Prelude.{String, ◌≡◌, ◌≤◌, refl, Option, none, some, [], ◌∷◌, ◌==◌, if◌then◌else◌}
use openharness.Prelude.GoMap
use openharness.Prelude.Paths.{join, clean}
use openharness.Config.Discovery.{
  discover_instruction_files, search_up, search_dir, truncated, max_total_instruction_chars,
}
use openharness.Config.Discovery.Budget.{total, IsOnce, discover_bounds}

abbrev read : String → Option String
read path =
    if path == "/a/.ghostfin/GHOSTFIN.md"
    then some "inner"
    else if path == "/GHOSTFIN.md"
    then some "root"
    else none

-- From /a/.ghostfin the first file is met twice.
found :
    discover_instruction_files read (".ghostfin" ∷ "a" ∷ [])
    ≡ record { path = "/a/.ghostfin/GHOSTFIN.md"; content = "inner" }
      ∷ record { path = "/GHOSTFIN.md"; content = "root" }
      ∷ []
unfolding discover_instruction_files search_up search_dir truncated join clean GoMap.get GoMap.put
    GoMap.empty GoMap.find
found = refl

discover_bounds_example :
    let files = discover_instruction_files read (".ghostfin" ∷ "a" ∷ []) in
    (total files ≤ max_total_instruction_chars) × IsOnce files
discover_bounds_example = discover_bounds read (".ghostfin" ∷ "a" ∷ [])

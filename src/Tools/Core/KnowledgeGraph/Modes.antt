-- ===== src/Tools/Core/KnowledgeGraph/Modes.antt =====
-- tools/core/knowledge_graph.go: the arguments of a call, and the modes traverse and related.
use openharness.Prelude.{ℕ, String, none, some, List, [], ◌∷◌, ◌==◌, leb, ltb, if◌then◌else◌}
use openharness.Prelude.Fields.{trim_space}
use openharness.Prelude.Int64.{is_pos}
use openharness.Prelude.Result.{ok, err}
use openharness.Tools.Core.KnowledgeGraph.{
  KgArgs, KgPage, KgRef, get_page_failed, related_failed, Store, Strings, Text, without_md,
  page_not_found, print_page, print_related,
}
use Prim.Native.String.{◌++◌}

-- the number of results of a call in a mode, of which none is "search"
unfoldable pub max_results_in : String → ℕ → ℕ
max_results_in mode asked =
    let wanted = if is_pos asked then asked else if mode == "page" then 100 else 10 in
    if ltb 100 wanted then 100 else wanted

-- the arguments as the modes see them
unfoldable pub with_defaults : KgArgs → KgArgs
unfolding max_results_in
with_defaults params =
    let mode = if params.mode == "" then "search" else params.mode in
    record params { mode = mode; max_results = max_results_in mode params.max_results }

unfoldable pub depth_of : ℕ → ℕ
depth_of max_results = if leb max_results 5 then 1 else 2

unfoldable pub print_connected :
    Store → Strings → KgArgs → String → List KgPage → List KgRef → String
unfolding print_related
print_connected store strings params name [] refs =
    "No pages connected to " ++ strings.quote name ++ "."
print_connected store strings params name (page ∷ pages) refs = trim_space (
    "Pages connected to "
    ++ strings.quote name
    ++ ":\n"
    ++ print_related store refs params.max_results (page ∷ pages))

unfoldable pub exec_traverse : Store → Strings → KgArgs → Text
unfolding print_connected without_md depth_of page_not_found
exec_traverse store strings params =
    let name = without_md (strings.to_lower params.query) in
    elim (store.get_page name) [
      | none ↦ err get_page_failed
      | some found ↦ elim found [
        | none ↦ ok (page_not_found strings params.query)
        | some page ↦ elim (store.get_related_pages page.id (depth_of params.max_results)) [
          | none ↦ err related_failed
          | some related ↦ ok (print_connected store strings params name related.0 related.1)
        ]
      ]
    ]

-- the loop over the pages that share tags
unfoldable pub print_shared : Store → List KgPage → String
unfolding print_page
print_shared store [] = ""
print_shared store (page ∷ pages) = print_page store page [] ++ print_shared store pages

unfoldable pub print_tagged : Store → Strings → String → List KgPage → String
unfolding print_shared
print_tagged store strings name [] = "No pages share tags with " ++ strings.quote name ++ "."
print_tagged store strings name (page ∷ pages) = trim_space (
    "Pages sharing tags with "
    ++ strings.quote name
    ++ ":\n\n"
    ++ print_shared store (page ∷ pages))

unfoldable pub exec_related : Store → Strings → KgArgs → Text
unfolding print_tagged without_md page_not_found
exec_related store strings params =
    let name = without_md (strings.to_lower params.query) in
    elim (store.get_page name) [
      | none ↦ err get_page_failed
      | some found ↦ elim found [
        | none ↦ ok (page_not_found strings params.query)
        | some page ↦ elim (store.get_pages_with_shared_tags page.id params.max_results) [
          | none ↦ err related_failed
          | some related ↦ ok (print_tagged store strings name related)
        ]
      ]
    ]

-- ===== src/Tools/Core/KnowledgeGraph.antt =====
-- tools/core/knowledge_graph.go: the tool over a store of pages and blocks, which is a parameter.
-- Of the methods of the store, `none` is an error. Go's %q and ToLower are parameters too.
pub mod Grouping
pub mod Printing
pub mod Modes
pub mod Limits
mod Tests
use openharness.Prelude.{
  ℕ, zero, suc, String, Bool, true, false, Option, none, some, List, [], ◌∷◌, ◌==◌, ◌-◌, ltb, leb,
  if◌then◌else◌,
}
use openharness.Prelude.Fields.{trim_space}
use openharness.Prelude.GoMap
use openharness.Prelude.GoMap.{GoMap}
use openharness.Prelude.Int64.{is_pos}
use openharness.Prelude.Result.{Result, ok, err}
use openharness.Tools.Scrub.{Pattern, sanitize_external}
use mathlib.Core.List
use Prim.Native.String.{◌++◌, slice, len}

-- the fields that the tool reads
pub record KgBlock : Type 0 where
  pub id : String
  pub page_id : String
  pub title : String

pub record KgPage : Type 0 where
  pub id : String
  pub name : String

pub record KgRef : Type 0 where
  pub target_page_id : String
  pub ref_type : String

pub record KgArgs : Type 0 where
  pub query : String
  pub page : String
  pub mode : String
  pub max_results : ℕ

pub data KgError : Type 0 where
  bad_arguments get_page_failed search_failed related_failed : KgError
  unknown_tool unknown_mode : String → KgError

pub record Store : Type 0 where
  pub search : String → ℕ → Option (List KgBlock)
  pub search_in_page : String → String → ℕ → Option (List KgBlock)
  pub get_page : String → Option (Option KgPage)
  pub get_page_by_id : String → Option KgPage
  pub get_block_snippets : String → ℕ → List String
  pub get_related_pages : String → ℕ → Option (List KgPage × List KgRef)
  pub get_pages_with_shared_tags : String → ℕ → Option (List KgPage)

pub record Strings : Type 0 where
  pub quote : String → String
  pub to_lower : String → String

abbrev pub Groups : Type 0
Groups = List String × GoMap (List KgBlock)

-- the loop that groups the blocks by page, with the pages in the order in which they come first
unfoldable pub group : List KgBlock → Groups → Groups
group [] groups = groups
group (b ∷ blocks) (order, grouped) = elim (GoMap.get grouped b.page_id) [
  | none ↦ group blocks (List.◌++◌ order (b.page_id ∷ []), GoMap.put grouped b.page_id (b ∷ []))
  | some old ↦ group blocks (order, GoMap.put grouped b.page_id (List.◌++◌ old (b ∷ [])))
]

unfoldable pub lines : List KgBlock → String
lines [] = ""
lines (b ∷ blocks) = "- " ++ b.title ++ "\n" ++ lines blocks

abbrev pub group_of : GoMap (List KgBlock) → String → List KgBlock
group_of grouped pid = elim (GoMap.get grouped pid) [ none ↦ [] | some blocks ↦ blocks ]

abbrev pub page_name : Store → String → String
page_name store pid = elim (store.get_page_by_id pid) [ none ↦ pid | some page ↦ page.name ]

-- the loop that prints the pages
unfoldable pub print_groups : Store → List String → GoMap (List KgBlock) → String
unfolding lines
print_groups store [] grouped = ""
print_groups store (pid ∷ order) grouped =
    "## "
    ++ page_name store pid
    ++ "\n"
    ++ lines (group_of grouped pid)
    ++ "\n"
    ++ print_groups store order grouped

unfoldable pub print_blocks : Store → Strings → KgArgs → List KgBlock → String
unfolding group print_groups
print_blocks store strings params [] = "No results for " ++ strings.quote params.query ++ "."
print_blocks store strings params (b ∷ blocks) =
    let groups = group (b ∷ blocks) ([], GoMap.empty) in
    trim_space (print_groups store groups.0 groups.1)

abbrev pub Text : Type 0
Text = Result KgError String

unfoldable pub page_not_found : Strings → String → String
page_not_found strings name = "Page " ++ strings.quote name ++ " not found."

unfoldable pub exec_search : Store → Strings → KgArgs → Text
unfolding print_blocks page_not_found
exec_search store strings params =
    if params.page == ""
    then elim (store.search params.query params.max_results) [
      | none ↦ err search_failed
      | some blocks ↦ ok (print_blocks store strings params blocks)
    ]
    else elim (store.get_page (strings.to_lower params.page)) [
      | none ↦ err get_page_failed
      | some found ↦ elim found [
        | none ↦ ok (page_not_found strings params.page)
        | some page ↦ elim (store.search_in_page page.id params.query params.max_results) [
          | none ↦ err search_failed
          | some blocks ↦ ok (print_blocks store strings params blocks)
        ]
      ]
    ]

-- `strings.TrimSuffix(s, ".md")`
unfoldable pub without_md : String → String
without_md s = if slice s (len s - 3) (len s) == ".md" then slice s 0 (len s - 3) else s

-- a snippet of at most 200 bytes, cut at a whole character
unfoldable pub snippets : List String → String
snippets [] = ""
snippets (s ∷ more) =
    "- " ++ (if ltb 200 (len s) then slice s 0 200 ++ "..." else s) ++ "\n" ++ snippets more

-- the types of the references to a page, in their order
unfoldable pub ref_types : String → List KgRef → List String
ref_types id [] = []
ref_types id (r ∷ refs) =
    let rest = ref_types id refs in if r.target_page_id == id then r.ref_type ∷ rest else rest

-- the loop of `uniqueStrings`, with what has been seen
unfoldable pub unique_from : GoMap Bool → List String → List String
unique_from seen [] = []
unique_from seen (v ∷ more) = elim (GoMap.get seen v) [
  | some _ ↦ unique_from seen more
  | none ↦ v ∷ unique_from (GoMap.put seen v true) more
]

unfoldable pub unique_strings : List String → List String
unfolding unique_from
unique_strings vs = unique_from GoMap.empty vs

-- `strings.Join` with ", "
unfoldable pub listed_types : List String → String
listed_types [] = ""
listed_types (t ∷ []) = t
listed_types (t ∷ types) = t ++ ", " ++ listed_types types

abbrev pub via : List String → String
via [] = "\n"
via (t ∷ types) = " (via " ++ listed_types (t ∷ types) ++ ")\n"

unfoldable pub print_page : Store → KgPage → List String → String
unfolding snippets listed_types
print_page store page types =
    "## " ++ page.name ++ via types ++ snippets (store.get_block_snippets page.id 3) ++ "\n"

-- the loop of `execTraverse` over the pages, of which so many may still be printed
unfoldable pub print_related : Store → List KgRef → ℕ → List KgPage → String
unfolding print_page unique_strings ref_types
print_related store refs zero pages = ""
print_related store refs (suc left) [] = ""
print_related store refs (suc left) (page ∷ pages) =
    print_page store page (unique_strings (ref_types page.id refs))
    ++ print_related store refs left pages

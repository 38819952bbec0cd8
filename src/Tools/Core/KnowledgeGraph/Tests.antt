-- ===== src/Tools/Core/KnowledgeGraph/Tests.antt =====
-- tools/core/knowledge_graph.go: a few blocks and pages.
use openharness.Prelude.{
  String, ◌≡◌, refl, none, some, List, [], ◌∷◌, ◌==◌, Has, inl, if◌then◌else◌,
}
use openharness.Prelude.Fields.{trim_space}
use openharness.Prelude.GoMap
use openharness.Prelude.GoMap.{GoMap}
use openharness.Prelude.Result.{ok}
use openharness.Tools.Core.KnowledgeGraph.{
  KgBlock, KgPage, KgArgs, Store, Strings, group, exec_search, print_blocks, print_groups, lines,
  unique_strings, unique_from, without_md, print_related, print_page, snippets, listed_types,
  ref_types,
}
use openharness.Tools.Core.KnowledgeGraph.Modes.{exec_traverse, depth_of, print_connected}
use openharness.Tools.Core.KnowledgeGraph.Printing.{IsPrinted, exec_search_outcome}
use Prim.Native.String.{◌++◌}

abbrev block : String → String → KgBlock
block page title = record { id = title; page_id = page; title = title }

abbrev three : List KgBlock
three = block "p" "one" ∷ block "q" "two" ∷ block "p" "three" ∷ []

abbrev a_page : KgPage
a_page = record { id = "p"; name = "Pages" }

abbrev store : Store
store = record {
  search = λ q n. some three;
  search_in_page = λ p q n. some [];
  get_page = λ name. some (some a_page);
  get_page_by_id = λ id. if id == "p" then some a_page else none;
  get_block_snippets = λ id n. "a snippet" ∷ [];
  get_related_pages = λ id depth. some (
    a_page ∷ [],
    record { target_page_id = "p"; ref_type = "tag" }
        ∷ record { target_page_id = "p"; ref_type = "tag" }
        ∷ [],
  );
  get_pages_with_shared_tags = λ id n. none;
}

abbrev strings : Strings
strings = record { quote = λ s. s; to_lower = λ s. s }

abbrev args : KgArgs
args = record { query = "q"; page = ""; mode = ""; max_results = 10 }

searched : exec_search store strings args ≡ ok "## Pages\n- one\n- three\n\n## q\n- two"
unfolding exec_search print_blocks group print_groups lines trim_space GoMap.get GoMap.put
    GoMap.empty GoMap.find
searched = refl

traversed :
    exec_traverse store strings args ≡ ok "Pages connected to q:\n## Pages (via tag)\n- a snippet"
unfolding exec_traverse without_md depth_of print_connected print_related print_page unique_strings
    unique_from ref_types snippets listed_types trim_space GoMap.get GoMap.put GoMap.empty
    GoMap.find
traversed = refl

exec_search_outcome_example :
    (text : String) × (exec_search store strings args ≡ ok text)
    × ((b : KgBlock) → Has b three → IsPrinted store three text)
    × (three ≡ [] → text ≡ "No results for " ++ "q" ++ ".")
exec_search_outcome_example = exec_search_outcome store strings args three (inl (refl, refl))

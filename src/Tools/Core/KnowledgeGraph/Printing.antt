-- ===== src/Tools/Core/KnowledgeGraph/Printing.antt =====
-- tools/core/knowledge_graph.go: what a search prints.
use openharness.Prelude.{
  String, ◌≡◌, ◌≢◌, refl, ap, sym, ◌∙◌, ◌⊎◌, inl, inr, Option, none, some, List, [], ◌∷◌,
  eq-false_of_ne, Has,
}
use openharness.Prelude.Fields.{trim_space}
use openharness.Prelude.GoMap
use openharness.Prelude.GoMap.{GoMap}
use openharness.Prelude.Result.{ok}
use openharness.Tools.Core.KnowledgeGraph.{
  KgBlock, KgPage, KgArgs, Store, Strings, group, lines, group_of, print_groups, print_blocks,
  exec_search,
}
use openharness.Tools.Core.KnowledgeGraph.Grouping.{of_page, extended, IsOrder, group_outcome}
use Prim.Native.String.{◌++◌}
use mathlib.Core.Path.{subst}

-- the line of each block
unfoldable pub titles : List KgBlock → String
titles [] = ""
titles (b ∷ blocks) = "- " ++ b.title ++ "\n" ++ titles blocks

-- the name of a page that is found, and else its ID
abbrev pub name_or_id : String → Option KgPage → String
name_or_id pid none = pid
name_or_id pid (some page) = page.name

-- a section for each of the pages, with the blocks of the page in their order
unfoldable pub sections : Store → List KgBlock → List String → String
unfolding titles
sections store blocks [] = ""
sections store blocks (pid ∷ pids) =
    "## "
    ++ name_or_id pid (store.get_page_by_id pid)
    ++ "\n"
    ++ titles (of_page pid blocks)
    ++ "\n"
    ++ sections store blocks pids

-- The pages are those with a block, each once.
pub record IsPages (blocks : List KgBlock) (pids : List String) : Type 0 where
  pub once : IsOrder pids
  pub all : (pid : String) (b : KgBlock) → Has b (of_page pid blocks) → Has pid pids
  pub only : (pid : String) → Has pid pids → (b : KgBlock) × Has b (of_page pid blocks)

-- the text of a search with results
pub record IsPrinted (store : Store) (blocks : List KgBlock) (text : String) : Type 0 where
  pub pids : List String
  pub pages : IsPages blocks pids
  pub printed : text ≡ trim_space (sections store blocks pids)

lines-titles : (blocks : List KgBlock) → lines blocks ≡ titles blocks
unfolding lines titles
lines-titles [] = refl
lines-titles (b ∷ blocks) = ap (λ s. "- " ++ b.title ++ "\n" ++ s) (lines-titles blocks)

group_of-of_page :
    (grouped : GoMap (List KgBlock)) (pid : String) (blocks : List KgBlock)
    → GoMap.get grouped pid ≡ extended none blocks
    → group_of grouped pid ≡ blocks
group_of-of_page grouped pid [] e = rw (e, group_of) refl
group_of-of_page grouped pid (b ∷ blocks) e = rw (e, group_of) refl

print_groups-sections :
    (store : Store) (blocks : List KgBlock) (grouped : GoMap (List KgBlock)) (pids : List String)
    → ((pid : String) → GoMap.get grouped pid ≡ extended none (of_page pid blocks))
    → print_groups store pids grouped ≡ sections store blocks pids
unfolding print_groups sections
print_groups-sections store blocks grouped [] groups = refl
print_groups-sections store blocks grouped (pid ∷ pids) groups =
    let named : elim (store.get_page_by_id pid) [ none ↦ pid | some page ↦ page.name ]
        ≡ name_or_id pid (store.get_page_by_id pid) =
      named_cases (store.get_page_by_id pid) in
    let text =
      ap lines (group_of-of_page grouped pid (of_page pid blocks) (groups pid))
      ∙ lines-titles (of_page pid blocks) in
    λ i.
      "## "
      ++ named i
      ++ "\n"
      ++ text i
      ++ "\n"
      ++ print_groups-sections store blocks grouped pids groups i
  where
    named_cases :
        (found : Option KgPage)
        → elim found [ none ↦ pid | some page ↦ page.name ] ≡ name_or_id pid found
    named_cases none = refl
    named_cases (some page) = refl

print_blocks-IsPrinted :
    (store : Store) (strings : Strings) (params : KgArgs) (b : KgBlock) (blocks : List KgBlock)
    → IsPrinted store (b ∷ blocks) (print_blocks store strings params (b ∷ blocks))
unfolding print_blocks
print_blocks-IsPrinted store strings params b blocks =
    let all = b ∷ blocks in
    let groups = group all ([], GoMap.empty) in
    let outcome = group_outcome all in
    record {
      pids = groups.0;
      pages = record {
        once = outcome.1;
        all = λ pid x there. some_block pid x (of_page pid all) refl there outcome.2;
        only = λ pid there.
            let (first, more, same) = outcome.3 pid there in
            (first, subst (Has first) (sym same) (inl refl));
      };
      printed = ap trim_space (print_groups-sections store all groups.1 groups.0 outcome.0);
    }
  where
    some_block :
        (pid : String) (x : KgBlock) (l : List KgBlock)
        → of_page pid (b ∷ blocks) ≡ l
        → Has x (of_page pid (b ∷ blocks))
        → ((p : String) (c : KgBlock) (cs : List KgBlock)
            → of_page p (b ∷ blocks) ≡ c ∷ cs
            → Has p (group (b ∷ blocks) ([], GoMap.empty)).0)
        → Has pid (group (b ∷ blocks) ([], GoMap.empty)).0
    some_block pid x [] e there ordered = absurd (subst (Has x) e there)
    some_block pid x (c ∷ cs) e there ordered = ordered pid c cs e

-- where the blocks of a search come from: the whole store, or the page that is named
abbrev pub Finds : Store → Strings → KgArgs → List KgBlock → Type 0
Finds store strings params blocks =
    ((params.page ≡ "") × (store.search params.query params.max_results ≡ some blocks))
    ⊎ ((params.page ≢ "")
        × (page : KgPage) × (store.get_page (strings.to_lower params.page) ≡ some (some page))
        × (store.search_in_page page.id params.query params.max_results ≡ some blocks))

-- A search that finds blocks, in all pages or in the page that is named, replies with a section for each
-- page that has one of them and for no other, each once: the name of the page, or its ID where it is
-- not found, and the titles of all its blocks, a line for each, in the order in which they were found.
-- A search that finds none replies that there are no results.
pub exec_search_outcome :
    (store : Store) (strings : Strings) (params : KgArgs) (blocks : List KgBlock)
    → Finds store strings params blocks
    → (text : String) × (exec_search store strings params ≡ ok text)
      × ((b : KgBlock) → Has b blocks → IsPrinted store blocks text)
      × (blocks ≡ [] → text ≡ "No results for " ++ strings.quote params.query ++ ".")
unfolding exec_search
exec_search_outcome store strings params blocks found =
    (print_blocks store strings params blocks, reply found, printed blocks, nothing blocks)
  where
    reply :
        Finds store strings params blocks
        → exec_search store strings params ≡ ok (print_blocks store strings params blocks)
    reply (inl (whole, e)) = rw (whole, e, exec_search) refl
    reply (inr (named, page, there, e)) =
        rw (eq-false_of_ne params.page "" named, there, e, exec_search) refl

    printed :
        (l : List KgBlock) (b : KgBlock)
        → Has b l
        → IsPrinted store l (print_blocks store strings params l)
    printed [] b there = absurd there
    printed (c ∷ l) b there = print_blocks-IsPrinted store strings params c l

    nothing :
        (l : List KgBlock)
        → l ≡ []
        → print_blocks store strings params l
          ≡ "No results for " ++ strings.quote params.query ++ "."
    nothing l e = rw (e, print_blocks) refl

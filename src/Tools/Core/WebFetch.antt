-- ===== src/Tools/Core/WebFetch.antt =====
-- tools/core/web_fetch.go: the fetching of a page, with its checks against internal addresses.
-- The network is a parameter, and so is the parsed document of a page. Of net/http is read how Do
-- follows redirects: it dials the host of each URL and asks CheckRedirect before the next one.
pub mod Dials
mod Tests
use openharness.Prelude.{
  ℕ, zero, suc, String, Bool, true, false, Option, none, some, List, [], ◌∷◌, ◌++◌, ◌==◌, ◌||◌, ltb,
  if◌then◌else◌,
}
use openharness.Prelude.Fields.{trim_space}
use openharness.Prelude.Result.{Result, ok, err}
use openharness.Tools.Scrub.{Pattern, scrub_credentials, sanitize_external}
use openharness.Tools.Ssrf.{Net, SsrfError, check_ssrf, resolve_and_check}
use Prim.Native.String
use Prim.Native.String.{slice, len}

mutual
  pub data Node : Type 0 where
    element : String → Nodes → Node
    text_node : String → Node
    other_node : Nodes → Node

  pub data Nodes : Type 0 where
    no_nodes : Nodes
    node : Node → Nodes → Nodes

-- the answer to a request: nothing, a page, or a redirect with its own page; `none` for a page that
-- does not parse
pub data Response : Type 0 where
  no_response : Response
  page : Option Node → Response
  redirect : String → Option Node → Response

pub data FetchError : Type 0 where
  bad_arguments not_parsed no_request not_fetched no_host : FetchError
  unknown_tool : String → FetchError
  ssrf_blocked : SsrfError → FetchError

-- the servers: whether an address accepts a connection, and the answer to a request for a URL
pub record Servers : Type 0 where
  pub connects : String → Bool
  pub respond : String → Response
  pub makes_request : String → Bool

pub record Fetched : Type 0 where
  pub url : String
  pub title : String
  pub content : String

-- the loop of `DialContext` over the addresses, with the addresses that were dialled before
unfoldable pub dial_first : Servers → List String → List String → Bool × List String
dial_first servers [] dialled = (false, dialled)
dial_first servers (ip ∷ ips) dialled =
    let next = dialled ++ ip ∷ [] in
    let rest = dial_first servers ips next in if servers.connects ip then (true, next) else rest

unfoldable pub dial : Net → Servers → String → List String → Result FetchError Unit × List String
unfolding dial_first
dial net servers host dialled = elim (resolve_and_check net host) [
  | err e ↦ (err (ssrf_blocked e), dialled)
  | ok ips ↦
      let tried = dial_first servers ips dialled in
      if tried.0 then (ok tt, tried.1) else (err not_fetched, tried.1)
]

unfoldable pub parsed : Option Node → Result FetchError Node
parsed none = err not_parsed
parsed (some doc) = ok doc

-- one request: the host is dialled, and the server answers
unfoldable pub request :
    Net → Servers → String → List String → Result FetchError Response × List String
unfolding dial
request net servers url dialled = elim (net.hostname url) [
  | none ↦ (err no_host, dialled)
  | some host ↦
      let dialling = dial net servers host dialled in
      elim dialling.0 [
        | err e ↦ (err e, dialling.1)
        | ok _ ↦ (ok (servers.respond url), dialling.1)
      ]
]

-- a response that is the last: the tenth one also where it is a redirect
abbrev pub last_response : Response → Result FetchError Node
last_response no_response = err not_fetched
last_response (page doc) = parsed doc
last_response (redirect _ doc) = parsed doc

-- the requests of `Do` with `CheckRedirect`: one, and at most `left` more where there are redirects
unfoldable pub follow :
    Net → Servers → ℕ → String → List String → Result FetchError Node × List String
unfolding request parsed
follow net servers zero url dialled =
    let once = request net servers url dialled in
    elim once.0 [ err e ↦ (err e, once.1) | ok response ↦ (last_response response, once.1) ]
follow net servers (suc left) url dialled =
    let once = request net servers url dialled in
    elim once.0 [
      | err e ↦ (err e, once.1)
      | ok response ↦ elim response [
        | no_response ↦ (err not_fetched, once.1)
        | page doc ↦ (parsed doc, once.1)
        | redirect target _ ↦ elim (check_ssrf net target) [
          | err e ↦ (err (ssrf_blocked e), once.1)
          | ok _ ↦ follow net servers left target once.1
        ]
      ]
    ]

-- the text of a node, and the trimmed texts of nodes one after the other
unfoldable mutual
  pub extract_text : Node → String
  extract_text (text_node data_read) = data_read
  extract_text (element name children) = trim_space (extract_texts children)
  extract_text (other_node children) = trim_space (extract_texts children)

  pub extract_texts : Nodes → String
  extract_texts no_nodes = ""
  extract_texts (node n more) = String.◌++◌ (extract_text n) (extract_texts more)

-- the title and the content so far
abbrev pub Walked : Type 0
Walked = String × String

abbrev pub with_text : String → Walked → Walked
with_text data_read (title, content) =
    let trimmed = trim_space data_read in
    if trimmed == ""
    then (title, content)
    else (title, String.◌++◌ content (String.◌++◌ trimmed " "))

unfoldable pub with_title : String → Nodes → Walked → Walked
unfolding extract_text
with_title name children (title, content) =
    if name == "title" then (extract_text (element name children), content) else (title, content)

unfoldable mutual
  pub walk : Node → Walked → Walked
  walk (text_node data_read) walked = with_text data_read walked
  walk (other_node children) walked = walk_all children walked
  walk (element name children) walked =
      let titled = with_title name children walked in
      let below = walk_all children titled in
      if name == "script" || name == "style" then titled else below

  pub walk_all : Nodes → Walked → Walked
  walk_all no_nodes walked = walked
  walk_all (node n more) walked = walk_all more (walk n walked)

-- `text[:maxLen]`, whole characters only
unfoldable pub cut : String → String
cut text = if ltb 10000 (len text) then slice text 0 10000 else text

unfoldable pub fetched : List Pattern → String → Node → Fetched
unfolding walk cut
fetched patterns url doc =
    let walked = walk doc ("", "") in
    record {
      url = url;
      title = scrub_credentials patterns walked.0;
      content = sanitize_external patterns (cut walked.1);
    }

unfoldable pub execute :
    List Pattern
    → Net
    → Servers
    → String
    → Option String
    → List String
    → Result FetchError Fetched × List String
unfolding follow fetched
execute patterns net servers name args dialled =
    if name == "web_fetch"
    then elim args [
      | none ↦ (err bad_arguments, dialled)
      | some url ↦ elim (check_ssrf net url) [
        | err e ↦ (err (ssrf_blocked e), dialled)
        | ok _ ↦
            let done = follow net servers 9 url dialled in
            if servers.makes_request url
            then elim done.0 [
              | err e ↦ (err e, done.1)
              | ok doc ↦ (ok (fetched patterns url doc), done.1)
            ]
            else (err no_request, dialled)
      ]
    ]
    else (err (unknown_tool name), dialled)

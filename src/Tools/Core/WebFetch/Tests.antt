-- ===== src/Tools/Core/WebFetch/Tests.antt =====
-- tools/core/web_fetch.go: a page behind a redirect.
use openharness.Prelude.{
  String, true, ◌≡◌, refl, Option, none, some, List, [], ◌∷◌, ◌==◌, ◌||◌, ◌&&◌, if◌then◌else◌,
}
use openharness.Prelude.Fields.{trim_space}
use openharness.Tools.Ssrf.{Net}
use openharness.Tools.Core.WebFetch.{
  Node, element, text_node, no_nodes, node, Response, redirect, no_response, Servers, execute, walk,
  with_title, extract_text,
}
use openharness.Tools.Core.WebFetch.Dials.{AllPublic, execute-AllPublic}

resolver : String → Option (List String)
resolver name =
    if name == "a.com"
    then some ("93.1.1.1" ∷ [])
    else if name == "evil.com"
    then some ("10.0.0.1" ∷ [])
    else none

abbrev a_net : Net
a_net = record {
  hostname = λ url. some url;
  parse_ip = λ ip. ip == "93.1.1.1" || ip == "10.0.0.1";
  cidr_contains = λ cidr ip. cidr == "10.0.0.0/8" && ip == "10.0.0.1";
  lookup_host = resolver;
  to_lower = λ s. s;
}

respond : String → Response
respond url = if url == "a.com" then redirect "evil.com" none else no_response

abbrev servers : Servers
servers = record { connects = λ ip. true; respond = respond; makes_request = λ url. true }

abbrev a_page : Node
a_page = element "html" (
    node (element "title" (node (text_node " Hi ") no_nodes)) (
      node (element "script" (node (text_node "x()") no_nodes))
        (node (element "p" (node (text_node " there ") no_nodes)) no_nodes)))

-- A title is part of the content as well, and a script is not.
walked_page : walk a_page ("", "") ≡ ("Hi", "Hi there ")
unfolding walk with_title extract_text trim_space
walked_page = refl

execute-AllPublic_example :
    AllPublic a_net servers (execute [] a_net servers "web_fetch" (some "a.com") []).1
execute-AllPublic_example =
    execute-AllPublic a_net servers [] "web_fetch" (some "a.com") []
      (record { each = λ addr there. absurd there })

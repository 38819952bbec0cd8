-- ===== src/Tools/Core/WebFetch/Dials.antt =====
-- tools/core/web_fetch.go: the addresses that a fetch dials.
use openharness.Prelude.{
  ℕ, zero, suc, String, true, false, ◌≡◌, refl, ap, ◌∙◌, Option, Option-cases, List, [], ◌∷◌, ◌++◌,
  ◌==◌, Has, inl, inr, Bool-cases, arith,
}
use openharness.Prelude.Result.{Result-cases}
use openharness.Tools.Scrub.{Pattern}
use openharness.Tools.Ssrf.{
  Net, private_ranges, in_some_range, is_private_ip, check_ssrf, resolve_and_check,
}
use openharness.Tools.Ssrf.Agreement.{resolve_and_check-public}
use openharness.Tools.Core.WebFetch.{
  no_response, page, redirect, Servers, dial_first, dial, request, follow, execute,
}

-- An address that `net.ParseIP` does not read, or one that lies in none of the private blocks.
abbrev pub IsPublic : Net → String → Type 0
IsPublic net addr =
    net.parse_ip addr ≡ true
    → (cidr : String) → Has cidr private_ranges
    → net.cidr_contains cidr addr ≡ false

in_some_range-false :
    (net : Net) (addr : String) (l : List String)
    → in_some_range net addr l ≡ false
    → (cidr : String) → Has cidr l
    → net.cidr_contains cidr addr ≡ false
unfolding in_some_range
in_some_range-false net addr (block ∷ more) h cidr there =
    elim (Bool-cases (net.cidr_contains block addr)) [
      | inl e ↦ absurd (ground (arith, h, e))
      | inr e ↦ elim there [
        | inl here ↦ ap (λ c. net.cidr_contains c addr) here ∙ e
        | inr later ↦ in_some_range-false net addr more (rw e at h) cidr later
      ]
    ]
in_some_range-false net addr [] h cidr there = absurd there

in_some_range-none :
    (net : Net) (addr : String) (l : List String)
    → ((cidr : String) → Has cidr l → net.cidr_contains cidr addr ≡ false)
    → in_some_range net addr l ≡ false
unfolding in_some_range
in_some_range-none net addr [] all = refl
in_some_range-none net addr (block ∷ more) all =
    rw (all block (inl refl)) (in_some_range-none net addr more (λ c there. all c (inr there)))

is_private_ip-IsPublic :
    (net : Net) (addr : String) → is_private_ip net addr ≡ false → IsPublic net addr
unfolding is_private_ip
is_private_ip-IsPublic net addr h read = in_some_range-false net addr private_ranges (rw read at h)

IsPublic-is_private_ip :
    (net : Net) (addr : String) → IsPublic net addr → is_private_ip net addr ≡ false
unfolding is_private_ip
IsPublic-is_private_ip net addr public = elim (Bool-cases (net.parse_ip addr)) [
  | inr e ↦ rw (e) refl
  | inl e ↦ rw (e) (in_some_range-none net addr private_ranges (public e))
]

module _ (net : Net) (servers : Servers) where
  -- addresses that the check takes for public
  abbrev pub EachPublic : List String → Type 0
  EachPublic dialled = (addr : String) → Has addr dialled → is_private_ip net addr ≡ false

  EachPublic-snoc :
      (dialled : List String) (ip : String)
      → EachPublic dialled
      → is_private_ip net ip ≡ false
      → EachPublic (dialled ++ ip ∷ [])
  EachPublic-snoc [] ip all public addr (inl here) = ap (is_private_ip net) here ∙ public
  EachPublic-snoc [] ip all public addr (inr later) = absurd later
  EachPublic-snoc (x ∷ dialled) ip all public addr (inl here) = all addr (inl here)
  EachPublic-snoc (x ∷ dialled) ip all public addr (inr later) =
      EachPublic-snoc dialled ip (λ a there. all a (inr there)) public addr later

  dial_first-EachPublic :
      (ips dialled : List String)
      → EachPublic ips
      → EachPublic dialled
      → EachPublic (dial_first servers ips dialled).1
  unfolding dial_first
  dial_first-EachPublic [] dialled all before = before
  dial_first-EachPublic (ip ∷ ips) dialled all before =
      let next = EachPublic-snoc dialled ip before (all ip (inl refl)) in
      elim (Bool-cases (servers.connects ip)) [
        | inl e ↦ rw (e, dial_first) next
        | inr e ↦
            rw (e, dial_first)
              (dial_first-EachPublic ips (dialled ++ ip ∷ []) (λ a there. all a (inr there)) next)
      ]

  dial-EachPublic :
      (host : String) (dialled : List String)
      → EachPublic dialled
      → EachPublic (dial net servers host dialled).1
  unfolding dial
  dial-EachPublic host dialled before = elim (Result-cases (resolve_and_check net host)) [
    | inr (x, e) ↦ rw (e, dial) before
    | inl (ips, e) ↦
        let after =
          dial_first-EachPublic ips dialled (resolve_and_check-public net host ips e).1 before in
        elim (Bool-cases (dial_first servers ips dialled).0) [
          | inl up ↦ rw (e, up, dial) after
          | inr down ↦ rw (e, down, dial) after
        ]
  ]

  request-EachPublic :
      (url : String) (dialled : List String)
      → EachPublic dialled
      → EachPublic (request net servers url dialled).1
  unfolding request
  request-EachPublic url dialled before = elim (Option-cases (net.hostname url)) [
    | inl nowhere ↦ rw (nowhere, request) before
    | inr (host, e) ↦
        let after = dial-EachPublic host dialled before in
        elim (Result-cases (dial net servers host dialled).0) [
          | inl (tt, up) ↦ rw (e, up, request) after
          | inr (x, down) ↦ rw (e, down, request) after
        ]
  ]

  follow-EachPublic :
      (left : ℕ) (url : String) (dialled : List String)
      → EachPublic dialled
      → EachPublic (follow net servers left url dialled).1
  unfolding follow
  follow-EachPublic zero url dialled before =
      let after = request-EachPublic url dialled before in
      elim (Result-cases (request net servers url dialled).0) [
        | inr (x, e) ↦ rw (e, follow) after
        | inl (response, e) ↦ rw (e, follow) after
      ]
  follow-EachPublic (suc left) url dialled before =
      let after = request-EachPublic url dialled before in
      elim (Result-cases (request net servers url dialled).0) [
        | inr (x, e) ↦ rw (e, follow) after
        | inl (no_response, e) ↦ rw (e, follow) after
        | inl (page doc, e) ↦ rw (e, follow) after
        | inl (redirect target doc, e) ↦ elim (Result-cases (check_ssrf net target)) [
          | inr (x, blocked) ↦ rw (e, blocked, follow) after
          | inl (tt, passes) ↦ rw (e, passes, follow) (follow-EachPublic left target _ after)
        ]
      ]

  execute-each :
      (patterns : List Pattern) (name : String) (args : Option String) (dialled : List String)
      → EachPublic dialled
      → EachPublic (execute patterns net servers name args dialled).1
  unfolding execute
  execute-each patterns name args dialled before = elim (Bool-cases (name == "web_fetch")) [
    | inr other ↦ rw (other, execute) before
    | inl own ↦ elim (Option-cases args) [
      | inl garbled ↦ rw (own, garbled, execute) before
      | inr (url, e) ↦ elim (Result-cases (check_ssrf net url)) [
        | inr (x, blocked) ↦ rw (own, e, blocked, execute) before
        | inl (tt, passes) ↦
            let after = follow-EachPublic 9 url dialled before in
            elim (Bool-cases (servers.makes_request url)) [
              | inr no_request ↦ rw (own, e, passes, no_request, execute) before
              | inl requested ↦ elim (Result-cases (follow net servers 9 url dialled).0) [
                | inl (doc, there) ↦ rw (own, e, passes, requested, there, execute) after
                | inr (x, failed) ↦ rw (own, e, passes, requested, failed, execute) after
              ]
            ]
      ]
    ]
  ]

  -- a log of dials
  pub record AllPublic (dialled : List String) : Type 0 where
    pub each : (addr : String) → Has addr dialled → IsPublic net addr

  -- A call dials only addresses that lie in none of the twelve private blocks or that net.ParseIP does
  -- not read, as those with a zone: at the URL of its argument and at every redirect, and whatever the
  -- servers and the resolver of names answer.
  pub execute-AllPublic :
      (patterns : List Pattern) (name : String) (args : Option String) (dialled : List String)
      → AllPublic dialled
      → AllPublic (execute patterns net servers name args dialled).1
  execute-AllPublic patterns name args dialled before = record {
    each = λ addr there. is_private_ip-IsPublic net addr (
        execute-each patterns name args dialled
          (λ a at. IsPublic-is_private_ip net a (before.each a at)) addr there);
  }

-- ===== src/Tools/Ssrf.antt =====
-- tools/ssrf.go: which hosts may be fetched.
-- The parsers of URLs and addresses and the resolver of names are parameters of a `Net`.
pub mod Agreement
mod Tests
use openharness.Prelude.{
  String, Bool, true, false, Option, none, some, List, [], ◌∷◌, ◌==◌, ◌||◌, ◌-◌, if◌then◌else◌,
}
use openharness.Prelude.Result.{Result, ok, err}
use Prim.Native.String.{slice, len}

-- the functions of `net`, `net/url` and `strings` that the checks call: the host name of a URL that
-- parses, whether a text is an address, whether an address lies in a block, the addresses of a name,
-- and `ToLower`
pub record Net : Type 0 where
  pub hostname : String → Option String
  pub parse_ip : String → Bool
  pub cidr_contains : String → String → Bool
  pub lookup_host : String → Option (List String)
  pub to_lower : String → String

pub data SsrfError : Type 0 where
  invalid_url missing_hostname : SsrfError
  blocked_hostname private_ip lookup_failed : String → SsrfError
  resolves_to_private : String → String → SsrfError

-- `strings.HasSuffix`
unfoldable pub has_suffix : String → String → Bool
has_suffix s suffix = slice s (len s - len suffix) (len s) == suffix

unfoldable pub is_blocked_hostname : Net → String → Bool
unfolding has_suffix
is_blocked_hostname net hostname =
    let lower = net.to_lower hostname in
    lower == "localhost"
    || lower == "metadata.google.internal"
    || has_suffix lower ".localhost"
    || has_suffix lower ".local"
    || has_suffix lower ".internal"

abbrev pub private_ranges : List String
private_ranges =
    "0.0.0.0/8" ∷ "10.0.0.0/8" ∷ "127.0.0.0/8" ∷ "169.254.0.0/16" ∷ "172.16.0.0/12"
    ∷ "192.168.0.0/16" ∷ "100.64.0.0/10" ∷ "::0/128" ∷ "::1/128" ∷ "fe80::/10" ∷ "fec0::/10"
    ∷ "fc00::/7" ∷ []

-- the loop over the blocks
unfoldable pub in_some_range : Net → String → List String → Bool
in_some_range net ip [] = false
in_some_range net ip (cidr ∷ more) =
    let rest = in_some_range net ip more in if net.cidr_contains cidr ip then true else rest

unfoldable pub is_private_ip : Net → String → Bool
unfolding in_some_range
is_private_ip net ip =
    let inside = in_some_range net ip private_ranges in if net.parse_ip ip then inside else false

-- the loop over the addresses of a name
unfoldable pub check_addresses : Net → String → List String → Result SsrfError Unit
unfolding is_private_ip
check_addresses net hostname [] = ok tt
check_addresses net hostname (addr ∷ more) =
    let rest = check_addresses net hostname more in
    if is_private_ip net addr then err (resolves_to_private hostname addr) else rest

-- `CheckSSRF` from the host name on
unfoldable pub check_hostname : Net → String → Result SsrfError Unit
unfolding is_blocked_hostname is_private_ip check_addresses
check_hostname net hostname =
    if hostname == ""
    then err missing_hostname
    else if is_blocked_hostname net hostname
    then err (blocked_hostname hostname)
    else if net.parse_ip hostname
    then (if is_private_ip net hostname then err (private_ip hostname) else ok tt)
    else elim (net.lookup_host hostname) [
      | none ↦ err (lookup_failed hostname)
      | some addrs ↦ check_addresses net hostname addrs
    ]

unfoldable pub check_ssrf : Net → String → Result SsrfError Unit
unfolding check_hostname
check_ssrf net raw_url = elim (net.hostname raw_url) [
  | none ↦ err invalid_url
  | some hostname ↦ check_hostname net hostname
]

unfoldable pub resolve_and_check : Net → String → Result SsrfError (List String)
unfolding is_blocked_hostname is_private_ip check_addresses
resolve_and_check net hostname =
    if hostname == ""
    then err missing_hostname
    else if is_blocked_hostname net hostname
    then err (blocked_hostname hostname)
    else if net.parse_ip hostname
    then (if is_private_ip net hostname then err (private_ip hostname) else ok (hostname ∷ []))
    else elim (net.lookup_host hostname) [
      | none ↦ err (lookup_failed hostname)
      | some addrs ↦ elim (check_addresses net hostname addrs) [ err e ↦ err e | ok _ ↦ ok addrs ]
    ]

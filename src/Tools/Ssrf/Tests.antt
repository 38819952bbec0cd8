-- ===== src/Tools/Ssrf/Tests.antt =====
-- tools/ssrf.go: a few hosts.
use openharness.Prelude.{
  String, true, false, ◌≡◌, refl, Option, none, some, List, [], ◌∷◌, ◌==◌, ◌||◌, ◌&&◌,
  if◌then◌else◌,
}
use openharness.Prelude.Result.{ok, err}
use openharness.Tools.Ssrf.{
  Net, resolves_to_private, check_ssrf, check_hostname, resolve_and_check, check_addresses,
  is_blocked_hostname, has_suffix, is_private_ip, in_some_range,
}
use openharness.Tools.Ssrf.Agreement.{forget_addresses, resolve_and_check-check_hostname}

lookup : String → Option (List String)
lookup name =
    if name == "a.com"
    then some ("93.1.1.1" ∷ [])
    else if name == "evil.com"
    then some ("93.1.1.1" ∷ "10.0.0.1" ∷ [])
    else if name == "fe80::1%eth0"
    then some ("fe80::1%eth0" ∷ [])
    else none

abbrev a_net : Net
a_net = record {
  hostname = λ url. some url;
  parse_ip = λ ip. ip == "93.1.1.1" || ip == "10.0.0.1";
  cidr_contains = λ cidr ip. cidr == "10.0.0.0/8" && ip == "10.0.0.1";
  lookup_host = lookup;
  to_lower = λ s. s;
}

suffixes : (has_suffix "db.internal" ".internal" ≡ true) × (has_suffix "local" ".local" ≡ false)
unfolding has_suffix
suffixes = (refl, refl)

evil_refused : check_ssrf a_net "evil.com" ≡ err (resolves_to_private "evil.com" "10.0.0.1")
unfolding check_ssrf check_hostname check_addresses is_blocked_hostname has_suffix is_private_ip
    in_some_range lookup
evil_refused = refl

a_resolved : resolve_and_check a_net "a.com" ≡ ok ("93.1.1.1" ∷ [])
unfolding resolve_and_check check_addresses is_blocked_hostname has_suffix is_private_ip
    in_some_range lookup
a_resolved = refl

-- A link-local address with a zone is no address to ParseIP, and resolves to itself.
zone_passes : resolve_and_check a_net "fe80::1%eth0" ≡ ok ("fe80::1%eth0" ∷ [])
unfolding resolve_and_check check_addresses is_blocked_hostname has_suffix is_private_ip
    in_some_range lookup
zone_passes = refl

resolve_and_check-check_hostname_example :
    check_hostname a_net "evil.com" ≡ forget_addresses (resolve_and_check a_net "evil.com")
resolve_and_check-check_hostname_example = resolve_and_check-check_hostname a_net "evil.com"

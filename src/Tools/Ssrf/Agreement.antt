-- ===== src/Tools/Ssrf/Agreement.antt =====
-- tools/ssrf.go: the addresses that pass, and that the two checks agree.
use openharness.Prelude.{
  String, Bool, true, false, ◌≡◌, refl, ap, ◌∙◌, Option, none, some, List, [], ◌∷◌, ◌==◌, Has, inl,
  inr, ◌⊎◌, Bool-cases, if◌then◌else◌, arith,
}
use openharness.Prelude.Result.{Result, ok, err, Result-cases}
use openharness.Tools.Ssrf.{
  Net, SsrfError, missing_hostname, blocked_hostname, private_ip, lookup_failed,
  is_blocked_hostname, is_private_ip, check_addresses, check_hostname, resolve_and_check,
}
use mathlib.Core.Path.{subst}

-- a check without the addresses
abbrev pub forget_addresses : Result SsrfError (List String) → Result SsrfError Unit
forget_addresses (ok addrs) = ok tt
forget_addresses (err e) = err e

-- the two checks over the answers that they ask for
module _ (hostname : String) (looked : Option (List String))
    (check : List String → Result SsrfError Unit) where
  abbrev url_check : Bool → Bool → Bool → Bool → Result SsrfError Unit
  url_check missing blocked is_ip private =
      if missing
      then err missing_hostname
      else if blocked
      then err (blocked_hostname hostname)
      else if is_ip
      then (if private then err (private_ip hostname) else ok tt)
      else elim looked [ none ↦ err (lookup_failed hostname) | some addrs ↦ check addrs ]

  abbrev dial_check : Bool → Bool → Bool → Bool → Result SsrfError (List String)
  dial_check missing blocked is_ip private =
      if missing
      then err missing_hostname
      else if blocked
      then err (blocked_hostname hostname)
      else if is_ip
      then (if private then err (private_ip hostname) else ok (hostname ∷ []))
      else elim looked [
        | none ↦ err (lookup_failed hostname)
        | some addrs ↦ elim (check addrs) [ err e ↦ err e | ok _ ↦ ok addrs ]
      ]

looked_alike :
    (hostname : String) (looked : Option (List String))
    (check : List String → Result SsrfError Unit)
    → url_check hostname looked check false false false false
      ≡ forget_addresses (dial_check hostname looked check false false false false)
looked_alike hostname none check = refl
looked_alike hostname (some addrs) check = elim (Result-cases (check addrs)) [
  | inl (tt, e) ↦ rw (e) refl
  | inr (x, e) ↦ rw (e) refl
]

checks_agree :
    (hostname : String) (looked : Option (List String))
    (check : List String → Result SsrfError Unit) (missing blocked is_ip private : Bool)
    → url_check hostname looked check missing blocked is_ip private
      ≡ forget_addresses (dial_check hostname looked check missing blocked is_ip private)
checks_agree hostname looked check true blocked is_ip private = refl
checks_agree hostname looked check false true is_ip private = refl
checks_agree hostname looked check false false true true = refl
checks_agree hostname looked check false false true false = refl
checks_agree hostname looked check false false false private = looked_alike hostname looked check

looked_up :
    (hostname : String) (looked : Option (List String))
    (check : List String → Result SsrfError Unit) (addrs : List String)
    → dial_check hostname looked check false false false false ≡ ok addrs
    → check addrs ≡ ok tt
looked_up hostname none check addrs = λ h. absurd (ground (arith, h))
looked_up hostname (some found) check addrs = elim (Result-cases (check found)) [
  | inl (tt, e) ↦ rw (e) (λ h. subst (λ l. check l ≡ ok tt) (ok_eq h) e)
  | inr (x, e) ↦ rw (e) (λ h. absurd (ground (arith, h)))
]
  where
    ok_eq : ◌≡◌ {A = Result SsrfError (List String)} (ok found) (ok addrs) → found ≡ addrs
    ok_eq h = ground (arith, h)

-- what an accepted host has passed
dial_passed :
    (hostname : String) (looked : Option (List String))
    (check : List String → Result SsrfError Unit) (missing blocked is_ip private : Bool)
    (addrs : List String)
    → dial_check hostname looked check missing blocked is_ip private ≡ ok addrs
    → (blocked ≡ false) × (((private ≡ false) × (addrs ≡ hostname ∷ [])) ⊎ (check addrs ≡ ok tt))
dial_passed hostname looked check true blocked is_ip private addrs h = absurd (ground (arith, h))
dial_passed hostname looked check false true is_ip private addrs h = absurd (ground (arith, h))
dial_passed hostname looked check false false true true addrs h = absurd (ground (arith, h))
dial_passed hostname looked check false false true false addrs h =
    (refl, inl (refl, ground (arith, h)))
dial_passed hostname looked check false false false private addrs h =
    (refl, inr (looked_up hostname looked check addrs h))

-- The two checks accept the same hosts, and refuse the others with the same error: what passes the
-- check of a URL passes the check of the dial, as long as the name resolves alike.
pub resolve_and_check-check_hostname :
    (net : Net) (hostname : String)
    → check_hostname net hostname ≡ forget_addresses (resolve_and_check net hostname)
unfolding check_hostname resolve_and_check
resolve_and_check-check_hostname net hostname =
    checks_agree hostname (net.lookup_host hostname) (check_addresses net hostname) (hostname == "")
      (is_blocked_hostname net hostname) (net.parse_ip hostname) (is_private_ip net hostname)

check_addresses-public :
    (net : Net) (hostname : String) (addrs : List String)
    → check_addresses net hostname addrs ≡ ok tt
    → (addr : String) → Has addr addrs
    → is_private_ip net addr ≡ false
unfolding check_addresses
check_addresses-public net hostname [] = λ h addr there. absurd there
check_addresses-public net hostname (first ∷ more) = elim (Bool-cases (is_private_ip net first)) [
  | inl inside ↦ rw (inside, check_addresses) (λ h. absurd (ground (arith, h)))
  | inr outside ↦
      rw (outside, check_addresses)
        (λ h addr there. elim there [
          | inl here ↦ ap (is_private_ip net) here ∙ outside
          | inr later ↦ check_addresses-public net hostname more h addr later
        ])
]

-- Every address that a dial is given is none of a private block, and the name is not blocked.
pub resolve_and_check-public :
    (net : Net) (hostname : String) (addrs : List String)
    → resolve_and_check net hostname ≡ ok addrs
    → (is_blocked_hostname net hostname ≡ false)
      × ((addr : String) → Has addr addrs → is_private_ip net addr ≡ false)
unfolding resolve_and_check
resolve_and_check-public net hostname addrs h =
    let passed =
      dial_passed hostname (net.lookup_host hostname) (check_addresses net hostname)
        (hostname == "") (is_blocked_hostname net hostname) (net.parse_ip hostname)
        (is_private_ip net hostname) addrs h in
    (
      passed.0,
      λ addr there. elim passed.1 [
        | inr checked ↦ check_addresses-public net hostname addrs checked addr there
        | inl alone ↦ ap (is_private_ip net) (only addr (subst (Has addr) alone.1 there)) ∙ alone.0
      ],
    )
  where
    only : (addr : String) → Has addr (hostname ∷ []) → addr ≡ hostname
    only addr (inl same) = same
    only addr (inr none_more) = absurd none_more

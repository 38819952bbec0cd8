-- ===== src/Providers/Registry/Closing.antt =====
-- providers/registry.go: which instances are closed along registrations.
use openharness.Prelude.{true, ◌≡◌, ◌≢◌, some, List, [], ◌∷◌, Has, inl, inr}
use openharness.Prelude.GoMap
use openharness.Prelude.GoMap.{GoMap, get-empty, get-put_self, get-put_ne, get-put_cases}
use openharness.Providers.Registry.{Provider, Registry, new_registry, register}
use openharness.Providers.Registry.Invariant.{IsValid, IsNew, register-IsValid}

unfoldable pub register_all : List Provider → Registry → Registry
unfolding register
register_all [] r = r
register_all (p ∷ ps) r = register_all ps (register p r)

abbrev pub AllNew : List Provider → List Provider → Type 0
AllNew seen [] = Unit {0}
AllNew seen (p ∷ ps) = IsNew p seen × AllNew (p ∷ seen) ps

-- the registrations so far, the last first
unfoldable pub all_seen : List Provider → List Provider → List Provider
all_seen seen [] = seen
all_seen seen (p ∷ ps) = all_seen (p ∷ seen) ps

register_all-IsValid :
    (ps seen : List Provider) (r : Registry)
    → IsValid seen r
    → AllNew seen ps
    → IsValid (all_seen seen ps) (register_all ps r)
unfolding register_all all_seen
register_all-IsValid [] seen r v new = v
register_all-IsValid (p ∷ ps) seen r v (one, new) =
    register_all-IsValid ps (p ∷ seen) (register p r) (register-IsValid seen r p v one) new

-- After any registrations in a new registry, of which none registers an instance again and before any
-- call of `Close`, a provider that is registered has not been closed, and one that implements io.Closer
-- and is no longer registered under its name has been.
pub register_all-closes :
    (ps : List Provider) (p : Provider)
    → AllNew [] ps
    → Has p (all_seen [] ps)
    → let r = register_all ps new_registry in
      (GoMap.get r.providers p.name ≡ some p → Has p.instance_id r.closed → ⊥)
      × (p.closable ≡ true → GoMap.get r.providers p.name ≢ some p → Has p.instance_id r.closed)
unfolding new_registry
register_all-closes ps p new at =
    let start : IsValid [] new_registry = record {
      named = λ k q e. absurd (cc (get-empty k));
      one_instance = λ q t h. absurd h;
      gone = λ q h. absurd h;
      known = λ i h. absurd h;
      settled = λ q h. absurd h;
    } in
    let v = register_all-IsValid ps [] new_registry start new in
    (
      λ now c. v.gone p at c now,
      λ can out. elim (v.settled p at can) [ inl c ↦ c | inr now ↦ absurd (out now) ],
    )

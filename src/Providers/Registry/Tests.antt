-- ===== src/Providers/Registry/Tests.antt =====
-- providers/registry.go: a provider that takes the place of another.
use openharness.Prelude.{ℕ, true, ◌≡◌, ◌≢◌, refl, ap, some, List, [], ◌∷◌, Has, arith, inl, inr}
use openharness.Prelude.GoMap
use openharness.Providers.Registry.{Provider, new_registry}
use openharness.Providers.Registry.Invariant.{IsNew}
use openharness.Providers.Registry.Closing.{AllNew, all_seen, register_all, register_all-closes}

abbrev client : ℕ → Provider
client n = record { name = "anthropic"; instance_id = n; closable = true }

abbrev both : List Provider
both = client 1 ∷ client 2 ∷ []

second-IsNew : IsNew (client 2) (client 1 ∷ [])
second-IsNew q (inl e) same = absurd (omega (arith, ap (λ (x : Provider). x.instance_id) e))
second-IsNew q (inr h) same = absurd h

both-New : AllNew [] both
both-New = ((λ q h. absurd h), (second-IsNew, tt))

first_seen : Has (client 1) (all_seen [] both)
unfolding all_seen
first_seen = inr (inl refl)

register_all-closes_example :
    let r = register_all both new_registry in
    (GoMap.get r.providers "anthropic" ≡ some (client 1) → Has 1 r.closed → ⊥)
    × (true ≡ true → GoMap.get r.providers "anthropic" ≢ some (client 1) → Has 1 r.closed)
register_all-closes_example = register_all-closes both (client 1) both-New first_seen

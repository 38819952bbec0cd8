-- ===== src/Providers/Registry.antt =====
-- providers/registry.go: the providers by name, and the closing of those that are replaced. A provider
-- is code of the application: of it are seen its name, whether it implements io.Closer, and which
-- instance it is.
pub mod Invariant
pub mod Closing
mod Tests
use openharness.Prelude.{
  ℕ, String, Bool, true, false, Option, none, some, List, [], ◌∷◌, if◌then◌else◌,
}
use openharness.Prelude.GoMap
use openharness.Prelude.GoMap.{GoMap}

pub record Provider : Type 0 where
  pub name : String
  pub instance_id : ℕ
  pub closable : Bool

-- `Registry`, and the instances whose `Close` it has called, the last first
pub record Registry : Type 0 where
  pub providers : GoMap Provider
  pub closed : List ℕ

unfoldable pub new_registry : Registry
unfolding GoMap.empty
new_registry = record { providers = GoMap.empty; closed = [] }

unfoldable pub close_one : Provider → List ℕ → List ℕ
close_one p closed = if p.closable then p.instance_id ∷ closed else closed

-- `Register`
unfoldable pub register : Provider → Registry → Registry
unfolding GoMap.get GoMap.put close_one
register p r = record {
  providers = GoMap.put r.providers p.name p;
  closed = elim (GoMap.get r.providers p.name) [
    | some old ↦ close_one old r.closed
    | none ↦ r.closed
  ];
}

-- `Get`, none for its error
unfoldable pub get : String → Registry → Option Provider
unfolding GoMap.get
get name r = GoMap.get r.providers name

-- the loop of `List`
unfoldable pub names : List (String × Provider) → List String
names [] = []
names ((name, p) ∷ visit) = name ∷ names visit

unfoldable pub close_each : List (String × Provider) → List ℕ → List ℕ
unfolding close_one
close_each [] closed = closed
close_each ((name, p) ∷ visit) closed = close_each visit (close_one p closed)

-- `Close`, over a range of the map: the providers stay registered
unfoldable pub close : List (String × Provider) → Registry → Registry
unfolding close_each
close visit r = record r { closed = close_each visit r.closed }

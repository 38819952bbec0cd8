-- ===== src/Config/Edition.antt =====
-- edition/edition.go: the limits of an edition.
use openharness.Prelude.{ℕ, String, Bool, true, false, leb, eqb, if◌then◌else◌}
use openharness.Prelude.Int64.{is_pos}

pub record Edition : Type 0 where
  pub name : String
  pub max_agents : ℕ
  pub max_teams : ℕ
  pub has_rbac : Bool
  pub has_sync : Bool
  pub has_admin : Bool
  pub has_billing : Bool
  pub has_scheduler : Bool
  pub db_backend : String

unfoldable pub is_limited : Edition → Bool
is_limited e = is_pos e.max_agents

-- numbers of agents that are not negative
unfoldable pub agent_limit_reached : Edition → ℕ → Bool
agent_limit_reached e current = if eqb e.max_agents 0 then false else leb e.max_agents current

abbrev pub lite : Edition
lite = record {
  name = "Lite";
  max_agents = 5;
  max_teams = 1;
  has_rbac = false;
  has_sync = false;
  has_admin = false;
  has_billing = false;
  has_scheduler = false;
  db_backend = "sqlite";
}

abbrev pub enterprise : Edition
enterprise = record {
  name = "Enterprise";
  max_agents = 0;
  max_teams = 0;
  has_rbac = true;
  has_sync = true;
  has_admin = true;
  has_billing = true;
  has_scheduler = true;
  db_backend = "postgresql";
}

-- ===== src/Tools/Definitions.antt =====
-- tools/tool.go: tool definitions and the tools that publish them.
use openharness.Prelude.{ℕ, String, List, Bool, true, false, eqb}

pub data ToolEffect : Type 0 where
  unspecified read mutate neutral interactive : ToolEffect

pub record ToolDefinition : Type 0 where
  pub name : String
  pub description : String
  pub parameters : String
  pub effects : ToolEffect

-- A `Tool` is an interface value: what it publishes, and an identity, by which Go compares two of
-- them. What it does on `Execute` is no part of a registry.
pub record Tool : Type 0 where
  pub identity : ℕ
  pub definitions : List ToolDefinition

abbrev pub is_unspecified : ToolEffect → Bool
is_unspecified unspecified = true
is_unspecified _ = false

abbrev pub same_tool : Tool → Tool → Bool
same_tool t u = eqb t.identity u.identity

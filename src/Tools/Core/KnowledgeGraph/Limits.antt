-- ===== src/Tools/Core/KnowledgeGraph/Limits.antt =====
-- tools/core/knowledge_graph.go: the number of results.
use openharness.Prelude.{ℕ, String, ◌≡◌, ◌≤◌, ◌==◌, arith, Bool-cases, inl, inr}
use openharness.Prelude.Int64.{is_pos}
use openharness.Tools.Core.KnowledgeGraph.Modes.{max_results_in}

-- A mode is asked for at least one and at most 100 results: as many as the caller wants where that is
-- 1 to 100.
pub max_results_bounds :
    (mode : String) (asked : ℕ)
    → (1 ≤ max_results_in mode asked)
      × (max_results_in mode asked ≤ 100)
      × (1 ≤ asked → asked ≤ 100 → max_results_in mode asked ≡ asked)
unfolding max_results_in
max_results_bounds mode asked = elim (Bool-cases (is_pos asked)) [
  | inl positive ↦
      rw (positive) (ground (arith, positive), ground (arith), λ low high. ground (arith, high))
  | inr other ↦ elim (Bool-cases (mode == "page")) [
    | inl page ↦
        rw (other, page) (omega arith, omega arith, λ low high. ground (arith, low, high, other))
    | inr search ↦
        rw (other, search) (omega arith, omega arith, λ low high. ground (arith, low, high, other))
  ]
]

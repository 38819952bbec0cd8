-- ===== src/Lite/AgentStore/Listing.antt =====
-- harness/lite/agent.go: what `List` returns, whatever order its `range` takes.
use mathlib.Core.Path.{subst}
use openharness.Prelude.{
  ℕ, String, ◌≡◌, ap, sym, ◌∙◌, true, false, none, some, List, [], ◌∷◌, arith, take, drop,
  drop_past, take_past, take-nil, Has, eq_iff, Bool-cases, inl, inr, if◌then◌else◌, ◌↔◌,
}
use openharness.Prelude.Result.{ok}
use openharness.Prelude.GoMap
use openharness.Prelude.GoMap.{IsRange, IsDistinct, Has-of_find, find_of_Has}
use openharness.Prelude.Int64.{is_pos}
use openharness.Harness.Types.{AgentDefinition, ListOpts}
use openharness.Lite.AgentStore
use openharness.Lite.AgentStore.{LiteAgentStore, listed, filtered, apply_offset, apply_limit}

-- The agent is live and belongs to the tenant.
pub record IsListed (tenant_id : String) (d : AgentDefinition) : Type 0 where
  pub tenant : d.tenant_id ≡ tenant_id
  pub live : d.archived_at ≡ none

listed-IsListed : (t : String) (d : AgentDefinition) → listed t d ≡ true → IsListed t d
unfolding listed
listed-IsListed t d h = record {
  tenant = ground (arith, eq_iff d.tenant_id t);
  live = ground arith;
}

IsListed-listed : (t : String) (d : AgentDefinition) → IsListed t d → listed t d ≡ true
unfolding listed
IsListed-listed t d h = ground (arith, eq_iff d.tenant_id t)

Has-filtered :
    (t : String) (visit : List (String × AgentDefinition)) (d : AgentDefinition)
    → Has d (filtered t visit)
    → (k : String) × Has (k, d) visit × IsListed t d
unfolding filtered
Has-filtered t [] d h = absurd h
Has-filtered t ((k, e) ∷ l) d h = elim (Bool-cases (listed t e)) [
  | inl keep ↦ here keep (Has-filtered t l d) (rw (keep, filtered) at h)
  | inr skip ↦ later (Has-filtered t l d (rw (skip, filtered) at h))
]
  where
    later :
        (k : String) × Has (k, d) l × IsListed t d
        → (j : String) × Has (j, d) ((k, e) ∷ l) × IsListed t d
    later (j, at_j, is) = (j, inr at_j, is)

    here :
        listed t e ≡ true
        → (Has d (filtered t l) → (k : String) × Has (k, d) l × IsListed t d)
        → Has d (e ∷ filtered t l)
        → (j : String) × Has (j, d) ((k, e) ∷ l) × IsListed t d
    here keep rest (inl same) = (
      k,
      inl (ap (λ (x : AgentDefinition). (k, x)) same),
      subst (IsListed t) (sym same) (listed-IsListed t e keep),
    )
    here keep rest (inr more) = later (rest more)

filtered-Has :
    (t : String) (visit : List (String × AgentDefinition)) (k : String) (d : AgentDefinition)
    → Has (k, d) visit
    → IsListed t d
    → Has d (filtered t visit)
unfolding filtered
filtered-Has t ((j, e) ∷ l) k d (inl same) is =
    rw
      (
        ap (λ (x : String × AgentDefinition). listed t x.1) (sym same) ∙ IsListed-listed t d is,
        filtered,
      )
      (inl (ap (λ (x : String × AgentDefinition). x.1) same))
filtered-Has t ((j, e) ∷ l) k d (inr more) is = elim (Bool-cases (listed t e)) [
  | inl keep ↦ rw (keep, filtered) (inr (filtered-Has t l k d more is))
  | inr skip ↦ rw (skip, filtered) (filtered-Has t l k d more is)
]
filtered-Has t [] k d h is = absurd h

-- Whatever the order of the range, without pagination an agent is returned exactly if the store
-- holds it, it is live and it belongs to the tenant.
pub list_complete :
    (s : LiteAgentStore) (visit : List (String × AgentDefinition)) (t : String) (opts : ListOpts)
    → IsRange s.agents visit
    → is_pos opts.offset ≡ false
    → is_pos opts.limit ≡ false
    → (r : List AgentDefinition) × (AgentStore.list visit t opts ≡ ok r)
      × ((d : AgentDefinition)
          → Has d r ↔ ((k : String) × (GoMap.get s.agents k ≡ some d) × IsListed t d))
unfolding AgentStore.list
list_complete s visit t opts range from_start all = (
  filtered t visit,
  rw (from_start, AgentStore.list) (rw all),
  λ d. (
    λ h.
        let (k, at_k, is) = Has-filtered t visit d h in
        (k, sym (range.same k) ∙ find_of_Has k d visit range.distinct at_k, is),
    λ h. filtered-Has t visit h.0 d (Has-of_find h.0 d visit (range.same h.0 ∙ h.1)) h.2,
  ),
)

-- The window of a list that an offset and a limit select; one that is not positive selects all.
abbrev pub skip_first : ℕ → List AgentDefinition → List AgentDefinition
skip_first n defs = if is_pos n then drop n defs else defs

abbrev pub keep_first : ℕ → List AgentDefinition → List AgentDefinition
keep_first n defs = if is_pos n then take n defs else defs

-- The guards of `List` against bounds past the end change nothing: the result is the window that
-- the offset and the limit select of the matching agents.
pub list_window :
    (visit : List (String × AgentDefinition)) (t : String) (opts : ListOpts)
    → AgentStore.list visit t opts
      ≡ ok (keep_first opts.limit (skip_first opts.offset (filtered t visit)))
unfolding AgentStore.list
list_window visit t opts =
    let all = filtered t visit in
    ground (
      arith,
      drop_past all opts.offset,
      take_past all opts.limit,
      take_past (drop opts.offset all) opts.limit,
      take-nil {A = AgentDefinition} opts.limit,
    )

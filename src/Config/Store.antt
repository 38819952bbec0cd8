-- ===== src/Config/Store.antt =====
-- config/config.go and config/store.go: the configuration and its file.
-- JSON is a parameter. Of the configuration are kept the fields that the code reads; the others are one
-- text. Save is given as the states of the files after each of its steps.
pub mod Atomicity
mod Tests
use openharness.Prelude.{
  String, Bool, true, false, Option, none, some, List, [], ◌∷◌, ◌==◌, not, ◌&&◌, if◌then◌else◌,
}
use openharness.Prelude.GoMap
use openharness.Prelude.GoMap.{GoMap}
use openharness.Prelude.Result.{Result, ok, err}

pub record AgentOverride : Type 0 where
  pub name : String
  pub model : String
  pub autonomy : String
  pub enabled : Bool

pub record AppConfig : Type 0 where
  pub default_model : String
  pub agents : List AgentOverride
  pub others : String

abbrev pub override : String → String → String → AgentOverride
override name model autonomy = record {
  name = name;
  model = model;
  autonomy = autonomy;
  enabled = true;
}

-- `Default`, with its other fields as an argument
abbrev pub default_config : String → AppConfig
default_config others = record {
  default_model = "google/gemma-4-31b-it:free";
  agents =
      override "harness" "anthropic/claude-haiku-4.5" "auto"
      ∷ override "analyst" "" "approval"
      ∷ override "scribe" "z-ai/glm-4.5-air:free" "approval"
      ∷ override "executive-assistant" "" "auto"
      ∷ override "fund-analyst" "" "approval"
      ∷ [];
  others = others;
}

-- the loop of `ResolveModel`
unfoldable pub overridden : String → List AgentOverride → Option String
overridden agent_name [] = none
overridden agent_name (a ∷ agents) =
    let rest = overridden agent_name agents in
    if a.name == agent_name && not (a.model == "") then some a.model else rest

unfoldable pub resolve_model : String → AppConfig → String
unfolding overridden
resolve_model agent_name cfg = elim (overridden agent_name cfg.agents) [
  | some model ↦ model
  | none ↦ cfg.default_model
]

pub record Codec : Type 0 where
  pub encode : AppConfig → Option String
  pub decode : String → Option AppConfig

pub data ConfigError : Type 0 where
  not_read not_decoded not_encoded no_temp not_written not_synced not_closed no_chmod not_renamed :
      ConfigError

abbrev pub Files : Type 0
Files = GoMap String

unfoldable pub filled : String → AppConfig → AppConfig
filled others cfg =
    if cfg.default_model == ""
    then record cfg { default_model = (default_config others).default_model }
    else cfg

-- `Load`, where `readable` is false for an error of the read other than a missing file
unfoldable pub load : Codec → String → Bool → String → Files → Result ConfigError AppConfig
unfolding filled
load codec others false path files = err not_read
load codec others true path files = elim (GoMap.get files path) [
  | none ↦ ok (default_config others)
  | some text ↦ elim (codec.decode text) [
    | none ↦ err not_decoded
    | some cfg ↦ ok (filled others cfg)
  ]
]

-- where a save fails; a write that fails leaves a part of the text
pub data Fault : Type 0 where
  nowhere at_create at_sync at_close at_chmod at_rename : Fault
  at_write : String → Fault

-- the files after the steps of a save, the last first, and the error
abbrev pub Trace : Type 0
Trace = Result ConfigError Unit × List Files

-- the end after a step that failed: the temporary file is removed, if that works
abbrev pub cleaned_up : Bool → ConfigError → String → Files → List Files → Trace
cleaned_up removes e temp files before =
    (err e, if removes then GoMap.delete files temp ∷ files ∷ before else files ∷ before)

-- `os.Rename`: what the temporary file holds is moved to the path
unfoldable pub rename : String → String → Files → Files
rename temp path files = elim (GoMap.get files temp) [
  | none ↦ files
  | some held ↦ GoMap.put (GoMap.delete files temp) path held
]

-- `Save` of a text, whose temporary file is `temp`
unfoldable pub save_text : Fault → Bool → String → String → String → Files → Trace
unfolding rename
save_text fault removes temp path text files =
    let created = GoMap.put files temp "" in
    let written = GoMap.put created temp text in
    elim fault [
      | at_create ↦ (err no_temp, files ∷ [])
      | at_write part ↦
          cleaned_up removes not_written temp (GoMap.put created temp part) (created ∷ files ∷ [])
      | at_sync ↦ cleaned_up removes not_synced temp written (created ∷ files ∷ [])
      | at_close ↦ cleaned_up removes not_closed temp written (created ∷ files ∷ [])
      | at_chmod ↦ cleaned_up removes no_chmod temp written (created ∷ files ∷ [])
      | at_rename ↦ cleaned_up removes not_renamed temp written (created ∷ files ∷ [])
      | nowhere ↦ (ok tt, rename temp path written ∷ written ∷ created ∷ files ∷ [])
    ]

unfoldable pub save : Codec → Fault → Bool → String → String → AppConfig → Files → Trace
unfolding save_text
save codec fault removes temp path cfg files = elim (codec.encode cfg) [
  | none ↦ (err not_encoded, files ∷ [])
  | some text ↦ save_text fault removes temp path text files
]

-- ===== src/Tools/Core/Exec/Allowed.antt =====
-- tools/core/exec.go: which commands are started.
use openharness.Prelude.{
  String, Bool, true, false, ◌≡◌, ◌≢◌, refl, ap, sym, ◌∙◌, ◌⊎◌, inl, inr, Option, some, List, [],
  ◌∷◌, ◌++◌, ◌==◌, ◌||◌, eq_iff, Has, Bool-cases, Option-cases, if◌then◌else◌, arith,
}
use openharness.Prelude.Fields.{trim_space, fields}
use openharness.Prelude.Paths.{base}
use openharness.Tools.Scrub.{Pattern}
use openharness.Tools.Core.Filesystem.{contains}
use openharness.Tools.Core.Exec.{
  DenyPattern, matches_deny_pattern, read_only_commands, mutating_commands, shell_wrappers,
  shell_metacharacters, listed, has_metacharacter, program, allowed_for, timeout, ExecParams, Ran,
  Started, execute,
}
use mathlib.Core.Bool.{true≢false, false≢true}

listed-Has : (name : String) (l : List String) → listed name l ≡ true → Has name l
unfolding listed
listed-Has name [] h = absurd (false≢true h)
listed-Has name (known ∷ more) h = elim (Bool-cases (known == name)) [
  | inl e ↦ inl (sym ((eq_iff known name).0 e))
  | inr e ↦ inr (listed-Has name more (rw e at h))
]

listed-ne :
    (name : String) (l : List String) → listed name l ≡ false → (w : String) → Has w l → name ≢ w
unfolding listed
listed-ne name (known ∷ more) h w there = elim (Bool-cases (known == name)) [
  | inl e ↦ absurd (ground (arith, h, e))
  | inr e ↦ elim there [
    | inl here ↦ λ same. ground (arith, eq_iff known name, e, here, same)
    | inr later ↦ listed-ne name more (rw e at h) w later
  ]
]
listed-ne name [] h w there = absurd there

has_metacharacter-false :
    (command : String) (l : List String)
    → has_metacharacter command l ≡ false
    → (meta : String) → Has meta l
    → contains command meta ≡ false
unfolding has_metacharacter
has_metacharacter-false command (known ∷ more) h meta there =
    elim (Bool-cases (contains command known)) [
      | inl e ↦ absurd (ground (arith, h, e))
      | inr e ↦ elim there [
        | inl here ↦ ap (contains command) here ∙ e
        | inr later ↦ has_metacharacter-false command more (rw e at h) meta later
      ]
    ]
has_metacharacter-false command [] h meta there = absurd there

matches_deny_pattern-false :
    (deny : List DenyPattern) (command : String)
    → matches_deny_pattern deny command ≡ false
    → (p : DenyPattern) → Has p deny
    → p command ≡ false
unfolding matches_deny_pattern
matches_deny_pattern-false (known ∷ more) command h p there = elim (Bool-cases (known command)) [
  | inl e ↦ absurd (true≢false (sym (rw (e) refl) ∙ h))
  | inr e ↦ elim there [
    | inl here ↦ ap (λ q. q command) here ∙ e
    | inr later ↦ matches_deny_pattern-false more command (rw e at h) p later
  ]
]
matches_deny_pattern-false [] command h p there = absurd there

-- The commands of a tool.
abbrev pub commands_of : String → List String
commands_of name =
    if name == "exec_read"
    then read_only_commands
    else if name == "exec_mutate"
    then mutating_commands
    else []

-- the texts that no command of a call has
abbrev pub forbidden : List String
forbidden =
    ";" ∷ "|" ∷ "&" ∷ "`" ∷ "$(" ∷ "${" ∷ ">" ∷ "<" ∷ "\n" ∷ "\r" ∷ "*" ∷ "?" ∷ "{" ∷ "}" ∷ "~" ∷ []

-- the first of the words, whose base name is a command of the tool and no wrapper
pub record HasProgram (name : String) (words : List String) : Type 0 where
  pub word : String
  pub rest : List String
  pub split : words ≡ word ∷ rest
  pub on_list : Has (base word) (commands_of name)
  pub no_wrapper : (w : String) → Has w shell_wrappers → base word ≢ w

no_empty_command : (name : String) → Has "" (commands_of name) → ⊥
unfolding listed
no_empty_command name = elim (Bool-cases (name == "exec_read")) [
  | inl a ↦ rw (a) (λ h. listed_out read_only_commands refl h)
  | inr a ↦ elim (Bool-cases (name == "exec_mutate")) [
    | inl b ↦ rw (a, b) (λ h. listed_out mutating_commands refl h)
    | inr b ↦ rw (a, b) (λ h. h)
  ]
]
  where
    listed_out : (l : List String) → listed "" l ≡ false → Has "" l → ⊥
    listed_out l e h = listed-ne "" l e "" h refl

program-HasProgram :
    (name : String) (words : List String)
    → Has (program words) (commands_of name)
    → ((w : String) → Has w shell_wrappers → program words ≢ w)
    → HasProgram name words
program-HasProgram name [] on none = absurd (no_empty_command name on)
program-HasProgram name (word ∷ rest) on none = record {
  word = word;
  rest = rest;
  split = refl;
  on_list = on;
  no_wrapper = none;
}

-- A command that passes the tests of the tool: it is not blank, it has none of the fifteen texts that
-- are listed as metacharacters, no pattern denies it, and the base name of its first word is on the
-- tool's list and is no wrapper. What the shell makes of the words is not said here.
pub record IsPermitted (deny : List DenyPattern) (name command : String) : Type 0 where
  pub not_blank : trim_space command ≢ ""
  pub plain : (meta : String) → Has meta forbidden → contains (trim_space command) meta ≡ false
  pub not_denied : (p : DenyPattern) → Has p deny → p (trim_space command) ≡ false
  pub called : HasProgram name (fields (trim_space command))

-- a guard that is passed
passed : (a : Bool) {x : Bool} → (if a then false else x) ≡ true → (a ≡ false) × (x ≡ true)
passed true h = absurd (false≢true h)
passed false h = (refl, h)

on_list_of :
    (name called : String)
    → (if name == "exec_read"
        then listed called read_only_commands
        else if name == "exec_mutate"
        then listed called mutating_commands
        else false)
      ≡ true
    → Has called (commands_of name)
on_list_of name called = elim (Bool-cases (name == "exec_read")) [
  | inl a ↦ rw (a) (listed-Has called read_only_commands)
  | inr a ↦ elim (Bool-cases (name == "exec_mutate")) [
    | inl b ↦ rw (a, b) (listed-Has called mutating_commands)
    | inr b ↦ rw (a, b) (λ h. false≢true h)
  ]
]

-- A command that is allowed passes each of the tests, whatever the other ones say.
pub allowed_for-IsPermitted :
    (deny : List DenyPattern) (name command : String)
    → allowed_for deny name command ≡ true
    → IsPermitted deny name command
unfolding allowed_for
allowed_for-IsPermitted deny name command h =
    let trimmed = trim_space command in
    let called = program (fields trimmed) in
    let (not_blank, h1) = passed (trimmed == "") h in
    let (plain, h2) = passed (has_metacharacter trimmed shell_metacharacters) h1 in
    let (not_denied, h3) = passed (matches_deny_pattern deny trimmed) h2 in
    let (no_wrapper, h4) = passed (listed called shell_wrappers) h3 in
    record {
      not_blank = λ e. true≢false (sym ((eq_iff trimmed "").1 e) ∙ not_blank);
      plain = has_metacharacter-false trimmed shell_metacharacters plain;
      not_denied = matches_deny_pattern-false deny trimmed not_denied;
      called =
          program-HasProgram name (fields trimmed) (on_list_of name called h4)
            (listed-ne called shell_wrappers no_wrapper);
    }

module _ (patterns : List Pattern) (deny : List DenyPattern) (run : Started → Ran) where
  -- A call starts nothing, or it starts the command of its argument, once, with the timeout of the call,
  -- and the command passes the tests of the tool: it is not blank, it has none of the listed
  -- metacharacters, no pattern denies it, and the base name of its first word is on the tool's list
  -- and is no wrapper. The program that runs is another one where that word is an assignment.
  pub execute-IsPermitted :
      (name : String) (args : Option ExecParams) (started : List Started)
      → let after = (execute patterns deny run name args started).1 in
        (after ≡ started)
        ⊎ ((params : ExecParams) × (args ≡ some params)
            × (after
                ≡ started
                  ++ record { command = params.command; within = timeout params.timeout_ms } ∷ [])
            × IsPermitted deny name params.command)
  unfolding execute
  execute-IsPermitted name args started =
      elim (Bool-cases (name == "exec_read" || name == "exec_mutate")) [
        | inr unknown ↦ inl (rw (unknown, execute) refl)
        | inl known ↦ elim (Option-cases args) [
          | inl absent ↦ inl (rw (known, absent, execute) refl)
          | inr (params, e) ↦ elim (Bool-cases (allowed_for deny name params.command)) [
            | inr refused ↦ inl (rw (known, e, refused, execute) refl)
            | inl allowed ↦ inr (
              params,
              e,
              rw (known, e, allowed, execute) refl,
              allowed_for-IsPermitted deny name params.command allowed,
            )
          ]
        ]
      ]

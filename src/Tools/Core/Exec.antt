-- ===== src/Tools/Core/Exec.antt =====
-- tools/core/exec.go and tools/shell_deny.go: commands of the shell, by an allow list.
-- Running a command is a parameter, and a regular expression is what its `MatchString` answers. The
-- commands that have been started are kept in a list.
pub mod Allowed
pub mod Timeout
mod Tests
use openharness.Prelude.{
  ℕ, String, Bool, true, false, Option, none, some, List, [], ◌∷◌, ◌++◌, ◌==◌, ◌||◌, ◌&&◌, ◌*◌, ◌%◌,
  ltb, if◌then◌else◌,
}
use openharness.Prelude.Fields.{trim_space, fields}
use openharness.Prelude.Int64.{is_pos, modulus}
use openharness.Prelude.Paths.{base}
use openharness.Prelude.Result.{Result, ok, err}
use openharness.Tools.Scrub.{Pattern, scrub_credentials}
use openharness.Tools.Core.Filesystem.{contains}

abbrev pub DenyPattern : Type 0
DenyPattern = String → Bool

-- the loop over `shellDenyPatterns`
unfoldable pub matches_deny_pattern : List DenyPattern → String → Bool
matches_deny_pattern [] command = false
matches_deny_pattern (matches_string ∷ more) command =
    let rest = matches_deny_pattern more command in if matches_string command then true else rest

abbrev pub read_only_commands : List String
read_only_commands =
    "ls" ∷ "cat" ∷ "grep" ∷ "rg" ∷ "git" ∷ "wc" ∷ "head" ∷ "tail" ∷ "date" ∷ "echo" ∷ "pwd" ∷ "find"
    ∷ "diff" ∷ "sort" ∷ "uniq" ∷ "cut" ∷ "tr" ∷ "jq" ∷ "which" ∷ "file" ∷ "stat" ∷ "tree" ∷ "du"
    ∷ "df" ∷ "uname" ∷ "whoami" ∷ []

abbrev pub mutating_commands : List String
mutating_commands = "mkdir" ∷ "cp" ∷ "mv" ∷ "touch" ∷ []

abbrev pub shell_wrappers : List String
shell_wrappers =
    "bash" ∷ "sh" ∷ "zsh" ∷ "fish" ∷ "python" ∷ "python3" ∷ "node" ∷ "ruby" ∷ "perl" ∷ "php"
    ∷ "curl" ∷ "wget" ∷ "env" ∷ "xargs" ∷ "sudo" ∷ []

abbrev pub shell_metacharacters : List String
shell_metacharacters =
    ";" ∷ "|" ∷ "&" ∷ "`" ∷ "$(" ∷ "${" ∷ ">" ∷ "<" ∷ "\n" ∷ "\r" ∷ "*" ∷ "?" ∷ "{" ∷ "}" ∷ "~" ∷ []

-- a lookup in a map to `true`
unfoldable pub listed : String → List String → Bool
listed name [] = false
listed name (known ∷ more) = let rest = listed name more in if known == name then true else rest

-- the loop over `shellMetacharacters`
unfoldable pub has_metacharacter : String → List String → Bool
has_metacharacter command [] = false
has_metacharacter command (meta ∷ more) =
    let rest = has_metacharacter command more in if contains command meta then true else rest

-- `filepath.Base(parts[0])`; a text that is not blank has a first part
abbrev pub program : List String → String
program [] = ""
program (part ∷ parts) = base part

unfoldable pub allowed_for : List DenyPattern → String → String → Bool
unfolding matches_deny_pattern listed has_metacharacter
allowed_for deny name command =
    let trimmed = trim_space command in
    let called = program (fields trimmed) in
    if trimmed == ""
    then false
    else if has_metacharacter trimmed shell_metacharacters
    then false
    else if matches_deny_pattern deny trimmed
    then false
    else if listed called shell_wrappers
    then false
    else if name == "exec_read"
    then listed called read_only_commands
    else if name == "exec_mutate"
    then listed called mutating_commands
    else false

unfoldable pub is_allowed : List DenyPattern → String → Bool
unfolding allowed_for
is_allowed deny command =
    allowed_for deny "exec_read" command || allowed_for deny "exec_mutate" command

abbrev pub default_timeout : ℕ
default_timeout = 30000000000

abbrev pub max_timeout : ℕ
max_timeout = 120000000000

abbrev pub capped : ℕ → ℕ
capped asked = if is_pos asked && ltb max_timeout asked then max_timeout else asked

-- the timeout in nanoseconds, an int64: the product wraps
unfoldable pub timeout : ℕ → ℕ
timeout timeout_ms =
    capped (if is_pos timeout_ms then timeout_ms * 1000000 % modulus else default_timeout)

pub record ExecParams : Type 0 where
  pub command : String
  pub timeout_ms : ℕ

-- how `cmd.Run` ends
pub data Ran : Type 0 where
  exited : ℕ → String → String → Ran
  failed : Ran

pub data ExecError : Type 0 where
  bad_arguments not_run : ExecError
  unknown_tool : String → ExecError
  not_allowed : String → String → ExecError

pub record ExecReply : Type 0 where
  pub stdout : String
  pub stderr : String
  pub exit_code : ℕ

-- a command given to `sh -c`, with its timeout
pub record Started : Type 0 where
  pub command : String
  pub within : ℕ

unfoldable pub reply_of : List Pattern → Ran → Result ExecError ExecReply
reply_of patterns failed = err not_run
reply_of patterns (exited code stdout stderr) = ok (record {
  stdout = scrub_credentials patterns stdout;
  stderr = scrub_credentials patterns stderr;
  exit_code = code;
})

unfoldable pub execute :
    List Pattern
    → List DenyPattern
    → (Started → Ran)
    → String
    → Option ExecParams
    → List Started
    → Result ExecError ExecReply × List Started
unfolding reply_of
execute patterns deny run name args started =
    if (name == "exec_read" || name == "exec_mutate")
    then elim args [
      | none ↦ (err bad_arguments, started)
      | some params ↦
          let next : Started = record {
            command = params.command;
            within = timeout params.timeout_ms;
          } in
          if allowed_for deny name params.command
          then (reply_of patterns (run next), started ++ next ∷ [])
          else (err (not_allowed name params.command), started)
    ]
    else (err (unknown_tool name), started)

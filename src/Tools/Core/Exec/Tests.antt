-- ===== src/Tools/Core/Exec/Tests.antt =====
-- tools/core/exec.go: a few commands.
use openharness.Prelude.{
  true, false, ◌≡◌, ◌≤◌, ◌<◌, ◌⊎◌, refl, some, Option, [], ◌∷◌, ◌++◌, ◌*◌, ltb, if◌then◌else◌,
}
use openharness.Prelude.Fields.{trim_space, fields}
use openharness.Prelude.Int64.{is_pos, sign_bit}
use openharness.Prelude.Paths.{base}
use openharness.Tools.Core.Filesystem.{contains}
use openharness.Tools.Core.Exec.{
  allowed_for, is_allowed, listed, has_metacharacter, matches_deny_pattern, timeout, max_timeout,
  default_timeout, ExecParams, Started, Ran, exited, execute,
}
use openharness.Tools.Core.Exec.Allowed.{IsPermitted, execute-IsPermitted}
use openharness.Tools.Core.Exec.Timeout.{timeout_bounds}

trimmed : trim_space "\t git  status \n" ≡ "git  status"
unfolding trim_space
trimmed = refl

two_fields : fields " git  status " ≡ "git" ∷ "status" ∷ []
unfolding fields
two_fields = refl

status_allowed :
    (allowed_for [] "exec_read" " git status" ≡ true)
    × (allowed_for [] "exec_mutate" " git status" ≡ false)
unfolding allowed_for trim_space fields listed has_metacharacter matches_deny_pattern contains base
status_allowed = (refl, refl)

chain_refused : is_allowed [] "ls; rm notes" ≡ false
unfolding is_allowed allowed_for trim_space fields listed has_metacharacter matches_deny_pattern
    contains base
chain_refused = refl

-- To the shell the first word of this command is an assignment.
assignment_allowed : allowed_for [] "exec_read" "X=/ls rm notes" ≡ true
unfolding allowed_for trim_space fields listed has_metacharacter matches_deny_pattern contains base
assignment_allowed = refl

-- A program of any directory is taken for the one that is on the list.
any_directory : allowed_for [] "exec_read" "./notes/ls" ≡ true
unfolding allowed_for trim_space fields listed has_metacharacter matches_deny_pattern contains base
any_directory = refl

-- The nanoseconds wrap to a negative duration.
wrapped_timeout : timeout 9223372036855 ≡ 9223372036855000000
unfolding timeout
wrapped_timeout = refl

listing : ExecParams
listing = record { command = "ls -l"; timeout_ms = 500000 }

abbrev empty_run : Started → Ran
empty_run s = exited 0 "" ""

execute-IsPermitted_example :
    let after = (execute [] [] empty_run "exec_read" (some listing) []).1 in
    (after ≡ [])
    ⊎ ((params : ExecParams) × (◌≡◌ {A = Option ExecParams} (some listing) (some params))
        × (after
            ≡ [] ++ record { command = params.command; within = timeout params.timeout_ms } ∷ [])
        × IsPermitted [] "exec_read" params.command)
execute-IsPermitted_example = execute-IsPermitted [] [] empty_run "exec_read" (some listing) []

timeout_bounds_example :
    ((timeout 500000 ≤ max_timeout) ⊎ (sign_bit ≤ timeout 500000))
    × ((is_pos 500000 ≡ true)
        → 500000 * 1000000 < sign_bit
        → (timeout 500000 ≤ max_timeout)
          × (timeout 500000
              ≡ (if ltb max_timeout (500000 * 1000000) then max_timeout else 500000 * 1000000)))
    × ((is_pos 500000 ≡ false) → timeout 500000 ≡ default_timeout)
timeout_bounds_example = timeout_bounds 500000

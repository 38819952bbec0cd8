-- ===== src/Harness/Errors.antt =====
-- harness/errors.go: the sentinel errors, which callers tell apart by `errors.Is`. The text that a
-- caller wraps round a sentinel is not modelled.
pub data HarnessError : Type 0 where
  not_found conflict archived unauthorized run_not_active token_expired : HarnessError
  verify_failed skill_not_found : HarnessError

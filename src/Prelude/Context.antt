-- ===== src/Prelude/Context.antt =====
-- Go's context: what `ctx.Err()` gives, none while the context is live.
use mathlib.Core.Option.{Option, none, some}

pub data ContextError : Type 0 where
  canceled deadline_exceeded : ContextError

-- a call of the context's cancel function: a context that is done keeps its error
abbrev pub cancel_context : Option ContextError → Option ContextError
cancel_context none = some canceled
cancel_context (some e) = some e

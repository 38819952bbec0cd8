-- ===== src/Sessions/Store/Refinement.antt =====
-- sessions/store.go: the store refines the abstract one.
use openharness.Prelude.{String, Option, none, some}
use openharness.Prelude.GoMap
use openharness.Prelude.GoMap.{GoMap}
use openharness.Prelude.Result.{Result, ok, err}
use openharness.Sessions.Store.{Codec, StoreError, not_opened, Loaded}
use Prim.Native.String

module _ (codec : Codec) (dir : String) where
  abbrev pub reply_of : Option Loaded → Result StoreError Loaded
  reply_of none = err not_opened
  reply_of (some loaded) = ok loaded

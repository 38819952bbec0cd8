-- ===== src/Sessions/Store/AbstractStore.antt =====
-- sessions/store.go: the abstract store, in which a file name has a session and the list of its
-- messages, or nothing, and when a file stands for them.
use openharness.Prelude.{
  String, true, ◌≡◌, Option, none, some, List, [], ◌∷◌, ◌++◌, ◌==◌, if◌then◌else◌,
}
use openharness.Prelude.GoMap
use openharness.Prelude.GoMap.{GoMap, get-put, get-delete, get-empty}
use openharness.Prelude.Result.{ok}
use openharness.Sessions.Store.{
  Codec, Time, Session, Message, Loaded, Files, works, path, meta_line, message_line, read_message,
  read_lines, empty_session, create_session, append_message, delete_session,
}
use openharness.Sessions.Store.Lines.{AllOneLine, unlines, IsStorable}

-- the calls of the store that change its files
pub data Op : Type 0 where
  create : Time → String → String → Op
  append : Time → String → Message → Op
  delete : String → Op

abbrev pub Abstract : Type 0
Abstract = String → Option Loaded

abbrev pub with_message : Time → Message → Loaded → Loaded
with_message now msg (sess, msgs) = (sess, msgs ++ read_message (message_line now msg) ∷ [])

abbrev pub add_to : Time → Message → Option Loaded → Option Loaded
add_to now msg none = none
add_to now msg (some loaded) = some (with_message now msg loaded)

abbrev pub new_session : Time → String → String → Session
new_session now id agent = record { id = id; agent_name = agent; created_at = now }

module _ (codec : Codec) (dir : String) where
  -- one call on a working disk
  unfoldable pub perform : Op → Files → Files
  unfolding create_session append_message delete_session
  perform (create now id agent) files = (create_session codec dir works now id agent files).1
  perform (append now id msg) files = (append_message codec dir works now id msg files).1
  perform (delete id) files = (delete_session dir true id files).1

  -- the same call on the abstract store
  abbrev pub replay_one : Op → Abstract → Abstract
  replay_one (create now id agent) abs k =
      if path dir id == k then some (new_session now id agent, []) else abs k
  replay_one (append now id msg) abs k = if path dir id == k then add_to now msg (abs k) else abs k
  replay_one (delete id) abs k = if path dir id == k then none else abs k

  unfoldable pub perform_all : List Op → Files → Files
  unfolding perform
  perform_all [] files = files
  perform_all (op ∷ ops) files = perform_all ops (perform op files)

  unfoldable pub replay : List Op → Abstract → Abstract
  replay [] abs = abs
  replay (op ∷ ops) abs = replay ops (replay_one op abs)

  -- The line that a call writes can be kept.
  abbrev pub IsKept : Op → Type 0
  IsKept (create now id agent) = IsStorable codec (meta_line (new_session now id agent))
  IsKept (append now id msg) = IsStorable codec (message_line now msg)
  IsKept (delete id) = Unit

  abbrev pub AllKept : List Op → Type 0
  AllKept [] = Unit
  AllKept (op ∷ ops) = IsKept op × AllKept ops

  -- a file that reads as a session and its messages
  abbrev pub Reads : String → Loaded → Type 0
  Reads text loaded =
      (texts : List String) × (text ≡ unlines texts)
      × AllOneLine texts
      × (read_lines codec texts (empty_session, []) ≡ ok loaded)

  abbrev pub Agrees : Option String → Option Loaded → Type 0
  Agrees none none = Unit
  Agrees (some text) (some loaded) = Reads text loaded
  Agrees _ _ = ⊥

  abbrev pub Refines : Files → Abstract → Type 0
  Refines files abs = (k : String) → Agrees (GoMap.get files k) (abs k)

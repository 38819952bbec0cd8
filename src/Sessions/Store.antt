-- ===== src/Sessions/Store.antt =====
-- sessions/store.go: conversations in JSONL files, one line for the session and one for each message.
-- The files are texts under their paths. JSON is a parameter: a codec, whose encoder may fail. A file
-- that exists can be opened and read; a write may fail at once or half way.
pub mod AbstractStore
pub mod Lines
pub mod Refinement
pub mod TooLong
mod Tests
use openharness.Prelude.{
  ℕ, String, Bool, true, false, Option, none, some, List, [], ◌∷◌, ◌++◌, ◌==◌, not, ◌||◌, ◌-◌, ltb,
  eqb, if◌then◌else◌,
}
use openharness.Prelude.GoMap
use openharness.Prelude.GoMap.{GoMap}
use openharness.Prelude.Paths.{join}
use openharness.Prelude.Result.{Result, ok, err}
use Prim.Native.Char.{Char, code}
use Prim.Native.String
use Prim.Native.String.{len, slice}

-- a `time.Time` as nanoseconds since Go's zero time
abbrev pub Time : Type 0
Time = ℕ

pub record Usage : Type 0 where
  pub input_tokens : ℕ
  pub output_tokens : ℕ

pub record Session : Type 0 where
  pub id : String
  pub agent_name : String
  pub created_at : Time

pub record Message : Type 0 where
  pub type_name : String
  pub role : String
  pub content : String
  pub tool_calls : String
  pub tool_call_id : String
  pub timestamp : Time
  pub usage : Option Usage

pub record JsonlLine : Type 0 where
  pub type_name : String
  pub id : String
  pub agent : String
  pub created_at : Time
  pub role : String
  pub content : String
  pub tool_calls : String
  pub tool_call_id : String
  pub timestamp : Time
  pub msg_usage : Option Usage

-- `json.Marshal`, which fails at tool calls that are no JSON, and `json.Unmarshal`
pub record Codec : Type 0 where
  pub encode : JsonlLine → Option String
  pub decode : String → Option JsonlLine

-- how a write fares: it succeeds, changes nothing, or leaves only a part of its text written
pub data Disk : Type 0 where
  works refused : Disk
  breaks : String → Disk

-- the errors, of which that of the scanner comes with what has been read
pub data StoreError : Type 0 where
  not_opened not_written not_removed : StoreError
  too_long : Session × List Message → StoreError

-- the files under their paths
abbrev pub Files : Type 0
Files = GoMap String

unfoldable pub path : String → String → String
path dir session_id = join dir (String.◌++◌ session_id ".jsonl")

-- `data, _ := json.Marshal(line)`, then the newline
unfoldable pub line_text : Codec → JsonlLine → String
line_text codec line = elim (codec.encode line) [ none ↦ "\n" | some text ↦ String.◌++◌ text "\n" ]

abbrev pub empty_session : Session
empty_session = record { id = ""; agent_name = ""; created_at = 0 }

abbrev pub meta_line : Session → JsonlLine
meta_line sess = record {
  type_name = "meta";
  id = sess.id;
  agent = sess.agent_name;
  created_at = sess.created_at;
  role = "";
  content = "";
  tool_calls = "";
  tool_call_id = "";
  timestamp = 0;
  msg_usage = none;
}

-- the line of a message, under the time that it has or gets
abbrev pub message_line : Time → Message → JsonlLine
message_line now msg = record {
  type_name = "message";
  id = "";
  agent = "";
  created_at = 0;
  role = msg.role;
  content = msg.content;
  tool_calls = msg.tool_calls;
  tool_call_id = msg.tool_call_id;
  timestamp = if eqb msg.timestamp 0 then now else msg.timestamp;
  msg_usage = msg.usage;
}

-- the message that a line is read as
abbrev pub read_message : JsonlLine → Message
read_message line = record {
  type_name = "";
  role = line.role;
  content = line.content;
  tool_calls = line.tool_calls;
  tool_call_id = line.tool_call_id;
  timestamp = line.timestamp;
  usage = line.msg_usage;
}

abbrev pub read_session : JsonlLine → Session
read_session line = record { id = line.id; agent_name = line.agent; created_at = line.created_at }

unfoldable pub written : Disk → String → String → Files → Files
written works file text files = GoMap.put files file text
written refused file text files = files
written (breaks left) file text files = GoMap.put files file left

-- `id` is the new UUID
unfoldable pub create_session :
    Codec → String → Disk → Time → String → String → Files → Session × Files
unfolding line_text written path
create_session codec dir disk now id agent_name files =
    let sess : Session = record { id = id; agent_name = agent_name; created_at = now } in
    (sess, written disk (path dir id) (line_text codec (meta_line sess)) files)

-- the write at the end of a file that was opened
unfoldable pub appended : Disk → String → String → String → Files → Result StoreError Unit × Files
appended works file old text files = (ok tt, GoMap.put files file (String.◌++◌ old text))
appended refused file old text files = (err not_written, files)
appended (breaks part) file old text files =
    (err not_written, GoMap.put files file (String.◌++◌ old part))

unfoldable pub append_message :
    Codec → String → Disk → Time → String → Message → Files → Result StoreError Unit × Files
unfolding path line_text appended
append_message codec dir disk now session_id msg files =
    elim (GoMap.get files (path dir session_id)) [
      | none ↦ (err not_opened, files)
      | some old ↦
          appended disk (path dir session_id) old (line_text codec (message_line now msg)) files
    ]

onto_first : Char → List String → List String
onto_first c [] = String.◌∷◌ c "" ∷ []
onto_first c (s ∷ more) = String.◌∷◌ c s ∷ more

-- `bufio.ScanLines`: the lines between newlines, and what stands after the last one unless it is empty
unfoldable pub scan_lines : String → List String
unfolding onto_first
scan_lines String.[] = []
scan_lines (String.◌∷◌ c s) =
    let rest = scan_lines s in if eqb (code c) 10 then "" ∷ rest else onto_first c rest

-- a carriage return before the newline is dropped
unfoldable pub drop_cr : String → String
drop_cr line =
    let end = len line - 1 in if slice line end (len line) == "\r" then slice line 0 end else line

-- `bufio.MaxScanTokenSize`, the bytes of the scanner's buffer, in which a line stands with its newline
abbrev pub max_scan_token_size : ℕ
max_scan_token_size = 65536

abbrev pub Loaded : Type 0
Loaded = Session × List Message

-- one line that decodes: `meta` replaces the session, `message` is appended
unfoldable pub read_line : JsonlLine → Loaded → Loaded
read_line line (sess, msgs) =
    if line.type_name == "meta"
    then (read_session line, msgs)
    else if line.type_name == "message"
    then (sess, msgs ++ read_message line ∷ [])
    else (sess, msgs)

-- the loop over the lines, with the scanner's error
unfoldable pub read_lines : Codec → List String → Loaded → Result StoreError Loaded
unfolding read_line
read_lines codec [] loaded = ok loaded
read_lines codec (line ∷ more) loaded =
    let skip = read_lines codec more loaded in
    let next : Result StoreError Loaded = elim (codec.decode (drop_cr line)) [
      | none ↦ skip
      | some decoded ↦ read_lines codec more (read_line decoded loaded)
    ] in
    if ltb (len line) max_scan_token_size then next else err (too_long loaded)

unfoldable pub load_session : Codec → String → String → Files → Result StoreError Loaded
unfolding path read_lines scan_lines
load_session codec dir session_id files = elim (GoMap.get files (path dir session_id)) [
  | none ↦ err not_opened
  | some text ↦ read_lines codec (scan_lines text) (empty_session, [])
]

-- an entry of `os.ReadDir`
pub record DirEntry : Type 0 where
  pub name : String
  pub is_dir : Bool

-- `strings.TrimSuffix(name, ".jsonl")` where the name has the suffix
unfoldable pub session_id_of : String → Option String
session_id_of name =
    let cut = len name - 6 in
    if slice name cut (len name) == ".jsonl" then some (slice name 0 cut) else none

unfoldable pub list_sessions : Codec → String → List DirEntry → Files → List Session
unfolding session_id_of load_session
list_sessions codec dir [] files = []
list_sessions codec dir (e ∷ entries) files =
    let rest = list_sessions codec dir entries files in
    if e.is_dir then rest else elim (session_id_of e.name) [
      | none ↦ rest
      | some id ↦ elim (load_session codec dir id files) [
        | err _ ↦ rest
        | ok loaded ↦ loaded.0 ∷ rest
      ]
    ]

unfoldable pub delete_session : String → Bool → String → Files → Result StoreError Unit × Files
unfolding path
delete_session dir removable session_id files = elim (GoMap.get files (path dir session_id)) [
  | none ↦ (err not_removed, files)
  | some _ ↦
      if removable
      then (ok tt, GoMap.delete files (path dir session_id))
      else (err not_removed, files)
]

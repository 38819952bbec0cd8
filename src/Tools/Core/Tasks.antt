-- ===== src/Tools/Core/Tasks.antt =====
-- tools/core/tasks.go: the task list, which every call loads from a file and saves to it again.
-- The JSON of an argument is given by what its decoding yields, `none` for an error; that of the file
-- is a parameter, a codec. A write may fail at the directory or half way.
pub mod Effects
pub mod Failures
mod Tests
use openharness.Prelude.{
  ℕ, String, Option, none, some, List, [], ◌∷◌, ◌++◌, length, ◌==◌, if◌then◌else◌,
}
use openharness.Prelude.Result.{Result, ok, err}

pub record TaskItem : Type 0 where
  pub id : String
  pub subject : String
  pub description : String
  pub active_form : String
  pub status : String

-- what is at the store path
pub data File : Type 0 where
  missing unreadable : File
  holds : String → File

-- `json.MarshalIndent` and `json.Unmarshal` of a list of tasks
pub record Codec : Type 0 where
  pub encode : List TaskItem → Option String
  pub decode : String → Option (List TaskItem)

-- how `MkdirAll` and `WriteFile` fare; a write that fails leaves some file behind
pub data Disk : Type 0 where
  works no_directory : Disk
  breaks : File → Disk

pub data TaskError : Type 0 where
  bad_arguments not_saved : TaskError
  not_found unknown_tool : String → TaskError

pub record CreateParams : Type 0 where
  pub subject : String
  pub description : String
  pub active_form : String

-- pointers: `none` for a field that is not given
pub record UpdateParams : Type 0 where
  pub id : String
  pub status : Option String
  pub subject : Option String
  pub description : Option String
  pub active_form : Option String

-- the argument of a call, as each of the tools decodes it
pub record Args : Type 0 where
  pub create : Option CreateParams
  pub update : Option UpdateParams
  pub get : Option String

pub data Reply : Type 0 where
  task : TaskItem → Reply
  tasks : List TaskItem → ℕ → Reply

unfoldable pub load : Codec → File → List TaskItem
load codec missing = []
load codec unreadable = []
load codec (holds text) = elim (codec.decode text) [ none ↦ [] | some items ↦ items ]

-- `os.WriteFile`
unfoldable pub write : Disk → String → File → Result TaskError Unit × File
write works text f = (ok tt, holds text)
write no_directory text f = (err not_saved, f)
write (breaks left) text f = (err not_saved, left)

-- `save`, with the file after it
unfoldable pub save : Codec → Disk → List TaskItem → File → Result TaskError Unit × File
unfolding write
save codec disk items f = elim (codec.encode items) [
  | none ↦ (err not_saved, f)
  | some text ↦ write disk text f
]

abbrev pub Outcome : Type 0
Outcome = Result TaskError Reply × File

-- the end of `create` and `update`
unfoldable pub save_and_reply : Codec → Disk → List TaskItem → TaskItem → File → Outcome
unfolding save
save_and_reply codec disk items item f =
    let after = save codec disk items f in
    (elim after.0 [ ok _ ↦ ok (task item) | err e ↦ err e ], after.1)

abbrev pub new_task : String → CreateParams → TaskItem
new_task id params = record {
  id = id;
  subject = params.subject;
  description = params.description;
  active_form = params.active_form;
  status = "pending";
}

-- `create`, where `id` is the start of the new UUID
unfoldable pub create : Codec → Disk → String → Option CreateParams → File → Outcome
unfolding load save_and_reply
create codec disk id none f = (err bad_arguments, f)
create codec disk id (some params) f =
    save_and_reply codec disk (load codec f ++ new_task id params ∷ []) (new_task id params) f

abbrev pub or_else : Option String → String → String
or_else none old = old
or_else (some given) old = given

unfoldable pub changed : UpdateParams → TaskItem → TaskItem
changed params item = record item {
  status = or_else params.status item.status;
  subject = or_else params.subject item.subject;
  description = or_else params.description item.description;
  active_form = or_else params.active_form item.active_form;
}

-- the loop of `get`: the first task with the ID
unfoldable pub find_task : String → List TaskItem → Option TaskItem
find_task id [] = none
find_task id (item ∷ items) = if item.id == id then some item else find_task id items

-- the loop of `update`, which changes the first task with the ID in place
unfoldable pub change_first : UpdateParams → List TaskItem → List TaskItem
unfolding changed
change_first params [] = []
change_first params (item ∷ items) =
    let rest = change_first params items in
    if item.id == params.id then changed params item ∷ items else item ∷ rest

unfoldable pub update : Codec → Disk → Option UpdateParams → File → Outcome
unfolding load find_task change_first changed save_and_reply
update codec disk none f = (err bad_arguments, f)
update codec disk (some params) f = elim (find_task params.id (load codec f)) [
  | none ↦ (err (not_found params.id), f)
  | some item ↦
      save_and_reply codec disk (change_first params (load codec f)) (changed params item) f
]

unfoldable pub get : Codec → Option String → File → Result TaskError Reply
unfolding load find_task
get codec none f = err bad_arguments
get codec (some id) f = elim (find_task id (load codec f)) [
  | none ↦ err (not_found id)
  | some item ↦ ok (task item)
]

unfoldable pub list : Codec → File → Reply
unfolding load
list codec f = tasks (load codec f) (length (load codec f))

-- `Execute`, under the mutex
unfoldable pub execute : Codec → Disk → String → String → Args → File → Outcome
unfolding create update get list
execute codec disk id name args f =
    if name == "task_create"
    then create codec disk id args.create f
    else if name == "task_update"
    then update codec disk args.update f
    else if name == "task_get"
    then (get codec args.get f, f)
    else if name == "task_list"
    then (ok (list codec f), f)
    else (err (unknown_tool name), f)

-- ===== src/Tools/Core/Tasks/Effects.antt =====
-- tools/core/tasks.go: what the calls do to the tasks that a later `task_get` finds.
use openharness.Prelude.{
  String, ◌≡◌, ◌≢◌, refl, ap, ◌∙◌, Option, none, some, List, [], ◌∷◌, ◌++◌, length, arith, ◌==◌,
  ◌⊎◌, eq_iff, if◌then◌else◌, Bool-cases, Option-cases, inl, inr,
}
use openharness.Prelude.Result.{ok, err}
use mathlib.Core.Path.{subst}
use mathlib.Core.Option
use openharness.Tools.Core.Tasks
use openharness.Tools.Core.Tasks.{
  TaskItem, File, holds, Codec, Disk, works, no_directory, breaks, TaskError, bad_arguments,
  not_found, not_saved, unknown_tool, CreateParams, UpdateParams, Args, Reply, task, tasks, load,
  write, save, save_and_reply, new_task, create, or_else, changed, find_task, change_first, update,
  get, list, execute,
}

find_task_here :
    (id : String) (item : TaskItem) (items : List TaskItem)
    → item.id ≡ id
    → find_task id (item ∷ items) ≡ some item
unfolding find_task
find_task_here id item items e = ground (arith, eq_iff item.id id)

find_task_later :
    (id : String) (item : TaskItem) (items : List TaskItem)
    → item.id ≢ id
    → find_task id (item ∷ items) ≡ find_task id items
unfolding find_task
find_task_later id item items e = ground (arith, eq_iff item.id id)

-- the first of two lists that has the ID
abbrev pub or_new : Option TaskItem → Option TaskItem → Option TaskItem
or_new (some old) other = some old
or_new none other = other

find_task-append :
    (k : String) (items : List TaskItem) (x : TaskItem)
    → find_task k (items ++ x ∷ [])
      ≡ or_new (find_task k items) (if x.id == k then some x else none)
unfolding find_task
find_task-append k [] x = refl
find_task-append k (item ∷ items) x = elim (Bool-cases (item.id == k)) [
  | inl same ↦ rw (same, find_task) refl
  | inr other ↦ rw (other, find_task) (find_task-append k items x)
]

find_task-change_first :
    (k : String) (params : UpdateParams) (items : List TaskItem)
    → find_task k (change_first params items) ≡ (
        if params.id == k
        then Option.map (changed params) (find_task k items)
        else find_task k items)
unfolding find_task change_first
find_task-change_first k params [] = ground arith
find_task-change_first k params (x ∷ items) = ground (
  arith,
  eq_iff x.id params.id,
  eq_iff x.id k,
  eq_iff params.id k,
  find_task-change_first k params items,
)

length-change_first :
    (params : UpdateParams) (items : List TaskItem)
    → length (change_first params items) ≡ length items
unfolding change_first
length-change_first params [] = refl
length-change_first params (x ∷ items) = ground (arith, length-change_first params items)

-- a field after an update: what is given for it, or what it was
abbrev pub IsField : Option String → String → String → Type 0
IsField none old new = new ≡ old
IsField (some given) old new = new ≡ given

-- a task after an update: each field that is given is changed, each other one and the ID are kept
pub record IsUpdated (params : UpdateParams) (old new : TaskItem) : Type 0 where
  pub id : new.id ≡ old.id
  pub status : IsField params.status old.status new.status
  pub subject : IsField params.subject old.subject new.subject
  pub description : IsField params.description old.description new.description
  pub active_form : IsField params.active_form old.active_form new.active_form

or_else-IsField : (given : Option String) (old : String) → IsField given old (or_else given old)
or_else-IsField none old = refl
or_else-IsField (some given) old = refl

changed-IsUpdated :
    (params : UpdateParams) (item : TaskItem) → IsUpdated params item (changed params item)
unfolding changed
changed-IsUpdated params item = record {
  id = refl;
  status = or_else-IsField params.status item.status;
  subject = or_else-IsField params.subject item.subject;
  description = or_else-IsField params.description item.description;
  active_form = or_else-IsField params.active_form item.active_form;
}

-- what is encoded is decoded again
abbrev pub IsCodec : Codec → Type 0
IsCodec codec =
    (items : List TaskItem) (text : String)
    → codec.encode items ≡ some text
    → codec.decode text ≡ some items

write_cases :
    (disk : Disk) (text : String) (f : File)
    → ((write disk text f).0 ≡ ok tt) ⊎ ((write disk text f).0 ≡ err not_saved)
unfolding write
write_cases works text f = inl refl
write_cases no_directory text f = inr refl
write_cases (breaks left) text f = inr refl

module _ (codec : Codec) where
  -- a list that has been saved is the one that is loaded
  save-load :
      IsCodec codec
      → (disk : Disk) (items : List TaskItem) (f : File) → (save codec disk items f).0 ≡ ok tt
      → load codec (save codec disk items f).1 ≡ items
  unfolding load save write
  save-load law disk items f = elim (Option-cases (codec.encode items)) [
    | inl failed ↦ rw (failed, save) (λ done. absurd (ground (arith, done)))
    | inr (text, e) ↦ rw (e, save) (written disk text (law items text e))
  ]
    where
      written :
          (disk : Disk) (text : String)
          → codec.decode text ≡ some items
          → (write disk text f).0 ≡ ok tt
          → load codec (write disk text f).1 ≡ items
      written works text back done = rw (back, load) refl
      written no_directory text back done = absurd (ground (arith, done))
      written (breaks left) text back done = absurd (ground (arith, done))

  save_cases :
      (disk : Disk) (items : List TaskItem) (f : File)
      → ((save codec disk items f).0 ≡ ok tt) ⊎ ((save codec disk items f).0 ≡ err not_saved)
  unfolding save
  save_cases disk items f = elim (Option-cases (codec.encode items)) [
    | inl failed ↦ rw (failed, save) (inr refl)
    | inr (text, e) ↦ rw (e, save) (write_cases disk text f)
  ]

  -- the reply of a call that has saved, and the tasks after it
  save_and_reply-load :
      IsCodec codec
      → (disk : Disk) (items : List TaskItem) (item : TaskItem) (f : File)
      → let after = save_and_reply codec disk items item f in
        after.0 ≢ err not_saved → (after.0 ≡ ok (task item)) × (load codec after.1 ≡ items)
  unfolding save_and_reply
  save_and_reply-load law disk items item f saved = elim (save_cases disk items f) [
    | inl done ↦ (rw (done, save_and_reply) refl, save-load law disk items f done)
    | inr failed ↦ absurd (saved (rw (failed, save_and_reply) refl))
  ]

  pub update_found :
      (disk : Disk) (params : UpdateParams) (f : File) (item : TaskItem)
      → find_task params.id (load codec f) ≡ some item
      → update codec disk (some params) f
        ≡ save_and_reply codec disk (change_first params (load codec f)) (changed params item) f
  unfolding update
  update_found disk params f item found = rw (found, update) refl

  -- After `task_create` that has saved, the reply is the new task, pending under the generated ID; a
  -- task is found under an ID as before, and else the new one under its own.
  pub create-find_task :
      IsCodec codec
      → (disk : Disk) (id : String) (params : CreateParams) (f : File)
      → let after = create codec disk id (some params) f in
        after.0 ≢ err not_saved
        → (after.0 ≡ ok (task (new_task id params)))
          × ((k : String)
              → find_task k (load codec after.1)
                ≡ or_new
                    (find_task k (load codec f))
                    (if id == k then some (new_task id params) else none))
  unfolding create
  create-find_task law disk id params f saved =
      let (reply, there) =
        save_and_reply-load law disk (load codec f ++ new_task id params ∷ []) (new_task id params)
          f saved in
      (reply, λ k. ap (find_task k) there ∙ find_task-append k (load codec f) (new_task id params))

  -- Where what the JSON of the file encodes decodes to itself, and on any disk: when `task_update` of a
  -- task that is found does not fail to save, it replies with the task in which each field that is
  -- given is changed and nothing else; after it this task is found so, every other ID finds what it
  -- found before, and there are as many tasks as before.
  pub update-find_task :
      IsCodec codec
      → (disk : Disk) (params : UpdateParams) (f : File) (item : TaskItem)
      → find_task params.id (load codec f) ≡ some item
      → let after = update codec disk (some params) f in
        after.0 ≢ err not_saved
        → (new : TaskItem) × IsUpdated params item new
          × (after.0 ≡ ok (task new))
          × ((k : String)
              → find_task k (load codec after.1)
                ≡ (if params.id == k then some new else find_task k (load codec f)))
          × (length (load codec after.1) ≡ length (load codec f))
  update-find_task law disk params f item found saved =
      let step = update_found disk params f item found in
      let (reply, there) =
        save_and_reply-load law disk (change_first params (load codec f)) (changed params item) f
          (subst (λ (x : Tasks.Outcome). x.0 ≢ err not_saved) step saved) in
      let after : load codec (update codec disk (some params) f).1
          ≡ change_first params (load codec f) =
        ap (λ (x : Tasks.Outcome). load codec x.1) step ∙ there in
      (
        changed params item,
        changed-IsUpdated params item,
        ap (λ (x : Tasks.Outcome). x.0) step ∙ reply,
        λ k. ap (find_task k) after ∙ later k,
        ap (λ (l : List TaskItem). length l) after ∙ length-change_first params (load codec f),
      )
    where
      later :
          (k : String)
          → find_task k (change_first params (load codec f))
            ≡ (if params.id == k then some (changed params item) else find_task k (load codec f))
      later k = elim (Bool-cases (params.id == k)) [
        | inl same ↦
            let at : find_task k (load codec f) ≡ some item =
              subst (λ j. find_task j (load codec f) ≡ some item) ((eq_iff params.id k).0 same)
                found in
            rw (find_task-change_first k params (load codec f)) (rw same (rw at refl))
        | inr other ↦ rw (find_task-change_first k params (load codec f)) (rw other refl)
      ]

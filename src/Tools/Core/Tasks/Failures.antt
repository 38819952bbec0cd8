-- ===== src/Tools/Core/Tasks/Failures.antt =====
-- tools/core/tasks.go: what a call that fails leaves of the file.
use openharness.Prelude.{
  String, Bool, true, false, ◌≡◌, ◌≢◌, refl, sym, Option, none, some, List, [], ◌∷◌, ◌++◌, ◌==◌,
  if◌then◌else◌, Option-cases, inl, inr,
}
use openharness.Prelude.Result.{ok, err}
use mathlib.Core.Path.{subst}
use openharness.Tools.Core.Tasks
use openharness.Tools.Core.Tasks.{
  TaskItem, File, holds, Codec, Disk, works, no_directory, breaks, TaskError, bad_arguments,
  not_found, not_saved, unknown_tool, CreateParams, UpdateParams, Args, Reply, task, tasks, load,
  write, save, save_and_reply, new_task, create, or_else, changed, find_task, change_first, update,
  get, list, execute,
}
use openharness.Tools.Core.Tasks.Effects.{update_found}

-- The file is kept where the reply is an error.
abbrev Kept : File → Tasks.Outcome → Type 0
Kept f o = (e : TaskError) → o.0 ≡ err e → o.1 ≡ f

if-Kept :
    (b : Bool) (f : File) (x y : Tasks.Outcome) → Kept f x → Kept f y → Kept f (if b then x else y)
if-Kept true f x y h k = h
if-Kept false f x y h k = k

module _ (codec : Codec) where
  update_missing :
      (disk : Disk) (params : UpdateParams) (f : File)
      → find_task params.id (load codec f) ≡ none
      → update codec disk (some params) f ≡ (err (not_found params.id), f)
  unfolding update
  update_missing disk params f absent = rw (absent, update) refl

  save_and_reply-Kept :
      (disk : Disk) (items : List TaskItem) (item : TaskItem) (f : File)
      → ((left : File) → disk ≢ breaks left)
      → Kept f (save_and_reply codec disk items item f)
  unfolding save_and_reply save write
  save_and_reply-Kept disk items item f whole = elim (Option-cases (codec.encode items)) [
    | inl failed ↦ rw (failed, save_and_reply, save) (λ e _. refl)
    | inr (text, e) ↦ rw (e, save_and_reply, save) (write-Kept disk text whole)
  ]
    where
      write-Kept :
          (disk : Disk) (text : String)
          → ((left : File) → disk ≢ breaks left)
          → Kept f (
            elim (write disk text f).0 [ ok _ ↦ ok (task item) | err e ↦ err e ],
            (write disk text f).1,
          )
      write-Kept works text whole e failed = absurd (cc)
      write-Kept no_directory text whole e failed = refl
      write-Kept (breaks left) text whole e failed = absurd (whole left refl)

  create-Kept :
      (disk : Disk) (id : String) (params : Option CreateParams) (f : File)
      → ((left : File) → disk ≢ breaks left)
      → Kept f (create codec disk id params f)
  unfolding create
  create-Kept disk id none f whole e failed = refl
  create-Kept disk id (some params) f whole e failed =
      save_and_reply-Kept disk (load codec f ++ new_task id params ∷ []) (new_task id params) f
        whole e failed

  update-Kept :
      (disk : Disk) (params : Option UpdateParams) (f : File)
      → ((left : File) → disk ≢ breaks left)
      → Kept f (update codec disk params f)
  unfolding update
  update-Kept disk none f whole = λ e failed. refl
  update-Kept disk (some params) f whole =
      elim (Option-cases (find_task params.id (load codec f))) [
        | inl absent ↦ subst (Kept f) (sym (update_missing disk params f absent)) (λ e failed. refl)
        | inr (item, found) ↦ subst (Kept f) (sym (update_found codec disk params f item found)) (
            save_and_reply-Kept disk (change_first params (load codec f)) (changed params item) f
              whole)
      ]

  -- A call that fails leaves the file as it was, unless the write itself broke off.
  pub error-execute :
      (disk : Disk) (id name : String) (args : Args) (f : File) {e : TaskError}
      → ((left : File) → disk ≢ breaks left)
      → (execute codec disk id name args f).0 ≡ err e
      → (execute codec disk id name args f).1 ≡ f
  unfolding execute
  error-execute disk id name args f {e} whole failed =
      if-Kept (name == "task_create") f (create codec disk id args.create f) _
        (create-Kept disk id args.create f whole)
        (if-Kept (name == "task_update") f (update codec disk args.update f) _
          (update-Kept disk args.update f whole)
          (if-Kept (name == "task_get") f (get codec args.get f, f) _ (λ _ _. refl)
            (if-Kept (name == "task_list") f (ok (list codec f), f) (err (unknown_tool name), f)
              (λ _ _. refl) (λ _ _. refl))))
        e failed

-- ===== src/Tools/Core/Tasks/Tests.antt =====
-- tools/core/tasks.go: calls at concrete files.
use openharness.Prelude.{
  String, ◌≡◌, ◌≢◌, refl, ap, sym, ◌∙◌, Option, none, some, List, [], ◌∷◌, length, ◌==◌, ◌&&◌,
  eq_iff, Bool-cases, inl, inr, if◌then◌else◌, arith,
}
use openharness.Prelude.Result.{ok, err}
use openharness.Tools.Core.Tasks
use openharness.Tools.Core.Tasks.{
  TaskItem, File, holds, Codec, Disk, works, no_directory, breaks, not_found, not_saved,
  CreateParams, UpdateParams, Args, task, load, write, save, save_and_reply, change_first, new_task,
  create, changed, find_task, update, execute,
}
use openharness.Tools.Core.Tasks.Effects.{IsCodec, IsUpdated, update-find_task}

abbrev wash : CreateParams
wash = record { subject = "wash"; description = ""; active_form = "washing" }

-- a codec for lists of one task that differ in the status alone
encode_status : List TaskItem → Option String
encode_status (item ∷ []) =
    if item.id == "1"
      && item.subject == "wash"
      && item.description == ""
      && item.active_form == "washing"
    then some (String.◌∷◌ "v" item.status)
    else none
encode_status _ = none

decode_status : String → Option (List TaskItem)
decode_status String.[] = none
decode_status (String.◌∷◌ c status) = some (record (new_task "1" wash) { status = status } ∷ [])

abbrev statuses : Codec
statuses = record { encode = encode_status; decode = decode_status }

statuses-IsCodec : IsCodec statuses
unfolding encode_status decode_status
statuses-IsCodec [] text h = absurd (ground (arith, h))
statuses-IsCodec (a ∷ b ∷ more) text h = absurd (ground (arith, h))
statuses-IsCodec (item ∷ []) text h = elim (Bool-cases (item.id == "1")) [
  | inr a ↦ absurd (ground (arith, h, a))
  | inl a ↦ elim (Bool-cases (item.subject == "wash")) [
    | inr b ↦ absurd (ground (arith, h, a, b))
    | inl b ↦ elim (Bool-cases (item.description == "")) [
      | inr c ↦ absurd (ground (arith, h, a, b, c))
      | inl c ↦ elim (Bool-cases (item.active_form == "washing")) [
        | inr d ↦ absurd (ground (arith, h, a, b, c, d))
        | inl d ↦
            let same : text ≡ String.◌∷◌ "v" item.status = ground (arith, h, a, b, c, d) in
            ap decode_status same ∙ (λ i. some (
              record {
                id = sym ((eq_iff item.id "1").0 a) i;
                subject = sym ((eq_iff item.subject "wash").0 b) i;
                description = sym ((eq_iff item.description "").0 c) i;
                active_form = sym ((eq_iff item.active_form "washing").0 d) i;
                status = item.status;
              }
              ∷ []))
      ]
    ]
  ]
]

abbrev one_task : File
one_task = holds "vpending"

abbrev finish : UpdateParams
finish = record {
  id = "1";
  status = some "completed";
  subject = none;
  description = none;
  active_form = none;
}

wash_found : find_task finish.id (load statuses one_task) ≡ some (new_task "1" wash)
unfolding find_task load decode_status
wash_found = refl

wash_saved : (update statuses works (some finish) one_task).0 ≢ err not_saved
unfolding update find_task load save_and_reply save write change_first changed encode_status
    decode_status
wash_saved = λ e. ground (arith, e)

update-find_task_example :
    let after = update statuses works (some finish) one_task in
    (new : TaskItem) × IsUpdated finish (new_task "1" wash) new
    × (after.0 ≡ ok (task new))
    × ((k : String)
        → find_task k (load statuses after.1)
          ≡ (if "1" == k then some new else find_task k (load statuses one_task)))
    × (length (load statuses after.1) ≡ length (load statuses one_task))
update-find_task_example =
    update-find_task statuses statuses-IsCodec works finish one_task (new_task "1" wash) wash_found
      wash_saved

abbrev get_args : Args
get_args = record { create = none; update = none; get = some "7" }

not_broken : (left : File) → works ≢ breaks left
not_broken left e = cc

get_fails : (execute statuses works "2" "task_get" get_args one_task).0 ≡ err (not_found "7")
unfolding execute Tasks.get find_task load decode_status
get_fails = refl

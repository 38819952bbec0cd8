-- ===== src/Sessions/Store/Tests.antt =====
-- sessions/store.go: runs with a codec that knows two lines.
use openharness.Prelude.{
  ℕ, String, false, ◌≡◌, refl, sym, Option, none, some, List, [], ◌∷◌, ◌==◌, ltb, zero, suc,
  if◌then◌else◌,
}
use openharness.Prelude.GoMap
use openharness.Prelude.GoMap.{get-put_self}
use openharness.Prelude.Result.{ok, err}
use openharness.Sessions.Store.{
  Codec, Message, JsonlLine, Files, Loaded, too_long, works, path, meta_line, message_line,
  read_message, append_message, load_session, scan_lines, drop_cr, session_id_of,
  max_scan_token_size, onto_first,
}
use openharness.Sessions.Store.Lines.{IsOneLine, unlines}
use openharness.Sessions.Store.AbstractStore.{Op, create, append, replay, new_session}
use openharness.Sessions.Store.TooLong.{append_message-too_long}
use openharness.Prelude.Paths.{join}
use Prim.Native.String
use Prim.Native.String.{len}
use mathlib.Core.Path.{subst}
use text.Mathlib.TextLemmas.{cons-append, nil-append}

abbrev hello : Message
hello = record {
  type_name = "";
  role = "user";
  content = "hello";
  tool_calls = "";
  tool_call_id = "";
  timestamp = 0;
  usage = none;
}

encode_two : JsonlLine → Option String
encode_two line = if line.type_name == "meta" then some "{meta}" else some "{hello}"

decode_two : String → Option JsonlLine
decode_two text =
    if text == "{meta}"
    then some (meta_line (new_session 1 "s" "helper"))
    else if text == "{hello}"
    then some (message_line 2 hello)
    else none

two : Codec
unfolding encode_two decode_two
two = record { encode = encode_two; decode = decode_two }

abbrev calls : List Op
calls = create 1 "s" "helper" ∷ append 2 "s" hello ∷ append 2 "t" hello ∷ append 2 "s" hello ∷ []

replayed_calls :
    replay two "/s" calls (λ _. none) (path "/s" "s")
    ≡ some (
      new_session 1 "s" "helper",
      read_message (message_line 2 hello) ∷ read_message (message_line 2 hello) ∷ [],
    )
unfolding replay path join
replayed_calls = refl

scanned : scan_lines "a\n\nb" ≡ "a" ∷ "" ∷ "b" ∷ []
unfolding scan_lines onto_first
scanned = refl

without_cr : drop_cr "line\r" ≡ "line"
unfolding drop_cr
without_cr = refl

suffix_gone : session_id_of "abc.jsonl" ≡ some "abc"
unfolding session_id_of
suffix_gone = refl

-- `n` doublings of a letter
repeated : ℕ → String
repeated zero = "a"
repeated (suc n) = let half = repeated n in String.◌++◌ half half

IsOneLine-append : (s t : String) → IsOneLine s → IsOneLine t → IsOneLine (String.◌++◌ s t)
IsOneLine-append String.[] t left right = subst IsOneLine (sym (nil-append t)) right
IsOneLine-append (String.◌∷◌ c s) t left right =
    subst IsOneLine (sym (cons-append c s t)) (left.0, IsOneLine-append s t left.1 right)

repeated-IsOneLine : (n : ℕ) → IsOneLine (repeated n)
unfolding repeated
repeated-IsOneLine zero = (refl, tt)
repeated-IsOneLine (suc n) =
    IsOneLine-append (repeated n) (repeated n) (repeated-IsOneLine n) (repeated-IsOneLine n)

-- a codec whose encodings are too long
long : Codec
unfolding repeated
long = record { encode = λ line. some (repeated 16); decode = λ text. none }

repeated-long : ltb (len (repeated 16)) max_scan_token_size ≡ false
unfolding repeated
repeated-long = refl

one_session : Files
one_session = GoMap.put GoMap.empty (path "/s" "s") (unlines ("{meta}" ∷ []))

append_message-too_long_example :
    let after = append_message long "/s" works 2 "s" hello one_session in
    (after.0 ≡ ok tt)
    × ((read : Loaded) × (load_session long "/s" "s" after.1 ≡ err (too_long read)))
unfolding one_session long
append_message-too_long_example =
    append_message-too_long long "/s" 2 "s" hello one_session ("{meta}" ∷ []) (repeated 16)
      (get-put_self GoMap.empty (path "/s" "s") (unlines ("{meta}" ∷ [])))
      ((refl, (refl, (refl, (refl, (refl, (refl, tt)))))), tt) refl (repeated-IsOneLine 16)
      repeated-long

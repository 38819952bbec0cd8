-- ===== src/Sessions/Store/TooLong.antt =====
-- sessions/store.go: lines that do not fit into the buffer of the scanner.
use openharness.Prelude.{
  String, false, ◌≡◌, refl, some, List, [], ◌∷◌, ◌++◌, ltb, inl, inr, Option-cases, Bool-cases,
}
use openharness.Prelude.GoMap
use openharness.Prelude.GoMap.{GoMap, get-put_self}
use openharness.Prelude.Result.{ok, err}
use openharness.Sessions.Store.{
  Codec, Time, Message, JsonlLine, too_long, Loaded, Files, works, path, message_line, read_line,
  read_lines, line_text, appended, empty_session, append_message, load_session, max_scan_token_size,
  drop_cr,
}
use openharness.Sessions.Store.Lines.{
  IsOneLine, AllOneLine, unlines, scan_lines-unlines, unlines-snoc, AllOneLine-snoc,
}
use Prim.Native.String
use Prim.Native.String.{len}

-- the lines with one that does not fit
read_lines-too_long :
    (codec : Codec) (texts : List String) (text : String) (start : Loaded)
    → ltb (len text) max_scan_token_size ≡ false
    → (read : Loaded) × (read_lines codec (texts ++ text ∷ []) start ≡ err (too_long read))
unfolding read_lines
read_lines-too_long codec [] text start long = (start, rw (long, read_lines) refl)
read_lines-too_long codec (t ∷ texts) text start long =
    elim (Bool-cases (ltb (len t) max_scan_token_size)) [
      | inr stopped ↦ (start, rw (stopped, read_lines) refl)
      | inl short ↦ elim (Option-cases (codec.decode (drop_cr t))) [
        | inl garbled ↦
            let (read, e) = read_lines-too_long codec texts text start long in
            (read, rw (short, garbled, read_lines) e)
        | inr (line, e) ↦
            let (read, same) = read_lines-too_long codec texts text (read_line line start) long in
            (read, rw (short, e, read_lines) same)
      ]
    ]

line_text-encoded :
    (codec : Codec) (line : JsonlLine) (text : String)
    → codec.encode line ≡ some text
    → line_text codec line ≡ String.◌++◌ text "\n"
unfolding line_text
line_text-encoded codec line text e = rw (e, line_text) refl

-- A message whose line has 65536 bytes or more is appended without an error, and after that the
-- session is no longer loaded: LoadSession fails.
pub append_message-too_long :
    (codec : Codec) (dir : String) (now : Time) (id : String) (msg : Message) (files : Files)
    (texts : List String) (text : String)
    → GoMap.get files (path dir id) ≡ some (unlines texts)
    → AllOneLine texts
    → codec.encode (message_line now msg) ≡ some text
    → IsOneLine text
    → ltb (len text) max_scan_token_size ≡ false
    → let after = append_message codec dir works now id msg files in
      (after.0 ≡ ok tt)
      × ((read : Loaded) × (load_session codec dir id after.1 ≡ err (too_long read)))
unfolding append_message appended load_session
append_message-too_long codec dir now id msg files texts text there one encoded line long =
    let (read, stopped) = read_lines-too_long codec texts text (empty_session, []) long in
    let shown = line_text-encoded codec (message_line now msg) text encoded in
    rw (there, append_message)
      (
        refl,
        (
          read,
          rw
              (
                get-put_self,
                load_session,
                shown,
                unlines-snoc texts text,
                scan_lines-unlines _ (AllOneLine-snoc texts text one line),
              )
              stopped,
        ),
      )

-- ===== src/Sessions/Store/Lines.antt =====
-- sessions/store.go: what the scanner reads back from the lines that the store writes.
use openharness.Prelude.{
  String, true, false, ◌≡◌, refl, ap, ◌∙◌, some, List, [], ◌∷◌, ◌++◌, eqb, ltb, inl, inr, arith,
  Option-cases, Bool-cases,
}
use openharness.Prelude.Result.{ok}
use openharness.Sessions.Store.{
  Codec, JsonlLine, Loaded, line_text, onto_first, scan_lines, drop_cr, max_scan_token_size,
  read_line, read_lines,
}
use Prim.Native.Char.{Char, code}
use Prim.Native.String
use Prim.Native.String.{len}
use text.Mathlib.TextLemmas.{append_assoc, cons-append, nil-append}

-- a text without a newline
abbrev pub IsOneLine : String → Type 0
IsOneLine String.[] = Unit
IsOneLine (String.◌∷◌ c s) = (eqb (code c) 10 ≡ false) × IsOneLine s

abbrev pub AllOneLine : List String → Type 0
AllOneLine [] = Unit
AllOneLine (s ∷ more) = IsOneLine s × AllOneLine more

-- every line with its newline
abbrev pub unlines : List String → String
unlines [] = ""
unlines (s ∷ more) = String.◌++◌ s (String.◌∷◌ "\n" (unlines more))

scan_lines-other :
    (c : Char) (s : String)
    → eqb (code c) 10 ≡ false
    → scan_lines (String.◌∷◌ c s) ≡ onto_first c (scan_lines s)
unfolding scan_lines
scan_lines-other c s h = rw (h, scan_lines) refl

scan_lines-newline : (s : String) → scan_lines (String.◌∷◌ "\n" s) ≡ "" ∷ scan_lines s
unfolding scan_lines
scan_lines-newline s = refl

scan_lines-line :
    (s rest : String)
    → IsOneLine s
    → scan_lines (String.◌++◌ s (String.◌∷◌ "\n" rest)) ≡ s ∷ scan_lines rest
unfolding onto_first
scan_lines-line String.[] rest one = ap scan_lines (nil-append _) ∙ scan_lines-newline rest
scan_lines-line (String.◌∷◌ c s) rest one =
    ap scan_lines (cons-append c s _)
    ∙ scan_lines-other c _ one.0
    ∙ ap (onto_first c) (scan_lines-line s rest one.1)

pub scan_lines-unlines :
    (texts : List String) → AllOneLine texts → scan_lines (unlines texts) ≡ texts
unfolding scan_lines
scan_lines-unlines [] all = refl
scan_lines-unlines (s ∷ more) all =
    scan_lines-line s (unlines more) all.0 ∙ ap (λ l. s ∷ l) (scan_lines-unlines more all.1)

pub unlines-snoc :
    (texts : List String) (s : String)
    → String.◌++◌ (unlines texts) (String.◌++◌ s "\n") ≡ unlines (texts ++ s ∷ [])
unlines-snoc [] s = nil-append _
unlines-snoc (t ∷ texts) s =
    append_assoc t _ _
    ∙ ap (String.◌++◌ t) (cons-append "\n" (unlines texts) _)
    ∙ ap (λ u. String.◌++◌ t (String.◌∷◌ "\n" u)) (unlines-snoc texts s)

pub AllOneLine-snoc :
    (texts : List String) (s : String)
    → AllOneLine texts
    → IsOneLine s
    → AllOneLine (texts ++ s ∷ [])
AllOneLine-snoc [] s all one = (one, tt)
AllOneLine-snoc (t ∷ texts) s all one = (all.0, AllOneLine-snoc texts s all.1 one)

-- the scanner after one line more
pub read_lines-snoc :
    (codec : Codec) (texts more : List String) (start loaded : Loaded)
    → read_lines codec texts start ≡ ok loaded
    → read_lines codec (texts ++ more) start ≡ read_lines codec more loaded
unfolding read_lines
read_lines-snoc codec [] more start loaded = λ h. ap (read_lines codec more) (ground (arith, h))
read_lines-snoc codec (t ∷ texts) more start loaded =
    elim (Bool-cases (ltb (len t) max_scan_token_size)) [
      | inr long ↦ rw (long, read_lines) (λ h. absurd (ground (arith, h)))
      | inl short ↦ elim (Option-cases (codec.decode (drop_cr t))) [
        | inl garbled ↦
            rw (short, garbled, read_lines) (read_lines-snoc codec texts more start loaded)
        | inr (line, e) ↦
            rw (short, e, read_lines)
              (read_lines-snoc codec texts more (read_line line start) loaded)
      ]
    ]

-- What JSON promises of a line that the store can keep: it has an encoding on one line, which decodes
-- to it, and which is shorter than the scanner's buffer.
pub record IsStorable (codec : Codec) (line : JsonlLine) : Type 0 where
  pub text : String
  pub encoded : codec.encode line ≡ some text
  pub one_line : IsOneLine text
  pub decoded : codec.decode (drop_cr text) ≡ some line
  pub fits : ltb (len text) max_scan_token_size ≡ true

pub read_lines-storable :
    (codec : Codec) (line : JsonlLine) (stored : IsStorable codec line) (loaded : Loaded)
    → read_lines codec (stored.text ∷ []) loaded ≡ ok (read_line line loaded)
unfolding read_lines
read_lines-storable codec line stored loaded = rw (stored.fits, stored.decoded, read_lines) refl

pub line_text-storable :
    (codec : Codec) (line : JsonlLine) (stored : IsStorable codec line)
    → line_text codec line ≡ String.◌++◌ stored.text "\n"
unfolding line_text
line_text-storable codec line stored = rw (stored.encoded, line_text) refl

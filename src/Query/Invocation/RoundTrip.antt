-- ===== src/Query/Invocation/RoundTrip.antt =====
-- prepared_statement.go: words that are joined by commas are split again.
use text.Mathlib.TextLemmas.{append-nil, nil-append, cons-append}
use steampipe.Prelude.{
  ◌≡◌, ◌∷◌, [], All, String, Bool, List, not, true, ◌&&◌, false, some, arith, ap, ◌==◌, ◌∙◌, ◌++◌,
  string_eq, sym, refl, append_assoc,
}
use steampipe.Prelude.Split.{is_char, join}
use steampipe.Query.Invocation.{
  count_char, scan, Scan, add_char, all_words, split_arg_string, then_scan,
}
use Prim.Native.Char.{Char}
use steampipe.Prelude.Text.{◌+++◌}

-- Neither a comma nor a quote nor a bracket.
unfoldable pub plain_char : Char → Bool
plain_char c =
    not (is_char c ",")
    && not (is_char c "\"")
    && not (is_char c "{")
    && not (is_char c "}")
    && not (is_char c "[")
    && not (is_char c "]")

unfoldable pub is_plain : String → Bool
is_plain String.[] = true
is_plain (String.◌∷◌ c text) = plain_char c && is_plain text

abbrev open_at : List String → String → Scan
open_at words word = record { words = words; word = word; quote = false; curly = 0; square = 0 }

one_char :
    (c : Char) (words : List String) (word : String)
    → plain_char c ≡ true
    → count_char c (add_char c (open_at words word))
      ≡ some (open_at words (word +++ String.◌∷◌ c String.[]))
unfolding plain_char count_char add_char
one_char c words word h = ground arith

both_true : {a b : Bool} → (a && b) ≡ true → (a ≡ true) × (b ≡ true)
both_true {a} {b} h = ground arith

scan-plain :
    (w : String) (rest : String) (words : List String) (word : String)
    → is_plain w ≡ true
    → scan (w +++ rest) (open_at words word) ≡ scan rest (open_at words (word +++ w))
unfolding is_plain scan
scan-plain String.[] rest words word h =
    ap (λ (t : String). scan t (open_at words word)) (nil-append rest)
    ∙ ap (λ (u : String). scan rest (open_at words u)) (sym (append-nil word))
scan-plain (String.◌∷◌ c w) rest words word h =
    ap (λ (t : String). scan t (open_at words word)) (cons-append c w rest)
    ∙ ap (then_scan (scan (w +++ rest))) (one_char c words word (both_true h).0)
    ∙ scan-plain w rest words (word +++ String.◌∷◌ c String.[]) (both_true h).1
    ∙ ap (λ (u : String). scan rest (open_at words u))
        (text.Mathlib.TextLemmas.append_assoc word (String.◌∷◌ c String.[]) w
          ∙ ap (λ (t : String). word +++ t)
              (cons-append c String.[] w ∙ ap (String.◌∷◌ c) (nil-append w)))

-- A comma behind a word.
scan_comma :
    (rest : String) (words : List String) (word : String)
    → (word == "") ≡ false
    → scan ("," +++ rest) (open_at words word) ≡ scan rest (open_at (words ++ word ∷ []) "")
unfolding scan add_char count_char is_char
scan_comma rest words word h =
    ap (λ (t : String). scan t (open_at words word))
      (cons-append "," String.[] rest ∙ ap (String.◌∷◌ ",") (nil-append rest))
    ∙ rw h refl

abbrev pub IsWord : String → Type 0
IsWord w = (is_plain w ≡ true) × ((w == "") ≡ false)

words_scanned :
    (ws : List String) (w : String) (words : List String)
    → IsWord w
    → All IsWord ws
    → all_words (scan (join (w ∷ ws) ",") (open_at words "")) ≡ some (words ++ w ∷ ws)
unfolding scan join
words_scanned [] w words (plain, full) h =
    ap all_words (
      ap (λ (t : String). scan t (open_at words "")) (sym (append-nil w))
      ∙ scan-plain w "" words "" plain
      ∙ ap (λ (u : String). scan "" (open_at words u)) (nil-append w))
    ∙ rw full refl
words_scanned (t ∷ ts) w words (plain, full) (first, h) =
    ap all_words (
      scan-plain w ("," +++ join (t ∷ ts) ",") words "" plain
      ∙ ap (λ (u : String). scan ("," +++ join (t ∷ ts) ",") (open_at words u)) (nil-append w)
      ∙ scan_comma (join (t ∷ ts) ",") words w full)
    ∙ words_scanned ts t (words ++ w ∷ []) first h
    ∙ ap some (append_assoc words (w ∷ []) (t ∷ ts))

-- Words that are not empty, without a comma, quote or bracket, are joined by commas. Then
-- `splitArgString` yields these words again.
pub split_arg_string-join :
    (w : String) (ws : List String)
    → IsWord w
    → All IsWord ws
    → split_arg_string (join (w ∷ ws) ",") ≡ some (w ∷ ws)
unfolding split_arg_string
split_arg_string-join w ws word h = words_scanned ws w [] word h

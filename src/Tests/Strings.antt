-- ===== src/Tests/Strings.antt =====
-- The theorems on cpp_lib/util/strings at concrete inputs.
use cpp_lib.Prelude.{ℕ, ◌≡◌, List, [], ◌∷◌, All}
use cpp_lib.Util.Trim.{get_lines, trim_empty_lines}
use cpp_lib.Util.Trim.Lines.{kept, unlines, IsText, trim_empty_lines-kept}

-- A word with a blank on each side, an empty line, a comment, and a word without a newline.
abbrev text : List ℕ
text = 32 ∷ 97 ∷ 32 ∷ 10 ∷ 10 ∷ 35 ∷ 98 ∷ 10 ∷ 9 ∷ 99 ∷ []

trim_empty_lines-kept_example :
    (trim_empty_lines text ≡ unlines (kept (get_lines [] text)))
    × All IsText (kept (get_lines [] text))
    × (trim_empty_lines (trim_empty_lines text) ≡ trim_empty_lines text)
trim_empty_lines-kept_example = trim_empty_lines-kept text

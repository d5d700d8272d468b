-- ===== src/Util/Url.antt =====
-- cpp_lib/util/http/url.cc, on lists of bytes. `hex` is `absl::SimpleHexAtoi` of two characters,
-- `split` is `SplitStr` at a character, which calls `absl::StrSplit`.
pub mod Plain
use cpp_lib.Prelude.{
  ℕ, ◌+◌, ◌%◌, ◌^◌, Bool, true, false, ◌&&◌, ◌||◌, Option, none, some, List, [], ◌∷◌, ◌++◌, leb,
  ◌==◌, if◌then◌else◌,
}

abbrev pub is_xdigit : ℕ → Bool
is_xdigit c = leb 48 c && leb c 57 || leb 65 c && leb c 70 || leb 97 c && leb c 102

module _ (hex : ℕ → ℕ → Option ℕ) where
  -- A character that starts no escape.
  abbrev pub decode_char : ℕ → List ℕ → List ℕ
  decode_char c out = if c == 43 then out ++ (32 ∷ []) else out

  -- The loop. `none` is the result `false`.
  unfoldable pub url_decode_loop : List ℕ → List ℕ → Option (List ℕ)
  url_decode_loop [] out = some out
  url_decode_loop (c ∷ []) out = some (decode_char c out)
  url_decode_loop (c ∷ a ∷ []) out = some (decode_char a (decode_char c out))
  url_decode_loop (c ∷ a ∷ b ∷ cs) out =
      let plain = url_decode_loop (a ∷ b ∷ cs) (decode_char c out) in
      if c == 37 && is_xdigit a && is_xdigit b
      then elim (hex a b) [ none ↦ none | some x ↦ url_decode_loop cs (out ++ (x % 2 ^ 8 ∷ [])) ]
      else plain

  unfoldable pub url_decode : List ℕ → Option (List ℕ)
  url_decode in_str = url_decode_loop in_str []

  module _ (split : ℕ → List ℕ → List (List ℕ)) where
    -- The value of a key of the map of arguments.
    abbrev pub Args : Type 0
    Args = List ℕ → Option (List ℕ)

    module _ (assign : Args → List ℕ → List ℕ → Args) where
      abbrev pub add_pair : List (List ℕ) → Args → Args
      add_pair (key ∷ value ∷ []) args = assign args key value
      add_pair [] args = args
      add_pair (key ∷ []) args = args
      add_pair (key ∷ value ∷ x ∷ xs) args = args

      -- The loop over the items.
      unfoldable pub add_items : List (List ℕ) → Args → Args
      add_items [] args = args
      add_items ([] ∷ items) args = add_items items args
      add_items ((c ∷ cs) ∷ items) args = add_items items (add_pair (split 61 (c ∷ cs)) args)

      unfoldable pub url2map : List ℕ → Args → Bool × Args
      url2map url args = elim (url_decode url) [
        | none ↦ (false, args)
        | some v ↦ (true, add_items (split 38 v) args)
      ]

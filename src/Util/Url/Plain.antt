-- ===== src/Util/Url/Plain.antt =====
-- What `UrlDecode` of cpp_lib/util/http/url.cc does to characters that start no escape.
use cpp_lib.Prelude.{
  ℕ, ◌≡◌, refl, ap, ◌∙◌, Bool, true, false, not, ◌&&◌, Option, some, List, [], ◌∷◌, All, ◌==◌,
  arith,
}
use cpp_lib.Util.Url.{is_xdigit, decode_char, url_decode_loop, url_decode, Args, add_items, url2map}

-- A character other than '+' and '%'.
abbrev pub is_plain : ℕ → Bool
is_plain c = not (c == 43) && not (c == 37)

module _ (hex : ℕ → ℕ → Option ℕ) where
  plain-decode_char : (c : ℕ) (out : List ℕ) → is_plain c ≡ true → decode_char hex c out ≡ out
  plain-decode_char c out h = ground (arith, h)

  no_escape : (c : ℕ) (x y : Bool) → is_plain c ≡ true → (c == 37 && x && y) ≡ false
  no_escape c x y h = ground (arith, h)

  plain-url_decode_loop :
      (cs out : List ℕ) → All (λ c. is_plain c ≡ true) cs → url_decode_loop hex cs out ≡ some out
  unfolding url_decode_loop
  plain-url_decode_loop [] out h = refl
  plain-url_decode_loop (c ∷ []) out h = ap some (plain-decode_char c out h.0)
  plain-url_decode_loop (c ∷ a ∷ []) out h =
      ap some (ap (decode_char hex a) (plain-decode_char c out h.0) ∙ plain-decode_char a out h.1.0)
  plain-url_decode_loop (c ∷ a ∷ b ∷ cs) out h =
      rw (url_decode_loop, no_escape c (is_xdigit a) (is_xdigit b) h.0, plain-decode_char c out h.0)
        (plain-url_decode_loop (a ∷ b ∷ cs) out h.1)

  module _ (split : ℕ → List ℕ → List (List ℕ))
      (assign : Args hex split → List ℕ → List ℕ → Args hex split) where
    -- If a split of the empty text gives one empty item, then of a URL without "+" and "%"
    -- `UrlDecode` makes the empty string, and `Url2Map` returns true and adds no argument.
    pub url2map-plain :
        (url : List ℕ) (args : Args hex split)
        → split 38 [] ≡ [] ∷ []
        → All (λ c. is_plain c ≡ true) url
        → (url_decode hex url ≡ some []) × (url2map hex split assign url args ≡ (true, args))
    unfolding url2map url_decode add_items
    url2map-plain url args e h =
        let decoded = plain-url_decode_loop url [] h in
        (decoded, rw (url2map, url_decode, decoded, e) refl)

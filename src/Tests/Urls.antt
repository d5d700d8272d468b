-- ===== src/Tests/Urls.antt =====
-- The functions of cpp_lib/util/http at a concrete input.
use cpp_lib.Prelude.{ℕ, ◌≡◌, refl, true, Option, none, some, List, [], ◌∷◌}
use cpp_lib.Util.Url.{url_decode, url2map}
use cpp_lib.Util.Url.Plain.{url2map-plain}

-- No escape is read, and an empty text is one empty item.
abbrev no_hex : ℕ → ℕ → Option ℕ
no_hex a b = none

abbrev one_item : ℕ → List ℕ → List (List ℕ)
one_item c text = text ∷ []

abbrev keep : (List ℕ → Option (List ℕ)) → List ℕ → List ℕ → List ℕ → Option (List ℕ)
keep args key value = args

-- "a=1"
abbrev query : List ℕ
query = 97 ∷ 61 ∷ 49 ∷ []

query_lost :
    (url_decode no_hex query ≡ some [])
    × (url2map no_hex one_item keep query (λ key. none) ≡ (true, λ key. none))
query_lost = url2map-plain no_hex one_item keep query (λ key. none) refl (refl, (refl, (refl, tt)))

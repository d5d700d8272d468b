-- ===== src/Util/Compress/Loops.antt =====
-- The loops of compress_helper.cc: a text that is compressed and decompressed, and one that is cut
-- off.
use mathlib.Core.List.{append-nil, append_assoc}
use native.Mathlib.Nat.{mod-eq_of_lt}
use cpp_lib.Prelude.{
  ℕ, zero, suc, ◌+◌, ◌-◌, ◌*◌, ◌^◌, ◌<◌, ◌≡◌, ◌≢◌, refl, ap, sym, ◌∙◌, true, false, Bool-cases, inl,
  inr, some, [], ◌∷◌, ◌++◌, length, take, drop, take-append-drop, length-drop, length-append, ◌==◌,
  arith,
}
use cpp_lib.Serialize.Integers.{ℤ}
use cpp_lib.Util.Compress.Streams.{
  Bytes, Zlib, Code, stream_ok, stream_end, need_dict, stream_error, data_error, mem_error,
  buf_error, Deflating, Inflating,
}
use cpp_lib.Util.Compress.{
  chunk, deflate_bits, inflate_bits, available, is_stream_error, close_deflate, gzip_loop,
  gzip_string, close_inflate, gives_up, gunzip_loop, gunzip_string,
}

length-take : (n : ℕ) (bs : Bytes) → length (take n bs) + length (drop n bs) ≡ length bs
length-take zero bs = omega arith
length-take (suc n) [] = omega arith
length-take (suc n) (b ∷ bs) = omega (arith, length-take n bs)

empty_of_length : (bs : Bytes) → length bs ≡ 0 → bs ≡ []
empty_of_length [] h = refl
empty_of_length (b ∷ bs) h = absurd (omega arith)

all_available : (text : Bytes) → length text < 2 ^ 32 → available text ≡ text
unfolding available
all_available text h = rw (mod-eq_of_lt h) (
    sym (append-nil (take (length text) text))
    ∙ ap (λ t. take (length text) text ++ t)
        (sym (
          empty_of_length (drop (length text) text)
            (omega (arith, length-drop (length text) text))))
    ∙ take-append-drop (length text) text)

-- A chunk that is not filled is the last.
last_chunk : (n : ℕ) (bs : Bytes) → (n - length (take n bs) == 0) ≡ false → drop n bs ≡ []
last_chunk n bs h = empty_of_length (drop n bs) (ground (arith, length-take n bs, length-drop n bs))

last_append : (n : ℕ) (bs out : Bytes) → drop n bs ≡ [] → out ++ take n bs ≡ out ++ bs
last_append n bs out e =
    ap (λ t. out ++ t)
      (sym (append-nil (take n bs)) ∙ ap (λ t. take n bs ++ t) (sym e) ∙ take-append-drop n bs)

next_append : (n : ℕ) (bs out : Bytes) → (out ++ take n bs) ++ drop n bs ≡ out ++ bs
next_append n bs out =
    append_assoc out (take n bs) (drop n bs) ∙ ap (λ t. out ++ t) (take-append-drop n bs)

-- A chunk that is filled leaves less.
full_chunk :
    (n fuel : ℕ) (bs : Bytes)
    → (n - length (take n bs) == 0) ≡ true
    → length bs < n * suc fuel
    → length (drop n bs) < n * fuel
full_chunk n fuel bs h g = grind (arith, length-take n bs, length-drop n bs)

no_stream_error : (c : Code) → c ≢ stream_error → is_stream_error c ≡ false
unfolding is_stream_error
no_stream_error stream_error h = absurd (h refl)
no_stream_error stream_ok h = refl
no_stream_error stream_end h = refl
no_stream_error need_dict h = refl
no_stream_error data_error h = refl
no_stream_error mem_error h = refl
no_stream_error buf_error h = refl

no_give_up : (c : Code) → (c ≢ need_dict) × (c ≢ data_error) × (c ≢ mem_error) → gives_up c ≡ false
unfolding gives_up
no_give_up stream_error h = refl
no_give_up stream_ok h = refl
no_give_up stream_end h = refl
no_give_up need_dict h = absurd (h.0 refl)
no_give_up data_error h = absurd (h.1 refl)
no_give_up mem_error h = absurd (h.2 refl)
no_give_up buf_error h = refl

module _ (Z : Zlib) (D : Deflating Z) where
  gzip_loop_lem :
      (fuel : ℕ) (s : Z.Stream) (out : Bytes)
      → D.On s
      → length (D.pending s) < chunk * fuel
      → gzip_loop Z fuel s out ≡ some (true, out ++ D.pending s)
  unfolding gzip_loop close_deflate
  gzip_loop_lem zero s out on h = absurd (omega arith)
  gzip_loop_lem (suc fuel) s out on h =
      let e = no_stream_error ((Z.deflate s chunk).0) (D.no_error s chunk on) in
      let w = D.written s chunk on in
      let l = D.left s chunk on in
      let bs = D.pending s in
      elim (Bool-cases ((chunk - length (take chunk bs)) == 0)) [
        | inl full ↦
            rw (e, w, full)
              (gzip_loop_lem fuel ((Z.deflate s chunk).2) (out ++ take chunk bs)
                  (D.goes_on s chunk on) (rw l (full_chunk chunk fuel bs full h))
                ∙ ap (λ t. some (true, (out ++ take chunk bs) ++ t)) l
                ∙ ap (λ t. some (true, t)) (next_append chunk bs out))
        | inr part ↦
            let none_left = last_chunk chunk bs part in
            rw (e, w, part, D.ends ((Z.deflate s chunk).2) (D.goes_on s chunk on) (l ∙ none_left))
              (ap (λ t. some (true, t)) (last_append chunk bs out none_left))
      ]

  -- Where `deflateInit2` succeeds and the text is shorter than 4 GiB, `GzipString` appends the
  -- output of the whole stream.
  gzip_string_lem :
      (fuel : ℕ) (level : ℤ) (text out : Bytes) (s : Z.Stream)
      → Z.deflate_init level deflate_bits ≡ some s
      → D.On (Z.give s text)
      → length text < 2 ^ 32
      → length (D.pending (Z.give s text)) < chunk * fuel
      → gzip_string Z fuel text out level ≡ some (true, out ++ D.pending (Z.give s text))
  unfolding gzip_string
  gzip_string_lem fuel level text out s e on short h =
      rw (gzip_string, e, all_available text short) (gzip_loop_lem fuel (Z.give s text) out on h)

module _ (Z : Zlib) (I : Inflating Z) where
  gunzip_loop_lem :
      (fuel : ℕ) (s : Z.Stream) (out : Bytes)
      → I.On s
      → length (I.pending s) < chunk * fuel
      → gunzip_loop Z fuel s out ≡ some (true, out ++ I.pending s)
  unfolding gunzip_loop close_inflate
  gunzip_loop_lem zero s out on h = absurd (omega arith)
  gunzip_loop_lem (suc fuel) s out on h =
      let e = no_give_up ((Z.inflate s chunk).0) (I.code s chunk on) in
      let w = I.written s chunk on in
      let l = I.left s chunk on in
      let bs = I.pending s in
      elim (Bool-cases ((chunk - length (take chunk bs)) == 0)) [
        | inl full ↦
            rw (e, w, full)
              (gunzip_loop_lem fuel ((Z.inflate s chunk).2) (out ++ take chunk bs)
                  (I.goes_on s chunk on) (rw l (full_chunk chunk fuel bs full h))
                ∙ ap (λ t. some (true, (out ++ take chunk bs) ++ t)) l
                ∙ ap (λ t. some (true, t)) (next_append chunk bs out))
        | inr part ↦
            rw (e, w, part, I.ends ((Z.inflate s chunk).2) (I.goes_on s chunk on))
              (ap (λ t. some (true, t)) (last_append chunk bs out (last_chunk chunk bs part)))
      ]

  -- Where `inflateInit2` succeeds, the text has no error and is shorter than 4 GiB, `GunzipString`
  -- returns 0 and appends what the text gives, be it the whole of a stream or not.
  gunzip_string_lem :
      (fuel : ℕ) (text out : Bytes) (s : Z.Stream)
      → Z.inflate_init inflate_bits ≡ some s
      → I.On (Z.give s text)
      → length text < 2 ^ 32
      → length (I.pending (Z.give s text)) < chunk * fuel
      → gunzip_string Z fuel text out ≡ some (true, out ++ I.pending (Z.give s text))
  unfolding gunzip_string
  gunzip_string_lem fuel text out s e on short h =
      rw (gunzip_string, e, all_available text short)
        (gunzip_loop_lem fuel (Z.give s text) out on h)

  -- If inflation of a part of a packed text, shorter than 4 GiB, goes without an error but gives
  -- the text only up to something that is missing, `GunzipString` of that part, with fuel for the
  -- length of the text, returns 0 all the same, with something else than the text.
  pub gunzip_string_cut :
      (fuel : ℕ) (text cut missing : Bytes) (s : Z.Stream)
      → Z.inflate_init inflate_bits ≡ some s
      → I.On (Z.give s cut)
      → I.pending (Z.give s cut) ++ missing ≡ text
      → missing ≢ []
      → length cut < 2 ^ 32
      → length text < chunk * fuel
      → (got : Bytes) × (gunzip_string Z fuel cut [] ≡ some (true, got)) × (got ≢ text)
  gunzip_string_cut fuel text cut missing s e on split some_missing short h =
      let got = I.pending (Z.give s cut) in
      let shorter : length got + length missing ≡ length text =
        sym (length-append got missing) ∙ ap length split in
      (
        got,
        gunzip_string_lem fuel cut [] s e on short (omega (arith, shorter)),
        λ (same : got ≡ text).
            some_missing (empty_of_length missing (omega (arith, shorter, ap length same))),
      )

module _ (Z : Zlib) (D : Deflating Z) (I : Inflating Z) where
  -- Let both initialisations of zlib succeed, let the deflating stream with the text go without
  -- an error and have `packed` as its output, let the inflating stream with `packed` go without
  -- an error and have the text as its output, and let both be shorter than 4 GiB. With fuel for
  -- their length, `GzipString` of the text returns 0 and appends `packed`, and `GunzipString` of
  -- `packed` returns 0 and appends the text.
  pub gunzip_string-gzip_string :
      (fuel fuel' : ℕ) (level : ℤ) (text packed out out' : Bytes) (s r : Z.Stream)
      → Z.deflate_init level deflate_bits ≡ some s
      → Z.inflate_init inflate_bits ≡ some r
      → D.On (Z.give s text)
      → D.pending (Z.give s text) ≡ packed
      → I.On (Z.give r packed)
      → I.pending (Z.give r packed) ≡ text
      → length text < 2 ^ 32
      → length packed < 2 ^ 32
      → length packed < chunk * fuel
      → length text < chunk * fuel'
      → (gzip_string Z fuel text out level ≡ some (true, out ++ packed))
        × (gunzip_string Z fuel' packed out' ≡ some (true, out' ++ text))
  gunzip_string-gzip_string fuel fuel' level text packed out out' s r d i don p ion q a b f g = (
    gzip_string_lem Z D fuel level text out s d don a (rw p f) ∙ ap (λ t. some (true, out ++ t)) p,
    gunzip_string_lem Z I fuel' packed out' r i ion b (rw q g) ∙ ap (λ t. some (true, out' ++ t)) q,
  )

-- ===== src/Tests/Compression.antt =====
-- The theorems on cpp_lib/util/compress at concrete inputs.
use cpp_lib.Prelude.{◌≡◌, ◌≢◌, refl, Bool, true, false, some, [], ◌∷◌, ◌++◌, take, drop, arith}
use cpp_lib.Serialize.Integers.{pos}
use cpp_lib.Util.Compress.Streams.{
  Bytes, Zlib, stream_ok, stream_error, need_dict, data_error, mem_error, Deflating, Inflating,
}
use cpp_lib.Util.Compress.{gzip_string, gunzip_string}
use cpp_lib.Util.Compress.Loops.{gunzip_string-gzip_string, gunzip_string_cut}

-- A library that stores the bytes as they are.
abbrev is_done : Bytes → Bool
is_done [] = true
is_done (b ∷ bs) = false

abbrev storing : Zlib
storing = record {
  Stream = Bytes;
  deflate_init = λ level bits. some [];
  inflate_init = λ bits. some [];
  give = λ s text. text;
  deflate = λ s n. (stream_ok, take n s, drop n s);
  inflate = λ s n. (stream_ok, take n s, drop n s);
  deflate_end = is_done;
  inflate_end = λ s. true;
}

storing_ends : (s : Bytes) → s ≡ [] → is_done s ≡ true
storing_ends [] h = refl
storing_ends (b ∷ bs) h = cc

no_stream_error : stream_ok ≢ stream_error
no_stream_error e = cc

good_code : (stream_ok ≢ need_dict) × (stream_ok ≢ data_error) × (stream_ok ≢ mem_error)
good_code = (λ e. cc, λ e. cc, λ e. cc)

abbrev storing_deflates : Deflating storing
storing_deflates = record {
  On = λ s. Unit {0};
  pending = λ s. s;
  no_error = λ s n on. no_stream_error;
  written = λ s n on. refl;
  left = λ s n on. refl;
  goes_on = λ s n on. tt;
  ends = λ s on e. storing_ends s e;
}

abbrev storing_inflates : Inflating storing
storing_inflates = record {
  On = λ s. Unit {0};
  pending = λ s. s;
  code = λ s n on. good_code;
  written = λ s n on. refl;
  left = λ s n on. refl;
  goes_on = λ s n on. tt;
  ends = λ s on. refl;
}

abbrev letters : Bytes
letters = 97 ∷ 98 ∷ 99 ∷ []

abbrev begun : Bytes
begun = 97 ∷ []

abbrev remainder : Bytes
remainder = 98 ∷ 99 ∷ []

remainder-nonempty : remainder ≢ []
remainder-nonempty h = cc

gunzip_string-gzip_string_example :
    (gzip_string storing 1 letters [] (pos 6) ≡ some (true, letters))
    × (gunzip_string storing 1 letters begun ≡ some (true, begun ++ letters))
gunzip_string-gzip_string_example =
    gunzip_string-gzip_string storing storing_deflates storing_inflates 1 1 (pos 6) letters letters
      [] begun [] [] refl refl tt refl tt refl (omega arith) (omega arith) (omega arith)
      (omega arith)

gunzip_string_cut_example :
    (got : Bytes) × (gunzip_string storing 1 begun [] ≡ some (true, got)) × (got ≢ letters)
gunzip_string_cut_example =
    gunzip_string_cut storing storing_inflates 1 letters begun remainder [] refl tt refl
      remainder-nonempty (omega arith) (omega arith)

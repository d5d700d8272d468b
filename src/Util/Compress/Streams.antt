-- ===== src/Util/Compress/Streams.antt =====
-- zlib, which is not part of the repository: the calls of compress_helper.cc, and what zlib
-- documents of a stream that has been initialised and given its input.
use cpp_lib.Prelude.{ℕ, Bool, true, ◌≡◌, ◌≢◌, Option, List, [], take, drop}
use cpp_lib.Serialize.Integers.{ℤ}

abbrev pub Bytes : Type 0
Bytes = List ℕ

-- What `deflate` and `inflate` return.
pub data Code : Type 0 where
  stream_ok stream_end need_dict stream_error data_error mem_error buf_error : Code

-- `deflate_init` takes the level and the window bits, `inflate_init` the window bits. `give` sets `next_in` and `avail_in`. `deflate strm n` is a call with `Z_FINISH` and `avail_out`
-- at `n`, `inflate strm n` one with `Z_NO_FLUSH`: the code, the bytes put behind `next_out`, and
-- the stream. `none` of an initialisation, and false of an end, is a code other than `Z_OK`.
pub record Zlib : Type 1 where
  pub Stream : Type 0
  pub deflate_init : ℤ → ℕ → Option Stream
  pub inflate_init : ℕ → Option Stream
  pub give : Stream → Bytes → Stream
  pub deflate : Stream → ℕ → Code × Bytes × Stream
  pub inflate : Stream → ℕ → Code × Bytes × Stream
  pub deflate_end : Stream → Bool
  pub inflate_end : Stream → Bool

-- A deflating stream finishes its output bit by bit: each call fills the room it has as far as
-- there is output left, and the end of a stream with nothing left is `Z_OK`.
pub record Deflating (Z : Zlib) : Type 1 where
  pub On : Z.Stream → Type 0
  pub pending : Z.Stream → Bytes
  pub no_error : (s : Z.Stream) (n : ℕ) → On s → (Z.deflate s n).0 ≢ stream_error
  pub written : (s : Z.Stream) (n : ℕ) → On s → (Z.deflate s n).1 ≡ take n (pending s)
  pub left : (s : Z.Stream) (n : ℕ) → On s → pending (Z.deflate s n).2 ≡ drop n (pending s)
  pub goes_on : (s : Z.Stream) (n : ℕ) → On s → On (Z.deflate s n).2
  pub ends : (s : Z.Stream) → On s → pending s ≡ [] → Z.deflate_end s ≡ true

-- An inflating stream whose input has no error, though it may stop early: each call fills the
-- room as far as the input gives output. Where there is nothing to do the code is `Z_BUF_ERROR`.
pub record Inflating (Z : Zlib) : Type 1 where
  pub On : Z.Stream → Type 0
  pub pending : Z.Stream → Bytes
  pub code :
      (s : Z.Stream) (n : ℕ)
      → On s
      → ((Z.inflate s n).0 ≢ need_dict)
        × ((Z.inflate s n).0 ≢ data_error)
        × ((Z.inflate s n).0 ≢ mem_error)
  pub written : (s : Z.Stream) (n : ℕ) → On s → (Z.inflate s n).1 ≡ take n (pending s)
  pub left : (s : Z.Stream) (n : ℕ) → On s → pending (Z.inflate s n).2 ≡ drop n (pending s)
  pub goes_on : (s : Z.Stream) (n : ℕ) → On s → On (Z.inflate s n).2
  pub ends : (s : Z.Stream) → On s → Z.inflate_end s ≡ true

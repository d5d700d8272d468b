-- ===== src/Util/Compress.antt =====
-- cpp_lib/util/compress/compress_helper.cc, on lists of bytes, with the names of the parameters
-- where the file has names that are not declared. zlib is an interface: the calls, and what it
-- documents of them.
pub mod Streams
pub mod Loops
use Prim.Native.Nat.{bit_or}
use cpp_lib.Prelude.{
  ℕ, zero, suc, ◌+◌, ◌-◌, ◌%◌, ◌^◌, Bool, true, false, Option, none, some, List, [], ◌∷◌, ◌++◌,
  length, take, ◌==◌, if◌then◌else◌,
}
use cpp_lib.Serialize.Integers.{ℤ}
use cpp_lib.Util.Compress.Streams.{
  Bytes, Zlib, Code, stream_ok, stream_end, need_dict, stream_error, data_error, mem_error,
  buf_error,
}

-- `CHUNK`
abbrev pub chunk : ℕ
chunk = 16384

-- `windowBits | GZIP_ENCODING`
abbrev pub deflate_bits : ℕ
deflate_bits = bit_or 15 16

-- `16 + MAX_WBITS`
abbrev pub inflate_bits : ℕ
inflate_bits = 16 + 15

-- `avail_in`, an `unsigned int`, of a string: what zlib may read of it.
unfoldable pub available : Bytes → Bytes
available text = take (length text % 2 ^ 32) text

unfoldable pub is_stream_error : Code → Bool
is_stream_error stream_error = true
is_stream_error stream_ok = false
is_stream_error stream_end = false
is_stream_error need_dict = false
is_stream_error data_error = false
is_stream_error mem_error = false
is_stream_error buf_error = false

-- The codes at which the `switch` returns.
unfoldable pub gives_up : Code → Bool
gives_up need_dict = true
gives_up data_error = true
gives_up mem_error = true
gives_up stream_ok = false
gives_up stream_end = false
gives_up stream_error = false
gives_up buf_error = false

-- What a function returns: true for 0, false for -1.
module _ (Z : Zlib) where
  open Z use {Stream, deflate_init, deflate, deflate_end, inflate_init, inflate, inflate_end, give}

  -- `deflateEnd` and the `return` behind it.
  unfoldable pub close_deflate : Stream → Bytes → Bool × Bytes
  close_deflate strm out = if deflate_end strm then (true, out) else (false, out)

  -- The loop of `GzipString`, with `compressData` in `out`. `none` is the end of the fuel.
  unfoldable pub gzip_loop : ℕ → Stream → Bytes → Option (Bool × Bytes)
  gzip_loop zero strm out = none
  gzip_loop (suc fuel) strm out =
      let (ret, have, strm') = deflate strm chunk in
      let rest = gzip_loop fuel strm' (out ++ have) in
      if is_stream_error ret
      then some (false, out)
      else if (chunk - length have) == 0
      then rest
      else some (close_deflate strm' (out ++ have))

  unfoldable pub gzip_string : ℕ → Bytes → Bytes → ℤ → Option (Bool × Bytes)
  gzip_string fuel text compress_data level = elim (deflate_init level deflate_bits) [
    | none ↦ some (false, compress_data)
    | some strm ↦ gzip_loop fuel (give strm (available text)) compress_data
  ]

  unfoldable pub close_inflate : Stream → Bytes → Bool × Bytes
  close_inflate strm out = if inflate_end strm then (true, out) else (false, out)

  -- The loop of `GunzipString`, with `data` in `out`.
  unfoldable pub gunzip_loop : ℕ → Stream → Bytes → Option (Bool × Bytes)
  gunzip_loop zero strm out = none
  gunzip_loop (suc fuel) strm out =
      let (ret, have, strm') = inflate strm chunk in
      let rest = gunzip_loop fuel strm' (out ++ have) in
      if gives_up ret
      then some (false, out)
      else if (chunk - length have) == 0
      then rest
      else some (close_inflate strm' (out ++ have))

  unfoldable pub gunzip_string : ℕ → Bytes → Bytes → Option (Bool × Bytes)
  gunzip_string fuel compress_data out = elim (inflate_init inflate_bits) [
    | none ↦ some (false, out)
    | some strm ↦ gunzip_loop fuel (give strm (available compress_data)) out
  ]

-- ===== src/Util/File/Copy/Content.antt =====
-- What `FileCopy` and `DirCopy` of cpp_lib/util/file/file.cc leave.
use mathlib.Core.List.{append-nil, append_assoc}
use cpp_lib.Prelude.{
  ℕ, zero, suc, ◌+◌, ◌≤◌, ◌≡◌, ◌⊎◌, refl, ap, ◌∙◌, sym, Bool, true, false, Bool-cases, Option, some,
  Option-cases, inl, inr, List, [], ◌∷◌, ◌++◌, All, length, length-append, take, drop,
  take-append-drop, length-drop, arith,
}
use cpp_lib.Util.File.{Bytes, FileSystem}
use cpp_lib.Util.File.Listing.{recursive_list_all_files, list_all_files}
use cpp_lib.Util.File.Copy.{
  Read, chunk, read_failed, Write, wrote, interrupted, write_failed, write_chunk, copy_chunks,
  file_copy, copy_files, dir_copy,
}

-- The bytes that are read before the end of the file.
unfoldable pub content : List Read → Bytes
content [] = []
content (read_failed ∷ rs) = []
content (chunk [] ∷ rs) = []
content (chunk (b ∷ bs) ∷ rs) = (b ∷ bs) ++ content rs

-- A case split on a list that keeps the equation.
List-cases : (bs : Bytes) → (bs ≡ []) ⊎ ((c : ℕ) × (cs : Bytes) × (bs ≡ c ∷ cs))
List-cases [] = inl refl
List-cases (c ∷ cs) = inr (c, cs, refl)

-- The chunk is complete.
last_write : (n : ℕ) (buf out : Bytes) → drop n buf ≡ [] → out ++ take n buf ≡ out ++ buf
last_write n buf out e =
    ap (λ t. out ++ t)
      (sym (append-nil (take n buf)) ∙ ap (λ t. take n buf ++ t) (sym e) ∙ take-append-drop n buf)

write_chunk-last :
    (n : ℕ) (ws : List Write) (buf out : Bytes)
    → drop n buf ≡ []
    → write_chunk (wrote n ∷ ws) buf out ≡ some (true, ws, out ++ buf)
unfolding write_chunk
write_chunk-last n ws buf out e =
    rw (write_chunk, e) (ap (λ t. some (true, ws, t)) (last_write n buf out e))

write_chunk-more :
    (n b : ℕ) (ws : List Write) (buf bs out : Bytes)
    → drop n buf ≡ b ∷ bs
    → write_chunk (wrote n ∷ ws) buf out ≡ write_chunk ws (b ∷ bs) (out ++ take n buf)
unfolding write_chunk
write_chunk-more n b ws buf bs out e =
    rw (write_chunk, e) (ap (λ t. write_chunk ws t (out ++ take n buf)) e)

whole : (n : ℕ) (buf bs out : Bytes) → drop n buf ≡ bs → (out ++ take n buf) ++ bs ≡ out ++ buf
whole n buf bs out e =
    append_assoc out (take n buf) bs
    ∙ ap (λ t. out ++ t) (ap (λ t. take n buf ++ t) (sym e) ∙ take-append-drop n buf)

write_chunk-whole :
    (ws ws' : List Write) (buf out out' : Bytes)
    → write_chunk ws buf out ≡ some (true, ws', out')
    → out' ≡ out ++ buf
unfolding write_chunk
write_chunk-whole [] ws' buf out out' h = absurd (ground arith)
write_chunk-whole (interrupted ∷ ws) ws' buf out out' h = write_chunk-whole ws ws' buf out out' h
write_chunk-whole (write_failed ∷ ws) ws' buf out out' h = absurd (ground arith)
write_chunk-whole (wrote n ∷ ws) ws' buf out out' h = elim (List-cases (drop n buf)) [
  | inl e ↦ ground (arith, sym (write_chunk-last n ws buf out e) ∙ h)
  | inr (b, bs, e) ↦
      write_chunk-whole ws ws' (b ∷ bs) (out ++ take n buf) out'
        (sym (write_chunk-more n b ws buf bs out e) ∙ h)
      ∙ whole n buf (b ∷ bs) out e
]

copy_chunks-content :
    (rs : List Read) (ws : List Write) (out out' : Bytes)
    → copy_chunks rs ws out ≡ some (true, out')
    → out' ≡ out ++ content rs
unfolding copy_chunks content
copy_chunks-content [] ws out out' h = absurd (ground arith)
copy_chunks-content (read_failed ∷ rs) ws out out' h = absurd (ground arith)
copy_chunks-content (chunk [] ∷ rs) ws out out' h = ground (arith, append-nil out)
copy_chunks-content (chunk (b ∷ bs) ∷ rs) ws out out' h =
    elim (Option-cases (write_chunk ws (b ∷ bs) out)) [
      | inl e ↦ absurd (ground arith)
      | inr ((done, ws', mid), e) ↦ elim (Bool-cases done) [
        | inl y ↦ ground (
          arith,
          e,
          y,
          write_chunk-whole ws ws' (b ∷ bs) out mid,
          copy_chunks-content rs ws' mid out',
          append_assoc out (b ∷ bs) (content rs),
        )
        | inr n ↦ absurd (ground arith)
      ]
    ]

-- Where `FileCopy` returns true, whatever short writes and interrupts there were, the destination
-- holds the bytes that were read up to the end of the source.
pub file_copy-content :
    (opened_src opened_dst closed : Bool) (rs : List Read) (ws : List Write) (out : Option Bytes)
    → file_copy opened_src opened_dst closed rs ws ≡ some (true, out)
    → out ≡ some (content rs)
unfolding file_copy
file_copy-content opened_src opened_dst closed rs ws out h =
    elim (Option-cases (copy_chunks rs ws [])) [
      | inl e ↦ ground arith
      | inr ((r, o), e) ↦ ground (arith, e, copy_chunks-content rs ws [] o)
    ]

-- A call that does not fail and does not stand still.
abbrev pub advances : Write → Bool
advances interrupted = true
advances write_failed = false
advances (wrote zero) = false
advances (wrote (suc n)) = true

-- The calls that take bytes.
abbrev pub takes : List Write → ℕ
takes [] = 0
takes (interrupted ∷ ws) = takes ws
takes (write_failed ∷ ws) = takes ws
takes (wrote n ∷ ws) = suc (takes ws)

-- The file is read to its end.
abbrev pub ends : List Read → Bool
ends [] = false
ends (read_failed ∷ rs) = false
ends (chunk [] ∷ rs) = true
ends (chunk (b ∷ bs) ∷ rs) = ends rs

write_chunk_returns :
    (ws : List Write) (c : ℕ) (cs out : Bytes)
    → All (λ w. advances w ≡ true) ws
    → length (c ∷ cs) ≤ takes ws
    → (ws' : List Write) × (write_chunk ws (c ∷ cs) out ≡ some (true, ws', out ++ (c ∷ cs)))
      × All (λ w. advances w ≡ true) ws'
      × (takes ws ≤ takes ws' + length (c ∷ cs))
unfolding write_chunk
write_chunk_returns [] c cs out good enough = absurd (omega arith)
write_chunk_returns (interrupted ∷ ws) c cs out good enough =
    write_chunk_returns ws c cs out good.1 enough
write_chunk_returns (write_failed ∷ ws) c cs out good enough = absurd (ground (arith, good.0))
write_chunk_returns (wrote zero ∷ ws) c cs out good enough = absurd (ground (arith, good.0))
write_chunk_returns (wrote (suc n) ∷ ws) c cs out good enough = elim (List-cases (drop n cs)) [
  | inl e ↦ (ws, write_chunk-last (suc n) ws (c ∷ cs) out e, good.1, omega arith)
  | inr (b, bs, e) ↦
      let shorter : length (b ∷ bs) ≤ length cs = ground (arith, ap length e, length-drop n cs) in
      let (ws', ran, good', left) =
        write_chunk_returns ws b bs (out ++ take (suc n) (c ∷ cs)) good.1
          (omega (arith, shorter, enough)) in
      (
        ws',
        write_chunk-more (suc n) b ws (c ∷ cs) bs out e
            ∙ ran
            ∙ ap (λ t. some (true, ws', t)) (whole (suc n) (c ∷ cs) (b ∷ bs) out e),
        good',
        omega (arith, shorter, left),
      )
]

copy_chunks_returns :
    (rs : List Read) (ws : List Write) (out : Bytes)
    → ends rs ≡ true
    → All (λ w. advances w ≡ true) ws
    → length (content rs) ≤ takes ws
    → copy_chunks rs ws out ≡ some (true, out ++ content rs)
unfolding copy_chunks content
copy_chunks_returns [] ws out e good enough = absurd (ground arith)
copy_chunks_returns (read_failed ∷ rs) ws out e good enough = absurd (ground arith)
copy_chunks_returns (chunk [] ∷ rs) ws out e good enough =
    ap (λ t. some (true, t)) (sym (append-nil out))
copy_chunks_returns (chunk (b ∷ bs) ∷ rs) ws out e good enough =
    let (ws', ran, good', left) =
      write_chunk_returns ws b bs out good
        (omega (arith, length-append (b ∷ bs) (content rs), enough)) in
    rw (copy_chunks, ran)
      (copy_chunks_returns rs ws' (out ++ (b ∷ bs)) e good'
          (omega (arith, left, length-append (b ∷ bs) (content rs), enough))
        ∙ ap (λ t. some (true, t)) (append_assoc out (b ∷ bs) (content rs)))

-- If the source is read to its end without a failure, each `write` takes bytes or is interrupted,
-- and as many as there are bytes take some, `FileCopy` with files that open and close returns
-- true, and the destination holds the bytes of the source.
pub file_copy_returns :
    (rs : List Read) (ws : List Write)
    → ends rs ≡ true
    → All (λ w. advances w ≡ true) ws
    → length (content rs) ≤ takes ws
    → file_copy true true true rs ws ≡ some (true, some (content rs))
unfolding file_copy
file_copy_returns rs ws e good enough = rw (copy_chunks_returns rs ws [] e good enough) refl

module _ (os : FileSystem) (copy : os.State → Bytes → Bytes → os.State × Bool) where
  -- Where the listing of the source directory succeeds, `DirCopy` returns true and has changed
  -- nothing, whatever files were listed.
  pub dir_copy_nothing :
      (n : ℕ) (s : os.State) (src dst : Bytes) (fs : List Bytes)
      → recursive_list_all_files os n s src [] [] ≡ some (true, fs)
      → dir_copy os copy n s src dst ≡ some (s, true)
  unfolding dir_copy list_all_files copy_files
  dir_copy_nothing n s src dst fs h = rw (dir_copy, list_all_files, h) refl

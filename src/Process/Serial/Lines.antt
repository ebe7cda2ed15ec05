-- ===== src/Process/Serial/Lines.antt =====
-- `read_chunk` of src/process.rs over a log that comes in chunks.
use qemu_test.Prelude.{
  ℕ, ◌≡◌, ◌≢◌, refl, sym, ◌∙◌, true, false, ◌==◌, List, [], ◌∷◌, ◌++◌, append_assoc, append-nil,
  ends_with, All, if◌then◌else◌, Bool-cases, inl, inr, Result, ok, err, Text, arith,
}
use qemu_test.Process.Serial.{Bytes, bytes, ChunkResult, line, read_chunk}

-- the chunk's line, before those of the later chunks
abbrev pub emit : Result ChunkResult → List Text → List Text
emit (ok (line text)) later = text ∷ later
emit _ later = later

-- `read_chunk` on one chunk behind the other: the lines, and the incomplete line at the end
unfoldable pub read_chunks : (Bytes → Text) → Bytes → List Bytes → List Text × Bytes
read_chunks lossy partial [] = ([], partial)
read_chunks lossy partial (chunk ∷ chunks) =
    let (r, partial') = read_chunk lossy partial (bytes chunk) in
    let (lines, rest) = read_chunks lossy partial' chunks in (emit r lines, rest)

-- the lines of a text, each with its newline, and what stands behind the last newline
abbrev pub cut_lines : (Bytes → Text) → Bytes → Bytes → List Text × Bytes
cut_lines lossy current [] = ([], current)
cut_lines lossy current (c ∷ s) =
    let full = cut_lines lossy [] s in
    let more = cut_lines lossy (current ++ c ∷ []) s in
    if c == b'\n' then (lossy (current ++ c ∷ []) ∷ full.0, full.1) else more

-- What `read_until` returns: bytes with a newline at most at their end.
abbrev pub IsChunk : Bytes → Type 0
IsChunk [] = Unit
IsChunk (c ∷ []) = Unit
IsChunk (c ∷ d ∷ s) = (c ≢ b'\n') × IsChunk (d ∷ s)

abbrev pub flatten : List Bytes → Bytes
flatten [] = []
flatten (chunk ∷ chunks) = chunk ++ flatten chunks

ends_with-append :
    (p : Bytes) (b : ℕ) (s : Bytes) (c : ℕ) → ends_with (p ++ b ∷ s) c ≡ ends_with (b ∷ s) c
ends_with-append [] b s c = refl
ends_with-append (a ∷ []) b s c = refl
ends_with-append (a ∷ d ∷ p) b s c = ends_with-append (d ∷ p) b s c

-- a chunk that ends with a newline completes the current line
cut_full :
    (lossy : Bytes → Text) (current chunk s : Bytes)
    → IsChunk chunk
    → ends_with chunk b'\n' ≡ true
    → cut_lines lossy current (chunk ++ s)
      ≡ (lossy (current ++ chunk) ∷ (cut_lines lossy [] s).0, (cut_lines lossy [] s).1)
cut_full lossy current [] s k e = cc
cut_full lossy current (c ∷ []) s k e = rw e
cut_full lossy current (c ∷ d ∷ chunk) s (hc, k) e = ground (
  arith,
  cut_full lossy (current ++ c ∷ []) (d ∷ chunk) s k e,
  append_assoc current (c ∷ []) (d ∷ chunk),
)

-- any other chunk prolongs it
cut_more :
    (lossy : Bytes → Text) (current chunk s : Bytes)
    → IsChunk chunk
    → ends_with chunk b'\n' ≡ false
    → cut_lines lossy current (chunk ++ s) ≡ cut_lines lossy (current ++ chunk) s
cut_more lossy current [] s k e = rw append-nil
cut_more lossy current (c ∷ []) s k e = rw e
cut_more lossy current (c ∷ d ∷ chunk) s (hc, k) e = ground (
  arith,
  cut_more lossy (current ++ c ∷ []) (d ∷ chunk) s k e,
  append_assoc current (c ∷ []) (d ∷ chunk),
)

-- However the log arrives, in chunks that hold a newline at most at their end, the lines are those of
-- the log, each whole and with its newline, in order; and what is kept is what stands behind the
-- last newline.
pub read_chunks-flatten :
    (lossy : Bytes → Text) (partial : Bytes) (chunks : List Bytes)
    → All IsChunk chunks
    → read_chunks lossy partial chunks ≡ cut_lines lossy partial (flatten chunks)
unfolding read_chunks read_chunk
read_chunks-flatten lossy partial [] h = refl
read_chunks-flatten lossy partial ([] ∷ chunks) (h, hs) =
    read_chunks-flatten lossy partial chunks hs
read_chunks-flatten lossy partial ((b ∷ buf) ∷ chunks) (h, hs) =
    elim (Bool-cases (ends_with (b ∷ buf) b'\n')) [
      | inl e ↦
          rw (ends_with-append partial b buf b'\n', e)
            (rw (read_chunks-flatten lossy [] chunks hs)
              (sym (cut_full lossy partial (b ∷ buf) (flatten chunks) h e)))
      | inr e ↦
          rw (ends_with-append partial b buf b'\n', e)
            (read_chunks-flatten lossy (partial ++ b ∷ buf) chunks hs
              ∙ sym (cut_more lossy partial (b ∷ buf) (flatten chunks) h e))
    ]

emit-append : (r : Result ChunkResult) (xs ys : List Text) → emit r (xs ++ ys) ≡ emit r xs ++ ys
emit-append (ok (line text)) xs ys = refl
emit-append (ok ChunkResult.progress) xs ys = refl
emit-append (ok ChunkResult.no_progress) xs ys = refl
emit-append (err e) xs ys = refl

-- one chunk more
pub read_chunks-append :
    (lossy : Bytes → Text) (partial : Bytes) (chunks : List Bytes) (chunk : Bytes)
    → read_chunks lossy partial (chunks ++ chunk ∷ []) ≡ (
      (read_chunks lossy partial chunks).0
          ++ emit (read_chunk lossy (read_chunks lossy partial chunks).1 (bytes chunk)).0 [],
      (read_chunk lossy (read_chunks lossy partial chunks).1 (bytes chunk)).1,
    )
unfolding read_chunks
read_chunks-append lossy partial [] chunk = refl
read_chunks-append lossy partial (c ∷ chunks) chunk =
    let (r, partial') = read_chunk lossy partial (bytes c) in
    rw
      (
        read_chunks-append lossy partial' chunks chunk,
        emit-append r (read_chunks lossy partial' chunks).0
            (emit (read_chunk lossy (read_chunks lossy partial' chunks).1 (bytes chunk)).0 []),
      )
      refl

-- ===== src/Master/Sizes.antt =====
-- internal/master/master.go: the sizes of the chunks of a file.
use lumeo_fs.Base.{
  ℕ, zero, suc, ◌+◌, ◌-◌, ◌*◌, ◌≤◌, ◌<◌, min, String, true, false, List, [], ◌∷◌, map, ltb,
  if◌then◌else◌, length, All, ◌≡◌, refl, ap, arith, ℤ, pos, pos_part, ◌≤ℤ◌,
}
use lumeo_fs.Protocol.Messages.{AllocChunkRequest, ChunkLocation}
use lumeo_fs.Master.State.{Master}
use lumeo_fs.Master.Alloc.{
  available, chunk_size, chunk_count, size_of, place_chunk, place_chunks, handle_alloc_chunk,
}

-- The sum of the sizes of chunks.
unfoldable pub total_size : List ChunkLocation → ℕ
total_size [] = 0
total_size (c ∷ cs) = pos_part c.size + total_size cs

-- A chunk has at least one byte and at most `chunkSize`.
abbrev pub Sized : ChunkLocation → Type 0
Sized c = (pos 1 ≤ℤ c.size) × (c.size ≤ℤ pos chunk_size)

-- The number of chunks of a file that is not empty, and far from the end of `int64`.
chunk_count-bounds :
    (z : ℤ) (n : ℕ)
    → z ≡ pos n
    → 0 < n
    → n + 67108863 < 9223372036854775808
    → ((chunk_count z - 1) * chunk_size < n) × (n ≤ chunk_count z * chunk_size)
unfolding chunk_count
chunk_count-bounds z n e h small = rw e (ground arith)

-- What chunk `i` of `n` adds.
size_of-next :
    (z : ℤ) (size n i : ℕ)
    → z ≡ pos size
    → i < n
    → (n - 1) * chunk_size < size
    → size ≤ n * chunk_size
    → (pos 1 ≤ℤ size_of z n i)
      × (size_of z n i ≤ℤ pos chunk_size)
      × (pos_part (size_of z n i) + min size (i * chunk_size) ≡ min size (suc i * chunk_size))
unfolding size_of
size_of-next z size n i e h low high = rw e (ground arith)

module _ (show : String → ℤ → String) (chunk_name : String → ℕ → String) where
  -- The sizes that the loop makes from chunk `i` on.
  place_chunks-sizes :
      (now : ℕ) (nodes : List String) (req : AllocChunkRequest) (size n i rounds : ℕ) (m : Master)
      → req.file_size ≡ pos size
      → i + rounds ≡ n
      → (n - 1) * chunk_size < size
      → size ≤ n * chunk_size
      → let cs = map (λ p. p.0) (place_chunks show chunk_name now nodes req n i rounds m).1 in
        (length cs ≡ rounds) × All Sized cs × (total_size cs + min size (i * chunk_size) ≡ size)
  unfolding place_chunks place_chunk total_size
  place_chunks-sizes now nodes req size n i zero m e at low high =
      (refl, tt, omega (arith, at, high))
  place_chunks-sizes now nodes req size n i (suc rounds) m e at low high =
      let (len, sized, total) =
        place_chunks-sizes now nodes req size n (suc i) rounds
          (place_chunk show chunk_name now nodes req n i m).0 e (omega (arith, at)) low high in
      let (least, most, next) =
        size_of-next req.file_size size n i e (omega (arith, at)) low high in
      (ap suc len, ((least, most), sized), omega (arith, total, next))

  -- The allocation of the chunks of a file of `size` bytes, which are not none, and less than
  -- 2 ^ 63 - 67108863, where enough nodes are online: it succeeds, every chunk has from 1 to 67108864
  -- bytes, and the chunks have the bytes of the file together.
  pub handle_alloc_chunk-sizes :
      (refusal : ℕ → ℕ → String) (now : ℕ) (order : List String) (req : AllocChunkRequest)
      (m : Master) (size : ℕ)
      → req.file_size ≡ pos size
      → 0 < size
      → size + 67108863 < 9223372036854775808
      → m.replica_count ≤ length (available order m.datanodes)
      → let resp = (handle_alloc_chunk show chunk_name refusal now order req m).1 in
        (resp.base.success ≡ true) × All Sized resp.chunks × (total_size resp.chunks ≡ size)
  unfolding handle_alloc_chunk
  handle_alloc_chunk-sizes refusal now order req m size e some_bytes small enough =
      let (low, high) = chunk_count-bounds req.file_size size e some_bytes small in
      let n = chunk_count req.file_size in
      let ok : ltb (length (available order m.datanodes)) m.replica_count ≡ false = ground arith in
      let (len, sized, total) =
        place_chunks-sizes now (available order m.datanodes) req size n 0 n m e (omega arith) low
          high in
      rw (ok, handle_alloc_chunk, if◌then◌else◌) (refl, sized, omega (arith, total))

-- ===== src/Memif.antt =====
-- fesvr/memif.cc, memif_t: bytes of the target at any address, over chunks at aligned ones.
-- The chunks (`chunked_memif_t`) are a parameter: `S` is the state behind them. A buffer is a list.
pub mod Chunks
pub mod Flat
pub mod Stores
pub mod Examples
use nnemu.Base.{
  ℕ, zero, suc, ◌+◌, ◌-◌, ◌%◌, ◌^◌, min, Bool, true, false, not, ◌&&◌, ◌==◌, truthy, if◌then◌else◌,
  List, [], ◌∷◌, ◌++◌, length, take, drop, bit_and,
}
use nnemu.Base.Bits.{bit_not}

pub record ChunkedMemif (S : Type 0) : Type 0 where
  pub read_chunk : ℕ → ℕ → S → S × List ℕ
  pub write_chunk : ℕ → List ℕ → S → S
  pub clear_chunk : ℕ → ℕ → S → S
  pub chunk_align : ℕ
  pub chunk_max_size : ℕ

-- `memcpy` of `bytes` to the offset `off` of a chunk.
abbrev pub copy_at : ℕ → List ℕ → List ℕ → List ℕ
copy_at off bytes chunk = take off chunk ++ (bytes ++ drop (off + length bytes) chunk)

abbrev pub all_zero : List ℕ → Bool
all_zero [] = true
all_zero (b ∷ bytes) = (b == 0) && all_zero bytes

module _ {S : Type 0} (cmemif : ChunkedMemif S) where
  -- `addr & (align-1)` and `addr & ~(align-1)`.
  abbrev pub offset : ℕ → ℕ
  offset addr = bit_and addr (cmemif.chunk_align - 1)

  abbrev pub chunk_of : ℕ → ℕ
  chunk_of addr = bit_and addr (bit_not 64 (cmemif.chunk_align - 1))

  -- The bytes of the first, partial chunk of an access.
  abbrev pub head_len : ℕ → ℕ → ℕ
  head_len addr len =
      if not (len == 0) && truthy (offset addr)
      then min len (cmemif.chunk_align - offset addr)
      else 0

  -- The last loop of `read`, with `len` bytes left.
  unfoldable pub read_loop : ℕ → ℕ → ℕ → S → S × List ℕ
  read_loop zero addr len s = (s, [])
  read_loop (suc fuel) addr zero s = (s, [])
  read_loop (suc fuel) addr (suc len) s =
      let n = min cmemif.chunk_max_size (suc len) in
      let got = cmemif.read_chunk addr n s in
      let rest = read_loop fuel ((addr + n) % 2 ^ 64) (suc len - n) got.0 in
      (rest.0, got.1 ++ rest.1)

  -- From an aligned address on: the last, partial chunk is read first.
  unfoldable pub read_aligned : ℕ → ℕ → S → S × List ℕ
  read_aligned addr len s =
      let this_len = offset len in
      let start = len - this_len in
      let last =
        if truthy this_len
        then cmemif.read_chunk ((addr + start) % 2 ^ 64) cmemif.chunk_align s
        else (s, []) in
      let rest = read_loop start addr start last.0 in (rest.0, rest.1 ++ take this_len last.1)

  unfoldable pub read : ℕ → ℕ → S → S × List ℕ
  read addr len s =
      let this_len = head_len addr len in
      let first = cmemif.read_chunk (chunk_of addr) cmemif.chunk_align s in
      if not (len == 0) && truthy (offset addr)
      then (let rest = read_aligned ((addr + this_len) % 2 ^ 64) (len - this_len) first.0 in
          (rest.0, take this_len (drop (offset addr) first.1) ++ rest.1))
      else read_aligned addr len s

  unfoldable pub write_loop : ℕ → ℕ → List ℕ → S → S
  write_loop zero addr bytes s = s
  write_loop (suc fuel) addr [] s = s
  write_loop (suc fuel) addr (b ∷ bytes) s =
      let n = min cmemif.chunk_max_size (length (b ∷ bytes)) in
      write_loop fuel ((addr + n) % 2 ^ 64) (drop n (b ∷ bytes))
        (cmemif.write_chunk addr (take n (b ∷ bytes)) s)

  -- A chunk is read, changed and written back.
  unfoldable pub patch : ℕ → ℕ → List ℕ → S → S
  patch addr off bytes s =
      let got = cmemif.read_chunk addr cmemif.chunk_align s in
      cmemif.write_chunk addr (copy_at off bytes got.1) got.0

  unfoldable pub write_whole : ℕ → List ℕ → S → S
  write_whole addr bytes s =
      if not (length bytes == 0) && all_zero bytes
      then cmemif.clear_chunk addr (length bytes) s
      else write_loop (length bytes) addr bytes s

  -- From an aligned address on: the last, partial chunk is written first.
  unfoldable pub write_aligned : ℕ → List ℕ → S → S
  write_aligned addr bytes s =
      let this_len = offset (length bytes) in
      let start = length bytes - this_len in
      write_whole addr (take start bytes)
        (if truthy this_len then patch ((addr + start) % 2 ^ 64) 0 (drop start bytes) s else s)

  unfoldable pub write : ℕ → List ℕ → S → S
  write addr bytes s =
      let this_len = head_len addr (length bytes) in
      if not (length bytes == 0) && truthy (offset addr)
      then write_aligned ((addr + this_len) % 2 ^ 64) (drop this_len bytes)
          (patch (chunk_of addr) (offset addr) (take this_len bytes) s)
      else write_aligned addr bytes s

-- ===== src/Memif/Examples.antt =====
-- Tests of the target memory interface, and its theorems at concrete inputs.
use nnemu.Base.{ℕ, ◌*◌, ◌≡◌, refl, arith, [], ◌∷◌, replicate}
use nnemu.Memory.Pages.{overlay}
use nnemu.Memory.Flat.{range}
use nnemu.Memif.{ChunkedMemif, read, read_aligned, read_loop, write}
use nnemu.Memif.Flat.{IsFlat, read_lem}
use nnemu.Memif.Stores.{write_lem}

-- Chunks of 8 bytes, up to 64 at once, over a function.
abbrev bytes_of : ChunkedMemif (ℕ → ℕ)
bytes_of = record {
  read_chunk = λ a n m. (m, range m a n);
  write_chunk = λ a bytes m i. overlay a bytes i (m i);
  clear_chunk = λ a n m i. overlay a (replicate n 0) i (m i);
  chunk_align = 8;
  chunk_max_size = 64;
}

abbrev count : ℕ → ℕ
count i = i * 3

bytes_of-IsFlat : IsFlat bytes_of 3 (λ m. m)
bytes_of-IsFlat = record {
  aligned = refl;
  word = omega arith;
  max_pos = omega arith;
  max_aligned = refl;
  reads = λ a n s h g l. refl;
  keeps = λ a n s i. refl;
  writes = λ a bytes s i h g l. refl;
  clears = λ a n s i h g. refl;
}

unaligned : (read bytes_of 6 4 count).1 ≡ 18 ∷ 21 ∷ 24 ∷ 27 ∷ []
unfolding read read_aligned read_loop
unaligned = refl

read_lem_example :
    ((read bytes_of 6 20 count).1 ≡ range count 6 20)
    × ((i : ℕ) → (read bytes_of 6 20 count).0 i ≡ count i)
read_lem_example = read_lem bytes_of 3 (λ m. m) 6 20 count bytes_of-IsFlat (omega arith)

write_lem_example :
    write bytes_of 6 (1 ∷ 2 ∷ 3 ∷ []) count 7 ≡ overlay 6 (1 ∷ 2 ∷ 3 ∷ []) 7 (count 7)
write_lem_example =
    write_lem bytes_of 3 (λ m. m) 6 (1 ∷ 2 ∷ 3 ∷ []) count 7 bytes_of-IsFlat (omega arith)

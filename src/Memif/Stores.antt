-- ===== src/Memif/Stores.antt =====
-- fesvr/memif.cc: `write` over chunks that behave as a flat memory.
use nnemu.Base.{
  ℕ, zero, suc, ◌+◌, ◌-◌, ◌%◌, ◌^◌, ◌≤◌, ◌<◌, ◌≡◌, ◌≢◌, refl, ap, ap₂, sym, ◌∙◌, arith, true, not,
  ◌&&◌, ◌==◌, min, if◌then◌else◌, truthy, List, [], ◌∷◌, ◌++◌, length, take, drop, Bool-cases, inl,
  inr, length-append, length-take, length-drop,
}
use native.Mathlib.Nat.{mod-lt, mod-le, mod-eq_of_lt}
use nnemu.Base.Bits.{two_pow_pos, zero-and}
use nnemu.Memory.Pages.{overlay, overlay_split, get_or-take, get_or-drop}
use nnemu.Memory.Flat.{range}
use nnemu.Memif.{
  ChunkedMemif, copy_at, all_zero, offset, chunk_of, write_loop, patch, write_whole, write_aligned,
  write,
}
use nnemu.Memif.Chunks.{length-range, overlay-copy_at, all_zero-replicate}
use nnemu.Memif.Flat.{
  IsFlat, aligned_add, aligned_sub, aligned_min, aligned_down, offset_lem, chunk_align-aligned,
  chunk_align_le, chunk_bytes, chunk_of_lem, head_rest,
}

-- Two neighbouring ranges, the upper one written first.
overlay_join :
    (n addr : ℕ) (bytes : List ℕ) (i old : ℕ)
    → n ≤ length bytes
    → overlay addr (take n bytes) i (overlay (addr + n) (drop n bytes) i old)
      ≡ overlay addr bytes i old
overlay_join n addr bytes i old h = ground (
  arith,
  length-take n bytes,
  length-drop n bytes,
  get_or-take n bytes (i - addr),
  get_or-drop n bytes (i - (addr + n)) (i - addr),
)

overlay_none :
    (addr : ℕ) (bytes : List ℕ) (i old : ℕ) → length bytes ≡ 0 → overlay addr bytes i old ≡ old
overlay_none addr bytes i old h = ground (arith, h)

length-copy_at :
    (f : ℕ → ℕ) (a n off : ℕ) (bytes : List ℕ)
    → off + length bytes ≤ n
    → length (copy_at off bytes (range f a n)) ≡ n
length-copy_at f a n off bytes h = omega (
  arith,
  length-append (take off (range f a n)) (bytes ++ drop (off + length bytes) (range f a n)),
  length-append bytes (drop (off + length bytes) (range f a n)),
  length-take off (range f a n),
  length-drop (off + length bytes) (range f a n),
  length-range f a n,
)

module _ {S : Type 0} (cmemif : ChunkedMemif S) (k : ℕ) (view : S → ℕ → ℕ)
    (flat : IsFlat cmemif k view) where
  abbrev Writes : ℕ → List ℕ → S → S → Type 0
  Writes addr bytes s r = (i : ℕ) → view r i ≡ overlay addr bytes i (view s i)

  write_loop-Writes :
      (fuel addr : ℕ) (bytes : List ℕ) (s : S)
      → length bytes ≤ fuel
      → addr % 2 ^ k ≡ 0
      → length bytes % 2 ^ k ≡ 0
      → addr + length bytes < 2 ^ 64
      → Writes addr bytes s (write_loop cmemif fuel addr bytes s)
  unfolding write_loop
  write_loop-Writes zero addr [] s h a l w i = sym (overlay_none addr [] i (view s i) refl)
  write_loop-Writes zero addr (b ∷ bytes) s h a l w i = absurd (omega arith)
  write_loop-Writes (suc fuel) addr [] s h a l w i = sym (overlay_none addr [] i (view s i) refl)
  write_loop-Writes (suc fuel) addr (b ∷ bytes) s h a l w i =
      let all = b ∷ bytes in
      let n = min cmemif.chunk_max_size (length all) in
      let n_aligned = aligned_min (2 ^ k) cmemif.chunk_max_size (length all) flat.max_aligned l in
      let s' = cmemif.write_chunk addr (take n all) s in
      let taken : length (take n all) ≡ n = omega (arith, length-take n all) in
      let next : (addr + n) % 2 ^ 64 ≡ addr + n = mod-eq_of_lt (omega arith) in
      let rest =
        write_loop-Writes fuel (addr + n) (drop n all) s'
          (omega (arith, length-drop n all, flat.max_pos)) (aligned_add (2 ^ k) addr n a n_aligned)
          (ap (λ t. t % 2 ^ k) (length-drop n all) ∙ aligned_sub (2 ^ k) (length all) n l n_aligned)
          (omega (arith, length-drop n all)) in
      rw next (
        rest i
        ∙ ap (overlay (addr + n) (drop n all) i) (
            flat.writes addr (take n all) s i a (ap (λ t. t % 2 ^ k) taken ∙ n_aligned)
              (omega (arith, taken)))
        ∙ overlay_split n addr all i (view s i) (omega arith))

  patch-Writes :
      (a off : ℕ) (bytes : List ℕ) (s : S)
      → a % 2 ^ k ≡ 0
      → off + length bytes ≤ cmemif.chunk_align
      → Writes (a + off) bytes s (patch cmemif a off bytes s)
  unfolding patch
  patch-Writes a off bytes s h fit i =
      let f = view s in
      let n = cmemif.chunk_align in
      let got = chunk_bytes cmemif k view flat a s h in
      let len = ap (λ c. length (copy_at off bytes c)) got ∙ length-copy_at f a n off bytes fit in
      flat.writes a (copy_at off bytes (cmemif.read_chunk a n s).1) (cmemif.read_chunk a n s).0 i h
        (ap (λ t. t % 2 ^ k) len ∙ chunk_align-aligned cmemif k view flat)
        (omega (arith, len, chunk_align_le cmemif k view flat))
      ∙ ap₂ (λ c old. overlay a (copy_at off bytes c) i old) got (flat.keeps a n s i)
      ∙ overlay-copy_at f a n off bytes i fit

  write_whole-Writes :
      (addr : ℕ) (bytes : List ℕ) (s : S)
      → addr % 2 ^ k ≡ 0
      → length bytes % 2 ^ k ≡ 0
      → addr + length bytes < 2 ^ 64
      → Writes addr bytes s (write_whole cmemif addr bytes s)
  unfolding write_whole
  write_whole-Writes addr bytes s a l w i =
      elim (Bool-cases (not (length bytes == 0) && all_zero bytes)) [
        | inl zeros ↦ rw zeros (
            flat.clears addr (length bytes) s i a l
            ∙ ap (λ t. overlay addr t i (view s i))
                (sym (all_zero-replicate bytes (ground (arith, zeros)))))
        | inr other ↦ rw other (write_loop-Writes (length bytes) addr bytes s (omega arith) a l w i)
      ]

  abbrev tail_patched : ℕ → ℕ → List ℕ → S → S
  tail_patched a t bytes s = if truthy t then patch cmemif a 0 bytes s else s

  tail_patched_lem :
      (a t : ℕ) (bytes : List ℕ) (s : S)
      → a % 2 ^ k ≡ 0
      → length bytes ≡ t
      → t ≤ cmemif.chunk_align
      → Writes a bytes s (tail_patched a t bytes s)
  tail_patched_lem a t bytes s h e le i = elim (Bool-cases (truthy t)) [
    | inl some_bytes ↦ rw some_bytes (
        patch-Writes a 0 bytes s h (omega (arith, e)) i
        ∙ ap (λ t. overlay t bytes i (view s i)) {x = a + 0} {y = a} (omega arith))
    | inr no_bytes ↦
        rw no_bytes (sym (overlay_none a bytes i (view s i) (ground (arith, no_bytes, e))))
  ]

  write_aligned-Writes :
      (addr : ℕ) (bytes : List ℕ) (s : S)
      → addr % 2 ^ k ≡ 0
      → addr + length bytes < 2 ^ 64
      → Writes addr bytes s (write_aligned cmemif addr bytes s)
  unfolding write_aligned
  write_aligned-Writes addr bytes s a w i =
      let len = length bytes in
      let t = offset cmemif len in
      let start = len - t in
      let t_lem = offset_lem cmemif k view flat len in
      let t_lt = mod-lt len (two_pow_pos k) in
      let start_aligned : start % 2 ^ k ≡ 0 =
        ap (λ u. (len - u) % 2 ^ k) t_lem ∙ aligned_down (2 ^ k) len in
      let at : (addr + start) % 2 ^ 64 ≡ addr + start = mod-eq_of_lt (omega arith) in
      let s' = tail_patched (addr + start) t (drop start bytes) s in
      let taken : length (take start bytes) ≡ start = omega (arith, length-take start bytes) in
      let tail =
        tail_patched_lem (addr + start) t (drop start bytes) s
          (aligned_add (2 ^ k) addr start a start_aligned)
          (omega (arith, length-drop start bytes, t_lem, mod-le len (2 ^ k)))
          (omega (arith, t_lem, t_lt, flat.aligned)) in
      rw at (
        write_whole-Writes addr (take start bytes) s' a (ap (λ t. t % 2 ^ k) taken ∙ start_aligned)
          (omega (arith, taken)) i
        ∙ ap (overlay addr (take start bytes) i) (tail i)
        ∙ overlay_join start addr bytes i (view s i) (omega arith))

  write_aligned-none : (addr : ℕ) (s : S) → Writes addr [] s (write_aligned cmemif addr [] s)
  unfolding write_aligned write_whole write_loop
  write_aligned-none addr s i =
      rw (zero-and (cmemif.chunk_align - 1)) (sym (overlay_none addr [] i (view s i) refl))

  write_rest :
      (addr : ℕ) (bytes : List ℕ) (s : S)
      → (length bytes ≢ 0 → addr % 2 ^ k ≡ 0)
      → addr + length bytes < 2 ^ 64
      → Writes addr bytes s (write_aligned cmemif addr bytes s)
  write_rest addr [] s a w = write_aligned-none addr s
  write_rest addr (b ∷ bytes) s a w = write_aligned-Writes addr (b ∷ bytes) s (a (omega arith)) w

  write-split :
      (addr : ℕ) (bytes : List ℕ) (s : S)
      → addr + length bytes < 2 ^ 64
      → (not (length bytes == 0) && truthy (offset cmemif addr)) ≡ true
      → Writes addr bytes s (write cmemif addr bytes s)
  unfolding write
  write-split addr bytes s w split i =
      let len = length bytes in
      let align = cmemif.chunk_align in
      let o = offset cmemif addr in
      let n = min len (align - o) in
      let c = chunk_of cmemif addr in
      let o_lem = offset_lem cmemif k view flat addr in
      let o_lt = mod-lt addr (two_pow_pos k) in
      let c_lem = chunk_of_lem cmemif k view flat addr (omega arith) in
      let at : (addr + n) % 2 ^ 64 ≡ addr + n = mod-eq_of_lt (omega arith) in
      let s' = patch cmemif c o (take n bytes) s in
      let head =
        patch-Writes c o (take n bytes) s (ap (λ t. t % 2 ^ k) c_lem ∙ aligned_down (2 ^ k) addr)
          (omega (arith, length-take n bytes, o_lem, o_lt, flat.aligned)) in
      let rest =
        write_rest (addr + n) (drop n bytes) s'
          (λ more.
            ap (λ t. (addr + min len (align - t)) % 2 ^ k) o_lem
            ∙ head_rest cmemif k view flat addr len
                (λ e. more (length-drop n bytes ∙ ap (λ t. len - min len (align - t)) o_lem ∙ e)))
          (omega (arith, length-drop n bytes)) in
      rw (split, at)
        (rest i
          ∙ ap (overlay (addr + n) (drop n bytes) i) (
              head i
              ∙ ap (λ t. overlay t (take n bytes) i (view s i)) {x = c + o} {y = addr}
                  (omega (arith, c_lem, o_lem, mod-le addr (2 ^ k))))
          ∙ overlay_split n addr bytes i (view s i) (omega arith))

-- Over chunks that behave as a flat memory at aligned addresses, a write of a range that ends below 2^64
-- changes the bytes of this range in the flat memory, and no other, wherever the range begins and ends.
pub write_lem :
    {S : Type 0} (cmemif : ChunkedMemif S) (k : ℕ) (view : S → ℕ → ℕ) (addr : ℕ) (bytes : List ℕ)
    (s : S) (i : ℕ)
    → IsFlat cmemif k view
    → addr + length bytes < 2 ^ 64
    → view (write cmemif addr bytes s) i ≡ overlay addr bytes i (view s i)
unfolding write
write_lem cmemif k view addr bytes s i flat w =
    elim (Bool-cases (not (length bytes == 0) && truthy (offset cmemif addr))) [
      | inl split ↦ write-split cmemif k view flat addr bytes s w split i
      | inr whole ↦ rw whole (
          write_rest cmemif k view flat addr bytes s
            (λ more. sym (offset_lem cmemif k view flat addr) ∙ ground (arith, whole, more)) w i)
    ]

-- ===== src/Memif/Flat.antt =====
-- fesvr/memif.cc: `read` over chunks that behave as a flat memory at aligned addresses.
use nnemu.Base.{
  ℕ, zero, suc, ◌+◌, ◌-◌, ◌*◌, ◌/◌, ◌%◌, ◌^◌, ◌≤◌, ◌<◌, ◌≡◌, ◌≢◌, subst, refl, ap, ap₂, sym, ◌∙◌,
  arith, true, not, ◌&&◌, ◌==◌, ltb, leb, min, if◌then◌else◌, truthy, List, [], ◌++◌, length, take,
  drop, replicate, Bool-cases, inl, inr, bit_and,
}
use native.Mathlib.Nat.{
  dvd_iff_mod-eq-zero, dvd-add, dvd-sub, dvd_of_mod-eq-zero, mod-lt, mod-le, mod-eq_of_lt,
  div-add-mod', mul-mod_left, pow-le-pow_right,
}
use nnemu.Base.Bits.{bit_not, zero-and, and_mask, and_not_mask, two_pow_pos}
use nnemu.Memory.Pages.{overlay}
use nnemu.Memory.Flat.{range, range-append, range_ext}
use nnemu.Memif.{ChunkedMemif, offset, chunk_of, read_loop, read_aligned, read}
use nnemu.Memif.Chunks.{take-range, drop-range}

-- What `memif_t` relies on: `view` gives the byte at an address. A chunk starts at a multiple of the
-- alignment, which is a power of two, and its length is one too.
pub record IsFlat {S : Type 0} (cmemif : ChunkedMemif S) (k : ℕ) (view : S → ℕ → ℕ) : Type 0 where
  pub aligned : cmemif.chunk_align ≡ 2 ^ k
  pub word : k < 64
  pub max_pos : 1 ≤ cmemif.chunk_max_size
  pub max_aligned : cmemif.chunk_max_size % 2 ^ k ≡ 0
  pub reads :
      (a n : ℕ) (s : S)
      → a % 2 ^ k ≡ 0
      → n % 2 ^ k ≡ 0
      → n ≤ cmemif.chunk_max_size
      → (cmemif.read_chunk a n s).1 ≡ range (view s) a n
  pub keeps : (a n : ℕ) (s : S) (i : ℕ) → view (cmemif.read_chunk a n s).0 i ≡ view s i
  pub writes :
      (a : ℕ) (bytes : List ℕ) (s : S) (i : ℕ)
      → a % 2 ^ k ≡ 0
      → length bytes % 2 ^ k ≡ 0
      → length bytes ≤ cmemif.chunk_max_size
      → view (cmemif.write_chunk a bytes s) i ≡ overlay a bytes i (view s i)
  pub clears :
      (a n : ℕ) (s : S) (i : ℕ)
      → a % 2 ^ k ≡ 0
      → n % 2 ^ k ≡ 0
      → view (cmemif.clear_chunk a n s) i ≡ overlay a (replicate n 0) i (view s i)

pub aligned_add : (p a b : ℕ) → a % p ≡ 0 → b % p ≡ 0 → (a + b) % p ≡ 0
aligned_add p a b ha hb =
    (dvd_iff_mod-eq-zero p).0 (dvd-add p (dvd_of_mod-eq-zero p ha) (dvd_of_mod-eq-zero p hb))

pub aligned_sub : (p a b : ℕ) → a % p ≡ 0 → b % p ≡ 0 → (a - b) % p ≡ 0
aligned_sub p a b ha hb =
    (dvd_iff_mod-eq-zero p).0 (dvd-sub p (dvd_of_mod-eq-zero p ha) (dvd_of_mod-eq-zero p hb))

pub aligned_min : (p a b : ℕ) → a % p ≡ 0 → b % p ≡ 0 → min a b % p ≡ 0
aligned_min p a b ha hb = elim (Bool-cases (leb a b)) [
  | inl le ↦ ap (λ t. t % p) {x = min a b} {y = a} (ground (arith, le)) ∙ ha
  | inr gt ↦ ap (λ t. t % p) {x = min a b} {y = b} (ground (arith, gt)) ∙ hb
]

-- What is left of a number below a multiple, and the next multiple.
pub aligned_down : (p a : ℕ) → (a - a % p) % p ≡ 0
aligned_down p a =
    ap (λ t. t % p) {x = a - a % p} {y = a / p * p} (omega (arith, div-add-mod' a p))
    ∙ mul-mod_left (a / p) p

module _ {S : Type 0} (cmemif : ChunkedMemif S) (k : ℕ) (view : S → ℕ → ℕ)
    (flat : IsFlat cmemif k view) where
  -- The result is the range, and the memory reads as before.
  pub record Reads (addr len : ℕ) (s : S) (r : S × List ℕ) : Type 0 where
    pub bytes : r.1 ≡ range (view s) addr len
    pub same : (i : ℕ) → view r.0 i ≡ view s i

  read_loop-Reads :
      (fuel addr len : ℕ) (s : S)
      → len ≤ fuel
      → addr % 2 ^ k ≡ 0
      → len % 2 ^ k ≡ 0
      → addr + len < 2 ^ 64
      → Reads addr len s (read_loop cmemif fuel addr len s)
  unfolding read_loop
  read_loop-Reads zero addr zero s h a l w = record { bytes = refl; same = λ i. refl }
  read_loop-Reads zero addr (suc len) s h a l w = absurd (omega arith)
  read_loop-Reads (suc fuel) addr zero s h a l w = record { bytes = refl; same = λ i. refl }
  read_loop-Reads (suc fuel) addr (suc len) s h a l w =
      let n = min cmemif.chunk_max_size (suc len) in
      let n_aligned = aligned_min (2 ^ k) cmemif.chunk_max_size (suc len) flat.max_aligned l in
      let s' = (cmemif.read_chunk addr n s).0 in
      let next : (addr + n) % 2 ^ 64 ≡ addr + n = mod-eq_of_lt (omega arith) in
      let rest =
        read_loop-Reads fuel (addr + n) (suc len - n) s' (omega (arith, flat.max_pos))
          (aligned_add (2 ^ k) addr n a n_aligned) (aligned_sub (2 ^ k) (suc len) n l n_aligned)
          (omega arith) in
      rw next (record {
        bytes =
            ap₂ ◌++◌ (flat.reads addr n s a n_aligned (omega arith)) (
              rest.bytes
              ∙ range_ext (view s') (view s) (addr + n) (suc len - n) (flat.keeps addr n s))
            ∙ range-append (view s) addr n (suc len - n) (suc len) (omega arith);
        same = λ i. rest.same i ∙ flat.keeps addr n s i;
      })

  pub offset_lem : (a : ℕ) → offset cmemif a ≡ a % 2 ^ k
  offset_lem a = ap (λ t. bit_and a (t - 1)) flat.aligned ∙ and_mask k a

  pub chunk_align-aligned : cmemif.chunk_align % 2 ^ k ≡ 0
  chunk_align-aligned =
      ap (λ t. t % 2 ^ k) {x = cmemif.chunk_align} {y = 1 * 2 ^ k} (omega (arith, flat.aligned))
      ∙ mul-mod_left 1 (2 ^ k)

  pub chunk_align_le : cmemif.chunk_align ≤ cmemif.chunk_max_size
  chunk_align_le = elim (Bool-cases (ltb cmemif.chunk_max_size (2 ^ k))) [
    | inl less ↦
        let whole = mod-eq_of_lt {n = cmemif.chunk_max_size} {m = 2 ^ k} (ground (arith, less)) in
        absurd (omega (arith, whole, flat.max_aligned, flat.max_pos))
    | inr more ↦ ground (arith, more, flat.aligned)
  ]

  -- A whole chunk.
  pub chunk_bytes :
      (a : ℕ) (s : S)
      → a % 2 ^ k ≡ 0
      → (cmemif.read_chunk a cmemif.chunk_align s).1 ≡ range (view s) a cmemif.chunk_align
  chunk_bytes a s h = flat.reads a cmemif.chunk_align s h chunk_align-aligned chunk_align_le

  abbrev tail_of : ℕ → ℕ → S → S × List ℕ
  tail_of a t s = if truthy t then cmemif.read_chunk a cmemif.chunk_align s else (s, [])

  tail_of_lem :
      (a t : ℕ) (s : S)
      → a % 2 ^ k ≡ 0
      → t ≤ cmemif.chunk_align
      → (take t (tail_of a t s).1 ≡ range (view s) a t)
        × ((i : ℕ) → view (tail_of a t s).0 i ≡ view s i)
  tail_of_lem a t s h le = elim (Bool-cases (truthy t)) [
    | inl some_bytes ↦ rw some_bytes (
      ap (take t) (chunk_bytes a s h) ∙ take-range (view s) a cmemif.chunk_align t le,
      flat.keeps a cmemif.chunk_align s,
    )
    | inr no_bytes ↦
        let zero_len : t ≡ 0 = ground (arith, no_bytes) in
        let nothing : List ℕ = [] in
        rw no_bytes
          (ap (λ u. take u nothing) zero_len ∙ ap (range (view s) a) (sym zero_len), λ i. refl)
  ]

  read_aligned-Reads :
      (addr len : ℕ) (s : S)
      → addr % 2 ^ k ≡ 0
      → addr + len < 2 ^ 64
      → Reads addr len s (read_aligned cmemif addr len s)
  unfolding read_aligned
  read_aligned-Reads addr len s a w =
      let t = offset cmemif len in
      let start = len - t in
      let t_lem = offset_lem len in
      let t_lt = mod-lt len (two_pow_pos k) in
      let start_aligned : start % 2 ^ k ≡ 0 =
        ap (λ u. (len - u) % 2 ^ k) t_lem ∙ aligned_down (2 ^ k) len in
      let at : (addr + start) % 2 ^ 64 ≡ addr + start = mod-eq_of_lt (omega arith) in
      let tail =
        tail_of_lem (addr + start) t s (aligned_add (2 ^ k) addr start a start_aligned)
          (omega (arith, t_lem, t_lt, flat.aligned)) in
      let last = tail_of (addr + start) t s in
      let rest =
        read_loop-Reads start addr start last.0 (omega arith) a start_aligned (omega arith) in
      rw at (record {
        bytes =
            ap₂ ◌++◌ (rest.bytes ∙ range_ext (view last.0) (view s) addr start tail.1) tail.0
            ∙ range-append (view s) addr start t len (omega (arith, t_lem, mod-le len (2 ^ k)));
        same = λ i. rest.same i ∙ tail.1 i;
      })

  read_aligned-none : (addr : ℕ) (s : S) → Reads addr 0 s (read_aligned cmemif addr 0 s)
  unfolding read_aligned read_loop
  read_aligned-none addr s =
      rw (zero-and (cmemif.chunk_align - 1)) (record { bytes = refl; same = λ i. refl })

  -- The rest of an access starts at a multiple of the alignment, or is empty.
  read_rest :
      (addr len : ℕ) (s : S)
      → (len ≢ 0 → addr % 2 ^ k ≡ 0)
      → addr + len < 2 ^ 64
      → Reads addr len s (read_aligned cmemif addr len s)
  read_rest addr len s a w = elim (Bool-cases (len == 0)) [
    | inl empty ↦
        subst (λ l. Reads addr l s (read_aligned cmemif addr l s)) (sym (ground (arith, empty)))
          (read_aligned-none addr s)
    | inr nonempty ↦ read_aligned-Reads addr len s (a (ground (arith, nonempty))) w
  ]

  pub chunk_of_lem : (addr : ℕ) → addr < 2 ^ 64 → chunk_of cmemif addr ≡ addr - addr % 2 ^ k
  chunk_of_lem addr w =
      ap (λ t. bit_and addr (bit_not 64 (t - 1))) flat.aligned
      ∙ and_not_mask 64 k addr w
          (pow-le-pow_right {n = 2} (omega arith) {i = k} {j = 64} (omega (arith, flat.word)))

  -- The first chunk of an access ends at a multiple of the alignment.
  next_aligned : (addr : ℕ) → (addr - addr % 2 ^ k + cmemif.chunk_align) % 2 ^ k ≡ 0
  next_aligned addr =
      aligned_add (2 ^ k) (addr - addr % 2 ^ k) cmemif.chunk_align (aligned_down (2 ^ k) addr)
        chunk_align-aligned

  pub head_rest :
      (addr len : ℕ)
      → len - min len (cmemif.chunk_align - addr % 2 ^ k) ≢ 0
      → (addr + min len (cmemif.chunk_align - addr % 2 ^ k)) % 2 ^ k ≡ 0
  head_rest addr len more =
      ap (λ t. t % 2 ^ k) {x = addr + min len (cmemif.chunk_align - addr % 2 ^ k)}
        {y = addr - addr % 2 ^ k + cmemif.chunk_align}
        (omega (arith, more, mod-le addr (2 ^ k), mod-lt addr (two_pow_pos k), flat.aligned))
      ∙ next_aligned addr

  read-split :
      (addr len : ℕ) (s : S)
      → addr + len < 2 ^ 64
      → (not (len == 0) && truthy (offset cmemif addr)) ≡ true
      → Reads addr len s (read cmemif addr len s)
  unfolding read
  read-split addr len s w split =
      let f = view s in
      let align = cmemif.chunk_align in
      let o = offset cmemif addr in
      let n = min len (align - o) in
      let c = chunk_of cmemif addr in
      let s' = (cmemif.read_chunk c align s).0 in
      let o_lem = offset_lem addr in
      let o_lt = mod-lt addr (two_pow_pos k) in
      let c_lem = chunk_of_lem addr (omega arith) in
      let at : (addr + n) % 2 ^ 64 ≡ addr + n = mod-eq_of_lt (omega arith) in
      let chunk = chunk_bytes c s (ap (λ t. t % 2 ^ k) c_lem ∙ aligned_down (2 ^ k) addr) in
      let head : take n (drop o (cmemif.read_chunk c align s).1) ≡ range f addr n =
        ap (λ t. take n (drop o t)) chunk
        ∙ ap (take n)
            (drop-range f c align o (align - o) (omega (arith, o_lem, o_lt, flat.aligned)))
        ∙ take-range f (c + o) (align - o) n (omega arith)
        ∙ ap (λ t. range f t n) {x = c + o} {y = addr}
            (omega (arith, c_lem, o_lem, mod-le addr (2 ^ k))) in
      let rest =
        read_rest (addr + n) (len - n) s'
          (λ more.
            ap (λ t. (addr + min len (align - t)) % 2 ^ k) o_lem
            ∙ head_rest addr len (λ e. more (ap (λ t. len - min len (align - t)) o_lem ∙ e)))
          (omega arith) in
      rw (split, at)
        (record {
          bytes =
              ap₂ ◌++◌ head
                (rest.bytes ∙ range_ext (view s') f (addr + n) (len - n) (flat.keeps c align s))
              ∙ range-append f addr n (len - n) len (omega arith);
          same = λ i. rest.same i ∙ flat.keeps c align s i;
        })

  read-Reads :
      (addr len : ℕ) (s : S) → addr + len < 2 ^ 64 → Reads addr len s (read cmemif addr len s)
  unfolding read
  read-Reads addr len s w = elim (Bool-cases (not (len == 0) && truthy (offset cmemif addr))) [
    | inl split ↦ read-split addr len s w split
    | inr whole ↦
        rw whole
          (read_rest addr len s (λ more. sym (offset_lem addr) ∙ ground (arith, whole, more)) w)
  ]

-- Over chunks that behave as a flat memory at aligned addresses, a read of a range that ends below 2^64
-- gives its bytes, wherever the range begins and ends, and the memory reads as before.
pub read_lem :
    {S : Type 0} (cmemif : ChunkedMemif S) (k : ℕ) (view : S → ℕ → ℕ) (addr len : ℕ) (s : S)
    → IsFlat cmemif k view
    → addr + len < 2 ^ 64
    → ((read cmemif addr len s).1 ≡ range (view s) addr len)
      × ((i : ℕ) → view (read cmemif addr len s).0 i ≡ view s i)
read_lem cmemif k view addr len s flat w =
    let r = read-Reads cmemif k view flat addr len s w in (r.bytes, r.same)

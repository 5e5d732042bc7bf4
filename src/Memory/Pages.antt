-- ===== src/Memory/Pages.antt =====
-- The memory as its clients see it: one byte at each address.
use nnemu.Base.{
  ℕ, zero, suc, ◌+◌, ◌-◌, ◌/◌, ◌%◌, ◌≤◌, ◌<◌, ◌≡◌, refl, ap, ap₂, ◌∙◌, arith, ◌&&◌, ltb, leb, ◌==◌,
  if◌then◌else◌, some, List, [], ◌∷◌, take, drop, length, get_or, update, length-take, length-drop,
}
use nnemu.Memory.{Mem, Page, page_size, page_of, contents, copy_in, chunk, store_chunk, store_loop}

-- The byte at an address; a page that is not there reads as zeros.
pub byte_at : Mem → ℕ → ℕ
unfolding page_of
byte_at m a = page_of m (a / page_size) (a % page_size)

-- The page of an address after another page is set.
page_of-update :
    (m : Mem) (k j : ℕ) (p : Page)
    → page_of (record m { pages = update m.pages k (some p) }) j
      ≡ (if j == k then p else page_of m j)
unfolding page_of
page_of-update m k j p = ground arith

-- `contents` gives the page of the address, and allocating it changes no byte.
pub contents_lem :
    (addr : ℕ) (m : Mem)
    → ((contents addr m).1 ≡ page_of m (addr / page_size))
      × ((j : ℕ) → page_of (contents addr m).0 j ≡ page_of m j)
      × ((contents addr m).0.sz ≡ m.sz)
unfolding contents
contents_lem addr m = (
  refl,
  λ j. page_of-update m (addr / page_size) j (page_of m (addr / page_size)) ∙ ground arith,
  refl,
)

pub contents-byte_at : (addr : ℕ) (m : Mem) (a : ℕ) → byte_at (contents addr m).0 a ≡ byte_at m a
unfolding byte_at
contents-byte_at addr m a = ap (λ p. p (a % page_size)) ((contents_lem addr m).1 (a / page_size))

-- A byte of the page of `addr`, at the offset of `addr` or further on.
pub page_byte :
    (m : Mem) (addr i : ℕ)
    → addr % page_size + i < page_size
    → page_of m (addr / page_size) (addr % page_size + i) ≡ byte_at m (addr + i)
unfolding byte_at
page_byte m addr i h = ap₂ (page_of m) (omega arith) (omega arith)

-- The new byte where the address lies in the range of `bs` from `addr` on, and else the old byte.
abbrev pub overlay : ℕ → List ℕ → ℕ → ℕ → ℕ
overlay addr bs a old =
    if leb addr a && ltb a (addr + length bs) then get_or bs (a - addr) 0 else old

-- Storing within a page changes the bytes of the range and no other.
pub byte_at-store_chunk :
    (m : Mem) (addr : ℕ) (bs : List ℕ) (a : ℕ)
    → addr % page_size + length bs ≤ page_size
    → byte_at (store_chunk addr bs m) a ≡ overlay addr bs a (byte_at m a)
unfolding byte_at store_chunk copy_in contents
byte_at-store_chunk m addr bs a h = ground (
  arith,
  page_of-update (contents addr m).0 (addr / page_size) (a / page_size)
      (copy_in (addr % page_size) bs (page_of m (addr / page_size))),
  (contents_lem addr m).1 (a / page_size),
  ap (λ t. get_or bs t 0) {x = a % page_size - addr % page_size} {y = a - addr},
)

pub get_or-take : (n : ℕ) (bs : List ℕ) (i : ℕ) → i < n → get_or (take n bs) i 0 ≡ get_or bs i 0
get_or-take zero bs i h = absurd (omega arith)
get_or-take (suc n) [] i h = refl
get_or-take (suc n) (b ∷ bs) zero h = refl
get_or-take (suc n) (b ∷ bs) (suc i) h = get_or-take n bs i (omega arith)

pub get_or-drop :
    (n : ℕ) (bs : List ℕ) (i k : ℕ) → n + i ≡ k → get_or (drop n bs) i 0 ≡ get_or bs k 0
get_or-drop zero bs i k e = ap (λ t. get_or bs t 0) (omega arith)
get_or-drop (suc n) [] i k e = refl
get_or-drop (suc n) (b ∷ bs) i zero e = absurd (omega arith)
get_or-drop (suc n) (b ∷ bs) i (suc k) e = get_or-drop n bs i k (omega arith)

-- Two overlays next to one another make one.
pub overlay_split :
    (n addr : ℕ) (bs : List ℕ) (a old : ℕ)
    → n ≤ length bs
    → overlay (addr + n) (drop n bs) a (overlay addr (take n bs) a old) ≡ overlay addr bs a old
overlay_split n addr bs a old h = ground (
  arith,
  length-take n bs,
  length-drop n bs,
  get_or-take n bs (a - addr),
  get_or-drop n bs (a - (addr + n)) (a - addr),
)

pub store_loop_lem :
    (fuel addr : ℕ) (bs : List ℕ) (m : Mem) (a : ℕ)
    → length bs ≤ fuel
    → byte_at (store_loop fuel addr bs m) a ≡ overlay addr bs a (byte_at m a)
unfolding store_loop
store_loop_lem zero addr [] m a h = ground arith
store_loop_lem zero addr (b ∷ bs) m a h = absurd (omega arith)
store_loop_lem (suc fuel) addr [] m a h = ground arith
store_loop_lem (suc fuel) addr (b ∷ bs) m a h =
    let n = chunk addr (length (b ∷ bs)) in
    store_loop_lem fuel (addr + n) (drop n (b ∷ bs)) (store_chunk addr (take n (b ∷ bs)) m) a
      (omega (arith, length-drop n (b ∷ bs)))
    ∙ ap (overlay (addr + n) (drop n (b ∷ bs)) a)
        (byte_at-store_chunk m addr (take n (b ∷ bs)) a (omega (arith, length-take n (b ∷ bs))))
    ∙ overlay_split n addr (b ∷ bs) a (byte_at m a) (omega arith)

pub store_loop-sz : (fuel addr : ℕ) (bs : List ℕ) (m : Mem) → (store_loop fuel addr bs m).sz ≡ m.sz
unfolding store_loop
store_loop-sz zero addr bs m = refl
store_loop-sz (suc fuel) addr [] m = refl
store_loop-sz (suc fuel) addr (b ∷ bs) m = store_loop-sz fuel _ (drop _ (b ∷ bs)) _

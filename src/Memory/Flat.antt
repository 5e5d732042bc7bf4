-- ===== src/Memory/Flat.antt =====
-- riscv/devices.cc, mem_t: `load` and `store` in terms of single bytes.
use nnemu.Base.{
  ℕ, zero, suc, ◌+◌, ◌-◌, ◌%◌, ◌^◌, ◌≤◌, ◌<◌, ◌≡◌, refl, ap, ap₂, ◌∙◌, arith, true, false, ltb,
  none, some, List, [], ◌∷◌, ◌++◌, length, get_or,
}
use nnemu.Memory.{Mem, Page, page_size, contents, copy_out, chunk, load_loop, load, store, refused}
use nnemu.Memory.Pages.{
  byte_at, contents_lem, contents-byte_at, page_byte, store_loop-sz, overlay, store_loop_lem,
}

-- The bytes of a range, in order.
abbrev pub range : (ℕ → ℕ) → ℕ → ℕ → List ℕ
range f a zero = []
range f a (suc n) = f a ∷ range f (a + 1) n

copy_out-range :
    (off n a : ℕ) (p : Page) (f : ℕ → ℕ)
    → ((i : ℕ) → i < n → p (off + i) ≡ f (a + i))
    → copy_out off n p ≡ range f a n
unfolding copy_out
copy_out-range off zero a p f h = refl
copy_out-range off (suc n) a p f h =
    ap₂ ◌∷◌ (ap p (omega arith) ∙ h 0 (omega arith) ∙ ap f {y = a} (omega arith)) (
      copy_out-range (off + 1) n (a + 1) p f
        (λ i l. ap p (omega arith) ∙ h (suc i) (omega arith) ∙ ap f (omega arith)))

pub range-append :
    (f : ℕ → ℕ) (a n k : ℕ) (len : ℕ)
    → n + k ≡ len
    → range f a n ++ range f (a + n) k ≡ range f a len
range-append f a zero k len e = ap₂ (range f) (omega arith) (omega arith)
range-append f a (suc n) k zero e = absurd (omega arith)
range-append f a (suc n) k (suc len) e = ap (◌∷◌ (f a)) (
    ap (λ t. range f (a + 1) n ++ range f t k) {x = a + suc n} {y = a + 1 + n} (omega arith)
    ∙ range-append f (a + 1) n k len (omega arith))

pub range_ext : (f g : ℕ → ℕ) (a n : ℕ) → ((i : ℕ) → f i ≡ g i) → range f a n ≡ range g a n
range_ext f g a zero h = refl
range_ext f g a (suc n) h = ap₂ ◌∷◌ (h a) (range_ext f g (a + 1) n h)

load_loop_lem :
    (fuel addr len : ℕ) (m : Mem)
    → len ≤ fuel
    → ((load_loop fuel addr len m).1 ≡ range (byte_at m) addr len)
      × ((a : ℕ) → byte_at (load_loop fuel addr len m).0 a ≡ byte_at m a)
      × ((load_loop fuel addr len m).0.sz ≡ m.sz)
unfolding load_loop
load_loop_lem zero addr zero m h = (refl, λ a. refl, refl)
load_loop_lem zero addr (suc len) m h = absurd (omega arith)
load_loop_lem (suc fuel) addr zero m h = (refl, λ a. refl, refl)
load_loop_lem (suc fuel) addr (suc len) m h =
    let n = chunk addr (suc len) in
    let m' = (contents addr m).0 in
    let rest = load_loop_lem fuel (addr + n) (suc len - n) m' (omega arith) in
    (
      ap₂ ◌++◌
            (copy_out-range (addr % page_size) n addr (contents addr m).1 (byte_at m)
              (λ i l. page_byte m addr i (omega arith)))
            (rest.0 ∙ range_ext _ _ (addr + n) (suc len - n) (contents-byte_at addr m))
          ∙ range-append (byte_at m) addr n (suc len - n) (suc len) (omega arith),
      λ a. rest.1 a ∙ contents-byte_at addr m a,
      rest.2 ∙ (contents_lem addr m).2,
    )

-- The test of `load_store` refuses exactly the ranges that do not lie in the memory.
refused_lem :
    (addr len : ℕ) (m : Mem)
    → addr < 2 ^ 64
    → len < 2 ^ 64
    → m.sz < 2 ^ 64
    → refused addr len m ≡ ltb m.sz (addr + len)
refused_lem addr len m ha hl hs = ground arith

-- In a memory smaller than 2^64, a store that fits is accepted, changes the bytes of its range and no other, and keeps the size.
pub store_lem :
    (addr : ℕ) (bs : List ℕ) (m : Mem) (a : ℕ)
    → addr + length bs ≤ m.sz
    → m.sz < 2 ^ 64
    → ((store addr bs m).1 ≡ true)
      × (byte_at (store addr bs m).0 a ≡ overlay addr bs a (byte_at m a))
      × ((store addr bs m).0.sz ≡ m.sz)
unfolding store
store_lem addr bs m a h hs = ground (
  arith,
  refused_lem addr (length bs) m,
  store_loop_lem (length bs) addr bs m a,
  store_loop-sz (length bs) addr bs m,
)

-- In a memory smaller than 2^64, a load that fits gives the bytes of its range, and the memory reads
-- as before and keeps its size.
pub load_lem :
    (addr len : ℕ) (m : Mem)
    → addr + len ≤ m.sz
    → m.sz < 2 ^ 64
    → ((load addr len m).1 ≡ some (range (byte_at m) addr len))
      × ((a : ℕ) → byte_at (load addr len m).0 a ≡ byte_at m a)
      × ((load addr len m).0.sz ≡ m.sz)
unfolding load
load_lem addr len m h hs = rw fits (
  ap some (load_loop_lem len addr len m (omega arith)).0,
  (load_loop_lem len addr len m (omega arith)).1,
  (load_loop_lem len addr len m (omega arith)).2,
)
  where
    fits : refused addr len m ≡ false
    fits = ground (arith, refused_lem addr len m)

-- An access that does not fit, at an address and of a length below 2^64, is refused, and nothing
-- changes.
pub refused_unchanged :
    (addr : ℕ) (bs : List ℕ) (m : Mem)
    → addr < 2 ^ 64
    → length bs < 2 ^ 64
    → m.sz < 2 ^ 64
    → m.sz < addr + length bs
    → (store addr bs m ≡ (m, false)) × (load addr (length bs) m ≡ (m, none))
unfolding store load
refused_unchanged addr bs m ha hl hs h = rw no_room (refl, refl)
  where
    no_room : refused addr (length bs) m ≡ true
    no_room = ground (arith, refused_lem addr (length bs) m)

range-overlay :
    (bs : List ℕ) (addr : ℕ) (f g : ℕ → ℕ)
    → ((i : ℕ) → i < length bs → f (addr + i) ≡ get_or bs i 0)
    → range f addr (length bs) ≡ bs
range-overlay [] addr f g h = refl
range-overlay (b ∷ bs) addr f g h =
    ap₂ ◌∷◌ (ap f (omega arith) ∙ h 0 (omega arith))
      (range-overlay bs (addr + 1) f g (λ i l. ap f (omega arith) ∙ h (suc i) (omega arith)))

-- What was stored is loaded again, across page ends, if the access fits a memory smaller than 2^64.
pub load-store :
    (addr : ℕ) (bs : List ℕ) (m : Mem)
    → addr + length bs ≤ m.sz
    → m.sz < 2 ^ 64
    → (load addr (length bs) (store addr bs m).0).1 ≡ some bs
load-store addr bs m h hs =
    (load_lem addr (length bs) (store addr bs m).0 (omega (arith, store_lem addr bs m 0 h hs))
      (omega (arith, store_lem addr bs m 0 h hs))).0
    ∙ ap some (
        range-overlay bs addr (byte_at (store addr bs m).0) (byte_at m) (λ i l.
          (store_lem addr bs m (addr + i) h hs).1
          ∙ ground (arith, ap (λ t. get_or bs t 0) {x = addr + i - addr} {y = i})))

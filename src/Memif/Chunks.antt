-- ===== src/Memif/Chunks.antt =====
-- fesvr/memif.cc: parts of a chunk, and a chunk that is changed in part.
use nnemu.Base.{
  ℕ, zero, suc, ◌+◌, ◌-◌, ◌≤◌, ◌<◌, ◌≡◌, refl, ap, ap₂, ◌∙◌, arith, true, ◌&&◌, ltb, leb,
  if◌then◌else◌, List, [], ◌∷◌, ◌++◌, length, take, drop, get_or, replicate, length-append,
}
use nnemu.Memory.Pages.{overlay}
use nnemu.Memory.Flat.{range}
use nnemu.Memif.{copy_at, all_zero}

pub length-range : (f : ℕ → ℕ) (a n : ℕ) → length (range f a n) ≡ n
length-range f a zero = refl
length-range f a (suc n) = omega (arith, length-range f (a + 1) n)

pub take-range : (f : ℕ → ℕ) (a n k : ℕ) → k ≤ n → take k (range f a n) ≡ range f a k
take-range f a n zero h = refl
take-range f a zero (suc k) h = absurd (omega arith)
take-range f a (suc n) (suc k) h = ap (◌∷◌ (f a)) (take-range f (a + 1) n k (omega arith))

pub drop-range : (f : ℕ → ℕ) (a n k m : ℕ) → k + m ≡ n → drop k (range f a n) ≡ range f (a + k) m
drop-range f a n zero m h =
    ap₂ (range f) {x = a} {y = a + 0} {u = n} {v = m} (omega arith) (omega arith)
drop-range f a zero (suc k) m h = absurd (omega arith)
drop-range f a (suc n) (suc k) m h =
    drop-range f (a + 1) n k m (omega arith)
    ∙ ap (λ t. range f t m) {x = a + 1 + k} {y = a + suc k} (omega arith)

get_or-range : (f : ℕ → ℕ) (a n i : ℕ) → i < n → get_or (range f a n) i 0 ≡ f (a + i)
get_or-range f a zero i h = absurd (omega arith)
get_or-range f a (suc n) zero h = ap f (omega arith)
get_or-range f a (suc n) (suc i) h = get_or-range f (a + 1) n i (omega arith) ∙ ap f (omega arith)

get_or-append_left :
    (xs ys : List ℕ) (i : ℕ) → i < length xs → get_or (xs ++ ys) i 0 ≡ get_or xs i 0
get_or-append_left [] ys i h = absurd (omega arith)
get_or-append_left (x ∷ xs) ys zero h = refl
get_or-append_left (x ∷ xs) ys (suc i) h = get_or-append_left xs ys i (omega arith)

get_or-append_right :
    (xs ys : List ℕ) (i k : ℕ) → i ≡ length xs + k → get_or (xs ++ ys) i 0 ≡ get_or ys k 0
get_or-append_right [] ys i k h = ap (λ t. get_or ys t 0) {x = i} {y = k} (omega arith)
get_or-append_right (x ∷ xs) ys zero k h = absurd (omega arith)
get_or-append_right (x ∷ xs) ys (suc i) k h = get_or-append_right xs ys i k (omega arith)

overlay-append :
    (a : ℕ) (xs ys : List ℕ) (i old : ℕ)
    → overlay a (xs ++ ys) i old ≡ overlay (a + length xs) ys i (overlay a xs i old)
overlay-append a xs ys i old = ground (
  arith,
  length-append xs ys,
  get_or-append_left xs ys (i - a),
  get_or-append_right xs ys (i - a) (i - (a + length xs)),
)

overlay-range :
    (f : ℕ → ℕ) (a n i old : ℕ)
    → overlay a (range f a n) i old ≡ (if leb a i && ltb i (a + n) then f i else old)
overlay-range f a n i old =
    ground (arith, length-range f a n, get_or-range f a n (i - a), ap f {x = a + (i - a)} {y = i})

-- A chunk with bytes copied into it, written back, changes these bytes only.
pub overlay-copy_at :
    (f : ℕ → ℕ) (a n off : ℕ) (bytes : List ℕ) (i : ℕ)
    → off + length bytes ≤ n
    → overlay a (copy_at off bytes (range f a n)) i (f i) ≡ overlay (a + off) bytes i (f i)
overlay-copy_at f a n off bytes i h =
    let k = length bytes in
    let m = n - (off + k) in
    let front = take-range f a n off (omega arith) in
    let back = drop-range f a n (off + k) m (omega arith) in
    ap₂ (λ xs ys. overlay a (xs ++ (bytes ++ ys)) i (f i)) front back
    ∙ overlay-append a (range f a off) (bytes ++ range f (a + (off + k)) m) i (f i)
    ∙ ap₂ (λ t old. overlay (a + t) (bytes ++ range f (a + (off + k)) m) i old)
        (length-range f a off) (overlay-range f a off i (f i) ∙ ground arith)
    ∙ overlay-append (a + off) bytes (range f (a + (off + k)) m) i (f i)
    ∙ ap (λ t. overlay t (range f (a + (off + k)) m) i (overlay (a + off) bytes i (f i)))
        {x = a + off + k} {y = a + (off + k)} (omega arith)
    ∙ overlay-range f (a + (off + k)) m i (overlay (a + off) bytes i (f i))
    ∙ ground arith

pub all_zero-replicate :
    (bytes : List ℕ) → all_zero bytes ≡ true → bytes ≡ replicate (length bytes) 0
all_zero-replicate [] h = refl
all_zero-replicate (b ∷ bytes) h =
    ap₂ ◌∷◌ (ground (arith, h)) (all_zero-replicate bytes (ground (arith, h)))

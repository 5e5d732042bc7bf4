-- ===== src/Mmu/Entry.antt =====
-- riscv/mmu.cc: what the tests of a page-table entry say about its bits, and the page that a leaf gives.
use nnemu.Encoding.{pte_attr, pte_n}
use nnemu.Base.{
  ℕ, ◌+◌, ◌-◌, ◌*◌, ◌/◌, ◌%◌, ◌^◌, ◌≤◌, ◌<◌, ◌≡◌, refl, ap, ap₂, sym, ◌∙◌, arith, Bool, true, false,
  ◌&&◌, ◌||◌, ◌==◌, not, truthy, bit_and, bit_or, if◌then◌else◌, Bool-cases, inl, inr,
}
use native.Mathlib.Nat.{mod-lt, div-add-mod', pow-le-pow_right}
use nnemu.Base.Bits.{
  and_not_mask, bit, bit_not, truthy-and-pow, bit_and-le_right, and_mask, or_fields, bit_or_comm,
  zero-or, two_pow_pos,
}
use nnemu.Memtracer.{AccessType}
use nnemu.Mmu.{
  Verdict, examine, permitted, ppn_of, napot_bits, napot_reserved, page_base, page_shift,
}

-- The permission bits of an entry: 1 is read, 2 is write, 3 is execute.
abbrev pub wanted : AccessType → Bool → Bool → ℕ → Bool
wanted AccessType.fetch hlvx mxr pte = bit pte 3
wanted AccessType.load true mxr pte = bit pte 3
wanted AccessType.load false mxr pte = bit pte 1 || (mxr && bit pte 3)
wanted AccessType.store true mxr pte = bit pte 3
wanted AccessType.store false mxr pte = bit pte 1 && bit pte 2

permitted-wanted :
    (type : AccessType) (hlvx mxr : Bool) (pte : ℕ)
    → permitted type hlvx mxr pte ≡ wanted type hlvx mxr pte
unfolding permitted
permitted-wanted AccessType.fetch hlvx mxr pte = truthy-and-pow 3 pte
permitted-wanted AccessType.load true mxr pte = truthy-and-pow 3 pte
permitted-wanted AccessType.load false mxr pte =
    rw (truthy-and-pow 1 pte, truthy-and-pow 3 pte) refl
permitted-wanted AccessType.store true mxr pte = truthy-and-pow 3 pte
permitted-wanted AccessType.store false mxr pte =
    rw (truthy-and-pow 1 pte, truthy-and-pow 2 pte) refl

-- An entry that grants an access: valid, with the permission, and an aligned frame.
pub record Grants (type : AccessType) (hlvx mxr : Bool) (ptshift pte : ℕ) : Type 0 where
  pub valid : bit pte 0 ≡ true
  pub permission : wanted type hlvx mxr pte ≡ true
  pub aligned : ppn_of pte % 2 ^ ptshift ≡ 0

examine-tests :
    (svnapot pbmte user_wrong allowed : Bool) (ptshift pte : ℕ)
    → examine svnapot pbmte user_wrong allowed ptshift pte ≡ Verdict.leaf
    → (user_wrong ≡ false)
      × (allowed ≡ true)
      × (truthy (bit_and pte 1) ≡ true)
      × (bit_and (ppn_of pte) (2 ^ ptshift - 1) ≡ 0)
unfolding examine
examine-tests svnapot pbmte user_wrong allowed ptshift pte h =
    (ground (arith, h), ground (arith, h), ground (arith, h), ground (arith, h))

pub examine-Grants :
    (type : AccessType) (hlvx mxr svnapot pbmte user_wrong : Bool) (ptshift pte : ℕ)
    → examine svnapot pbmte user_wrong (permitted type hlvx mxr pte) ptshift pte ≡ Verdict.leaf
    → Grants type hlvx mxr ptshift pte
examine-Grants type hlvx mxr svnapot pbmte user_wrong ptshift pte h =
    let tests =
      examine-tests svnapot pbmte user_wrong (permitted type hlvx mxr pte) ptshift pte h in
    record {
      valid = sym (truthy-and-pow 0 pte) ∙ tests.2;
      permission = sym (permitted-wanted type hlvx mxr pte) ∙ tests.1;
      aligned = sym (and_mask ptshift (ppn_of pte)) ∙ tests.3;
    }

pub examine-user :
    (svnapot pbmte user_wrong allowed : Bool) (ptshift pte : ℕ)
    → examine svnapot pbmte user_wrong allowed ptshift pte ≡ Verdict.leaf
    → user_wrong ≡ false
examine-user svnapot pbmte user_wrong allowed ptshift pte h =
    (examine-tests svnapot pbmte user_wrong allowed ptshift pte h).0

-- An entry that points to the next level: valid, without the permission to read, write or execute.
pub record Points (pte : ℕ) : Type 0 where
  pub valid : bit pte 0 ≡ true
  pub no_read : bit pte 1 ≡ false
  pub no_write : bit pte 2 ≡ false
  pub no_execute : bit pte 3 ≡ false

examine-table :
    (svnapot pbmte user_wrong allowed : Bool) (ptshift pte : ℕ)
    → examine svnapot pbmte user_wrong allowed ptshift pte ≡ Verdict.descend
    → bit_and pte 15 ≡ 1
unfolding examine
examine-table svnapot pbmte user_wrong allowed ptshift pte h = ground (arith, h)

table-Points : (pte : ℕ) → bit_and pte 15 ≡ 1 → Points pte
unfolding bit
table-Points pte h =
    let low : pte % 16 ≡ 1 = sym (and_mask 4 pte) ∙ h in
    record {
      valid = ground (arith, low);
      no_read = ground (arith, low);
      no_write = ground (arith, low);
      no_execute = ground (arith, low);
    }

pub examine-Points :
    (svnapot pbmte user_wrong allowed : Bool) (ptshift pte : ℕ)
    → examine svnapot pbmte user_wrong allowed ptshift pte ≡ Verdict.descend
    → Points pte
examine-Points svnapot pbmte user_wrong allowed ptshift pte h =
    table-Points pte (examine-table svnapot pbmte user_wrong allowed ptshift pte h)

ppn_of-lt : (pte : ℕ) → ppn_of pte < 2 ^ 44
ppn_of-lt pte = omega (arith, bit_and-le_right pte (bit_not 64 pte_attr))

-- The page of a leaf without the NAPOT bit and with an aligned frame, `ptshift` bits (at most 45) above
-- the lowest level: its frame, with the page number inside a superpage taken from the address.
pub page_base-frame :
    (ptshift addr pte : ℕ)
    → ptshift ≤ 45
    → bit pte 63 ≡ false
    → ppn_of pte % 2 ^ ptshift ≡ 0
    → page_base ptshift addr pte
      ≡ (ppn_of pte + addr / 2 ^ page_shift % 2 ^ ptshift) * 2 ^ page_shift
unfolding page_base napot_bits
page_base-frame ptshift addr pte small plain aligned =
    let ppn = ppn_of pte in
    let vpn = addr / 2 ^ page_shift in
    let none : napot_bits pte ≡ 0 = rw (truthy-and-pow 63 pte, plain, napot_bits) refl in
    let high : bit_and ppn (bit_not 64 (2 ^ napot_bits pte - 1)) ≡ ppn =
      ap (λ n. bit_and ppn (bit_not 64 (2 ^ n - 1))) none
      ∙ and_mask 64 ppn
      ∙ omega (arith, ppn_of-lt pte) in
    let low : bit_and vpn (2 ^ napot_bits pte - 1) ≡ 0 =
      ap (λ n. bit_and vpn (2 ^ n - 1)) none ∙ omega (arith, bit_and-le_right vpn 0) in
    let frame : bit_or (bit_and ppn (bit_not 64 (2 ^ napot_bits pte - 1)))
          (bit_and vpn (2 ^ napot_bits pte - 1))
        ≡ ppn =
      ap₂ bit_or high low ∙ bit_or_comm ppn 0 ∙ zero-or ppn in
    let inside = mod-lt vpn (two_pow_pos ptshift) in
    let multiple : ppn ≡ ppn / 2 ^ ptshift * 2 ^ ptshift =
      omega (arith, aligned, div-add-mod' ppn (2 ^ ptshift)) in
    let join : bit_or ppn (vpn % 2 ^ ptshift) ≡ ppn + vpn % 2 ^ ptshift =
      ap (λ t. bit_or t (vpn % 2 ^ ptshift)) multiple
      ∙ or_fields ptshift (ppn / 2 ^ ptshift) (vpn % 2 ^ ptshift) inside
      ∙ ap (λ t. t + vpn % 2 ^ ptshift) (sym multiple) in
    let bound : 2 ^ ptshift ≤ 2 ^ 45 =
      pow-le-pow_right {n = 2} (omega arith) {i = ptshift} {j = 45} small in
    ap (λ t. t * 2 ^ page_shift % 2 ^ 64) (ap₂ bit_or frame (and_mask ptshift vpn) ∙ join)
    ∙ omega (arith, bound, inside, ppn_of-lt pte)

-- A page of 64 KiB of a leaf with the NAPOT bit: its frame without the low four bits, which the page
-- number in the address gives.
page_base-napot :
    (addr pte : ℕ)
    → napot_bits pte ≡ 4
    → page_base 0 addr pte
      ≡ (ppn_of pte / 2 ^ 4 * 2 ^ 4 + addr / 2 ^ page_shift % 2 ^ 4) * 2 ^ page_shift
unfolding page_base
page_base-napot addr pte four =
    let ppn = ppn_of pte in
    let vpn = addr / 2 ^ page_shift in
    let low : bit_and vpn 15 ≡ vpn % 2 ^ 4 = and_mask 4 vpn in
    let high : bit_and ppn (bit_not 64 15) ≡ ppn / 2 ^ 4 * 2 ^ 4 =
      and_not_mask 64 4 ppn (omega (arith, ppn_of-lt pte)) (omega arith) ∙ omega arith in
    let none : bit_and vpn (2 ^ 0 - 1) ≡ 0 = omega (arith, bit_and-le_right vpn 0) in
    let joined : bit_or (bit_and ppn (bit_not 64 15)) (bit_and vpn 15)
        ≡ ppn / 2 ^ 4 * 2 ^ 4 + vpn % 2 ^ 4 =
      ap₂ bit_or high low ∙ or_fields 4 (ppn / 2 ^ 4) (vpn % 2 ^ 4) (omega arith) in
    ap
      (λ n.
        bit_or (bit_or (bit_and ppn (bit_not 64 (2 ^ n - 1))) (bit_and vpn (2 ^ n - 1)))
          (bit_and vpn (2 ^ 0 - 1))
        * 2 ^ page_shift
        % 2 ^ 64)
      four
    ∙ ap (λ t. t * 2 ^ page_shift % 2 ^ 64)
        (ap₂ bit_or joined none
          ∙ bit_or_comm (ppn / 2 ^ 4 * 2 ^ 4 + vpn % 2 ^ 4) 0
          ∙ zero-or (ppn / 2 ^ 4 * 2 ^ 4 + vpn % 2 ^ 4))
    ∙ omega (arith, ppn_of-lt pte)

some_bits :
    (pte : ℕ)
    → bit pte 63 ≡ true
    → (not (napot_bits pte == 0) && not (napot_bits pte == 4)) ≡ false
    → napot_bits pte ≡ 4
unfolding napot_bits
some_bits pte on good = ground (arith, truthy-and-pow 63 pte, on, good)

-- The page that a leaf `ptshift` bits above the lowest level stands for: the frame number with its low
-- bits, all those below the leaf, or four for a leaf with the NAPOT bit, taken from the address.
abbrev pub translated : ℕ → ℕ → ℕ → ℕ
translated ptshift addr pte =
    let low = if bit pte 63 then 4 else ptshift in
    (ppn_of pte / 2 ^ low * 2 ^ low + addr / 2 ^ page_shift % 2 ^ low) * 2 ^ page_shift

pub page_base-translated :
    (i idxbits addr pte : ℕ)
    → i * idxbits ≤ 45
    → napot_reserved i pte ≡ false
    → ppn_of pte % 2 ^ (i * idxbits) ≡ 0
    → page_base (i * idxbits) addr pte ≡ translated (i * idxbits) addr pte
unfolding napot_reserved
page_base-translated i idxbits addr pte small good aligned = elim (Bool-cases (bit pte 63)) [
  | inl on ↦
      let named : truthy (bit_and pte pte_n) ≡ true = truthy-and-pow 63 pte ∙ on in
      let lowest : i ≡ 0 = ground (arith, named, good) in
      let four : napot_bits pte ≡ 4 = some_bits pte on (ground (arith, good)) in
      let level : i * idxbits ≡ 0 = ap (λ k. k * idxbits) lowest ∙ omega arith in
      ap (λ k. page_base k addr pte) level
      ∙ page_base-napot addr pte four
      ∙ sym (ap (λ (b : Bool). frame (if b then 4 else i * idxbits)) on)
  | inr off ↦
      page_base-frame (i * idxbits) addr pte small off aligned
      ∙ ap (λ t. (t + addr / 2 ^ page_shift % 2 ^ (i * idxbits)) * 2 ^ page_shift)
          (omega (arith, aligned, div-add-mod' (ppn_of pte) (2 ^ (i * idxbits))))
      ∙ sym (ap (λ (b : Bool). frame (if b then 4 else i * idxbits)) off)
]
  where
    frame : ℕ → ℕ
    frame low = (ppn_of pte / 2 ^ low * 2 ^ low + addr / 2 ^ page_shift % 2 ^ low) * 2 ^ page_shift

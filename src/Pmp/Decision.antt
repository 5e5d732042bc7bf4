-- ===== src/Pmp/Decision.antt =====
-- Which entry of the protection decides an access.
use nnemu.Base.{
  ℕ, zero, suc, ◌+◌, ◌-◌, ◌≢◌, ◌*◌, ◌%◌, ◌^◌, ◌≤◌, ◌<◌, ◌≡◌, ◌↔◌, refl, ap, sym, ◌∙◌, arith, Bool,
  true, false, ◌&&◌, ◌==◌, Bool-cases, inl, inr,
}
use nnemu.Memtracer.{AccessType}
use nnemu.Pmp.{Pmp, match4, access_ok, sectors, count_sectors, default_ok, pmp_scan, pmp_ok}

-- Whether entry `i` matches sector `j` of an access at `addr`.
abbrev pub hit : Pmp → ℕ → ℕ → ℕ → Bool
hit p i addr j = match4 p i ((addr + 4 * j) % 2 ^ 64)

-- No sector, or every one of them.
abbrev pub NoHit : Pmp → ℕ → ℕ → ℕ → Type 0
NoHit p i addr n = (j : ℕ) → j < n → hit p i addr j ≡ false

abbrev pub AllHit : Pmp → ℕ → ℕ → ℕ → Type 0
AllHit p i addr n = (j : ℕ) → j < n → hit p i addr j ≡ true

hit_next : (p : Pmp) (i addr j : ℕ) → hit p i (addr + 4) j ≡ hit p i addr (suc j)
hit_next p i addr j =
    ap (λ a. match4 p i (a % 2 ^ 64)) {x = addr + 4 + 4 * j} {y = addr + 4 * suc j} (omega arith)

hit_first : (p : Pmp) (i addr : ℕ) → match4 p i (addr % 2 ^ 64) ≡ hit p i addr 0
hit_first p i addr = ap (λ a. match4 p i (a % 2 ^ 64)) {x = addr} {y = addr + 4 * 0} (omega arith)

sectors-none : (p : Pmp) (i addr n : ℕ) → NoHit p i addr n → (sectors p i addr n).0 ≡ false
unfolding sectors
sectors-none p i addr zero h = refl
sectors-none p i addr (suc n) h =
    let rest =
      sectors-none p i (addr + 4) n (λ j l. hit_next p i addr j ∙ h (suc j) (omega arith)) in
    rw (hit_first p i addr ∙ h 0 (omega arith), sectors) rest

sectors-some :
    (p : Pmp) (i addr n j : ℕ) → j < n → hit p i addr j ≡ true → (sectors p i addr n).0 ≡ true
unfolding sectors
sectors-some p i addr zero j l h = absurd (omega arith)
sectors-some p i addr (suc n) zero l h = rw (hit_first p i addr ∙ h, sectors) refl
sectors-some p i addr (suc n) (suc j) l h =
    let rest = sectors-some p i (addr + 4) n j (omega arith) (hit_next p i addr j ∙ h) in
    elim (Bool-cases (match4 p i (addr % 2 ^ 64))) [
      | inl e ↦ rw (e, sectors) refl
      | inr e ↦ rw (e, sectors) rest
    ]

both : (a b : Bool) → (a && b) ≡ true → (a ≡ true) × (b ≡ true)
both a b h = ground arith

AllHit-cons :
    (p : Pmp) (i addr n : ℕ)
    → match4 p i (addr % 2 ^ 64) ≡ true
    → AllHit p i (addr + 4) n
    → AllHit p i addr (suc n)
AllHit-cons p i addr n now later zero l = sym (hit_first p i addr) ∙ now
AllHit-cons p i addr n now later (suc j) l = sym (hit_next p i addr j) ∙ later j (omega arith)

sectors-all : (p : Pmp) (i addr n : ℕ) → (sectors p i addr n).1 ≡ true → AllHit p i addr n
unfolding sectors
sectors-all p i addr zero e = λ j l. absurd (omega arith)
sectors-all p i addr (suc n) e =
    let parts = both (match4 p i (addr % 2 ^ 64)) (sectors p i (addr + 4) n).1 e in
    AllHit-cons p i addr n parts.0 (sectors-all p i (addr + 4) n parts.1)

all-sectors : (p : Pmp) (i addr n : ℕ) → AllHit p i addr n → (sectors p i addr n).1 ≡ true
unfolding sectors
all-sectors p i addr zero h = refl
all-sectors p i addr (suc n) h =
    let rest =
      all-sectors p i (addr + 4) n (λ j l. hit_next p i addr j ∙ h (suc j) (omega arith)) in
    rw (hit_first p i addr ∙ h 0 (omega arith), sectors) rest

module _ (p : Pmp) (addr len : ℕ) (type : AccessType) (mode : ℕ) where
  -- The scan passes over entries that no sector matches.
  scan-skip :
      (k left i : ℕ)
      → ((e : ℕ) → i ≤ e → e < i + k → NoHit p e addr (count_sectors len))
      → pmp_scan p addr len type mode (k + left) i ≡ pmp_scan p addr len type mode left (i + k)
  unfolding pmp_scan
  scan-skip zero left i h =
      ap (λ t. pmp_scan p addr len type mode t i) {x = zero + left} {y = left} (omega arith)
      ∙ ap (pmp_scan p addr len type mode left) {x = i} {y = i + zero} (omega arith)
  scan-skip (suc k) left i h =
      ap (λ t. pmp_scan p addr len type mode t i) {x = suc k + left} {y = suc (k + left)}
        (omega arith)
      ∙ rw (sectors-none p i addr (count_sectors len) (h i (omega arith) (omega arith)), pmp_scan)
          (scan-skip k left (i + 1) (λ e l g. h e (omega arith) (omega arith))
            ∙ ap (pmp_scan p addr len type mode left) {x = i + 1 + k} {y = i + suc k} (omega arith))

  -- The first entry that matches a sector decides.
  scan-first :
      (left i j : ℕ)
      → j < count_sectors len
      → hit p i addr j ≡ true
      → (pmp_scan p addr len type mode (suc left) i ≡ true)
        ↔ (AllHit p i addr (count_sectors len) × (access_ok p i type mode ≡ true))
  unfolding pmp_scan
  scan-first left i j l h =
      let n = count_sectors len in
      let found = sectors-some p i addr n j l h in
      elim (Bool-cases (sectors p i addr n).1) [
        | inl whole ↦
            rw (found, whole, pmp_scan) (λ ok. (sectors-all p i addr n whole, ok), λ v. v.1)
        | inr part ↦
            rw (found, part, pmp_scan)
              (
                λ ok. absurd (ground (arith, ok)),
                λ v. absurd (ground (arith, all-sectors p i addr n v.0, part)),
              )
      ]

-- Suppose that entry `i`, which is implemented, matches some 4-byte sector of an access and no entry
-- before it matches any. Then the access is allowed if and only if entry `i` matches all its sectors
-- and allows this type of access in this mode, whatever the entries behind it say.
pub pmp_ok-first :
    (p : Pmp) (addr len : ℕ) (type : AccessType) (mode i j : ℕ)
    → i < p.n_pmp
    → ((e : ℕ) → e < i → NoHit p e addr (count_sectors len))
    → j < count_sectors len
    → hit p i addr j ≡ true
    → (pmp_ok p addr len type mode ≡ true)
      ↔ (AllHit p i addr (count_sectors len) × (access_ok p i type mode ≡ true))
unfolding pmp_ok
pmp_ok-first p addr len type mode i j implemented before l h =
    let some_entry : (p.n_pmp == 0) ≡ false = ground (arith, implemented) in
    let split : p.n_pmp ≡ i + suc (p.n_pmp - i - 1) = omega arith in
    let skip =
      scan-skip p addr len type mode i (suc (p.n_pmp - i - 1)) 0
        (λ e low high. before e (omega arith)) in
    let here : 0 + i ≡ i = omega arith in
    rw (some_entry, ap (λ t. pmp_scan p addr len type mode t 0) split, skip, here)
      (scan-first p addr len type mode (p.n_pmp - i - 1) i j l h)

-- With at least one implemented entry, if none matches any sector, the access is allowed to machine mode only, and not
-- where `MMWP` is set, and with `MML` set only to load or store.
pub pmp_ok-none :
    (p : Pmp) (addr len : ℕ) (type : AccessType) (mode : ℕ)
    → p.n_pmp ≢ 0
    → ((e : ℕ) → e < p.n_pmp → NoHit p e addr (count_sectors len))
    → pmp_ok p addr len type mode ≡ default_ok p type mode
unfolding pmp_ok pmp_scan
pmp_ok-none p addr len type mode some_entry none =
    let test : (p.n_pmp == 0) ≡ false = ground (arith, some_entry) in
    let whole : p.n_pmp ≡ p.n_pmp + 0 = omega arith in
    rw test (
      ap (λ t. pmp_scan p addr len type mode t 0) whole
      ∙ scan-skip p addr len type mode p.n_pmp 0 0 (λ e low high. none e (omega arith)))

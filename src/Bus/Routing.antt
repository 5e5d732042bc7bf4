-- ===== src/Bus/Routing.antt =====
-- riscv/devices.cc, bus_t: which device an access goes to.
use nnemu.Base.{
  ℕ, suc, ◌-◌, ◌≤◌, ◌<◌, ◌≡◌, refl, arith, false, ltb, ◌==◌, if◌then◌else◌, Option, none, some,
  List, [], ◌∷◌, inl, inr, Bool-cases,
}
use nnemu.Bus.{Devices, add_device, before_upper_bound, step_back, find_device, bus_load, bus_store}

module _ {D : Type 0} where
  -- The device at a base address.
  unfoldable pub lookup : ℕ → List (ℕ × D) → Option D
  lookup j [] = none
  lookup j ((k, d) ∷ rest) = if j == k then some d else lookup j rest

  -- The keys rise from `lo` on.
  abbrev pub Rising : ℕ → List (ℕ × D) → Type 0
  Rising lo [] = Unit {0}
  Rising lo ((k, d) ∷ rest) = (lo ≤ k) × Rising (suc k) rest

  -- What a search has to find: the nearest device at or below the address.
  abbrev pub IsNearest : ℕ → List (ℕ × D) → Option (ℕ × D) → Type 0
  IsNearest a devices none = (k : ℕ) → k ≤ a → lookup k devices ≡ none
  IsNearest a devices (some (base, d)) =
      (lookup base devices ≡ some d)
      × (base ≤ a)
      × ((k : ℕ) → base < k → k ≤ a → lookup k devices ≡ none)

  lookup_below : (lo j : ℕ) (l : List (ℕ × D)) → Rising lo l → j < lo → lookup j l ≡ none
  unfolding lookup
  lookup_below lo j [] r h = refl
  lookup_below lo j ((k, d) ∷ l) r h = ground (arith, lookup_below (suc k) j l)

  -- Registering a device keeps the order of the keys.
  pub add_device-Rising :
      (lo a : ℕ) (d : D) (l : List (ℕ × D)) → lo ≤ a → Rising lo l → Rising lo (add_device a d l)
  unfolding add_device
  add_device-Rising lo a d [] h r = (h, tt)
  add_device-Rising lo a d ((k, e) ∷ l) h r = ground (arith, add_device-Rising (suc k) a d l)

  -- Registering a device at a base address replaces what stood at that address and nothing else.
  pub lookup-add_device :
      (a j : ℕ) (d : D) (l : List (ℕ × D))
      → lookup j (add_device a d l) ≡ (if j == a then some d else lookup j l)
  unfolding lookup add_device
  lookup-add_device a j d [] = refl
  lookup-add_device a j d ((k, e) ∷ l) = ground (arith, lookup-add_device a j d l)

  IsNearest-cons :
      (a k : ℕ) (d : D) (l : List (ℕ × D)) (o : Option (ℕ × D))
      → Rising (suc k) l
      → k ≤ a
      → IsNearest a l o
      → IsNearest a ((k, d) ∷ l) (elim o [ none ↦ some (k, d) | some e ↦ some e ])
  unfolding lookup
  IsNearest-cons a k d l none r h n = (ground arith, h, λ j above le. ground (arith, n j le))
  IsNearest-cons a k d l (some (b, e)) r h n = (
    ground (arith, n.0, lookup_below (suc k) b l r),
    n.1,
    λ j above le. ground (arith, n.0, lookup_below (suc k) b l r, n.2 j above le),
  )

  step_back-some : (e : ℕ × D) (l : List (ℕ × D)) → (f : ℕ × D) × (step_back (e ∷ l) ≡ some f)
  unfolding step_back
  step_back-some e [] = (e, refl)
  step_back-some e (f ∷ l) = step_back-some f l

  step_back-cons :
      (e : ℕ × D) (l : List (ℕ × D))
      → step_back (e ∷ l) ≡ (elim (step_back l) [ none ↦ some e | some f ↦ some f ])
  unfolding step_back
  step_back-cons e [] = refl
  step_back-cons e (f ∷ l) = rw (step_back-some f l).1

  -- In a map whose keys rise, `find_device` finds the nearest device at or below the address, and none
  -- only if there is none.
  pub find_device-IsNearest :
      (lo a : ℕ) (l : List (ℕ × D)) → Rising lo l → IsNearest a l (find_device a l)
  unfolding find_device
  find_device-IsNearest lo a [] r = λ k h. unfold lookup in refl
  find_device-IsNearest lo a ((k, d) ∷ l) r = elim (Bool-cases (ltb a k)) [
    | inl beyond ↦
        rw (beyond, before_upper_bound)
          (λ j h. unfold lookup in ground (arith, lookup_below (suc k) j l))
    | inr reached ↦
        rw (reached, before_upper_bound)
          (rw step_back-cons (
            IsNearest-cons a k d l (find_device a l) r.1 (ground arith)
              (find_device-IsNearest (suc k) a l r.1)))
  ]

module _ {D H : Type 0} (ops : Devices D H) where
  -- In a map whose keys rise, an access in the window of a device, from its base up to the next
  -- device, is the device's access at the offset from its base.
  pub bus_window :
      (lo a base : ℕ) (d : D) (l : List (ℕ × D))
      → Rising lo l
      → lookup base l ≡ some d
      → base ≤ a
      → ((k : ℕ) → base < k → k ≤ a → lookup k l ≡ none)
      → ((len : ℕ) (h : H) → bus_load ops l a len h ≡ ops.load d (a - base) len h)
        × ((bytes : List ℕ) (h : H) → bus_store ops l a bytes h ≡ ops.store d (a - base) bytes h)
  unfolding bus_load bus_store
  bus_window lo a base d l r found le clear =
      (λ len h. rw (same, bus_load), λ bytes h. rw (same, bus_store))
    where
      unique : (o : Option (ℕ × D)) → IsNearest a l o → o ≡ some (base, d)
      unique none n = ground (arith, n base le)
      unique (some (b, e)) n = ground (arith, n.0, n.2 base, clear b)

      same : find_device a l ≡ some (base, d)
      same = unique (find_device a l) (find_device-IsNearest lo a l r)

  -- In a map whose keys rise, with no device at or below the address, every access is refused and
  -- nothing changes.
  pub bus_unmapped :
      (lo a : ℕ) (l : List (ℕ × D))
      → Rising lo l
      → ((k : ℕ) → k ≤ a → lookup k l ≡ none)
      → ((len : ℕ) (h : H) → bus_load ops l a len h ≡ (h, none))
        × ((bytes : List ℕ) (h : H) → bus_store ops l a bytes h ≡ (h, false))
  unfolding bus_load bus_store
  bus_unmapped lo a l r clear = (λ len h. rw (same, bus_load), λ bytes h. rw (same, bus_store))
    where
      absent : (o : Option (ℕ × D)) → IsNearest a l o → o ≡ none
      absent none n = refl
      absent (some (b, e)) n = ground (arith, n.0, clear b)

      same : find_device a l ≡ none
      same = absent (find_device a l) (find_device-IsNearest lo a l r)

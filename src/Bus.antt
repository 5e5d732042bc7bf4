-- ===== src/Bus.antt =====
-- riscv/devices.cc, `bus_t`: devices by base address, in a `std::map`, which keeps its keys in
-- order. What a device is and does is a parameter: `D` is a pointer to a device, `H` the state that
-- the devices share, and an access through a pointer acts on that state (riscv/abstract_device.h).
pub mod Routing
pub mod Examples
use nnemu.Base.{
  ℕ, ◌-◌, Bool, true, false, ltb, ◌==◌, if◌then◌else◌, Option, none, some, List, [], ◌∷◌,
}

-- The virtual functions of `abstract_device_t`. A load gives the bytes, or `none` where it returns
-- false; a store says whether it was accepted.
pub record Devices (D H : Type 0) : Type 0 where
  pub load : D → ℕ → ℕ → H → H × Option (List ℕ)
  pub store : D → ℕ → List ℕ → H → H × Bool

module _ {D : Type 0} where
  -- `devices[addr] = dev`.
  pub add_device : ℕ → D → List (ℕ × D) → List (ℕ × D)
  add_device addr dev [] = (addr, dev) ∷ []
  add_device addr dev ((k, d) ∷ rest) =
      if ltb addr k
      then (addr, dev) ∷ (k, d) ∷ rest
      else if addr == k
      then (addr, dev) ∷ rest
      else (k, d) ∷ add_device addr dev rest

  -- `upper_bound`: the entries in front of the iterator; the iterator is at the first key above
  -- `addr`.
  pub before_upper_bound : ℕ → List (ℕ × D) → List (ℕ × D)
  before_upper_bound addr [] = []
  before_upper_bound addr ((k, d) ∷ rest) =
      if ltb addr k then [] else (k, d) ∷ before_upper_bound addr rest

  -- `it--`, unless `it` is at the beginning.
  pub step_back : List (ℕ × D) → Option (ℕ × D)
  step_back [] = none
  step_back (e ∷ []) = some e
  step_back (e ∷ f ∷ rest) = step_back (f ∷ rest)

  pub find_device : ℕ → List (ℕ × D) → Option (ℕ × D)
  unfolding before_upper_bound step_back
  find_device addr devices = step_back (before_upper_bound addr devices)

module _ {D H : Type 0} (ops : Devices D H) where
  pub bus_load : List (ℕ × D) → ℕ → ℕ → H → H × Option (List ℕ)
  bus_load devices addr len h = elim (find_device addr devices) [
    | none ↦ (h, none)
    | some (base, d) ↦ ops.load d (addr - base) len h
  ]

  pub bus_store : List (ℕ × D) → ℕ → List ℕ → H → H × Bool
  bus_store devices addr bytes h = elim (find_device addr devices) [
    | none ↦ (h, false)
    | some (base, d) ↦ ops.store d (addr - base) bytes h
  ]

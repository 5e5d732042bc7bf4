-- ===== src/Bus/Examples.antt =====
-- Two devices on the bus: a device answers with its own number and the offset.
use nnemu.Base.{ℕ, ◌-◌, ◌+◌, ◌≤◌, ◌<◌, ◌≡◌, refl, arith, true, false, none, some, List, [], ◌∷◌}
use nnemu.Bus.{Devices, find_device, bus_load, bus_store}
use nnemu.Bus.Routing.{Rising, IsNearest, lookup, find_device-IsNearest, bus_window, bus_unmapped}

abbrev echo : Devices ℕ ℕ
echo = record { load = λ d a len h. (h, some (d ∷ a ∷ [])); store = λ d a bytes h. (h + d, true) }

abbrev two_devices : List (ℕ × ℕ)
two_devices = (0x1000, 1) ∷ (0x2000, 2) ∷ []

two_devices-Rising : Rising 0 two_devices
two_devices-Rising = (omega arith, (omega arith, tt))

find_device-IsNearest_example : IsNearest 0x1800 two_devices (find_device 0x1800 two_devices)
find_device-IsNearest_example = find_device-IsNearest 0 0x1800 two_devices two_devices-Rising

found : lookup 0x1000 two_devices ≡ some 1
unfolding lookup
found = refl

nothing_between : (k : ℕ) → 0x1000 < k → k ≤ 0x1800 → lookup k two_devices ≡ none
unfolding lookup
nothing_between k above below = ground arith

bus_window_example :
    ((len : ℕ) (h : ℕ)
      → bus_load echo two_devices 0x1800 len h ≡ echo.load 1 (0x1800 - 0x1000) len h)
    × ((bytes : List ℕ) (h : ℕ)
        → bus_store echo two_devices 0x1800 bytes h ≡ echo.store 1 (0x1800 - 0x1000) bytes h)
bus_window_example =
    bus_window echo 0 0x1800 0x1000 1 two_devices two_devices-Rising found (omega arith)
      nothing_between

nothing_below : (k : ℕ) → k ≤ 0xfff → lookup k two_devices ≡ none
unfolding lookup
nothing_below k below = ground arith

bus_unmapped_example :
    ((len : ℕ) (h : ℕ) → bus_load echo two_devices 0xfff len h ≡ (h, none))
    × ((bytes : List ℕ) (h : ℕ) → bus_store echo two_devices 0xfff bytes h ≡ (h, false))
bus_unmapped_example = bus_unmapped echo 0 0xfff two_devices two_devices-Rising nothing_below

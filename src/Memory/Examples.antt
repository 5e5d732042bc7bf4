-- ===== src/Memory/Examples.antt =====
-- A memory of two pages, and an access across the end of the first.
use nnemu.Base.{ℕ, ◌≡◌, arith, true, none, some, List, [], ◌∷◌, length}
use nnemu.Memory.{Mem, load, store}
use nnemu.Memory.Pages.{byte_at, overlay}
use nnemu.Memory.Flat.{store_lem, load-store}

abbrev two_pages : Mem
two_pages = record { pages = λ _. none; sz = 8192 }

abbrev word : List ℕ
word = 1 ∷ 2 ∷ 3 ∷ 4 ∷ []

load-store_example : (load 4094 (length word) (store 4094 word two_pages).0).1 ≡ some word
load-store_example = load-store 4094 word two_pages (omega arith) (omega arith)

store_lem_example :
    ((store 4094 word two_pages).1 ≡ true)
    × (byte_at (store 4094 word two_pages).0 4096 ≡ overlay 4094 word 4096 (byte_at two_pages 4096))
    × ((store 4094 word two_pages).0.sz ≡ two_pages.sz)
store_lem_example = store_lem 4094 word two_pages 4096 (omega arith) (omega arith)

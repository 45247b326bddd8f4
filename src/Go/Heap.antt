-- ===== src/Go/Heap.antt =====
-- The maps after writes and new maps.
use kabanero_events.Prelude.{
  ◌≡◌, refl, arith, ℕ, zero, suc, ◌<◌, List, [], ◌∷◌, ◌++◌, Str, length, get_or,
}
use kabanero_events.Go.Assoc.{insert}
use kabanero_events.Go.Value.{Val}
use kabanero_events.Go.Exec.{update}

pub length-update :
    (h : List (List (Str × Val))) (i : ℕ) (k : Str) (v : Val) → length (update h i k v) ≡ length h
unfolding update
length-update [] i k v = refl
length-update (m ∷ ms) zero k v = refl
length-update (m ∷ ms) (suc i) k v = omega (arith, length-update ms i k v)

-- A write changes one map.
pub get_or-update :
    (h : List (List (Str × Val))) (i : ℕ) (k : Str) (v : Val)
    → i < length h
    → get_or (update h i k v) i [] ≡ insert k v (get_or h i [])
unfolding update
get_or-update [] i k v lt = absurd (omega arith)
get_or-update (m ∷ ms) zero k v lt = refl
get_or-update (m ∷ ms) (suc i) k v lt = get_or-update ms i k v (omega arith)

pub get_or-update_ne :
    (h : List (List (Str × Val))) (i a : ℕ) (k : Str) (v : Val)
    → a < i
    → get_or (update h i k v) a [] ≡ get_or h a []
unfolding update
get_or-update_ne [] i a k v lt = refl
get_or-update_ne (m ∷ ms) zero a k v lt = absurd (omega arith)
get_or-update_ne (m ∷ ms) (suc i) zero k v lt = refl
get_or-update_ne (m ∷ ms) (suc i) (suc a) k v lt = get_or-update_ne ms i a k v (omega arith)

-- A new map leaves the others alone, and is empty.
pub get_or-append_lt :
    (h h' : List (List (Str × Val))) (a : ℕ) → a < length h → get_or (h ++ h') a [] ≡ get_or h a []
get_or-append_lt [] h' a lt = absurd (omega arith)
get_or-append_lt (m ∷ ms) h' zero lt = refl
get_or-append_lt (m ∷ ms) h' (suc a) lt = get_or-append_lt ms h' a (omega arith)

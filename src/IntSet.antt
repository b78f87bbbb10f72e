-- ===== src/IntSet.antt =====
-- Python's `set[int]`: a list without repetitions. The program never iterates over a set, so the
-- order is not observed.
use event_pipeline_extension.Prelude.{
  ℕ, suc, ◌<◌, ◌≡◌, Bool, true, false, ◌||◌, List, [], ◌∷◌, arith, length, nat_beq, if◌then◌else◌,
}

unfoldable pub contains : ℕ → List ℕ → Bool
contains o [] = false
contains o (x ∷ xs) = nat_beq x o || contains o xs

unfoldable pub add : ℕ → List ℕ → List ℕ
add o s = if contains o s then s else o ∷ s

unfoldable pub remove : ℕ → List ℕ → List ℕ
remove o [] = []
remove o (x ∷ xs) = let rest = remove o xs in if nat_beq x o then rest else x ∷ rest

pub contains-add : (x o : ℕ) (s : List ℕ) → contains x (add o s) ≡ (nat_beq o x || contains x s)
unfolding contains add
contains-add x o s = ground arith

pub contains-remove :
    (x o : ℕ) (s : List ℕ) → contains x (remove o s) ≡ (if nat_beq o x then false else contains x s)
unfolding contains remove
contains-remove x o [] = ground arith
contains-remove x o (y ∷ ys) = ground (arith, contains-remove x o ys)

length-remove-le : (o : ℕ) (s : List ℕ) → length (remove o s) < suc (length s)
unfolding remove
length-remove-le o [] = omega arith
length-remove-le o (x ∷ xs) = ground (arith, length-remove-le o xs)

-- To remove what is there makes the set smaller.
pub length-remove : (o : ℕ) (s : List ℕ) → contains o s ≡ true → length (remove o s) < length s
unfolding contains remove
length-remove o [] h = cc
length-remove o (x ∷ xs) h = ground (arith, length-remove o xs, length-remove-le o xs)

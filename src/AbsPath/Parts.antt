-- ===== src/AbsPath/Parts.antt =====
-- The reference of `util_abs_path`: a path as the list of its parts.
pub mod Run
pub mod Loop
pub mod Last
pub mod Again
pub mod Cut
pub mod Canonical
use fsp.Base.{
  ℕ, ◌≡◌, ◌≢◌, refl, Bool, true, false, not, ◌||◌, ◌&&◌, List, [], ◌∷◌, ◌++◌, length, drop, ◌==◌,
  if◌then◌else◌, arith, Bool-cases, inl, inr,
}
use mathlib.Core.List.{reverse}

-- The bytes between the slashes.
abbrev pub add_byte : ℕ → List (List ℕ) → List (List ℕ)
add_byte c [] = (c ∷ []) ∷ []
add_byte c (p ∷ ps) = (c ∷ p) ∷ ps

unfoldable pub parts : List ℕ → List (List ℕ)
parts [] = [] ∷ []
parts (c ∷ s) = let ps = parts s in if c == b'/' then [] ∷ ps else add_byte c ps

pub joined : List (List ℕ) → List ℕ
joined [] = []
joined (p ∷ []) = p
joined (p ∷ q ∷ ps) = p ++ b'/' ∷ joined (q ∷ ps)

pub joined-add_byte : (c : ℕ) (ps : List (List ℕ)) → joined (add_byte c ps) ≡ c ∷ joined ps
unfolding joined
joined-add_byte c [] = refl
joined-add_byte c (p ∷ []) = refl
joined-add_byte c (p ∷ q ∷ ps) = refl

pub joined-nil : (ps : List (List ℕ)) → ps ≢ [] → joined ([] ∷ ps) ≡ b'/' ∷ joined ps
unfolding joined
joined-nil [] h = absurd (h refl)
joined-nil (p ∷ ps) h = refl

pub parts-ne-nil : (s : List ℕ) → parts s ≢ []
unfolding parts
parts-ne-nil [] e = cc
parts-ne-nil (c ∷ s) e = ground (arith, parts-ne-nil s)

pub joined-parts : (s : List ℕ) → joined (parts s) ≡ s
unfolding parts
joined-parts [] = unfold joined in refl
joined-parts (c ∷ s) =
    ground
      (arith, joined-parts s, joined-add_byte c (parts s), joined-nil (parts s) (parts-ne-nil s))

abbrev pub Lacks : List ℕ → Type 0
Lacks [] = Unit
Lacks (c ∷ s) = (c ≢ b'/') × Lacks s

abbrev pub AllLack : List (List ℕ) → Type 0
AllLack [] = Unit
AllLack (p ∷ ps) = Lacks p × AllLack ps

add_byte-AllLack : (c : ℕ) (ps : List (List ℕ)) → c ≢ b'/' → AllLack ps → AllLack (add_byte c ps)
add_byte-AllLack c [] h k = ((h, tt), tt)
add_byte-AllLack c (p ∷ ps) h (k, ks) = ((h, k), ks)

pub parts-AllLack : (s : List ℕ) → AllLack (parts s)
unfolding parts
parts-AllLack [] = (tt, tt)
parts-AllLack (c ∷ s) = elim (Bool-cases (c == b'/')) [
  | inl e ↦ rw e (tt, parts-AllLack s)
  | inr e ↦ rw e (add_byte-AllLack c (parts s) (ground (arith, e)) (parts-AllLack s))
]

-- The parts "." and "..".
abbrev pub is_dot : List ℕ → Bool
is_dot [] = false
is_dot (c ∷ []) = c == b'.'
is_dot (c ∷ d ∷ p) = false

abbrev pub is_parent : List ℕ → Bool
is_parent [] = false
is_parent (c ∷ []) = false
is_parent (c ∷ d ∷ []) = c == b'.' && d == b'.'
is_parent (c ∷ d ∷ e ∷ p) = false

-- The directory that is reached from the one with the names `st`, the nearest first.
pub push : List (List ℕ) → List ℕ → List (List ℕ)
push st p = if length p == 0 || is_dot p then st else if is_parent p then drop 1 st else p ∷ st

unfoldable pub resolve : List (List ℕ) → List (List ℕ) → List (List ℕ)
unfolding push
resolve st [] = st
resolve st (p ∷ ps) = resolve (push st p) ps

-- The path of a directory from its end on, and the path.
pub backwards : List (List ℕ) → List ℕ
backwards [] = []
backwards (p ∷ st) = reverse p ++ b'/' ∷ backwards st

unfoldable pub render : List (List ℕ) → List ℕ
unfolding backwards
render [] = b'/' ∷ []
render (p ∷ st) = reverse (backwards (p ∷ st))

-- Whether a path ends with a slash.
unfoldable pub ends_with_slash : List (List ℕ) → Bool
ends_with_slash [] = false
ends_with_slash (p ∷ []) = length p == 0
ends_with_slash (p ∷ q ∷ ps) = ends_with_slash (q ∷ ps)

-- Whether two slashes stand in front, where a slash is.
abbrev pub doubled : List (List ℕ) → Bool
doubled [] = false
doubled (p ∷ []) = false
doubled (p ∷ q ∷ ps) = length p == 0

-- No part "." or ".." has two slashes behind it.
unfoldable pub tidy : List (List ℕ) → Bool
tidy [] = true
tidy (p ∷ ps) = not ((is_dot p || is_parent p) && doubled ps) && tidy ps

-- What `util_abs_path` makes of the parts behind the slash of the directory `st`.
pub answer : List ℕ → List (List ℕ) → List (List ℕ) → List ℕ
unfolding resolve render ends_with_slash
answer suffix st ps =
    let st' = resolve st ps in
    if ends_with_slash ps && not (length st' == 0) then render st' else render st' ++ suffix

-- ===== src/AbsPath.antt =====
-- The paths of client/util.c: `util_abs_path`, `util_junk_password` and `util_split_path`. A C string
-- is the list of its bytes before the terminator. A pointer into the path is a cursor: the bytes
-- before it, the nearest one first, and the bytes from it on.
pub mod Parts
pub mod Ends
mod Tests
use fsp.Base.{
  ℕ, zero, suc, ◌+◌, Bool, true, false, ◌||◌, ◌&&◌, not, List, [], ◌∷◌, ◌++◌, length, get_or, drop,
  take, ◌==◌, if◌then◌else◌, Option, none, some,
}
use mathlib.Core.List.{reverse}

-- `util_junk_password`: the string ends before its first newline.
pub util_junk_password : List ℕ → List ℕ
util_junk_password [] = []
util_junk_password (c ∷ s) = let rest = c ∷ util_junk_password s in if c == b'\n' then [] else rest

-- What `sprintf` writes, without what stands behind a newline if there is a password.
unfoldable pub merged : List ℕ → List ℕ → List ℕ → List ℕ
unfolding util_junk_password
merged env_dir env_passwd s2 =
    let path = if get_or s2 0 0 == b'/' then b'/' ∷ s2 else b'/' ∷ (env_dir ++ b'/' ∷ s2) in
    if length env_passwd == 0 then path else util_junk_password path

-- `while(t[1] == '/')`, for what stands behind the slash.
pub collapse : List ℕ → List ℕ
collapse [] = []
collapse (c ∷ s) = let rest = collapse s in if c == b'/' then rest else c ∷ s

-- `while(t > path && t[0] != '/') t--;` from the nearest byte of the list on: what stands before the
-- byte where it stops. At the first byte of the path it stops, whatever that is.
pub back_to_slash : List ℕ → List ℕ
back_to_slash [] = []
back_to_slash (c ∷ s) = let rest = back_to_slash s in if c == b'/' then s else rest

-- One round of the loop: it goes on with a cursor, or returns the path with APPEND_PASSWORD or
-- without.
pub data Pass : Type 0 where
  go_on : List ℕ → List ℕ → Pass
  append_password : List ℕ → Pass
  plain : List ℕ → Pass

-- `t-1 == path`.
abbrev pub is_second : List ℕ → Bool
is_second before = length before == 1

-- `*s == '/' || *s == 0`.
abbrev pub ends_part : List ℕ → Bool
ends_part [] = true
ends_part (c ∷ s) = c == b'/'

pub at_slash : List ℕ → List ℕ → Pass
unfolding collapse
at_slash before rest =
    let behind = collapse rest in
    if not (length before == 0) && length behind == 0
    then plain (reverse before)
    else go_on (b'/' ∷ before) behind

-- A part "..", with what stands behind it, from its slash on.
pub at_parent : List ℕ → List ℕ → Pass
unfolding back_to_slash
at_parent before s =
    let before' = back_to_slash (drop 1 before) in
    if is_second before && length s == 0
    then append_password (reverse before)
    else if is_second before
    then go_on before (drop 1 s)
    else if not (length before' == 0) || get_or s 0 0 == b'/'
    then go_on before' s
    else append_password (b'/' ∷ [])

-- A part ".".
pub at_dot : List ℕ → List ℕ → Pass
at_dot before s =
    if is_second before && length s == 0
    then append_password (reverse before)
    else if is_second before
    then go_on before (drop 1 s)
    else go_on (drop 1 before) s

pub pass : List ℕ → ℕ → List ℕ → Pass
unfolding at_slash at_parent at_dot
pass before c rest =
    let behind_slash = get_or before 0 0 == b'/' in
    if c == b'/'
    then at_slash before rest
    else if c == b'.' && get_or rest 0 0 == b'.' && behind_slash && ends_part (drop 1 rest)
    then at_parent before (drop 1 rest)
    else if c == b'.' && behind_slash && ends_part rest
    then at_dot before rest
    else go_on (c ∷ before) rest

-- The loop, with the string that APPEND_PASSWORD adds; `none` means that the fuel has run out.
pub normalise : ℕ → List ℕ → List ℕ → List ℕ → Option (List ℕ)
normalise fuel suffix before [] = some (reverse before ++ suffix)
normalise zero suffix before (c ∷ rest) = none
normalise (suc fuel) suffix before (c ∷ rest) = elim (pass before c rest) [
  | go_on before' from ↦ normalise fuel suffix before' from
  | append_password path ↦ some (path ++ suffix)
  | plain path ↦ some path
]

abbrev pub password_suffix : List ℕ → List ℕ
password_suffix env_passwd = if length env_passwd == 0 then [] else b'\n' ∷ env_passwd

unfoldable pub util_abs_path : List ℕ → List ℕ → List ℕ → Option (List ℕ)
unfolding merged normalise pass
util_abs_path env_dir env_passwd s2 =
    let path = merged env_dir env_passwd s2 in
    normalise (length path) (password_suffix env_passwd) [] path

-- `util_split_path`. The pointers `p1`, `p2` and `p3` as indices into the path: `p1` is the path
-- itself, or the literal "/"; `p2` is a byte of its own where the path holds no slash, and `p3` may
-- be the literal ".".
pub record Split : Type 0 where
  pub p1 : Option ℕ
  pub p2 : Option ℕ
  pub p3 : Option ℕ

-- The loop from the index `s` on.
pub last_slash : List ℕ → ℕ → Split → Split
last_slash [] s x = x
last_slash (c ∷ cs) s x =
    last_slash cs (s + 1)
      (if c == b'/' then record { p1 = some 0; p2 = some s; p3 = some (s + 1) } else x)

unfoldable pub util_split_path : List ℕ → Split
unfolding last_slash
util_split_path path =
    let first = if get_or path 0 0 == b'/' then 1 else 0 in
    let own : Option ℕ = if get_or path 0 0 == b'/' then some 0 else none in
    let x = last_slash (drop first path) first (record { p1 = none; p2 = own; p3 = some first }) in
    let empty : Bool = elim x.p3 [ none ↦ false | some i ↦ length (drop i path) == 0 ] in
    record x { p3 = if empty then none else x.p3 }

-- The strings at `p1` and `p3` once a caller has written '\0' to `p2`.
unfoldable pub directory : Split → List ℕ → List ℕ
directory x path = elim x.p1 [
  | none ↦ b'/' ∷ []
  | some i ↦ elim x.p2 [ none ↦ path | some j ↦ take j path ]
]

unfoldable pub file : Split → List ℕ → List ℕ
file x path = elim x.p3 [ none ↦ b'.' ∷ [] | some i ↦ drop i path ]

unfoldable pub directory_of : List ℕ → List ℕ
directory_of path = directory (util_split_path path) path

unfoldable pub file_of : List ℕ → List ℕ
file_of path = file (util_split_path path) path

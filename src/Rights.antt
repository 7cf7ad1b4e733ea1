-- ===== src/Rights.antt =====
-- Access rights: `DIRINFO` of include/server_def.h, `require_access_rights` of server/acl.c, and
-- `server_get_pro` and `server_set_pro` of server/file.c without the write to disk.
pub mod Grant
pub mod Protect
mod Tests
use fsp.Base.{
  ℕ, zero, suc, ◌+◌, ◌-◌, ◌/◌, ◌%◌, ◌^◌, Bool, true, false, ◌||◌, ◌&&◌, List, [], ◌∷◌, ◌++◌, ◌==◌,
  if◌then◌else◌, Option, none, some, codes,
}
use fsp.IpRange.{IpRange, check_ip_table, head}

-- A NULL owner table is the empty table.
pub record DirInfo : Type 0 where
  pub realname : List ℕ
  pub owner : List IpRange
  pub protection : ℕ
  pub public_password : Option (List ℕ)
  pub owner_password : Option (List ℕ)
  pub readme : Option (List ℕ)
  pub mtime : ℕ
  pub lastcheck : ℕ

-- DIR_OWNER to DIR_RENAME of include/common_def.h.
abbrev pub dir_owner : ℕ
dir_owner = 1

abbrev pub dir_del : ℕ
dir_del = 2

abbrev pub dir_add : ℕ
dir_add = 4

abbrev pub dir_mkdir : ℕ
dir_mkdir = 8

abbrev pub dir_get : ℕ
dir_get = 16

abbrev pub dir_list : ℕ
dir_list = 64

abbrev pub dir_rename : ℕ
dir_rename = 128

-- `a & b` is not 0, for an unsigned char `a`.
pub meets_from : ℕ → ℕ → ℕ → Bool
meets_from zero a b = false
meets_from (suc n) a b =
    let rest = meets_from n (a / 2) (b / 2) in (a % 2 == 1 && b % 2 == 1) || rest

unfoldable pub meets : ℕ → ℕ → Bool
unfolding meets_from
meets a b = meets_from 8 a b

-- `!strcmp(a, b)`.
unfoldable pub same_text : List ℕ → List ℕ → Bool
same_text [] [] = true
same_text (a ∷ xs) (b ∷ ys) = let rest = same_text xs ys in a == b && rest
same_text _ _ = false

-- The `if(acc!=NULL)` of `require_access_rights`: the answer that it returns, if it does.
pub owner_access : Bool → DirInfo → ℕ → Option (List ℕ) → List ℕ → Option (List ℕ)
owner_access permit_passwordless_owners di rights passwd acc =
    let asked : Option (List ℕ) = elim di.owner_password [
      | none ↦ if permit_passwordless_owners then some acc else none
      | some pw ↦ elim passwd [
        | some given ↦ if same_text given pw then some acc else none
        | none ↦
            if meets rights dir_owner then some (codes "DPassword required for owner") else none
      ]
    ] in
    if head acc == b'I' || head acc == b'D'
    then some acc
    else if head acc == b'O'
    then asked
    else none

-- From `if(rights & DIR_OWNER)` on.
unfoldable pub public_access : DirInfo → ℕ → Option (List ℕ) → List ℕ
public_access di rights passwd =
    let by_protection : List ℕ =
      if meets rights di.protection || rights == 0
      then codes "NWelcome on board captain!"
      else codes "DPermission denied" in
    let by_password : List ℕ = elim di.public_password [
      | none ↦ by_protection
      | some pw ↦ elim passwd [
        | none ↦ codes "DYou need a password"
        | some given ↦ if same_text pw given then by_protection else codes "DInvalid password"
      ]
    ] in
    if meets rights dir_owner then codes "DNot an owner" else by_password

unfoldable pub require_access_rights : Bool → DirInfo → ℕ → ℕ → Option (List ℕ) → List ℕ
require_access_rights permit_passwordless_owners di rights ip_addr passwd =
    elim (check_ip_table ip_addr di.owner) [
      | none ↦ public_access di rights passwd
      | some acc ↦ elim (owner_access permit_passwordless_owners di rights passwd acc) [
        | some answer ↦ answer
        | none ↦ public_access di rights passwd
      ]
    ]

-- One bit of a number of flags: `p & b`, `p | b`, `p & ~b` and `p ^ b`, where b is a power of 2.
abbrev pub has_bit : ℕ → ℕ → Bool
has_bit p b = p / b % 2 == 1

unfoldable pub set_bit : ℕ → ℕ → ℕ
set_bit p b = if has_bit p b then p else p + b

pub clear_bit : ℕ → ℕ → ℕ
clear_bit p b = if has_bit p b then p - b else p

unfoldable pub flip_bit : ℕ → ℕ → ℕ
flip_bit p b = if has_bit p b then p - b else p + b

-- `server_get_pro`: the bytes before the protection byte, and that byte.
unfoldable pub server_get_pro : DirInfo → List ℕ → List ℕ × ℕ
unfolding set_bit flip_bit
server_get_pro di acc =
    let pro = flip_bit di.protection dir_get % 256 in
    (
      elim di.readme [ none ↦ [] | some text ↦ text ++ (0 ∷ []) ],
      (if head acc == b'O' then set_bit pro dir_owner else pro),
    )

-- The flag that the letter `key[1]` names.
pub act_of : ℕ → Option ℕ
act_of c =
    if c == b'c'
    then some dir_add
    else if c == b'd'
    then some dir_del
    else if c == b'g'
    then some dir_get
    else if c == b'm'
    then some dir_mkdir
    else if c == b'l'
    then some dir_list
    else if c == b'r'
    then some dir_rename
    else none

-- `server_set_pro` up to `save_access_rights`; `none` is the syntax error.
pub server_set_pro : ℕ → DirInfo → ℕ → ℕ → Option DirInfo
unfolding act_of set_bit clear_bit
server_set_pro cur_time di sign letter = elim (act_of letter) [
  | none ↦ none
  | some act ↦
      if sign == b'+'
      then some (record di {
        protection = set_bit di.protection act;
        mtime = cur_time;
        lastcheck = cur_time;
      })
      else if sign == b'-'
      then some (record di {
        protection = clear_bit di.protection act;
        mtime = cur_time;
        lastcheck = cur_time;
      })
      else none
]

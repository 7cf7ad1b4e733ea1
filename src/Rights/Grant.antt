-- ===== src/Rights/Grant.antt =====
-- Who is let in by `require_access_rights`.
use fsp.Base.{
  ℕ, ◌≡◌, ◌≢◌, refl, sym, ◌∙◌, ap, ◌↔◌, ◌⊎◌, inl, inr, Bool, true, false, ◌||◌, List, [], ◌∷◌, ◌==◌,
  Option, none, some, arith, Bool-cases, Option-cases, codes, ==_iff,
}
use fsp.IpRange.{check_ip_table, head}
use fsp.Rights.{
  DirInfo, dir_owner, meets, same_text, owner_access, public_access, require_access_rights,
}

pub same_text_iff : (a b : List ℕ) → (same_text a b ≡ true) ↔ (a ≡ b)
unfolding same_text
same_text_iff [] [] = (λ _. refl, λ _. refl)
same_text_iff [] (b ∷ ys) = (λ h. cc, λ h. cc)
same_text_iff (a ∷ xs) [] = (λ h. cc, λ h. cc)
same_text_iff (a ∷ xs) (b ∷ ys) = ground (arith, same_text_iff xs ys)

-- The answer of a refusal, which the handlers drop or send back.
abbrev pub is_refusal : List ℕ → Bool
is_refusal acc = head acc == b'I' || head acc == b'D'

-- The caller owns the directory: an owner entry is for its address, and it gave the password of the
-- owner, or there is none and none is asked for.
pub record IsOwner (permit : Bool) (di : DirInfo) (ip : ℕ) (passwd : Option (List ℕ)) : Type 0 where
  pub text : List ℕ
  pub entry : check_ip_table ip di.owner ≡ some text
  pub owner_type : head text ≡ b'O'
  pub password :
      ((di.owner_password ≡ none) × (permit ≡ true))
      ⊎ ((pw : List ℕ) × (di.owner_password ≡ some pw) × (passwd ≡ some pw))

-- The right is public: no entry bans the caller's address, it is not the right of the owner, the
-- password of the directory was given if there is one, and the protection has the right.
pub record IsPublic (di : DirInfo) (rights ip : ℕ) (passwd : Option (List ℕ)) : Type 0 where
  pub no_ban : (text : List ℕ) → check_ip_table ip di.owner ≡ some text → is_refusal text ≡ false
  pub not_owner : meets rights dir_owner ≡ false
  pub password :
      (di.public_password ≡ none)
      ⊎ ((pw : List ℕ) × (di.public_password ≡ some pw) × (passwd ≡ some pw))
  pub protection : (meets rights di.protection ≡ true) ⊎ (rights ≡ 0)

public_access_iff :
    (di : DirInfo) (rights : ℕ) (passwd : Option (List ℕ))
    → (is_refusal (public_access di rights passwd) ≡ false) ↔ (
        (meets rights dir_owner ≡ false)
        × ((di.public_password ≡ none)
            ⊎ ((pw : List ℕ) × (di.public_password ≡ some pw) × (passwd ≡ some pw)))
        × ((meets rights di.protection ≡ true) ⊎ (rights ≡ 0)))
unfolding public_access
public_access_iff di rights passwd = elim (Option-cases di.public_password) [
  | inl e ↦ ground (arith, e)
  | inr (pw, e) ↦ elim (Option-cases passwd) [
    | inl f ↦ ground (arith, e, f)
    | inr (given, f) ↦ elim (Bool-cases (same_text pw given)) [
      | inl s ↦
          let q = (same_text_iff pw given).0 s in
          let ok : (di.public_password ≡ none)
              ⊎ ((x : List ℕ) × (di.public_password ≡ some x) × (passwd ≡ some x)) =
            inr (pw, e, f ∙ ap some (sym q)) in
          (
            λ h. (ground (arith, e, f, s), ok, ground (arith, e, f, s)),
            λ h. ground (arith, e, f, s),
          )
      | inr s ↦
          let q : pw ≢ given = (λ r. let z = (same_text_iff pw given).1 r in cc) in
          (
            λ h. absurd (ground (arith, e, f, s)),
            λ h. elim h.1 [ inl n ↦ cc | inr (x, u, v) ↦ let r : pw ≡ given = cc in absurd (q r) ],
          )
    ]
  ]
]

-- What the owner's entry leads to, where it does not ban the caller.
owner_access_cases :
    (permit : Bool) (di : DirInfo) (rights ip : ℕ) (passwd : Option (List ℕ)) (text : List ℕ)
    → check_ip_table ip di.owner ≡ some text
    → is_refusal text ≡ false
    → (IsOwner permit di ip passwd × (owner_access permit di rights passwd text ≡ some text))
      ⊎ ((IsOwner permit di ip passwd → ⊥)
          × ((owner_access permit di rights passwd text ≡ none)
              ⊎ ((meets rights dir_owner ≡ true)
                  × (owner_access permit di rights passwd text
                      ≡ some (codes "DPassword required for owner")))))
unfolding owner_access
owner_access_cases permit di rights ip passwd text entry no_ban =
    elim (Bool-cases (head text == b'O')) [
      | inr c ↦ inr (λ o. ground (arith, o.entry, o.owner_type, c), inl (ground (arith, c, no_ban)))
      | inl c ↦ elim (Option-cases di.owner_password) [
        | inl e ↦ elim (Bool-cases permit) [
          | inl p ↦ inl (
            record {
              text = text;
              entry = entry;
              owner_type = (==_iff _ _).0 c;
              password = inl (e, p);
            },
            ground (arith, c, e, p, no_ban),
          )
          | inr p ↦ inr (
            λ o. elim o.password [ inl q ↦ cc | inr q ↦ cc ],
            inl (ground (arith, c, e, p, no_ban)),
          )
        ]
        | inr (pw, e) ↦ elim (Option-cases passwd) [
          | inl f ↦ inr (
            λ o. elim o.password [ inl q ↦ cc | inr q ↦ cc ],
            elim (Bool-cases (meets rights dir_owner)) [
              | inl m ↦ inr (m, ground (arith, c, e, f, m, no_ban))
              | inr m ↦ inl (ground (arith, c, e, f, m, no_ban))
            ],
          )
          | inr (given, f) ↦ elim (Bool-cases (same_text given pw)) [
            | inl s ↦ inl (
              record {
                text = text;
                entry = entry;
                owner_type = (==_iff _ _).0 c;
                password = inr (pw, e, f ∙ ap some ((same_text_iff given pw).0 s));
              },
              ground (arith, c, e, f, s, no_ban),
            )
            | inr s ↦ inr (
              λ o. elim o.password [
                | inl q ↦ cc
                | inr (x, u, v) ↦
                    let r : given ≡ pw = cc in
                    let z = (same_text_iff given pw).1 r in absurd (ground (arith, s, z))
              ],
              inl (ground (arith, c, e, f, s, no_ban)),
            )
          ]
        ]
      ]
    ]

-- Where the owner's table decides nothing.
undecided_iff :
    (permit : Bool) (di : DirInfo) (rights ip : ℕ) (passwd : Option (List ℕ)) (answer : List ℕ)
    → (IsOwner permit di ip passwd → ⊥)
    → ((text : List ℕ) → check_ip_table ip di.owner ≡ some text → is_refusal text ≡ false)
    → answer ≡ public_access di rights passwd
    → (is_refusal answer ≡ false) ↔ (IsOwner permit di ip passwd ⊎ IsPublic di rights ip passwd)
undecided_iff permit di rights ip passwd answer no_owner no_ban q =
    let is_public = public_access_iff di rights passwd in
    (
      λ h.
          let (a, b, c) = is_public.0 (ap is_refusal (sym q) ∙ h) in
          inr (record { no_ban = no_ban; not_owner = a; password = b; protection = c }),
      λ o. ap is_refusal q ∙ elim o [
        | inl w ↦ absurd (no_owner w)
        | inr p ↦ is_public.1 (p.not_owner, p.password, p.protection)
      ],
    )

module _ (permit : Bool) (di : DirInfo) (rights ip : ℕ) (passwd : Option (List ℕ)) (text : List ℕ)
    (e : check_ip_table ip di.owner ≡ some text) where
  answer_decided :
      (answer : List ℕ)
      → owner_access permit di rights passwd text ≡ some answer
      → require_access_rights permit di rights ip passwd ≡ answer
  unfolding require_access_rights
  answer_decided answer q = ground (arith, e, q)

  answer_open :
      owner_access permit di rights passwd text ≡ none
      → require_access_rights permit di rights ip passwd ≡ public_access di rights passwd
  unfolding require_access_rights
  answer_open q = ground (arith, e, q)

  answer_banned : is_refusal text ≡ true → owner_access permit di rights passwd text ≡ some text
  unfolding owner_access
  answer_banned b = ground (arith, b)

answer_no_entry :
    (permit : Bool) (di : DirInfo) (rights ip : ℕ) (passwd : Option (List ℕ))
    → check_ip_table ip di.owner ≡ none
    → require_access_rights permit di rights ip passwd ≡ public_access di rights passwd
unfolding require_access_rights
answer_no_entry permit di rights ip passwd e = ground (arith, e)

refused_true :
    (answer text : List ℕ) → answer ≡ text → is_refusal text ≡ true → is_refusal answer ≡ false → ⊥
refused_true answer text q b h = ground (arith, ap is_refusal q, b, h)

owner_not_banned : (text : List ℕ) → is_refusal text ≡ true → head text ≡ b'O' → ⊥
owner_not_banned text b o = ground arith

-- `require_access_rights` does not refuse exactly if the caller is an owner of the directory, or the
-- right is public.
pub require_access_rights_iff :
    (permit : Bool) (di : DirInfo) (rights ip : ℕ) (passwd : Option (List ℕ))
    → (is_refusal (require_access_rights permit di rights ip passwd) ≡ false)
      ↔ (IsOwner permit di ip passwd ⊎ IsPublic di rights ip passwd)
require_access_rights_iff permit di rights ip passwd =
    let answer = require_access_rights permit di rights ip passwd in
    elim (Option-cases (check_ip_table ip di.owner)) [
      | inl e ↦
          undecided_iff permit di rights ip passwd answer (λ o. let z = o.entry in cc)
            (λ text h. cc) (answer_no_entry permit di rights ip passwd e)
      | inr (text, e) ↦ elim (Bool-cases (is_refusal text)) [
        | inl b ↦
            let q =
              answer_decided permit di rights ip passwd text e text
                (answer_banned permit di rights ip passwd text e b) in
            (
              λ h. absurd (refused_true answer text q b h),
              λ o. elim o [
                | inl w ↦
                    let same : w.text ≡ text = (let z = w.entry in cc) in
                    absurd (owner_not_banned text b (ap head (sym same) ∙ w.owner_type))
                | inr p ↦ absurd (refused_true text text refl b (p.no_ban text e))
              ],
            )
        | inr b ↦ elim (owner_access_cases permit di rights ip passwd text e b) [
          | inl (w, q) ↦ (
            λ h. inl w,
            λ o. ap is_refusal (answer_decided permit di rights ip passwd text e text q) ∙ b,
          )
          | inr (no_owner, inl q) ↦
              undecided_iff permit di rights ip passwd answer no_owner
                (λ t h. let same : text ≡ t = cc in ap is_refusal (sym same) ∙ b)
                (answer_open permit di rights ip passwd text e q)
          | inr (no_owner, inr (m, q)) ↦ (
            λ h. absurd (
                refused_true answer _ (answer_decided permit di rights ip passwd text e _ q) refl
                  h),
            λ o. elim o [
              | inl w ↦ absurd (no_owner w)
              | inr p ↦ let z = p.not_owner in absurd (ground (arith, m, z))
            ],
          )
        ]
      ]
    ]

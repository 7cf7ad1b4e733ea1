-- ===== src/FileOps/Tests.antt =====
-- A system of files in memory, in which every call succeeds.
use fsp.Base.{
  ℕ, ◌≡◌, ◌≢◌, refl, sym, ◌∙◌, ap, Bool, true, false, inl, inr, List, [], ◌++◌, if◌then◌else◌,
  Option, none, some, Bool-cases, codes,
}
use mathlib.Core.Option.{some-injective}
use fsp.Rights.{same_text}
use fsp.Rights.Grant.{same_text_iff}
use fsp.FileOps.{Node, regular, special, System, Laws, opened, server_install, server_secure_file}
use fsp.FileOps.Install.{server_install-installed, server_secure_file-moved}

true-ne-false : true ≡ false → ⊥
true-ne-false e = cc

same_text_refl : (a : List ℕ) → same_text a a ≡ true
same_text_refl a = (same_text_iff a a).1 refl

same_text_differs : (a b : List ℕ) → a ≢ b → same_text a b ≡ false
same_text_differs a b h = elim (Bool-cases (same_text a b)) [
  | inl e ↦ absurd (h ((same_text_iff a b).0 e))
  | inr e ↦ e
]

-- The files, and what stands in the buffers of the streams that are open for writing.
abbrev Files : Type 0
Files = List ℕ → Option Node

abbrev Disk : Type 0
Disk = Files × Files

abbrev put : Files → List ℕ → Option Node → Files
put w p n q = if same_text q p then n else w q

abbrev flush : Files → List ℕ → Option Node → Files
flush w p none = w
flush w p (some n) = put w p (some n)

abbrev in_memory : System Disk
in_memory = record {
  stat = λ w p. w.0 p;
  unlink = λ w p. ((put w.0 p none, w.1), true);
  create = λ w p. ((put w.0 p (some (regular [])), put w.1 p (some (regular []))), true);
  fwrite = λ w p bytes. (
    (
      w.0,
      put w.1 p
          (elim (opened (w.1 p)) [ none ↦ w.1 p | some held ↦ some (regular (held ++ bytes)) ]),
    ),
    true,
  );
  fclose = λ w p. ((flush w.0 p (w.1 p), put w.1 p none), true);
  drop_stream = λ w p. (flush w.0 p (w.1 p), put w.1 p none);
}

put-other : (w : Files) (p q : List ℕ) (n : Option Node) → q ≢ p → put w p n q ≡ w q
put-other w p q n h = rw (same_text_differs q p h) refl

put-same : (w : Files) (p : List ℕ) (n : Option Node) → put w p n p ≡ n
put-same w p n = rw (same_text_refl p) refl

flush-other : (w : Files) (p q : List ℕ) (n : Option Node) → q ≢ p → flush w p n q ≡ w q
flush-other w p q none h = refl
flush-other w p q (some n) h = put-other w p q (some n) h

opened_regular : (n : Option Node) (held : List ℕ) → opened n ≡ some held → n ≡ some (regular held)
opened_regular none held e = cc
opened_regular (some special) held e = cc
opened_regular (some (regular bytes)) held e =
    ap (λ (l : List ℕ). some (regular l)) (some-injective bytes held e)

abbrev Different : List ℕ → List ℕ → Type 0
Different p q = p ≢ q

in_memory-Laws : Laws in_memory Different
in_memory-Laws = record {
  written = λ w p. opened (w.1 p);
  apart_sym = λ p q h e. h (sym e);
  unlink_other = λ w p q h. put-other w.0 p q none h;
  unlink_gone = λ w p e. put-same w.0 p none;
  create_other = λ w p q h. put-other w.0 p q (some (regular [])) h;
  create_empty = λ w p e. ap opened (put-same w.1 p (some (regular [])));
  fwrite_other = λ w p bytes q h. refl;
  fwrite_behind = λ w p bytes held h e. ap opened (put-same w.1 p _) ∙ rw h refl;
  fclose_other = λ w p q h. flush-other w.0 p q (w.1 p) h;
  fclose_flush = λ w p held h e.
      ap (λ (n : Option Node). flush w.0 p n p) (opened_regular (w.1 p) held h)
      ∙ put-same w.0 p (some (regular held));
  drop_other = λ w p q h. flush-other w.0 p q (w.1 p) h;
}

abbrev temp_name : List ℕ
temp_name = codes "/tmp/.T"

abbrev target : List ℕ
target = codes "a/b"

abbrev bystander : List ℕ
bystander = codes "a/c"

-- The stream of the temporary file is still open, and its buffer has not been flushed.
abbrev two_nodes : Disk
two_nodes = (
  λ p.
      if same_text p temp_name
      then some (regular [])
      else if same_text p target
      then some (regular (codes "old"))
      else none,
  λ p. if same_text p temp_name then some (regular (codes "new")) else none,
)

different : {a b : List ℕ} → same_text a b ≡ false → a ≢ b
different {a} {b} e q = absurd (true-ne-false (sym (same_text_refl a) ∙ ap (same_text a) q ∙ e))

run_code : Bool
unfolding server_install server_secure_file same_text
run_code = true

server_install-installed_example :
    (in_memory.stat (server_install in_memory temp_name target (codes "O") 0 two_nodes).0 target
      ≡ some (regular (codes "new")))
    × (in_memory.stat
          (server_install in_memory temp_name target (codes "O") 0 two_nodes).0
          bystander
        ≡ none)
unfolding run_code
server_install-installed_example =
    server_install-installed in_memory in_memory-Laws temp_name target (codes "O") (codes "new")
      bystander 0 two_nodes (different refl) (different refl) (different refl) refl refl refl refl

abbrev grab_name : List ℕ
grab_name = codes "/tmp/.G"

server_secure_file-moved_example :
    (bytes : List ℕ) × (two_nodes.0 target ≡ some (regular bytes))
    × (in_memory.stat (server_secure_file in_memory grab_name target two_nodes).0 grab_name
        ≡ some (regular bytes))
    × (in_memory.stat (server_secure_file in_memory grab_name target two_nodes).0 target ≡ none)
    × (in_memory.stat (server_secure_file in_memory grab_name target two_nodes).0 bystander
        ≡ two_nodes.0 bystander)
unfolding run_code
server_secure_file-moved_example =
    server_secure_file-moved in_memory in_memory-Laws grab_name target bystander two_nodes
      (different refl) (different refl) (different refl) (λ bytes e. refl) refl

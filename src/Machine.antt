-- ===== src/Machine.antt =====
-- A file system: files, symbolic links and directories by path, and the calls of the package os on
-- them. Any call may fail: the faults say of the next calls which do, and
-- with what error. A write that fails may leave a part of its text. The directories above a path
-- are left out.
pub mod Rules
use nusantara_panel.Base.{
  Text, codes, [], ◌∷◌, ◌++◌, List, Bool, true, false, Option, none, some, Result, ok, err, any,
  has_prefix, if◌then◌else◌,
}
use nusantara_panel.Base.Table.{Table, lookup, insert, delete}
use nusantara_panel.Sites.Files.{os_text, OsError, not_exist, other}

pub data Node : Type 0 where
  file : Text → Node
  link : Text → Node
  directory : Node

pub record Fault : Type 0 where
  pub cause : OsError
  pub part : Option Text

pub record Machine : Type 0 where
  pub nodes : Table Node
  pub faults : List (Option Fault)

-- What a piece of the code does to the machine, and the error it stops with.
abbrev pub Act {ℓ κ} : Type ℓ → Type κ → Type (ℓ ⊔ κ)
Act E A = Machine → Result E A × Machine

abbrev pub Io {ℓ} : Type ℓ → Type ℓ
Io A = Act OsError A

module _ {ℓ κ μ} {E : Type ℓ} {A : Type κ} {B : Type μ} where
  abbrev pub then_do : (A → Act E B) → Result E A × Machine → Result E B × Machine
  then_do next (err e, m) = (err e, m)
  then_do next (ok a, m) = next a m

  infixl 20 ◌>>=◌
  abbrev pub ◌>>=◌ : Act E A → (A → Act E B) → Act E B
  (act >>= next) m = then_do next (act m)

infixl 20 ◌>>◌
abbrev pub ◌>>◌ {ℓ κ} : {E : Type ℓ} {B : Type κ} → Act E (Unit {0}) → Act E B → Act E B
(act >> next) m = then_do (λ _. next) (act m)

-- An error of the system in its context.
abbrev pub told {ℓ} : {A : Type ℓ} → Text → Result OsError A × Machine → Result Text A × Machine
told context (err e, m) = (err (context ++ os_text e), m)
told context (ok a, m) = (ok a, m)

abbrev pub describe {ℓ} : {A : Type ℓ} → Text → Io A → Act Text A
describe context act m = told context (act m)

-- The next fault, if the call fails, and the machine without it.
abbrev pub next_fault : Machine → Option Fault × Machine
next_fault m = elim m.faults [ [] ↦ (none, m) | (f ∷ rest) ↦ (f, record m { faults = rest }) ]

-- A call that changes the nodes as `act` says, or fails.
abbrev pub call {ℓ} :
    {A : Type ℓ}
    → (Table Node → Result OsError A × Table Node)
    → Option Fault × Machine
    → Result OsError A × Machine
call act (some f, m) = (err f.cause, m)
call act (none, m) = let (res, nodes) = act m.nodes in (res, record m { nodes = nodes })

abbrev missing : OsError
missing = not_exist (codes "no such file or directory")

-- What stands at a path, through a symbolic link.
abbrev pub follow : Text → Table Node → Option Node
follow path nodes = elim (lookup path nodes) [
  | none ↦ none
  | some (link target) ↦ lookup target nodes
  | some node ↦ some node
]

unfoldable pub mkdir_all : Text → Io (Unit {0})
mkdir_all path m =
    call
      (λ nodes. elim (follow path nodes) [
        | none ↦ (ok tt, insert path directory nodes)
        | some directory ↦ (ok tt, nodes)
        | some node ↦ (err (other (codes "not a directory")), nodes)
      ])
      (next_fault m)

unfoldable pub read_file : Text → Io Text
read_file path m =
    call
      (λ nodes. elim (follow path nodes) [
        | none ↦ (err missing, nodes)
        | some (file text) ↦ (ok text, nodes)
        | some node ↦ (err (other (codes "is a directory")), nodes)
      ])
      (next_fault m)

-- A write goes through a symbolic link.
abbrev pub write_node : Text → Text → Table Node → Result OsError (Unit {0}) × Table Node
write_node path text nodes = elim (lookup path nodes) [
  | some directory ↦ (err (other (codes "is a directory")), nodes)
  | some (link target) ↦ (ok tt, insert target (file text) nodes)
  | some (file old) ↦ (ok tt, insert path (file text) nodes)
  | none ↦ (ok tt, insert path (file text) nodes)
]

-- What a write that fails leaves.
abbrev pub leaves : Text → Option Text → Table Node → Table Node
leaves path none nodes = nodes
leaves path (some text) nodes = (write_node path text nodes).1

abbrev pub written : Text → Text → Option Fault × Machine → Result OsError (Unit {0}) × Machine
written path text (some f, m) = (err f.cause, record m { nodes = leaves path f.part m.nodes })
written path text (none, m) =
    let (res, nodes) = write_node path text m.nodes in (res, record m { nodes = nodes })

unfoldable pub write_file : Text → Text → Io (Unit {0})
write_file path text m = written path text (next_fault m)

unfoldable pub rename : Text → Text → Io (Unit {0})
rename from to m =
    call
      (λ nodes. elim (lookup from nodes) [
        | none ↦ (err missing, nodes)
        | some node ↦ elim (lookup to nodes) [
          | some directory ↦ (err (other (codes "file exists")), nodes)
          | old ↦ (ok tt, insert to node (delete from nodes))
        ]
      ])
      (next_fault m)

abbrev holds_any : Text → Table Node → Bool
holds_any path nodes = any (λ e. has_prefix e.0 (path ++ codes "/")) nodes

unfoldable pub remove : Text → Io (Unit {0})
remove path m =
    call
      (λ nodes. elim (lookup path nodes) [
        | none ↦ (err missing, nodes)
        | some directory ↦
            if holds_any path nodes
            then (err (other (codes "directory not empty")), nodes)
            else (ok tt, delete path nodes)
        | some node ↦ (ok tt, delete path nodes)
      ])
      (next_fault m)

unfoldable pub lstat : Text → Io Node
lstat path m =
    call
      (λ nodes. elim (lookup path nodes) [
        | none ↦ (err missing, nodes)
        | some node ↦ (ok node, nodes)
      ])
      (next_fault m)

unfoldable pub stat : Text → Io Node
stat path m =
    call
      (λ nodes. elim (follow path nodes) [
        | none ↦ (err missing, nodes)
        | some node ↦ (ok node, nodes)
      ])
      (next_fault m)

unfoldable pub readlink : Text → Io Text
readlink path m =
    call
      (λ nodes. elim (lookup path nodes) [
        | none ↦ (err missing, nodes)
        | some (link target) ↦ (ok target, nodes)
        | some node ↦ (err (other (codes "invalid argument")), nodes)
      ])
      (next_fault m)

unfoldable pub symlink : Text → Text → Io (Unit {0})
symlink target path m =
    call
      (λ nodes. elim (lookup path nodes) [
        | none ↦ (ok tt, insert path (link target) nodes)
        | some node ↦ (err (other (codes "file exists")), nodes)
      ])
      (next_fault m)

-- os.OpenFile with O_CREATE and O_EXCL, the writing of a text and the closing: an existing path is
-- left alone, and `false` says so.
abbrev created : Text → Text → Option Fault × Machine → Result OsError Bool × Machine
created path text (some f, m) = (
  err f.cause,
  record m {
    nodes = elim (lookup path m.nodes) [ none ↦ leaves path f.part m.nodes | some node ↦ m.nodes ];
  },
)
created path text (none, m) = elim (lookup path m.nodes) [
  | none ↦ (ok true, record m { nodes = insert path (file text) m.nodes })
  | some node ↦ (ok false, m)
]

unfoldable pub create_file : Text → Text → Io Bool
create_file path text m = created path text (next_fault m)

-- os.Open of what need not be a file, and the closing of what was opened.
unfoldable pub open_file : Text → Io (Unit {0})
open_file path m =
    call
      (λ nodes. elim (follow path nodes) [
        | none ↦ (err missing, nodes)
        | some node ↦ (ok tt, nodes)
      ])
      (next_fault m)

unfoldable pub close_file : Io (Unit {0})
close_file m = call (λ nodes. (ok tt, nodes)) (next_fault m)

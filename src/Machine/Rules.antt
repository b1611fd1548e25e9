-- ===== src/Machine/Rules.antt =====
-- What a piece of the code leaves on a machine whose calls may fail at any point: rules for the calls
-- and for their sequence. A success leaves `Q`, and a failure leaves `Safe`.
use nusantara_panel.Base.{
  ◌≡◌, refl, codes, Text, List, [], ◌∷◌, Option, none, some, Result, ok, err,
}
use nusantara_panel.Base.Table.{Table, lookup, insert}
use nusantara_panel.Sites.Files.{OsError, other}
use nusantara_panel.Machine.{
  follow, describe, told, Machine, Node, file, directory, Fault, Act, then_do, call, next_fault,
  written, write_file, write_node, leaves,
}

module _ (Safe : Table Node → Type 0) where
  abbrev pub Post : {E A : Type 0} → (A → Table Node → Type 0) → Result E A × Machine → Type 0
  Post Q (ok a, m) = Q a m.nodes
  Post Q (err e, m) = Safe m.nodes

  abbrev pub PostNodes :
      {A : Type 0} → (A → Table Node → Type 0) → Result OsError A × Table Node → Type 0
  PostNodes Q (ok a, nodes) = Q a nodes
  PostNodes Q (err e, nodes) = Safe nodes

  module _ {A : Type 0} (Q : A → Table Node → Type 0) where
    pub Post-then_do :
        {E B : Type 0} (R : B → Table Node → Type 0) (next : A → Act E B)
        (res : Result E A × Machine)
        → Post Q res
        → ((a : A) (m : Machine) → Q a m.nodes → Post R (next a m))
        → Post R (then_do next res)
    Post-then_do R next (ok a, m) h k = k a m h
    Post-then_do R next (err e, m) h k = h

    told-Post :
        (context : Text) (res : Result OsError A × Machine) → Post Q res → Post Q (told context res)
    told-Post context (ok a, m) h = h
    told-Post context (err e, m) h = h

    pub Post-describe :
        (context : Text) (act : Act OsError A) (m : Machine)
        → Post Q (act m)
        → Post Q (describe context act m)
    Post-describe context act m h = told-Post context (act m) h

    -- A call in its context, and what follows it.
    pub Post-step :
        {B : Type 0} (R : B → Table Node → Type 0) (context : Text) (act : Act OsError A)
        (next : A → Act Text B) (m : Machine)
        → Post Q (act m)
        → ((a : A) (m : Machine) → Q a m.nodes → Post R (next a m))
        → Post R (then_do next (describe context act m))
    Post-step R context act next m h k =
        Post-then_do R next (describe context act m) (Post-describe context act m h) k

    put-Post :
        (faults : List (Option Fault)) (p : Result OsError A × Table Node)
        → PostNodes Q p
        → Post Q (let (res, nodes) = p in (res, record { nodes = nodes; faults = faults }))
    put-Post faults (ok a, nodes) h = h
    put-Post faults (err e, nodes) h = h

    call-Post_from :
        (act : Table Node → Result OsError A × Table Node) (nodes : Table Node)
        (faults : List (Option Fault))
        → Safe nodes
        → PostNodes Q (act nodes)
        → Post Q (call act (next_fault (record { nodes = nodes; faults = faults })))
    call-Post_from act nodes [] s h = put-Post [] (act nodes) h
    call-Post_from act nodes (none ∷ faults) s h = put-Post faults (act nodes) h
    call-Post_from act nodes (some f ∷ faults) s h = s

    pub call-Post :
        (act : Table Node → Result OsError A × Table Node) (m : Machine)
        → Safe m.nodes
        → PostNodes Q (act m.nodes)
        → Post Q (call act (next_fault m))
    call-Post act m s h = call-Post_from act m.nodes m.faults s h

  module _ (Q : Unit {0} → Table Node → Type 0) (path text : Text) where
    written-Post_from :
        (nodes : Table Node) (faults : List (Option Fault))
        → ((part : Option Text) → Safe (leaves path part nodes))
        → PostNodes Q (write_node path text nodes)
        → Post Q (written path text (next_fault (record { nodes = nodes; faults = faults })))
    written-Post_from nodes [] s h = put-Post Q [] (write_node path text nodes) h
    written-Post_from nodes (none ∷ faults) s h = put-Post Q faults (write_node path text nodes) h
    written-Post_from nodes (some f ∷ faults) s h = s f.part

    pub write_file-Post :
        (m : Machine)
        → ((part : Option Text) → Safe (leaves path part m.nodes))
        → PostNodes Q (write_node path text m.nodes)
        → Post Q (write_file path text m)
    unfolding write_file
    write_file-Post m s h = written-Post_from m.nodes m.faults s h

module _ (path text : Text) (nodes : Table Node) where
  pub write_node_new :
      lookup path nodes ≡ none → write_node path text nodes ≡ (ok tt, insert path (file text) nodes)
  write_node_new e = rw (write_node, e) refl

  pub write_node_over :
      (old : Text)
      → lookup path nodes ≡ some (file old)
      → write_node path text nodes ≡ (ok tt, insert path (file text) nodes)
  write_node_over old e = rw (write_node, e) refl

  pub write_node_directory :
      lookup path nodes ≡ some directory
      → write_node path text nodes ≡ (err (other (codes "is a directory")), nodes)
  write_node_directory e = rw (write_node, e) refl

  pub follow_file : lookup path nodes ≡ some (file text) → follow path nodes ≡ some (file text)
  follow_file e = rw (follow, e) refl

  pub follow_directory : lookup path nodes ≡ some directory → follow path nodes ≡ some directory
  follow_directory e = rw (follow, e) refl

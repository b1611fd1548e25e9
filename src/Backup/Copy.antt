-- ===== src/Backup/Copy.antt =====
-- `copyFile` of internal/backup/service.go, on a machine whose calls may fail at any point.
use nusantara_panel.Sites.Files.{OsError, other}
use nusantara_panel.Base.{
  subst, [], Text, codes, Option, none, some, Result, ok, err, ◌≡◌, ◌≢◌, refl, sym, text_eq-false,
}
use nusantara_panel.Base.Table.{lookup-insert_self, Table, lookup, insert, delete, table_laws}
use nusantara_panel.Machine.{
  stat, ◌>>◌, Act, describe, open_file, close_file, read_file, write_file, mkdir_all, rename,
  Machine, Node, file, link, directory, leaves, write_node,
}
use nusantara_panel.Machine.Rules.{
  Post-step, follow_file, follow_directory, write_node_directory, write_node_over, write_node_new,
  Post, PostNodes, Post-then_do, Post-describe, call-Post, write_file-Post,
}
use nusantara_panel.Nginx.Steps.{tmp, tmp_ne}
use nusantara_panel.Sites.Paths.{dir}
use nusantara_panel.Backup.{looked, copy_file, copy_content}

-- A file to copy, apart from the temporary file of its target, whose directory exists.
pub record IsCopyable (src dst content : Text) (nodes : Table Node) : Type 0 where
  pub source : lookup src nodes ≡ some (file content)
  pub apart : src ≢ tmp dst
  pub parent : lookup (dir dst) nodes ≡ some directory
  pub no_link : (target : Text) → lookup (tmp dst) nodes ≢ some (link target)

module _ (src dst content : Text) (before : Option Node) where
  -- Where the source, the directory of the target, and the target are as they were.
  pub record Steady (nodes : Table Node) : Type 0 where
    pub copyable : IsCopyable src dst content nodes
    pub target : lookup dst nodes ≡ before

  -- The same, with a text in the temporary file.
  record Holding (text : Text) (nodes : Table Node) : Type 0 where
    steady : Steady nodes
    held : lookup (tmp dst) nodes ≡ some (file text)

  abbrev pub Untouched : Table Node → Type 0
  Untouched nodes = lookup dst nodes ≡ before

  Holding-insert :
      (text : Text) (nodes : Table Node)
      → Steady nodes
      → tmp dst ≢ dir dst
      → Holding text (insert (tmp dst) (file text) nodes)
  Holding-insert text nodes k ne =
      let e1 = text_eq-false (tmp dst) dst (tmp_ne dst) in
      let e2 = text_eq-false (tmp dst) src (λ h. k.copyable.apart (sym h)) in
      let e3 = text_eq-false (tmp dst) (dir dst) ne in
      let held_now = lookup-insert_self (tmp dst) (file text) nodes in
      record {
        steady = record {
          copyable = record {
            source = simp (table_laws, e2, k.copyable.source);
            apart = k.copyable.apart;
            parent = simp (table_laws, e3, k.copyable.parent);
            no_link = λ target h. cc (held_now, h);
          };
          target = simp (table_laws, e1, k.target);
        };
        held = held_now;
      }

  abbrev Written : Text → Result OsError (Unit {0}) × Table Node → Type 0
  Written text p = PostNodes Untouched (λ _. Holding text) p

  -- Whatever the temporary file is, if it is not a link, writing it keeps the rest steady.
  write-Written :
      (text : Text) (nodes : Table Node) (o : Option Node)
      → lookup (tmp dst) nodes ≡ o
      → Steady nodes
      → Written text (write_node (tmp dst) text nodes)
  write-Written text nodes none e k =
      subst (Written text) (sym (write_node_new (tmp dst) text nodes e))
        (Holding-insert text nodes k (λ h. cc (e, k.copyable.parent, h)))
  write-Written text nodes (some (file old)) e k =
      subst (Written text) (sym (write_node_over (tmp dst) text nodes old e))
        (Holding-insert text nodes k (λ h. cc (e, k.copyable.parent, h)))
  write-Written text nodes (some (link to)) e k = absurd (k.copyable.no_link to e)
  write-Written text nodes (some directory) e k =
      subst (Written text) (sym (write_node_directory (tmp dst) text nodes e)) k.target

  Untouched-Written :
      (text : Text) (p : Result OsError (Unit {0}) × Table Node) → Written text p → Untouched p.1
  Untouched-Written text (ok _, nodes) h = h.steady.target
  Untouched-Written text (err e, nodes) h = h

  leaves-Untouched :
      (nodes : Table Node) (part : Option Text)
      → Steady nodes
      → Untouched (leaves (tmp dst) part nodes)
  leaves-Untouched nodes none k = k.target
  leaves-Untouched nodes (some part) k =
      Untouched-Written part (write_node (tmp dst) part nodes)
        (write-Written part nodes (lookup (tmp dst) nodes) refl k)

  pub looked-Post :
      (m : Machine)
      → Steady m.nodes
      → Post Untouched (λ (_ : Unit {0}). Steady) (looked (stat src) m)
  unfolding stat
  looked-Post m k =
      Post-then_do Untouched (λ (_ : Node). Steady) (λ (_ : Unit {0}). Steady)
        (λ node m1. (ok tt, m1)) (stat src m)
        (call-Post Untouched (λ (_ : Node). Steady) _ m k.target
          (rw (follow_file src content m.nodes k.copyable.source) k))
        (λ node m1 k1. k1)

  opened : (m : Machine) → Steady m.nodes → Post Untouched (λ _. Steady) (open_file src m)
  unfolding open_file
  opened m k =
      call-Post Untouched (λ (_ : Unit {0}). Steady) _ m k.target
        (rw (follow_file src content m.nodes k.copyable.source) k)

  pub directory_made :
      (path : Text) (m : Machine)
      → lookup path m.nodes ≡ some directory
      → Steady m.nodes
      → Post Untouched (λ (_ : Unit {0}). Steady) (mkdir_all path m)
  unfolding mkdir_all
  directory_made path m e k =
      call-Post Untouched (λ (_ : Unit {0}). Steady) _ m k.target
        (rw (follow_directory path [] m.nodes e) k)

  emptied :
      (m : Machine) → Steady m.nodes → Post Untouched (λ _. Holding []) (write_file (tmp dst) [] m)
  emptied m k =
      write_file-Post Untouched (λ _. Holding []) (tmp dst) [] m
        (λ part. leaves-Untouched m.nodes part k)
        (write-Written [] m.nodes (lookup (tmp dst) m.nodes) refl k)

  read :
      (m : Machine)
      → Holding [] m.nodes
      → Post Untouched (λ text nodes. (text ≡ content) × Holding [] nodes) (read_file src m)
  unfolding read_file
  read m k =
      call-Post Untouched (λ (text : Text) nodes. (text ≡ content) × Holding [] nodes) _ m
        k.steady.target (rw (follow_file src content m.nodes k.steady.copyable.source) (refl, k))

  filled :
      (m : Machine)
      → Holding [] m.nodes
      → Post Untouched (λ _. Holding content) (write_file (tmp dst) content m)
  filled m k =
      write_file-Post Untouched (λ _. Holding content) (tmp dst) content m
        (λ part. leaves-Untouched m.nodes part k.steady)
        (write-Written content m.nodes (lookup (tmp dst) m.nodes) refl k.steady)

  closed :
      (m : Machine) → Holding content m.nodes → Post Untouched (λ _. Holding content) (close_file m)
  unfolding close_file
  closed m k =
      call-Post Untouched (λ (_ : Unit {0}). Holding content) (λ nodes. (ok tt, nodes)) m
        k.steady.target k

  abbrev pub Copied : Table Node → Type 0
  Copied nodes = lookup dst nodes ≡ some (file content)

  -- The text of the temporary file takes the place of the target, unless that is a directory.
  replaced :
      (nodes : Table Node) (o : Option Node)
      → lookup dst nodes ≡ o
      → Holding content nodes
      → PostNodes Untouched
          (λ (_ : Unit {0}). Copied)
          (elim o [
            | some directory ↦ (err (other (codes "file exists")), nodes)
            | old ↦ (ok tt, insert dst (file content) (delete (tmp dst) nodes))
          ])
  replaced nodes none e k = lookup-insert_self dst (file content) (delete (tmp dst) nodes)
  replaced nodes (some (file t)) e k =
      lookup-insert_self dst (file content) (delete (tmp dst) nodes)
  replaced nodes (some (link t)) e k =
      lookup-insert_self dst (file content) (delete (tmp dst) nodes)
  replaced nodes (some directory) e k = k.steady.target

  moved :
      (m : Machine)
      → Holding content m.nodes
      → Post Untouched (λ _. Copied) (rename (tmp dst) dst m)
  unfolding rename
  moved m k =
      call-Post Untouched (λ (_ : Unit {0}). Copied) _ m k.steady.target
        (rw k.held (replaced m.nodes (lookup dst m.nodes) refl k))

  contents :
      (m : Machine)
      → Holding [] m.nodes
      → Post Untouched (λ (_ : Unit {0}). Holding content) (copy_content src (tmp dst) m)
  contents m k =
      Post-then_do Untouched (λ (text : Text) nodes. (text ≡ content) × Holding [] nodes)
        (λ (_ : Unit {0}). Holding content) (λ text. write_file (tmp dst) text) (read_file src m)
        (read m k) (λ text m1 k1. rw k1.0 (filled m1 k1.1))

  abbrev pub Ended : Unit {0} → Table Node → Type 0
  Ended _ nodes = Copied nodes

  -- The last steps of the copy, from each of its calls on.
  abbrev moving : Act Text (Unit {0})
  moving = describe (codes "move backup file: ") (rename (tmp dst) dst)

  moving-Post : (m : Machine) → Holding content m.nodes → Post Untouched Ended (moving m)
  moving-Post m k =
      Post-describe Untouched Ended (codes "move backup file: ") (rename (tmp dst) dst) m
        (moved m k)

  abbrev closing : Act Text (Unit {0})
  closing = describe (codes "close temp file: ") close_file >> moving

  closing-Post : (m : Machine) → Holding content m.nodes → Post Untouched Ended (closing m)
  closing-Post m k =
      Post-step Untouched (λ (_ : Unit {0}). Holding content) Ended (codes "close temp file: ")
        close_file (λ _. moving) m (closed m k) (λ _. moving-Post)

  abbrev copying : Act Text (Unit {0})
  copying = describe (codes "copy file: ") (copy_content src (tmp dst)) >> closing

  copying-Post : (m : Machine) → Holding [] m.nodes → Post Untouched Ended (copying m)
  copying-Post m k =
      Post-step Untouched (λ (_ : Unit {0}). Holding content) Ended (codes "copy file: ")
        (copy_content src (tmp dst)) (λ _. closing) m (contents m k) (λ _. closing-Post)

  abbrev emptying : Act Text (Unit {0})
  emptying = describe (codes "create temp file: ") (write_file (tmp dst) []) >> copying

  emptying-Post : (m : Machine) → Steady m.nodes → Post Untouched Ended (emptying m)
  emptying-Post m k =
      Post-step Untouched (λ (_ : Unit {0}). Holding []) Ended (codes "create temp file: ")
        (write_file (tmp dst) []) (λ _. copying) m (emptied m k) (λ _. copying-Post)

  abbrev making : Act Text (Unit {0})
  making = describe (codes "create destination dir: ") (mkdir_all (dir dst)) >> emptying

  making-Post : (m : Machine) → Steady m.nodes → Post Untouched Ended (making m)
  making-Post m k =
      Post-step Untouched (λ (_ : Unit {0}). Steady) Ended (codes "create destination dir: ")
        (mkdir_all (dir dst)) (λ _. emptying) m (directory_made (dir dst) m k.copyable.parent k)
        (λ _. emptying-Post)

  abbrev opening : Act Text (Unit {0})
  opening = describe (codes "open source file: ") (open_file src) >> making

  opening-Post : (m : Machine) → Steady m.nodes → Post Untouched Ended (opening m)
  opening-Post m k =
      Post-step Untouched (λ (_ : Unit {0}). Steady) Ended (codes "open source file: ")
        (open_file src) (λ _. making) m (opened m k) (λ _. making-Post)

  -- A copy on a machine whose calls may fail at any point: when it succeeds, the target has the whole
  -- text of the source; when it fails, the target is as it was.
  pub copy_file-Post : (m : Machine) → Steady m.nodes → Post Untouched Ended (copy_file src dst m)
  unfolding copy_file
  copy_file-Post m k = opening-Post m k

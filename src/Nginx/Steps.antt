-- ===== src/Nginx/Steps.antt =====
-- The calls of the activation, on a machine whose calls do not fail, by what they make of the
-- configuration and of its link.
use nusantara_panel.Sites.Files.{OsError}
use nusantara_panel.Base.{
  text_eq_iff, ◌∙◌, inr, inl, text_eq, Bool-cases, true, if◌then◌else◌, false, Bool, text_eq_self,
  none, some, text_eq-false, arith, some, [], length-append, ◌++◌, length, Option, Text, codes,
  Result, ok, ◌≡◌, refl, sym, ap, ◌≢◌,
}
use nusantara_panel.Base.Table.{
  lookup-delete_self, lookup-insert_ne, table_laws, lookup-insert_self, delete, insert, lookup,
}
use nusantara_panel.Machine.{
  symlink, remove, readlink, lstat, read_file, rename, write_file, Machine, Node, file, link,
}
use nusantara_panel.Nginx.Provision.{
  remove_if_exists, read_if_exists, upsert_symlink, read_link_if_exists, write_atomic,
}

abbrev pub tmp : Text → Text
tmp path = path ++ codes ".tmp"

abbrev pub file_of : Option Text → Option Node
file_of none = none
file_of (some content) = some (file content)

-- What the code keeps of what it read.
abbrev pub saved : Option Text → Text × Bool
saved none = ([], false)
saved (some content) = (content, true)

abbrev pub link_of : Option Text → Option Node
link_of none = none
link_of (some target) = some (link target)

-- The texts of the configuration and the target of its link, no other file in the way, and no call
-- that fails.
pub record Shows (conf link_path : Text) (c l : Option Text) (m : Machine) : Type 0 where
  pub no_faults : m.faults ≡ []
  pub conf_node : lookup conf m.nodes ≡ file_of c
  pub link_node : lookup link_path m.nodes ≡ link_of l
  pub no_tmp : lookup (tmp conf) m.nodes ≡ none

abbrev pub Reaches :
    Text → Text → Option Text → Option Text → Result OsError (Unit {0}) × Machine → Type 0
Reaches conf link_path c l res = (m : Machine) × (res ≡ (ok tt, m)) × Shows conf link_path c l m

pub tmp_ne : (path : Text) → tmp path ≢ path
tmp_ne path e = let h = ap length e in let g = length-append path (codes ".tmp") in omega arith

module _ (conf link_path : Text) (apart : conf ≢ link_path) (free : tmp conf ≢ link_path) where
  placed-lookups :
      (content : Text) (m : Machine)
      → (lookup (tmp conf) (insert (tmp conf) (file content) m.nodes) ≡ some (file content))
        × (lookup conf (insert (tmp conf) (file content) m.nodes) ≡ lookup conf m.nodes)
  placed-lookups content m = (
    lookup-insert_self (tmp conf) (file content) m.nodes,
    lookup-insert_ne (tmp conf) conf (file content) m.nodes (tmp_ne conf),
  )

  Shows-placed :
      (content : Text) (c l : Option Text) (m : Machine)
      → Shows conf link_path c l m
      → Shows conf link_path (some content) l (record m {
        nodes =
            insert conf
              (file content)
              (delete (tmp conf) (insert (tmp conf) (file content) m.nodes));
      })
  Shows-placed content c l m k =
      let e2 = text_eq-false (tmp conf) link_path free in
      let e3 = text_eq-false conf link_path apart in
      let e4 = text_eq-false conf (tmp conf) (λ h. tmp_ne conf (sym h)) in
      record {
        no_faults = k.no_faults;
        conf_node = simp (table_laws, text_eq_self);
        link_node = simp (table_laws, e2, e3, k.link_node);
        no_tmp = simp (table_laws, text_eq_self, e4);
      }

  pub write_atomic-Reaches :
      (content : Text) (c l : Option Text) (m : Machine)
      → Shows conf link_path c l m
      → Reaches conf link_path (some content) l (write_atomic conf content m)
  unfolding write_atomic write_file rename lookup insert
  write_atomic-Reaches content none l m k =
      let (at_tmp, at_conf) = placed-lookups content m in
      (
        record m {
          nodes =
              insert conf (file content)
                (delete (tmp conf) (insert (tmp conf) (file content) m.nodes));
        },
        rw (k.no_faults, k.no_tmp, at_tmp, at_conf, k.conf_node) refl,
        Shows-placed content none l m k,
      )
  write_atomic-Reaches content (some old) l m k =
      let (at_tmp, at_conf) = placed-lookups content m in
      (
        record m {
          nodes =
              insert conf (file content)
                (delete (tmp conf) (insert (tmp conf) (file content) m.nodes));
        },
        rw (k.no_faults, k.no_tmp, at_tmp, at_conf, k.conf_node) refl,
        Shows-placed content (some old) l m k,
      )

  Shows-linked :
      (c l : Option Text) (old : Bool) (m : Machine)
      → Shows conf link_path c l m
      → Shows conf link_path c (some conf) (record m {
        nodes = insert link_path (link conf) (if old then delete link_path m.nodes else m.nodes);
      })
  Shows-linked c l true m k =
      let e1 = text_eq-false link_path conf (λ h. apart (sym h)) in
      let e2 = text_eq-false link_path (tmp conf) (λ h. free (sym h)) in
      record {
        no_faults = k.no_faults;
        conf_node = simp (table_laws, e1, k.conf_node);
        link_node = simp (table_laws, text_eq_self);
        no_tmp = simp (table_laws, e2, k.no_tmp);
      }
  Shows-linked c l false m k =
      let e1 = text_eq-false link_path conf (λ h. apart (sym h)) in
      let e2 = text_eq-false link_path (tmp conf) (λ h. free (sym h)) in
      record {
        no_faults = k.no_faults;
        conf_node = simp (table_laws, e1, k.conf_node);
        link_node = simp (table_laws, text_eq_self);
        no_tmp = simp (table_laws, e2, k.no_tmp);
      }

  pub upsert_symlink-Reaches :
      (c l : Option Text) (m : Machine)
      → Shows conf link_path c l m
      → Reaches conf link_path c (some conf) (upsert_symlink conf link_path m)
  unfolding upsert_symlink lstat readlink remove symlink
  upsert_symlink-Reaches c none m k = (
    record m { nodes = insert link_path (link conf) m.nodes },
    rw (k.no_faults, k.link_node) (rw k.link_node refl),
    Shows-linked c none false m k,
  )
  upsert_symlink-Reaches c (some target) m k = elim (Bool-cases (text_eq target conf)) [
    | inl same ↦ (
      m,
      rw (k.no_faults, k.link_node) (rw (k.link_node, same) refl),
      record {
        no_faults = k.no_faults;
        conf_node = k.conf_node;
        link_node = k.link_node ∙ ap (λ t. some (link t)) ((text_eq_iff target conf).0 same);
        no_tmp = k.no_tmp;
      },
    )
    | inr differs ↦ (
      record m { nodes = insert link_path (link conf) (delete link_path m.nodes) },
      rw (k.no_faults, k.link_node)
          (rw (k.link_node, differs)
            (rw k.link_node (rw (lookup-delete_self link_path m.nodes) refl))),
      Shows-linked c (some target) true m k,
    )
  ]

  pub read_conf :
      (c l : Option Text) (m : Machine)
      → Shows conf link_path c l m
      → read_if_exists conf m ≡ (ok (saved c), m)
  unfolding read_if_exists read_file
  read_conf none l m k = rw (k.no_faults, k.conf_node) refl
  read_conf (some content) l m k = rw (k.no_faults, k.conf_node) refl

  pub read_link :
      (c l : Option Text) (m : Machine)
      → Shows conf link_path c l m
      → read_link_if_exists link_path m ≡ (ok (saved l), m)
  unfolding read_link_if_exists lstat readlink
  read_link c none m k = rw (k.no_faults, k.link_node) refl
  read_link c (some target) m k = rw (k.no_faults, k.link_node) (rw k.link_node refl)

  pub remove_conf-Reaches :
      (c l : Option Text) (m : Machine)
      → Shows conf link_path c l m
      → Reaches conf link_path none l (remove_if_exists conf m)
  unfolding remove
  remove_conf-Reaches none l m k = (m, rw (k.no_faults, k.conf_node) refl, k)
  remove_conf-Reaches (some content) l m k =
      let e1 = text_eq-false conf link_path apart in
      let e2 = text_eq-false conf (tmp conf) (λ h. tmp_ne conf (sym h)) in
      (
        record m { nodes = delete conf m.nodes },
        rw (k.no_faults, k.conf_node) refl,
        record {
          no_faults = k.no_faults;
          conf_node = simp (table_laws, text_eq_self);
          link_node = simp (table_laws, e1, k.link_node);
          no_tmp = simp (table_laws, e2, k.no_tmp);
        },
      )

  pub remove_link-Reaches :
      (c l : Option Text) (m : Machine)
      → Shows conf link_path c l m
      → Reaches conf link_path c none (remove_if_exists link_path m)
  unfolding remove
  remove_link-Reaches c none m k = (m, rw (k.no_faults, k.link_node) refl, k)
  remove_link-Reaches c (some target) m k =
      let e1 = text_eq-false link_path conf (λ h. apart (sym h)) in
      let e2 = text_eq-false link_path (tmp conf) (λ h. free (sym h)) in
      (
        record m { nodes = delete link_path m.nodes },
        rw (k.no_faults, k.link_node) refl,
        record {
          no_faults = k.no_faults;
          conf_node = simp (table_laws, e1, k.conf_node);
          link_node = simp (table_laws, text_eq_self);
          no_tmp = simp (table_laws, e2, k.no_tmp);
        },
      )

  pub symlink-Reaches :
      (target : Text) (c : Option Text) (m : Machine)
      → Shows conf link_path c none m
      → Reaches conf link_path c (some target) (symlink target link_path m)
  unfolding symlink
  symlink-Reaches target c m k =
      let e1 = text_eq-false link_path conf (λ h. apart (sym h)) in
      let e2 = text_eq-false link_path (tmp conf) (λ h. free (sym h)) in
      (
        record m { nodes = insert link_path (link target) m.nodes },
        rw (k.no_faults, k.link_node) refl,
        record {
          no_faults = k.no_faults;
          conf_node = simp (table_laws, e1, k.conf_node);
          link_node = simp (table_laws, text_eq_self);
          no_tmp = simp (table_laws, e2, k.no_tmp);
        },
      )

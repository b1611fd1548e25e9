-- ===== src/Db/Tests.antt =====
-- Literals of statements on concrete texts.
use nusantara_panel.Base.{◌≡◌, codes, ◌++◌, some, arith}
use nusantara_panel.Db.{escape_sql_string}
use nusantara_panel.Db.Literals.{read_literal, read_literal-escape}

read_literal-escape_example :
    read_literal (escape_sql_string (codes "o'neil") ++ codes "'; GRANT")
    ≡ some (codes "o'neil", codes "; GRANT")
read_literal-escape_example =
    read_literal-escape (codes "o'neil") b';' (codes " GRANT")
      (
        ground arith,
        (ground arith, (ground arith, (ground arith, (ground arith, (ground arith, tt))))),
      )
      (ground arith)

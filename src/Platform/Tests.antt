-- ===== src/Platform/Tests.antt =====
-- The check of the system on the files of some systems.
use nusantara_panel.Base.{
  to_lower, trim_space, ◌≡◌, refl, Text, codes, ◌++◌, true, false, none, some, ascii_tables,
}
use nusantara_panel.Platform.{detect}

abbrev jammy : Text
jammy = codes "NAME=\"Ubuntu\"\n# a comment\nID=ubuntu\n VERSION_ID = \"22.04\"\n"

detect_tests :
    ((detect (codes "linux") (some jammy)).supported ≡ true)
    × ((detect (codes "linux") (some (jammy ++ codes "VERSION_ID=20.04\n"))).supported ≡ false)
    × ((detect (codes "linux") (some (jammy ++ codes "ID=debian"))).supported ≡ false)
    × ((detect (codes "linux") none).supported ≡ false)
    × ((detect (codes "darwin") (some jammy)).supported ≡ false)
unfolding detect trim_space to_lower
detect_tests = (refl, refl, refl, refl, refl)

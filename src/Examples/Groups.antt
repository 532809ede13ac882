-- ===== src/Examples/Groups.antt =====
-- A group book with one group, of one member.
use hash_chat.Prelude.{[], arith}
use hash_chat.Prelude.Utf8.{Text, chars}
use hash_chat.GroupBook.{Groups, create, add_member, remove_member}
use hash_chat.GroupBook.Valid.{IsBook}
use hash_chat.GroupBook.Life.{here, next, creates, joins, leaves, Run-IsBook}

abbrev name : Text
name = chars "team"

abbrev founded : Groups
founded = (add_member name 7 (create name []).1).1

abbrev repeated : Groups
repeated = (remove_member name 8 (add_member name 7 founded).1).1

nothing : IsBook []
nothing = record { each = tt; capped = omega arith }

Run-IsBook_example : IsBook repeated
Run-IsBook_example =
    Run-IsBook
      (next (next (next (next here (creates name)) (joins name 7)) (joins name 7)) (leaves name 8))
      nothing

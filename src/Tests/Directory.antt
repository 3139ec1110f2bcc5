-- ===== src/Tests/Directory.antt =====
-- A new directory, with its own entry and that of its parent.
use fuchsia_minfs.Prelude.{
  ℕ, ◌≡◌, ◌<◌, ◌≢◌, refl, [], ◌∷◌, true, false, none, some, ok, ◌==◌, if◌then◌else◌,
}
use fuchsia_minfs.Format.{Dirent, dirent_size, dirent_reserved_size, is_last}
use fuchsia_minfs.Directory.Records.{
  Directory, DirectoryOffset, DirArgs, for_each_dirent, walk_from, visit, validate_dirent, matches,
  same_name, callback_find, callback_find_space, next_dirent, append_dirent,
}
use fuchsia_minfs.Directory.Chain.{Reached, reached_start}
use fuchsia_minfs.Directory.Find.{
  for_each_dirent-found, for_each_dirent-missing, for_each_dirent-ends,
}
use fuchsia_minfs.Directory.Append.{Appended, append_dirent-Appended}

abbrev dot : Dirent
dot = record { ino = 5; reclen = 16; namelen = 1; dtype = 4; name = 46 ∷ [] }

abbrev dot_dot : Dirent
dot_dot = record { ino = 1; reclen = 0x80000000; namelen = 2; dtype = 4; name = 46 ∷ 46 ∷ [] }

abbrev new_directory : Directory
new_directory = record {
  records = λ o. if o == 0 then dot else dot_dot;
  size = 8192;
  link_count = 2;
  dirent_count = 2;
  seq_num = 0;
}

abbrev at_dot_dot : DirectoryOffset
at_dot_dot = record { off = 16; off_prev = 0 }

abbrev past_end : DirectoryOffset
past_end = record { off = 1048572; off_prev = 16 }

parent_found :
    for_each_dirent new_directory (callback_find (46 ∷ 46 ∷ [])) ≡ some (ok (true, at_dot_dot))
unfolding for_each_dirent walk_from visit validate_dirent matches same_name callback_find
    next_dirent dirent_reserved_size is_last
parent_found = refl

other_missing :
    for_each_dirent new_directory (callback_find (97 ∷ [])) ≡ some (ok (false, past_end))
unfolding for_each_dirent walk_from visit validate_dirent matches same_name callback_find
    next_dirent dirent_reserved_size is_last
other_missing = refl

for_each_dirent-found_example :
    Reached new_directory 16
    × (matches (46 ∷ 46 ∷ []) dot_dot ≡ true)
    × ((o : ℕ)
        → Reached new_directory o
        → o < 16
        → matches (46 ∷ 46 ∷ []) (new_directory.records o) ≡ false)
for_each_dirent-found_example =
    for_each_dirent-found new_directory (46 ∷ 46 ∷ []) at_dot_dot parent_found

for_each_dirent-missing_example : matches (97 ∷ []) dot ≡ false
for_each_dirent-missing_example =
    for_each_dirent-missing new_directory (97 ∷ []) past_end 0 other_missing reached_start refl

for_each_dirent-ends_example :
    (for_each_dirent new_directory (callback_find (97 ∷ [])) ≢ none)
    × (for_each_dirent new_directory (callback_find_space 16) ≢ none)
for_each_dirent-ends_example = for_each_dirent-ends new_directory (97 ∷ []) 16

abbrev new_entry : DirArgs
new_entry = record { name = 97 ∷ []; ino = 9; dtype = 8; reclen = 16 }

space_found : for_each_dirent new_directory (callback_find_space 16) ≡ some (ok (true, at_dot_dot))
unfolding for_each_dirent walk_from visit validate_dirent callback_find_space next_dirent
    dirent_reserved_size is_last dirent_size
space_found = refl

append_dirent-Appended_example :
    (d' : Directory) × (append_dirent new_directory new_entry 16 ≡ ok d')
    × Appended new_directory new_entry 16 d'
append_dirent-Appended_example =
    append_dirent-Appended new_directory new_entry at_dot_dot space_found

-- ===== src/Tests/Unlinked.antt =====
-- A list of three unlinked inodes.
use fuchsia_minfs.Prelude.{ℕ, ◌≡◌, refl, [], Result, err, ok, io, ◌∷◌, ◌==◌, if◌then◌else◌, arith}
use fuchsia_minfs.Unlinked.List.{
  Unlinked, add_unlinked, remove_unlinked, unlink_before, unlink_after, Holds,
}
use fuchsia_minfs.Unlinked.Add.{add_unlinked-Holds}
use fuchsia_minfs.Unlinked.Purge.{purge_unlinked, Purges, purge_unlinked-Purges}
use fuchsia_minfs.Unlinked.Remove.{remove_unlinked-Holds}

abbrev last_of_three : ℕ → ℕ
last_of_three i = if i == 3 then 9 else if i == 9 then 5 else 0

abbrev next_of_three : ℕ → ℕ
next_of_three i = if i == 5 then 9 else if i == 9 then 3 else 0

abbrev three : Unlinked
three = record {
  last_inode = last_of_three;
  next_inode = next_of_three;
  unlinked_head = 5;
  unlinked_tail = 3;
}

three-Holds : Holds three (5 ∷ 9 ∷ 3 ∷ [])
three-Holds = record {
  head = refl;
  linked = (omega arith, refl, refl, (omega arith, refl, refl, (omega arith, refl, refl, refl)));
  distinct = ((omega arith, (omega arith, tt)), ((omega arith, tt), (tt, tt)));
}

add_unlinked-Holds_example : Holds (add_unlinked three 7) (5 ∷ 9 ∷ 3 ∷ 7 ∷ [])
add_unlinked-Holds_example =
    add_unlinked-Holds three 7 (5 ∷ 9 ∷ 3 ∷ []) three-Holds (omega arith)
      (omega arith, (omega arith, (omega arith, tt))) refl refl

remove_unlinked-Holds_example : Holds (remove_unlinked three 9) (5 ∷ 3 ∷ [])
remove_unlinked-Holds_example = remove_unlinked-Holds three 9 (5 ∷ []) (3 ∷ []) three-Holds

-- The last of the three cannot be freed.
abbrev free_two : ℕ → Result (Unit {0})
free_two i = if i == 3 then err io else ok tt

purge_unlinked-Purges_example : Purges free_two (5 ∷ 9 ∷ 3 ∷ []) (purge_unlinked free_two 3 three)
purge_unlinked-Purges_example =
    purge_unlinked-Purges free_two 3 three (5 ∷ 9 ∷ 3 ∷ []) three-Holds (omega arith)

-- Taking out the middle links its neighbours.
removed-links :
    ((remove_unlinked three 9).next_inode 5 ≡ 3) × ((remove_unlinked three 9).last_inode 3 ≡ 5)
unfolding remove_unlinked unlink_before unlink_after
removed-links = (refl, refl)

-- ===== src/Allocator/Unreserved.antt =====
-- FindNextUnreserved: what it returns, and that it returns.
use mathlib.Core.List.{append_assoc, append-nil}
use fuchsia_minfs.Prelude.{
  ℕ, zero, suc, ◌+◌, ◌-◌, ◌*◌, ◌≤◌, ◌<◌, ◌≡◌, ◌≢◌, refl, sym, Bool, false, if◌then◌else◌, List, [],
  ◌∷◌, ◌++◌, length, length-append, arith, inl, inr, All, All-append, All-append_fst,
  All-append_snd, ◌⊎◌,
}
use fuchsia_minfs.Allocator.Bitmap.{Bitmaps}
use fuchsia_minfs.Allocator.State.{
  done, unfinished, Change, Allocator, is_idle, get_next_unreserved, find_next_loop,
  find_next_unreserved,
}

module _ ⦃b : Bitmaps⦄ where
  open b use {size, get_one, get_bit, next_clear}

  -- The specification of a reservation: an active change holds the element.
  abbrev pub is_reserved : Change → ℕ → Bool
  is_reserved c i = if is_idle c then false else get_bit c.bits i

  abbrev pub IsUnreserved : ℕ → Change → Type 0
  IsUnreserved i c = is_reserved c i ≡ false

  next-le : (c : Change) (start : ℕ) → start ≤ get_next_unreserved c start
  unfolding get_next_unreserved
  next-le c start = ground (arith, b.next_clear-le c.bits start)

  next-IsUnreserved : (c : Change) (start : ℕ) → IsUnreserved (get_next_unreserved c start) c
  unfolding get_next_unreserved
  next-IsUnreserved c start = ground (arith, b.next_clear_clear c.bits start)

  next_stays : (c : Change) (start : ℕ) → get_next_unreserved c start ≡ start → IsUnreserved start c
  next_stays c start e = rw e at (next-IsUnreserved c start)

  abbrev pub Lands : ℕ → ℕ → List Change → ℕ → Type 0
  Lands limit start queue next =
      All (IsUnreserved next) queue × (start ≤ next) × ((next ≡ start) ⊎ (next < limit))

  -- One round: what the loop does when it visits `c`, in terms of the two calls it may make.
  find_next_step :
      (fuel limit count unchanged start : ℕ) (c : Change) (queue : List Change) {next : ℕ}
      → find_next_loop (suc fuel) limit count unchanged start (c ∷ queue) ≡ done next
      → unchanged < count
      → ((get_next_unreserved c start ≡ start)
          × (find_next_loop fuel limit count (unchanged + 1) start (queue ++ c ∷ []) ≡ done next))
        ⊎ ((get_next_unreserved c start < limit)
            × (find_next_loop fuel limit count 1 (get_next_unreserved c start) (queue ++ c ∷ [])
                ≡ done next))
  unfolding find_next_loop
  find_next_step fuel limit count unchanged start c queue e h = ground arith

  find_next_end :
      (fuel limit start count unchanged : ℕ) (visited : List Change) {next : ℕ}
      → count ≡ length visited
      → unchanged ≡ length visited
      → find_next_loop (suc fuel) limit count unchanged start visited ≡ done next
      → next ≡ start
  unfolding find_next_loop
  find_next_end fuel limit start count unchanged [] l u e = cc
  find_next_end fuel limit start count unchanged (c ∷ visited) l u e = ground arith

  Lands-rotate :
      (limit start middle next : ℕ) (c : Change) (queue : List Change)
      → (start ≡ middle) ⊎ (middle < limit)
      → start ≤ middle
      → Lands limit middle (queue ++ c ∷ []) next
      → Lands limit start (c ∷ queue) next
  Lands-rotate limit start middle next c queue m s (all, le, last) = (
    (
      (All-append_snd (IsUnreserved next) queue (c ∷ []) all).0,
      All-append_fst (IsUnreserved next) queue (c ∷ []) all,
    ),
    omega arith,
    ground arith,
  )

  -- The loop, with the changes still to visit before those that `start` is known to avoid.
  find_next_loop-Lands :
      (fuel limit start count unchanged : ℕ) (todo visited queue : List Change) {next : ℕ}
      → queue ≡ todo ++ visited
      → count ≡ length queue
      → unchanged ≡ length visited
      → All (IsUnreserved start) visited
      → find_next_loop fuel limit count unchanged start queue ≡ done next
      → Lands limit start queue next
  unfolding find_next_loop
  find_next_loop-Lands zero limit start count unchanged todo visited queue q l u h e = cc
  find_next_loop-Lands (suc fuel) limit start count unchanged [] visited queue {next} q l u h e =
      let last : next ≡ start = find_next_end fuel limit start count unchanged queue l (rw q u) e in
      rw (last, q) (h, omega arith, inl refl)
  find_next_loop-Lands (suc fuel) limit start count unchanged (c ∷ todo) visited queue {next} q l u
        h e =
      let n : count ≡ suc (length (todo ++ visited)) = rw q at l in
      rw q
        (elim (find_next_step fuel limit count unchanged start c (todo ++ visited) (rw q at e)
          (omega (arith, length-append todo visited))) [
            | inl (stays, rest) ↦
                Lands-rotate limit start start next c (todo ++ visited) (inl refl) (omega arith) (
                  find_next_loop-Lands fuel limit start count (unchanged + 1) todo
                    (visited ++ c ∷ []) ((todo ++ visited) ++ c ∷ [])
                    (append_assoc todo visited (c ∷ []))
                    (omega (arith, length-append (todo ++ visited) (c ∷ [])))
                    (omega (arith, length-append visited (c ∷ [])))
                    (All-append (IsUnreserved start) visited (c ∷ []) h
                      (next_stays c start stays, tt))
                    rest)
            | inr (below, rest) ↦
                Lands-rotate limit start (get_next_unreserved c start) next c (todo ++ visited)
                  (inr below) (next-le c start)
                  (find_next_loop-Lands fuel limit (get_next_unreserved c start) count 1
                    (todo ++ visited) (c ∷ []) ((todo ++ visited) ++ c ∷ []) refl
                    (omega (arith, length-append (todo ++ visited) (c ∷ []))) refl
                    (next-IsUnreserved c start, tt) rest)
          ])

  next_grows :
      (c : Change) (start : ℕ)
      → get_next_unreserved c start ≢ start
      → start < get_next_unreserved c start
  next_grows c start h = let le = next-le c start in ground (arith, h)

  find_next_step_unfinished :
      (fuel limit count unchanged start : ℕ) (c : Change) (queue : List Change)
      → find_next_loop (suc fuel) limit count unchanged start (c ∷ queue) ≡ unfinished
      → (find_next_loop fuel limit count (unchanged + 1) start (queue ++ c ∷ []) ≡ unfinished)
        ⊎ ((get_next_unreserved c start < limit)
            × (start < get_next_unreserved c start)
            × (find_next_loop fuel limit count 1 (get_next_unreserved c start) (queue ++ c ∷ [])
                ≡ unfinished))
  unfolding find_next_loop
  find_next_step_unfinished fuel limit count unchanged start c queue e =
      let le = next-le c start in ground arith

  -- The fuel of a round that moves `start` pays for a visit of each change.
  round_pays :
      (limit start next count : ℕ)
      → start < next
      → next < limit
      → (limit - next) * (count + 1) + (count + 1) ≤ (limit - start) * (count + 1)
  round_pays limit start next count h k = grind arith

  find_next_loop-ends :
      (fuel limit start count unchanged : ℕ) (todo visited queue : List Change)
      → queue ≡ todo ++ visited
      → count ≡ length queue
      → unchanged ≡ length visited
      → (limit - start) * (count + 1) + length todo < fuel
      → find_next_loop fuel limit count unchanged start queue ≢ unfinished
  unfolding find_next_loop
  find_next_loop-ends zero limit start count unchanged todo visited queue q l u m e =
      absurd (omega arith)
  find_next_loop-ends (suc fuel) limit start count unchanged [] [] queue q l u m e = cc (rw q at e)
  find_next_loop-ends (suc fuel) limit start count unchanged [] (c ∷ visited) queue q l u m e =
      let l' : count ≡ suc (length visited) = rw q at l in let e' = rw q at e in ground arith
  find_next_loop-ends (suc fuel) limit start count unchanged (c ∷ todo) visited queue q l u m e =
      let n : count ≡ suc (length (todo ++ visited)) = rw q at l in
      elim (find_next_step_unfinished fuel limit count unchanged start c (todo ++ visited)
        (rw q at e)) [
          | inl rest ↦
              find_next_loop-ends fuel limit start count (unchanged + 1) todo (visited ++ c ∷ [])
                ((todo ++ visited) ++ c ∷ []) (append_assoc todo visited (c ∷ []))
                (omega (arith, length-append (todo ++ visited) (c ∷ [])))
                (omega (arith, length-append visited (c ∷ []))) (omega arith) rest
          | inr (below, grows, rest) ↦
              find_next_loop-ends fuel limit (get_next_unreserved c start) count 1 (todo ++ visited)
                (c ∷ []) ((todo ++ visited) ++ c ∷ []) refl
                (omega (arith, length-append (todo ++ visited) (c ∷ []))) refl
                (omega
                  (arith, round_pays limit start (get_next_unreserved c start) count grows below))
                rest
        ]

  -- FindNextUnreserved ends within its fuel: by a value, or by its ZX_ASSERT.
  pub find_next_unreserved-ends :
      (a : Allocator) (start : ℕ) → find_next_unreserved a start ≢ unfinished
  unfolding find_next_unreserved
  find_next_unreserved-ends a start =
      find_next_loop-ends _ (size a.map_bits) start (length a.pending_changes) 0 a.pending_changes
        [] a.pending_changes (sym (append-nil a.pending_changes)) refl refl (omega arith)

  -- What it returns is not before `start`, and no pending change reserves it.
  pub find_next_unreserved-Lands :
      (a : Allocator) (start next : ℕ)
      → find_next_unreserved a start ≡ done next
      → Lands (size a.map_bits) start a.pending_changes next
  unfolding find_next_unreserved
  find_next_unreserved-Lands a start next e =
      find_next_loop-Lands _ (size a.map_bits) start (length a.pending_changes) 0 a.pending_changes
        [] a.pending_changes (sym (append-nil a.pending_changes)) refl refl tt e

-- ===== src/Unlinked/Purge.antt =====
-- PurgeUnlinked, at mount.
use fuchsia_minfs.Prelude.{
  ℕ, ◌≡◌, ◌≢◌, ◌≤◌, refl, ap, ◌∙◌, ◌==◌, if◌then◌else◌, List, [], ◌∷◌, ◌++◌, All, length, arith,
  ==_iff, inl, inr, ◌⊎◌, Result, ok, err, Status, zero, suc,
}
use fuchsia_minfs.Unlinked.List.{Unlinked, store, Fresh, Holds}
use fuchsia_minfs.Unlinked.Remove.{frame}
use fuchsia_minfs.Unlinked.Add.{differs}

pub data PurgeResult : Type 0 where
  purge_ok purge_out_of_fuel : PurgeResult
  purge_error : Status → PurgeResult

pub record Purge : Type 0 where
  pub list : Unlinked
  pub freed : List ℕ
  pub result : PurgeResult

-- The head moves on; the list ends, or the next inode becomes the first one.
unfoldable pub purge_step : Unlinked → ℕ → Unlinked
purge_step u next_ino =
    if next_ino == 0
    then record u { unlinked_head = next_ino; unlinked_tail = 0 }
    else record u { unlinked_head = next_ino; last_inode = store u.last_inode next_ino 0 }

-- A round of the loop; the next rounds come after it.
unfoldable pub purge_round : Result (Unit {0}) → Unlinked → ℕ → Purge → Purge
purge_round (err status) u ino rest = record { list = u; freed = []; result = purge_error status }
purge_round (ok done) u ino rest =
    if u.next_inode ino == 0
    then record { list = purge_step u 0; freed = ino ∷ []; result = purge_ok }
    else record { list = rest.list; freed = ino ∷ rest.freed; result = rest.result }

-- `free` is what BeginTransaction and InoFree return for an inode.
unfoldable pub purge_loop : (ℕ → Result (Unit {0})) → ℕ → Unlinked → ℕ → Purge
purge_loop free zero u ino = record { list = u; freed = []; result = purge_out_of_fuel }
purge_loop free (suc fuel) u ino =
    let next_ino = u.next_inode ino in
    purge_round (free ino) u ino (purge_loop free fuel (purge_step u next_ino) next_ino)

unfoldable pub purge_unlinked : (ℕ → Result (Unit {0})) → ℕ → Unlinked → Purge
purge_unlinked free fuel u =
    if u.unlinked_head == 0
    then record { list = u; freed = []; result = purge_ok }
    else purge_loop free fuel u u.unlinked_head

-- Why it stopped where it did.
abbrev pub Stopped : (ℕ → Result (Unit {0})) → PurgeResult → List ℕ → Type 0
Stopped free purge_ok left = left ≡ []
Stopped free purge_out_of_fuel left = ⊥
Stopped free (purge_error status) [] = ⊥
Stopped free (purge_error status) (x ∷ xs) = free x ≡ err status

-- The inodes of the list were freed from the front, up to the first that could not be.
pub record Purges (free : ℕ → Result (Unit {0})) (xs : List ℕ) (p : Purge) : Type 0 where
  pub left : List ℕ
  pub whole : xs ≡ p.freed ++ left
  pub holds : Holds p.list left
  pub freed_ok : All (λ x. free x ≡ ok tt) p.freed
  pub stopped : Stopped free p.result left

step-last : (u : Unlinked) → Holds (purge_step u 0) []
unfolding purge_step
step-last u = record { head = refl; linked = refl; distinct = tt }

module _ (u : Unlinked) (y : ℕ) (n : y ≢ 0) where
  step-head : (purge_step u y).unlinked_head ≡ y
  unfolding purge_step
  step-head = ground arith

  step-tail : (purge_step u y).unlinked_tail ≡ u.unlinked_tail
  unfolding purge_step
  step-tail = ground arith

  step-next : (i : ℕ) → (purge_step u y).next_inode i ≡ u.next_inode i
  unfolding purge_step
  step-next i = ground arith

  step-first : (purge_step u y).last_inode y ≡ 0
  unfolding purge_step
  step-first = ground arith

  step-other : (i : ℕ) → i ≢ y → (purge_step u y).last_inode i ≡ u.last_inode i
  unfolding purge_step
  step-other i h = ground arith

  step-alike :
      (ys : List ℕ)
      → Fresh y ys
      → All
          (λ i.
            ((purge_step u y).last_inode i ≡ u.last_inode i)
            × ((purge_step u y).next_inode i ≡ u.next_inode i))
          ys
  step-alike [] f = tt
  step-alike (x ∷ xs) (fx, f) = ((step-other x fx, step-next x), step-alike xs f)

step-Holds :
    (u : Unlinked) (x y : ℕ) (ys : List ℕ) → Holds u (x ∷ y ∷ ys) → Holds (purge_step u y) (y ∷ ys)
step-Holds u x y ys h =
    let (nx, lx, ex, (n, l, e, k)) = h.linked in
    let (dx, (dy, d)) = h.distinct in
    record {
      head = step-head u y n;
      linked = (
        n,
        step-first u y n,
        step-next u y n y ∙ e,
        frame u (purge_step u y) y ys (step-tail u y n) (step-alike u y n ys dy) k,
      );
      distinct = (dy, d);
    }

module _ (free : ℕ → Result (Unit {0})) (fuel : ℕ) (u : Unlinked) (x : ℕ) where
  loop-error :
      {status : Status}
      → free x ≡ err status
      → purge_loop free (suc fuel) u x
        ≡ record { list = u; freed = []; result = purge_error status }
  unfolding purge_loop purge_round
  loop-error e = rw e refl

  loop-last :
      free x ≡ ok tt
      → u.next_inode x ≡ 0
      → purge_loop free (suc fuel) u x
        ≡ record { list = purge_step u 0; freed = x ∷ []; result = purge_ok }
  unfolding purge_loop purge_round
  loop-last e n = rw (e, n) refl

  loop-more :
      {y : ℕ}
      → free x ≡ ok tt
      → u.next_inode x ≡ y
      → y ≢ 0
      → purge_loop free (suc fuel) u x ≡ (
          let rest = purge_loop free fuel (purge_step u y) y in
          record { list = rest.list; freed = x ∷ rest.freed; result = rest.result })
  unfolding purge_loop purge_round
  loop-more {y = y} e n nz = rw (e, n, differs y 0 nz) refl

pub result_cases : (r : Result (Unit {0})) → ((status : Status) × (r ≡ err status)) ⊎ (r ≡ ok tt)
result_cases (err status) = inl (status, refl)
result_cases (ok tt) = inr refl

loop-goes_on :
    (free : ℕ → Result (Unit {0})) (fuel : ℕ) (u : Unlinked) (x : ℕ) (xs : List ℕ)
    → ((v : Unlinked) (y : ℕ) (ys : List ℕ)
        → Holds v (y ∷ ys)
        → length (y ∷ ys) ≤ fuel
        → Purges free (y ∷ ys) (purge_loop free fuel v y))
    → Holds u (x ∷ xs)
    → length xs ≤ fuel
    → free x ≡ ok tt
    → Purges free (x ∷ xs) (purge_loop free (suc fuel) u x)
loop-goes_on free fuel u x [] ih h e q =
    rw (loop-last free fuel u x q h.linked.2)
      (record { left = []; whole = refl; holds = step-last u; freed_ok = (q, tt); stopped = refl })
loop-goes_on free fuel u x (y ∷ ys) ih h e q =
    let rest = ih (purge_step u y) y ys (step-Holds u x y ys h) e in
    rw (loop-more free fuel u x q h.linked.2 h.linked.3.0) (record {
      left = rest.left;
      whole = ap (λ zs. x ∷ zs) rest.whole;
      holds = rest.holds;
      freed_ok = (q, rest.freed_ok);
      stopped = rest.stopped;
    })

purge_loop-Purges :
    (free : ℕ → Result (Unit {0})) (fuel : ℕ) (u : Unlinked) (x : ℕ) (xs : List ℕ)
    → Holds u (x ∷ xs)
    → length (x ∷ xs) ≤ fuel
    → Purges free (x ∷ xs) (purge_loop free fuel u x)
purge_loop-Purges free zero u x xs h e = absurd (omega (arith, e))
purge_loop-Purges free (suc fuel) u x xs h e = elim (result_cases (free x)) [
  | inl (status, q) ↦
      rw (loop-error free fuel u x q)
        (record { left = x ∷ xs; whole = refl; holds = h; freed_ok = tt; stopped = q })
  | inr q ↦ loop-goes_on free fuel u x xs (purge_loop-Purges free fuel) h (omega (arith, e)) q
]

purge-loop :
    (free : ℕ → Result (Unit {0})) (fuel : ℕ) (u : Unlinked) (x : ℕ)
    → u.unlinked_head ≡ x
    → x ≢ 0
    → purge_unlinked free fuel u ≡ purge_loop free fuel u x
unfolding purge_unlinked
purge-loop free fuel u x e n =
    rw (differs u.unlinked_head 0 (rw e n)) (ap (purge_loop free fuel u) e)

-- PurgeUnlinked, with fuel for each inode of the list, ends. It frees the inodes of the list in
-- their order up to the first whose transaction or whose release fails, returns that error, and
-- leaves the list from that inode on; if none fails, it frees all of them and leaves no list.
pub purge_unlinked-Purges :
    (free : ℕ → Result (Unit {0})) (fuel : ℕ) (u : Unlinked) (xs : List ℕ)
    → Holds u xs
    → length xs ≤ fuel
    → Purges free xs (purge_unlinked free fuel u)
unfolding purge_unlinked
purge_unlinked-Purges free fuel u [] h e =
    rw ((==_iff u.unlinked_head 0).1 h.head)
      (record { left = []; whole = refl; holds = h; freed_ok = tt; stopped = refl })
purge_unlinked-Purges free fuel u (x ∷ xs) h e =
    rw (purge-loop free fuel u x h.head h.linked.0) (purge_loop-Purges free fuel u x xs h e)

-- ===== src/Mapper/Holds.antt =====
-- The assertions of VnodeIterator::Init and of the views that it gets.
use fuchsia_minfs.Prelude.{
  Bool, false, subst, ℕ, ◌+◌, ◌-◌, ◌*◌, ◌/◌, ◌≤◌, ◌<◌, ◌≡◌, ◌≢◌, refl, true, ◌&&◌, ◌==◌, ltb, leb,
  List, [], ◌∷◌, round_down, Result, ok, err, arith, Bool-cases, inl, inr,
}
use fuchsia_minfs.Prelude.Outcome.{Outcome, returned, failed, crashed, ◌>>=◌, ◌>>◌, from_result}
use fuchsia_minfs.Mapper.Pointers.{
  Pointers, Bank, direct, indirect, doubly_indirect, in_file, get_view, max_blocks,
}
use fuchsia_minfs.Mapper.Iterator.{
  Level, parent_sparse, parent_in_view, new_level, initialize_level, initialize_indirect_level,
  at_block, init_direct, init_indirect, init_doubly_indirect, init,
}
use fuchsia_minfs.Mapper.Mapping.{initialize_level-top, new_level-parent_in_view}

from_result-holds : {X : Type 0} (r : Result X) → from_result r ≢ crashed
from_result-holds (ok a) e = cc
from_result-holds (err s) e = cc

>>=-holds :
    {X Y : Type 0} (x : Outcome X) (next : X → Outcome Y)
    → x ≢ crashed
    → ((a : X) → x ≡ returned a → next a ≢ crashed)
    → (x >>= next) ≢ crashed
>>=-holds (returned a) next h k e = k a refl e
>>=-holds (failed s) next h k e = cc
>>=-holds crashed next h k e = h refl

>>-holds :
    {Y : Type 0} (x : Outcome (Unit {0})) (next : Outcome Y)
    → x ≢ crashed
    → next ≢ crashed
    → (x >> next) ≢ crashed
>>-holds (returned a) next h k e = k e
>>-holds (failed s) next h k e = cc
>>-holds crashed next h k e = h refl

initialize_level-holds :
    (v : Pointers) (above : List Level) (bank : Bank) (start end block : ℕ)
    → start ≤ block
    → block < end
    → parent_in_view above ≡ true
    → get_view v bank start end ≢ crashed
    → initialize_level v above bank start end block ≢ crashed
unfolding initialize_level
initialize_level-holds v above bank start end block h l i g e =
    let q : (leb start block && ltb block end) ≡ true = ground arith in
    elim (Bool-cases (parent_sparse v above)) [
      | inl s ↦ ground (arith, i)
      | inr s ↦
          >>-holds (get_view v bank start end)
            (returned (new_level bank start end block true ∷ above)) g (λ k. cc) (rw (q, i, s) at e)
    ]

in_file-holds : (v : Pointers) (start end : ℕ) → get_view v in_file start end ≢ crashed
unfolding get_view
in_file-holds v start end e = from_result-holds (v.load start end) e

initialize_indirect_level-holds :
    (v : Pointers) (above : List Level) (block : ℕ)
    → parent_in_view above ≡ true
    → initialize_indirect_level v above block ≢ crashed
unfolding initialize_indirect_level
initialize_indirect_level-holds v above block i =
    initialize_level-holds v above in_file (round_down block 2048) (round_down block 2048 + 2048)
      block (omega arith) (omega arith) i
      (in_file-holds v (round_down block 2048) (round_down block 2048 + 2048))

>>-returned :
    {X : Type 0} (x : Outcome (Unit {0})) (a r : X) → (x >> returned a) ≡ returned r → a ≡ r
>>-returned (returned u) a r e = cc
>>-returned (failed s) a r e = absurd cc
>>-returned crashed a r e = absurd cc

-- What InitializeLevel returns has its lowest level in its view.
initialize_level-parent_in_view :
    (v : Pointers) (above levels : List Level) (bank : Bank) (start end block : ℕ)
    → initialize_level v above bank start end block ≡ returned levels
    → parent_in_view levels ≡ true
unfolding initialize_level
initialize_level-parent_in_view v above levels bank start end block e =
    elim (Bool-cases (leb start block && ltb block end)) [
      | inr q ↦ absurd (let x = rw q at e in cc)
      | inl q ↦
          let valid = λ (b : Bool).
            new_level-parent_in_view bank start end block b above (ground (arith, q))
              (ground (arith, q)) in
          elim (Bool-cases (parent_in_view above)) [
            | inr i ↦ absurd (let x = rw (q, i) at e in cc)
            | inl i ↦ elim (Bool-cases (parent_sparse v above)) [
              | inl s ↦
                  let x = rw (q, i, s) at e in
                  let same : new_level bank start end block false ∷ above ≡ levels = cc in
                  subst (λ l. parent_in_view l ≡ true) same (valid false)
              | inr s ↦
                  subst (λ l. parent_in_view l ≡ true)
                    (>>-returned (get_view v bank start end)
                      (new_level bank start end block true ∷ above) levels (rw (q, i, s) at e))
                    (valid true)
            ]
          ]
    ]

initialize_indirect_level-parent_in_view :
    (v : Pointers) (above levels : List Level) (block : ℕ)
    → initialize_indirect_level v above block ≡ returned levels
    → parent_in_view levels ≡ true
unfolding initialize_indirect_level
initialize_indirect_level-parent_in_view v above levels block e =
    initialize_level-parent_in_view v above levels in_file (round_down block 2048)
      (round_down block 2048 + 2048) block e

init_indirect-holds : (v : Pointers) (n r : ℕ) → r < 63488 → init_indirect v n r ≢ crashed
unfolding init_indirect get_view
init_indirect-holds v n r h =
    let top = new_level indirect 0 31 (r / 2048) true in
    rw (initialize_level-top v indirect 0 31 (r / 2048) (omega arith) (omega arith) refl) (
      >>=-holds (initialize_indirect_level v (top ∷ []) r) (λ levels. returned (at_block n levels))
        (initialize_indirect_level-holds v (top ∷ []) r
          (new_level-parent_in_view indirect 0 31 (r / 2048) true [] (omega arith) (omega arith)))
        (λ levels q e. cc))

init_doubly_indirect-holds :
    (v : Pointers) (n r : ℕ) → r < 2048 * 2048 → init_doubly_indirect v n r ≢ crashed
unfolding init_doubly_indirect get_view
init_doubly_indirect-holds v n r h =
    let top = new_level doubly_indirect 0 1 (r / 2048 / 2048) true in
    rw
      (initialize_level-top v doubly_indirect 0 1 (r / 2048 / 2048) (omega arith) (omega arith)
        refl)
      (>>=-holds (initialize_indirect_level v (top ∷ []) (r / 2048 + 63488))
        (λ levels.
          initialize_indirect_level v levels (r + 65536) >>= λ low. returned (at_block n low))
        (initialize_indirect_level-holds v (top ∷ []) (r / 2048 + 63488) (
          new_level-parent_in_view doubly_indirect 0 1 (r / 2048 / 2048) true [] (omega arith)
            (omega arith)))
        (λ levels q.
          >>=-holds (initialize_indirect_level v levels (r + 65536))
            (λ low. returned (at_block n low))
            (initialize_indirect_level-holds v levels (r + 65536)
              (initialize_indirect_level-parent_in_view v (top ∷ []) levels (r / 2048 + 63488) q))
            (λ low q e. cc)))

-- Init fails no ZX_ASSERT, at any block and whatever the pointers are.
pub init-holds : (v : Pointers) (n : ℕ) → init v n ≢ crashed
unfolding init init_direct get_view
init-holds v n = elim (Bool-cases (ltb n 16)) [
  | inl a ↦ rw (a, initialize_level-top v direct 0 16 n (omega arith) (ground arith) refl) (λ e. cc)
  | inr a ↦ elim (Bool-cases (ltb n 63504)) [
    | inl c ↦ rw (a, c) (init_indirect-holds v n (n - 16) (ground arith))
    | inr c ↦ elim (Bool-cases (ltb n max_blocks)) [
      | inl b ↦ rw (a, c, b) (init_doubly_indirect-holds v n (n - 63504) (ground arith))
      | inr b ↦
          rw (a, c, b)
            (elim (Bool-cases (n == max_blocks)) [
              | inl d ↦ rw d (λ e. cc)
              | inr d ↦ rw d (λ e. cc)
            ])
    ]
  ]
]

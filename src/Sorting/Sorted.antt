-- ===== src/Sorting/Sorted.antt =====
-- `quicksort` of sort.c sorts a slice.
use mathlib.Core.Path.{subst}
use c_operating_system.Prelude.{
  ℕ, zero, suc, ◌+◌, ◌-◌, ◌^◌, ◌≤◌, ◌<◌, ◌≡◌, inl, inr, ◌⊎◌, Bool, true, false, Bool-cases, ltb,
  if◌then◌else◌, arith,
}
use c_operating_system.Prelude.Word.{add32, sub32}
use c_operating_system.Sorting.{partition, quicksort}
use c_operating_system.Sorting.Shuffle.{
  Shuffled, same, shuffled_trans, shuffled_widen, shuffled_all, shuffled_outside,
}
use c_operating_system.Sorting.Partition.{Whole, Split, partition-Split}

side : (i p : ℕ) → (i < p) ⊎ (p ≤ i)
side i p = omega arith

-- Each value of the slice is at most the next one.
abbrev pub Sorted : {D : Type 0} → (D → D → Bool) → ℕ → ℕ → (ℕ → D) → Type 0
Sorted le s e A = (j : ℕ) → s ≤ j → j < e → le (A j) (A (suc j)) ≡ true

module _ {D : Type 0} (le : D → D → Bool) (to_unsigned : D → D) where
  -- The slice is in order, and its values are those of before.
  record Done (s e : ℕ) (A B : ℕ → D) : Type 0 where
    sorted : Sorted le s e B
    moves : Shuffled s e A B

  -- A slice that is divided at p and sorted on both sides of it is sorted.
  left-Done :
      (s e p : ℕ) (A B B' : ℕ → D)
      → Split le to_unsigned s e A p B
      → s < p
      → Done s (p - 1) B B'
      → Split le to_unsigned s e A p B' × Sorted le s (p - 1) B'
  left-Done s e p A B B' split lt d =
      let there : B' p ≡ B p = shuffled_outside d.moves p (inr (omega arith)) in
      (
        record {
          low = split.low;
          high = split.high;
          lower = λ j l l'. rw there (
              shuffled_all (λ x. le x (B p) ≡ true) d.moves
                (λ i h h'. split.lower i h (omega arith)) j l (omega arith));
          upper = λ j l l'.
              rw (there, shuffled_outside d.moves j (inr (omega arith))) (split.upper j l l');
          moves =
              shuffled_trans split.moves
                (shuffled_widen (omega arith) (omega (arith, split.high)) d.moves);
        },
        d.sorted,
      )

  right-Done :
      (s e p : ℕ) (A B B' : ℕ → D)
      → Split le to_unsigned s e A p B
      → Sorted le s (p - 1) B
      → p < e
      → Done (suc p) e B B'
      → Split le to_unsigned s e A p B' × Sorted le s (p - 1) B' × Sorted le (suc p) e B'
  right-Done s e p A B B' split sorted lt d =
      let there : B' p ≡ B p = shuffled_outside d.moves p (inl (omega arith)) in
      (
        record {
          low = split.low;
          high = split.high;
          lower = λ j l l'.
              rw (there, shuffled_outside d.moves j (inl (omega arith))) (split.lower j l l');
          upper = λ j l l'.
              rw there (
                shuffled_all (λ x. le (B p) x ≡ true) d.moves (λ i h h'. split.upper i h h') j l
                  l');
          moves =
              shuffled_trans split.moves
                (shuffled_widen (omega (arith, split.low)) (omega arith) d.moves);
        },
        λ j l l'.
            rw
              (
                shuffled_outside d.moves j (inl (omega arith)),
                shuffled_outside d.moves (suc j) (inl (omega arith)),
              )
              (sorted j l l'),
        d.sorted,
      )

  joined :
      (s e p : ℕ) (A B : ℕ → D)
      → Split le to_unsigned s e A p B
      → Sorted le s (p - 1) B
      → Sorted le (suc p) e B
      → Done s e A B
  joined s e p A B split left right = record {
    sorted = λ j l l'. elim (side j p) [
      | inl lt ↦ elim (side (suc j) p) [
        | inl lt' ↦ left j l (omega arith)
        | inr ge ↦ subst (λ x. le (B j) (B x) ≡ true) (omega (arith, lt, ge)) (split.lower j l lt)
      ]
      | inr ge ↦ elim (side p j) [
        | inl lt ↦ right j lt l'
        | inr le' ↦
            subst (λ x. le (B x) (B (suc j)) ≡ true) (omega (arith, ge, le'))
              (split.upper (suc j) (omega (arith, le')) l')
      ]
    ];
    moves = split.moves;
  }

  module _ (total : (a b : D) → le a b ≡ false → le b a ≡ true) (random : ℕ → ℕ → ℕ) where
    abbrev Sorts : ℕ → Type 0
    Sorts fuel =
        (s e : ℕ) (A : ℕ → D)
        → e < fuel + s
        → e < 2 ^ 32
        → Whole le to_unsigned s e A
        → Done s e A (quicksort le to_unsigned random fuel s e A)

    left-Sorted :
        (fuel s e p : ℕ) (A B : ℕ → D)
        → Sorts fuel
        → e < suc fuel + s
        → e < 2 ^ 32
        → Whole le to_unsigned s e A
        → Split le to_unsigned s e A p B
        → (let B' = if ltb s p then quicksort le to_unsigned random fuel s (sub32 p 1) B else B in
            Split le to_unsigned s e A p B' × Sorted le s (p - 1) B')
    left-Sorted fuel s e p A B sorts enough fits whole split =
        let whole' = shuffled_all (λ x. to_unsigned x ≡ x) split.moves whole in
        elim (Bool-cases (ltb s p)) [
          | inl lt ↦
              let before : sub32 p 1 ≡ p - 1 = ground (arith, lt, split.high, fits) in
              rw (lt, before)
                (left-Done s e p A B _ split (ground (arith, lt)) (
                  sorts s (p - 1) B (ground (arith, lt, enough, split.high))
                    (omega (arith, fits, split.high))
                    (λ j l l'. whole' j l (omega (arith, l', split.high)))))
          | inr ge ↦ rw ge (split, λ j l l'. absurd (ground (arith, ge, l, l')))
        ]

    right-Sorted :
        (fuel s e p : ℕ) (A B : ℕ → D)
        → Sorts fuel
        → e < suc fuel + s
        → e < 2 ^ 32
        → Whole le to_unsigned s e A
        → Split le to_unsigned s e A p B
        → Sorted le s (p - 1) B
        → Done s e A (if ltb p e then quicksort le to_unsigned random fuel (add32 p 1) e B else B)
    right-Sorted fuel s e p A B sorts enough fits whole split sorted =
        let whole' = shuffled_all (λ x. to_unsigned x ≡ x) split.moves whole in
        elim (Bool-cases (ltb p e)) [
          | inl lt ↦
              let next : add32 p 1 ≡ suc p = ground (arith, lt, fits) in
              rw (lt, next)
                (let (split', left, right) =
                    right-Done s e p A B _ split sorted (ground (arith, lt)) (
                      sorts (suc p) e B (omega (arith, enough, split.low)) fits
                        (λ j l l'. whole' j (omega (arith, l, split.low)) l')) in
                  joined s e p A _ split' left right)
          | inr ge ↦
              rw ge (joined s e p A B split sorted (λ j l l'. absurd (ground (arith, ge, l, l'))))
        ]

    quicksort-Done : (fuel : ℕ) → Sorts fuel
    unfolding quicksort
    quicksort-Done zero s e A enough fits whole = record {
      sorted = λ j l l'. absurd (omega arith);
      moves = same A;
    }
    quicksort-Done (suc fuel) s e A enough fits whole =
        let p = (partition le to_unsigned random s e A).0 in
        let B = (partition le to_unsigned random s e A).1 in
        elim (Bool-cases (ltb s e)) [
          | inl lt ↦ rw lt (
              let split =
                partition-Split le to_unsigned total random s e A (ground (arith, lt)) fits whole in
              let (split', left) =
                left-Sorted fuel s e p A B (quicksort-Done fuel) enough fits whole split in
              right-Sorted fuel s e p A _ (quicksort-Done fuel) enough fits whole split' left)
          | inr ge ↦
              rw ge
                (record { sorted = λ j l l'. absurd (ground (arith, ge, l, l')); moves = same A })
        ]

-- For any results of `rand`, and with at least as much fuel as the slice has entries, quicksort leaves a
-- slice that ends below 2^32 in order, as VERIFY_CORRECT tests it, by exchanges of its entries alone.
-- Of two values one must be at most the other (there is no NaN), and the values must be whole numbers
-- that fit an `unsigned`, as those of `rand` do.
pub quicksort_sorts :
    {D : Type 0} (le : D → D → Bool) (to_unsigned : D → D) (random : ℕ → ℕ → ℕ) (fuel s e : ℕ)
    (A : ℕ → D)
    → ((a b : D) → le a b ≡ false → le b a ≡ true)
    → e < fuel + s
    → e < 2 ^ 32
    → Whole le to_unsigned s e A
    → Sorted le s e (quicksort le to_unsigned random fuel s e A)
      × Shuffled s e A (quicksort le to_unsigned random fuel s e A)
quicksort_sorts le to_unsigned random fuel s e A total enough fits whole =
    let d = quicksort-Done le to_unsigned total random fuel s e A enough fits whole in
    (d.sorted, d.moves)

-- ===== src/Sorting/Partition.antt =====
-- `partition` of sort.c divides a slice at the pivot.
use native.Mathlib.Nat.{mod-lt}
use c_operating_system.Prelude.{
  ℕ, zero, suc, ◌+◌, ◌-◌, ◌%◌, ◌^◌, ◌≤◌, ◌<◌, ◌≡◌, refl, sym, ap, ◌∙◌, inl, inr, Bool, true, false,
  Bool-cases, arith,
}
use c_operating_system.Prelude.Word.{add32, sub32}
use c_operating_system.Threads.{update}
use c_operating_system.Sorting.{swap, walk, partition}
use c_operating_system.Sorting.Shuffle.{
  exchange, Shuffled, same, further, shuffled_trans, shuffled_all,
}

module _ {D : Type 0} (le : D → D → Bool) (to_unsigned : D → D) where
  -- The slice has values that the conversion keeps.
  abbrev pub Whole : ℕ → ℕ → (ℕ → D) → Type 0
  Whole s e A = (j : ℕ) → s ≤ j → j ≤ e → to_unsigned (A j) ≡ A j

  pub swap-exchange :
      (a b : ℕ) (A : ℕ → D) → to_unsigned (A a) ≡ A a → swap le to_unsigned a b A ≡ exchange a b A
  unfolding swap
  swap-exchange a b A h = ap (update (update A a (A b)) b) h

  record Walked (s e k : ℕ) (v : D) (A : ℕ → D) (t : ℕ) (B : ℕ → D) : Type 0 where
    low : s ≤ t
    high : t ≤ s + k
    lower : (j : ℕ) → s ≤ j → j < t → le (B j) v ≡ true
    upper : (j : ℕ) → t ≤ j → j < s + k → le (B j) v ≡ false
    ahead : (j : ℕ) → s + k ≤ j → B j ≡ A j
    moves : Shuffled s e A B

  module _ (s e : ℕ) (v : D) (A : ℕ → D) (fits : e < 2 ^ 32) (whole : Whole s e A) where
    walk-Walked :
        (k : ℕ)
        → s + k ≤ e
        → Walked s e k v A (walk le to_unsigned v s k A).0 (walk le to_unsigned v s k A).1
    unfolding walk
    walk-Walked zero h = record {
      low = omega arith;
      high = omega arith;
      lower = λ j l l'. absurd (omega arith);
      upper = λ j l l'. absurd (omega arith);
      ahead = λ j l. refl;
      moves = same A;
    }
    walk-Walked (suc k) h =
        let w = walk-Walked k (omega arith) in
        let t = (walk le to_unsigned v s k A).0 in
        let B = (walk le to_unsigned v s k A).1 in
        let kept = swap-exchange t (s + k) B (
          shuffled_all (λ x. to_unsigned x ≡ x) w.moves whole t w.low (omega (arith, w.high, h))) in
        elim (Bool-cases (le (B (s + k)) v)) [
          | inl below ↦
              rw (below, kept)
                (record {
                  low = omega (arith, w.low, w.high, fits, h);
                  high = omega (arith, w.high, fits, h);
                  lower = λ j l l'. ground (arith, below, l, l', w.high, fits, h, w.lower j l);
                  upper = λ j l l'. ground (arith, l, l', w.high, fits, h, w.upper j, w.upper t);
                  ahead = λ j l. ground (arith, l, w.high, w.ahead j);
                  moves =
                      further A B t (s + k) w.low (omega (arith, w.high, h)) (omega arith)
                        (omega arith) w.moves;
                })
          | inr above ↦ rw above (record {
            low = w.low;
            high = omega (arith, w.high);
            lower = w.lower;
            upper = λ j l l'. ground (arith, above, l, l', w.upper j l);
            ahead = λ j l. w.ahead j (omega arith);
            moves = w.moves;
          })
        ]

  pub record Split (s e : ℕ) (A : ℕ → D) (p : ℕ) (B : ℕ → D) : Type 0 where
    pub low : s ≤ p
    pub high : p ≤ e
    pub lower : (j : ℕ) → s ≤ j → j < p → le (B j) (B p) ≡ true
    pub upper : (j : ℕ) → p < j → j ≤ e → le (B p) (B j) ≡ true
    pub moves : Shuffled s e A B

  module _ (total : (a b : D) → le a b ≡ false → le b a ≡ true) where
    exchange-Split :
        (s e t : ℕ) (v : D) (A M W : ℕ → D)
        → s < e
        → Shuffled s e A M
        → M e ≡ v
        → Walked s e (e - s) v M t W
        → Split s e A t (exchange t e W)
    exchange-Split s e t v A M W lt shuffled last w =
        let at_end : W e ≡ v = w.ahead e (omega arith) ∙ last in
        let at_pivot : exchange t e W t ≡ v = ground (arith, at_end) in
        record {
          low = w.low;
          high = omega (arith, w.high);
          lower = λ j l l'. rw at_pivot (ground (arith, w.high, w.lower j l l'));
          upper = λ j l l'.
              rw at_pivot (ground (arith, w.upper j, w.upper t, total (W j) v, total (W t) v));
          moves =
              shuffled_trans shuffled
                (further M W t e w.low (omega (arith, w.high)) (omega arith) (omega arith) w.moves);
        }

    module _ (random : ℕ → ℕ → ℕ) where
      pub partition-Split :
          (s e : ℕ) (A : ℕ → D)
          → s < e
          → e < 2 ^ 32
          → Whole s e A
          → Split s e A
              (partition le to_unsigned random s e A).0
              (partition le to_unsigned random s e A).1
      unfolding partition
      partition-Split s e A lt fits whole =
          let range = sub32 e s in
          let q = add32 (random s e % range) s in
          let small : random s e % range < range = mod-lt (random s e) (omega arith) in
          let q_low : s ≤ q = omega (arith, small) in
          let q_high : q ≤ e = omega (arith, small) in
          let M = swap le to_unsigned q e A in
          let moved = swap-exchange q e A (whole q q_low q_high) in
          let shuffled : Shuffled s e A M =
            rw moved (further A A q e q_low q_high (omega arith) (omega arith) (same A)) in
          let still : Whole s e M = shuffled_all (λ x. to_unsigned x ≡ x) shuffled whole in
          let v = to_unsigned (M e) in
          let w = walk-Walked s e v M fits still (e - s) (omega arith) in
          let t = (walk le to_unsigned v s (e - s) M).0 in
          let W = (walk le to_unsigned v s (e - s) M).1 in
          let kept =
            swap-exchange t e W (
              shuffled_all (λ x. to_unsigned x ≡ x) w.moves still t w.low
                (omega (arith, w.high))) in
          rw kept
            (exchange-Split s e t v A M W lt shuffled (sym (still e (omega arith) (omega arith))) w)

-- ===== src/Matrix/Columns.antt =====
-- parallel_dense_mm.c: whatever the order in which the threads of the columns run, C is that of
-- dense_mm.c, which the VERIFY_PARALLEL of the program tests at run time.
use mathlib.Core.Path.{subst}
use c_operating_system.Prelude.{
  ℕ, suc, ◌*◌, ◌≤◌, ◌<◌, ◌≡◌, refl, sym, ap, ◌∙◌, inl, inr, Bool-cases, ==_iff, Option, some, none,
  List, ltb, ◌==◌, if◌then◌else◌, arith,
}
use c_operating_system.Threads.{Conf, update, run}
use c_operating_system.Threads.Invariant.{Keeps, run-keeps}
use c_operating_system.Matrix.{
  sqrt_of_uint32_max, entry, Pc, testing, storing, finished, sum_at, multiply, step, start,
}
use c_operating_system.Matrix.Index.{entry-inj, entry-lt}
use c_operating_system.Matrix.Product.{dot, multiply-dot, multiply_other}

-- How many products a thread has added to the entry of its column in a row.
abbrev pub rounds : {D : Type 0} → ℕ → Pc D → ℕ → ℕ
rounds n (testing r k) row = if ltb row r then n else if row == r then k else 0
rounds n (storing r k sum) row = if ltb row r then n else if row == r then k else 0
rounds n finished row = n

module _ {D : Type 0} (plus times : D → D → D) (n : ℕ) (A B C : ℕ → D) where
  abbrev pub Ready : Pc D → ℕ → Type 0
  Ready (testing r k) col = (r ≤ n) × (k ≤ n)
  Ready (storing r k sum) col =
      (r < n) × (k < n) × (sum ≡ dot plus times n A B r col (suc k) (C (entry n r col)))
  Ready finished col = n ≤ n

  record Inv (c : Conf (ℕ → D) (Pc D)) : Type 0 where
    cells :
        (row col : ℕ)
        → row < n
        → col < n
        → c.shared (entry n row col)
          ≡ dot plus times n A B row col (rounds n (c.locals col) row) (C (entry n row col))
    ready : (col : ℕ) → col < n → Ready (c.locals col) col
    outside : (j : ℕ) → n * n ≤ j → c.shared j ≡ C j

  -- Where the tests of the two inner loops lead.
  abbrev tested : ℕ → ℕ → D → Pc D
  tested r k sum =
      if ltb r n then if ltb k n then storing r k sum else testing (suc r) 0 else finished

  rounds-tested :
      (r k row : ℕ) (sum : D)
      → r ≤ n
      → k ≤ n
      → row < n
      → rounds n (tested r k sum) row ≡ (if ltb row r then n else if row == r then k else 0)
  rounds-tested r k row sum h h' lt = ground arith

  tested-Ready :
      (r k i : ℕ) (sum : D)
      → r ≤ n
      → k ≤ n
      → (r < n → k < n → sum ≡ dot plus times n A B r i (suc k) (C (entry n r i)))
      → Ready (tested r k sum) i
  tested-Ready r k i sum h h' e = ground arith

  update-Ready :
      (f : ℕ → Pc D) (i col : ℕ) (l : Pc D)
      → Ready l i
      → Ready (f col) col
      → Ready (update f i l col) col
  update-Ready f i col l r r' = elim (Bool-cases (i == col)) [
    | inl e ↦ rw e (subst (λ j. Ready l j) ((==_iff i col).0 e) r)
    | inr e ↦ rw e r'
  ]

  abbrev place_of : Pc D → Option ((ℕ → D) × Pc D) → Pc D
  place_of l none = l
  place_of l (some (s', l')) = l'

  module _ (small : n ≤ sqrt_of_uint32_max) where
    Inv-keeps : Keeps n (step plus times n A B) Inv
    unfolding step
    Inv-keeps i c (testing r k) lt inv e s' l' h =
        let ready : Ready (testing r k) i = subst (λ l. Ready l i) e (inv.ready i lt) in
        let sum = sum_at plus times n A B r i k c.shared in
        record {
          cells = λ row col h1 h2.
              ground (
                arith,
                e,
                h,
                inv.cells row col h1 h2,
                rounds-tested r k row sum ready.0 ready.1 h1,
              );
          ready = λ col h2.
              update-Ready c.locals i col l'
                (subst (λ l. Ready l i) (ap (place_of l') h)
                  (tested-Ready r k i sum ready.0 ready.1
                    (λ h1 h3. ground (arith, e, inv.cells r i h1 lt))))
                (inv.ready col h2);
          outside = λ j le. ground (arith, inv.outside j le, h);
        }
    Inv-keeps i c (storing r k sum) lt inv e s' l' h =
        let ready : Ready (storing r k sum) i = subst (λ l. Ready l i) e (inv.ready i lt) in
        record {
          cells = λ row col h1 h2. ground (
            arith,
            e,
            h,
            ready,
            inv.cells row col h1 h2,
            entry-inj n small r i row col ready.0 lt h1 h2,
          );
          ready = λ col h2.
              update-Ready c.locals i col l'
                (subst (λ l. Ready l i) (ap (place_of l') h) (omega (arith, ready.0), ready.1))
                (inv.ready col h2);
          outside = λ j le. ground (arith, inv.outside j le, h, entry-lt n small r i ready.0 lt);
        }
    Inv-keeps i c finished lt inv e s' l' h = absurd (ground (arith, h))

    Inv-run : (is : List ℕ) → Inv (run n (step plus times n A B) is (start C))
    Inv-run is = run-keeps n (step plus times n A B) Inv Inv-keeps is (start C) (record {
      cells = λ row col h1 h2. ground arith;
      ready = λ col h2. (omega arith, omega arith);
      outside = λ j le. refl;
    })

abbrev pub after :
    {D : Type 0}
    → (D → D → D)
    → (D → D → D)
    → ℕ
    → (ℕ → D)
    → (ℕ → D)
    → (ℕ → D)
    → List ℕ
    → Conf (ℕ → D) (Pc D)
after plus times n A B C is = run n (step plus times n A B) is (start C)

-- When the threads of all columns have finished, in whatever order their accesses came, C is what the
-- three loops of dense_mm.c leave, for a matrix size of at most 65536: each entry of the matrix, and
-- all memory beyond.
pub parallel-multiply :
    {D : Type 0} (plus times : D → D → D) (n : ℕ) (A B C : ℕ → D) (is : List ℕ)
    → n ≤ sqrt_of_uint32_max
    → ((col : ℕ) → col < n → (after plus times n A B C is).locals col ≡ finished)
    → (row col : ℕ) → row < n
    → col < n
    → (j : ℕ) → n * n ≤ j
    → ((after plus times n A B C is).shared (entry n row col)
        ≡ multiply plus times n A B C (entry n row col))
      × ((after plus times n A B C is).shared j ≡ multiply plus times n A B C j)
parallel-multiply plus times n A B C is small all_finished row col h h' j le =
    let inv = Inv-run plus times n A B C small is in
    (
      inv.cells row col h h'
          ∙ ap (λ l. dot plus times n A B row col (rounds n l row) (C (entry n row col)))
              (all_finished col h')
          ∙ sym (multiply-dot plus times n A B small C row col h h'),
      inv.outside j le ∙ sym (multiply_other plus times n A B small C j le),
    )

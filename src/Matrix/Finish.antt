-- ===== src/Matrix/Finish.antt =====
-- parallel_dense_mm.c: the threads of the columns come to their end.
use mathlib.Core.Path.{subst}
use c_operating_system.Prelude.{
  ℕ, zero, suc, ◌+◌, ◌≤◌, ◌<◌, ◌≡◌, ◌≢◌, refl, sym, ap, ◌∙◌, inl, inr, Bool-cases, ltb, ltb→lt,
  if◌then◌else◌, some, List, [], ◌++◌, replicate, arith,
}
use c_operating_system.Threads.{Conf, update, run}
use c_operating_system.Threads.Invariant.{turn_lem, run-append}
use c_operating_system.Matrix.{entry, Pc, testing, storing, finished, sum_at, step, start}
use c_operating_system.Matrix.Index.{last-or-before}
use c_operating_system.Matrix.Columns.{after}

module _ {D : Type 0} (plus times : D → D → D) (n : ℕ) (A B : ℕ → D) where
  -- Turns of thread i alone that lead it to its end, while the others stay where they are.
  record Ends (i : ℕ) (c : Conf (ℕ → D) (Pc D)) : Type 0 where
    turns : ℕ
    there : (run n (step plus times n A B) (replicate turns i) c).locals i ≡ finished
    others :
        (j : ℕ)
        → i ≢ j
        → (run n (step plus times n A B) (replicate turns i) c).locals j ≡ c.locals j

  ends_now : (i : ℕ) (c : Conf (ℕ → D) (Pc D)) → c.locals i ≡ finished → Ends i c
  unfolding run
  ends_now i c e = record { turns = 0; there = e; others = λ j ne. refl }

  ends_step :
      (i : ℕ) (c : Conf (ℕ → D) (Pc D)) (l : Pc D) (s' : ℕ → D) (l' : Pc D)
      → i < n
      → c.locals i ≡ l
      → step plus times n A B i c.shared l ≡ some (s', l')
      → Ends i (record { shared = s'; locals = update c.locals i l' })
      → Ends i c
  unfolding run
  ends_step i c l s' l' lt e h later =
      let moved = turn_lem n (step plus times n A B) c i l s' l' lt e h in
      record {
        turns = suc later.turns;
        there =
            subst
              (λ x. (run n (step plus times n A B) (replicate later.turns i) x).locals i ≡ finished)
              (sym moved) later.there;
        others = λ j ne.
            subst
              (λ x.
                (run n (step plus times n A B) (replicate later.turns i) x).locals j ≡ c.locals j)
              (sym moved) (ground (arith, later.others j ne, ne));
      }

  -- A row, where `d` rounds of the loop over `index` are left.
  ends_row :
      (d i : ℕ) (c : Conf (ℕ → D) (Pc D)) (r k : ℕ)
      → i < n
      → r < n
      → k + d ≡ n
      → c.locals i ≡ testing r k
      → ((c' : Conf (ℕ → D) (Pc D)) → c'.locals i ≡ testing (suc r) 0 → Ends i c')
      → Ends i c
  unfolding step
  ends_row zero i c r k lt h left e next =
      ends_step i c (testing r k) c.shared (testing (suc r) 0) lt e (ground (arith, left, h))
        (next _ (ground arith))
  ends_row (suc d) i c r k lt h left e next =
      let sum = sum_at plus times n A B r i k c.shared in
      ends_step i c (testing r k) c.shared (storing r k sum) lt e (ground (arith, left, h)) (
        ends_step i _ (storing r k sum) (update c.shared (entry n r i) sum) (testing r (suc k)) lt
          (ground arith) refl
          (ends_row d i _ r (suc k) lt h (omega (arith, left)) (ground arith) next))

  ends_rows :
      (d i : ℕ) (c : Conf (ℕ → D) (Pc D)) (r : ℕ)
      → i < n
      → r + d ≡ n
      → c.locals i ≡ testing r 0
      → Ends i c
  unfolding step
  ends_rows zero i c r lt left e =
      ends_step i c (testing r 0) c.shared finished lt e (ground (arith, left))
        (ends_now i _ (ground arith))
  ends_rows (suc d) i c r lt left e =
      ends_row n i c r 0 lt (omega (arith, left)) (omega arith) e
        (λ c' e'. ends_rows d i c' (suc r) lt (omega (arith, left)) e')

  -- The columns one after the other.
  record First (C : ℕ → D) (k : ℕ) : Type 0 where
    schedule : List ℕ
    ended : (j : ℕ) → j < k → (after plus times n A B C schedule).locals j ≡ finished
    waiting : (j : ℕ) → k ≤ j → (after plus times n A B C schedule).locals j ≡ testing 0 0

  columns_end : (C : ℕ → D) (k : ℕ) → k ≤ n → First C k
  unfolding run
  columns_end C zero h = record {
    schedule = [];
    ended = λ j lt. elim lt [ ];
    waiting = λ j le. refl;
  }
  columns_end C (suc k) h =
      let before = columns_end C k (omega arith) in
      let c = after plus times n A B C before.schedule in
      let own = ends_rows n k c 0 h (omega arith) (before.waiting k (omega arith)) in
      let together =
        run-append n (step plus times n A B) before.schedule (replicate own.turns k) (start C) in
      record {
        schedule = before.schedule ++ replicate own.turns k;
        ended = λ j lt. ap (λ x. x.locals j) together ∙ elim (last-or-before j k lt) [
          | inl same ↦ rw same own.there
          | inr lt' ↦ own.others j (omega arith) ∙ before.ended j lt'
        ];
        waiting = λ j le.
            ap (λ x. x.locals j) together
            ∙ own.others j (omega arith)
            ∙ before.waiting j (omega arith);
      }

-- No thread of a column waits for another: whatever the matrix size, there is an order of their
-- accesses in which the threads of all the columns, and no others, come to their end.
pub parallel_finishes :
    {D : Type 0} (plus times : D → D → D) (n : ℕ) (A B C : ℕ → D)
    → (is : List ℕ) × ((col : ℕ)
        → (after plus times n A B C is).locals col ≡ (if ltb col n then finished else testing 0 0))
parallel_finishes plus times n A B C =
    let all = columns_end plus times n A B C n (omega arith) in
    (
      all.schedule,
      λ col. elim (Bool-cases (ltb col n)) [
        | inl e ↦ rw e (all.ended col (ltb→lt col n e))
        | inr e ↦ rw e (all.waiting col (ground (arith, e)))
      ],
    )

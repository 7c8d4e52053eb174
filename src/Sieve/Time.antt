-- ===== src/Sieve/Time.antt =====
-- `struct timespec`, and the differences of two time stamps that `showinfo` computes in atomic.c of
-- project2_kernel_memory_concurrent_use (its other files compute the same ones). `tv_sec` and
-- `tv_nsec` are signed and 64 bits wide; they stay far from their bounds, so ℤ has them.
use c_operating_system.Prelude.{
  ℕ, ◌+◌, ◌*◌, ◌≡◌, ◌↔◌, ap, arith, if◌then◌else◌, Bool-cases, inl, inr,
}
use c_operating_system.Prelude.Int.{
  ℤ, pos, ◌+ℤ◌, ◌-ℤ◌, ◌*ℤ◌, ltb_ℤ, ◌≤ℤ◌, pos_part, neg_part, +ℤ_parts, -ℤ_parts, eq_of_parts,
}

pub record Timespec : Type 0 where
  pub tv_sec : ℤ
  pub tv_nsec : ℤ

abbrev pub billion : ℕ
billion = 1_000_000_000

-- The time from `start` to `end`, with a borrow unless the nanoseconds of `end` are the greater.
pub elapsed : Timespec → Timespec → Timespec
elapsed start end =
    if ltb_ℤ start.tv_nsec end.tv_nsec
    then record { tv_nsec = end.tv_nsec -ℤ start.tv_nsec; tv_sec = end.tv_sec -ℤ start.tv_sec }
    else record {
      tv_nsec = end.tv_nsec -ℤ start.tv_nsec +ℤ pos billion;
      tv_sec = end.tv_sec -ℤ start.tv_sec -ℤ pos 1;
    }

-- The number that `showinfo` prints: `tv_sec*1000000000L + tv_nsec`.
pub nanoseconds : Timespec → ℤ
nanoseconds t = t.tv_sec *ℤ pos billion +ℤ t.tv_nsec

billion_parts :
    (a : ℤ)
    → pos_part (a *ℤ pos billion) + neg_part a * billion
      ≡ neg_part (a *ℤ pos billion) + pos_part a * billion
unfolding ◌*ℤ◌
billion_parts a = ground arith

ruleset time_laws = (arith, +ℤ_parts, -ℤ_parts, billion_parts, eq_of_parts)

-- A time stamp as the kernel's clock reads it.
pub record IsStamp (t : Timespec) : Type 0 where
  pub sec_nonneg : pos 0 ≤ℤ t.tv_sec
  pub nsec_nonneg : pos 0 ≤ℤ t.tv_nsec
  pub nsec_small : t.tv_nsec ≤ℤ pos 999_999_999

-- The printed time is the difference of the two stamps, borrow or not.
pub nanoseconds-elapsed :
    (start end : Timespec) → nanoseconds (elapsed start end) ≡ nanoseconds end -ℤ nanoseconds start
unfolding nanoseconds elapsed
nanoseconds-elapsed start end = elim (Bool-cases (ltb_ℤ start.tv_nsec end.tv_nsec)) [
  | inl e ↦ rw e (omega time_laws)
  | inr e ↦ rw e (omega time_laws)
]

-- The two fields of the difference of two stamps: more than 0 nanoseconds, and at most 10^9. They
-- are 10^9, and the difference not normalised, exactly if the nanoseconds of the stamps are equal.
pub elapsed_nsec :
    (start end : Timespec)
    → IsStamp start
    → IsStamp end
    → (pos 1 ≤ℤ (elapsed start end).tv_nsec)
      × ((elapsed start end).tv_nsec ≤ℤ pos billion)
      × (((elapsed start end).tv_nsec ≡ pos billion) ↔ (start.tv_nsec ≡ end.tv_nsec))
unfolding elapsed
elapsed_nsec start end s e = elim (Bool-cases (ltb_ℤ start.tv_nsec end.tv_nsec)) [
  | inl less ↦ rw less (
    ground (arith, subtracted),
    ground (arith, subtracted),
    (
      (λ q. ground (arith, subtracted, ap pos_part q, ap neg_part q)),
      λ q. absurd (ground (arith, ap pos_part q, ap neg_part q)),
    ),
  )
  | inr more ↦ rw more (
    ground (arith, subtracted, added),
    ground (arith, subtracted, added),
    (
      (λ q. ground (
        arith,
        subtracted,
        added,
        ap pos_part q,
        ap neg_part q,
        eq_of_parts start.tv_nsec end.tv_nsec,
      )),
      λ q. ground (
        arith,
        subtracted,
        added,
        ap pos_part q,
        ap neg_part q,
        eq_of_parts (end.tv_nsec -ℤ start.tv_nsec +ℤ pos billion) (pos billion),
      ),
    ),
  )
]
  where
    subtracted :
        pos_part (end.tv_nsec -ℤ start.tv_nsec) + neg_part end.tv_nsec + pos_part start.tv_nsec
        ≡ neg_part (end.tv_nsec -ℤ start.tv_nsec) + pos_part end.tv_nsec + neg_part start.tv_nsec
    subtracted = -ℤ_parts end.tv_nsec start.tv_nsec

    added :
        pos_part (end.tv_nsec -ℤ start.tv_nsec +ℤ pos billion)
          + neg_part (end.tv_nsec -ℤ start.tv_nsec)
          + 0
        ≡ neg_part (end.tv_nsec -ℤ start.tv_nsec +ℤ pos billion)
          + pos_part (end.tv_nsec -ℤ start.tv_nsec)
          + billion
    added = +ℤ_parts (end.tv_nsec -ℤ start.tv_nsec) (pos billion)

-- ===== src/Sieve/Eratosthenes/Alone.antt =====
-- atomic.c: a thread that runs alone comes out of `compute`.
use c_operating_system.Prelude.{
  ℕ, zero, suc, ◌+◌, ◌-◌, ◌*◌, ◌^◌, ◌<◌, ◌≡◌, ◌≢◌, ◌⊎◌, inl, inr, refl, sym, ap, Bool, true, false,
  Option, none, some, replicate, arith, ltb, leb, ◌==◌, ◌&&◌, Bool-cases,
}
use mathlib.Core.Path.{subst}
use c_operating_system.Prelude.Word.{add32, ulong}
use c_operating_system.Threads.{Conf, update, turn, run}
use c_operating_system.Threads.Invariant.{turn_lem}
use c_operating_system.Sieve.Eratosthenes.{
  Params, Shared, Pc, entering, claiming, reading, counting, scanning, unlocking, checking,
  crossing, last, step, scan, check, cross,
}
use c_operating_system.Sieve.Eratosthenes.Invariant.{holds, Inv, IsSmall, Fits, cur_bound}
use c_operating_system.Sieve.Eratosthenes.Safety.{Inv-keeps}

-- the places in `compute`
abbrev pub computes : Pc → Bool
computes claiming = true
computes reading = true
computes (counting _) = true
computes (scanning _) = true
computes (unlocking _) = true
computes (checking _) = true
computes (crossing _ _) = true
computes _ = false

module _ (p : Params) where
  -- Steps to the next move of `cur`, counted down from what one round of `compute` needs at most.
  abbrev rank : Pc → ℕ
  rank claiming = 3
  rank reading = 2
  rank (counting _) = 1
  rank (scanning _) = p.upper_bound + 9
  rank (unlocking _) = p.upper_bound + 8
  rank (checking _) = p.upper_bound + 7
  rank (crossing x _) = 4 + (last p - x)
  rank _ = 0

  measure : ℕ → Pc → ℕ
  measure cur l = (2 ^ 30 - cur) * (p.upper_bound + 10) + rank l

  measure-next :
      (cur cur' : ℕ) (l l' : Pc)
      → cur < 2 ^ 30
      → cur' ≡ cur + 1
      → rank l' < rank l + (p.upper_bound + 10)
      → measure cur' l' < measure cur l
  unfolding measure
  measure-next cur cur' l l' lt e less = omega (arith, ap (λ (w : ℕ). w * (p.upper_bound + 10)) gap)
    where
      gap : 2 ^ 30 - cur ≡ 2 ^ 30 - cur' + 1
      gap = omega arith

  measure-same : (cur : ℕ) (l l' : Pc) → rank l' < rank l → measure cur l' < measure cur l
  unfolding measure
  measure-same cur l l' less = omega arith

  -- The thread can move, and comes out of `compute` or nearer to its end.
  abbrev Nearer : Shared → Pc → Option (Shared × Pc) → Type 0
  Nearer s l none = ⊥
  Nearer s l (some (s', l')) =
      (measure s'.cur l' < measure s.cur l)
      × (s'.lock ≡ holds l')
      × ((l' ≡ entering true) ⊎ (computes l' ≡ true))

module _ (p : Params) (small : IsSmall p) (i : ℕ) where
  step-Nearer :
      (s : Shared) (l : Pc)
      → s.cur < 2 ^ 30
      → Fits p s.cur l
      → computes l ≡ true
      → s.lock ≡ holds l
      → Nearer p s l (step p i s l)
  unfolding step scan check cross
  step-Nearer s claiming bound fit c open' =
      rw open' (measure-same p s.cur claiming reading (omega arith), refl, inr refl)
  step-Nearer s reading bound fit c open' =
      (measure-same p s.cur reading (counting s.cur) (omega arith), open', inr refl)
  step-Nearer s (counting b) bound fit c open' = (
    measure-next p s.cur (add32 s.cur 1) (counting b) (scanning b) bound (omega arith)
        (omega arith),
    open',
    inr refl,
  )
  step-Nearer s (scanning b) bound fit c open' =
      elim (Bool-cases ((s.number s.cur == 0) && ltb (ulong s.cur) (last p))) [
        | inl e ↦ rw e (
          measure-next p s.cur (add32 s.cur 1) (scanning b) (scanning b) bound (omega arith)
              (omega arith),
          open',
          inr refl,
        )
        | inr e ↦
            rw e (measure-same p s.cur (scanning b) (unlocking b) (omega arith), open', inr refl)
      ]
  step-Nearer s (unlocking b) bound fit c open' =
      (measure-same p s.cur (unlocking b) (checking b) (omega arith), refl, inr refl)
  step-Nearer s (checking b) bound fit c open' = elim (Bool-cases (leb (last p) (ulong s.cur))) [
    | inl e ↦
        rw e (measure-same p s.cur (checking b) (entering true) (omega arith), open', inl refl)
    | inr e ↦ rw e (
      measure-same p s.cur (checking b) (crossing (add32 b (add32 b 2)) (add32 b 2))
          (omega (arith, small.two)),
      open',
      inr refl,
    )
  ]
  step-Nearer s (crossing x d) bound fit c open' = elim (Bool-cases (ltb (ulong x) (last p))) [
    | inl e ↦ rw e (
      measure-same p s.cur (crossing x d) (crossing (add32 x d) d) (ground (arith, small.fits_int)),
      open',
      inr refl,
    )
    | inr e ↦ rw e (measure-same p s.cur (crossing x d) claiming (omega arith), open', inr refl)
  ]
  step-Nearer s _ bound fit c open' = cc

  -- What running alone comes to: the second barrier, with the lock free.
  pub record Out (c c' : Conf Shared Pc) : Type 0 where
    pub inv : Inv p c'
    pub out : c'.locals i ≡ entering true
    pub free : c'.shared.lock ≡ false
    pub others : (j : ℕ) → j ≢ i → c'.locals j ≡ c.locals j

  abbrev pub Reaches : ℕ → Conf Shared Pc → Type 0
  Reaches k c = Out c (run p.num_threads (step p) (replicate k i) c)

  Out-next :
      (c : Conf Shared Pc) (s' : Shared) (l' : Pc) (c' : Conf Shared Pc)
      → Out (record { shared = s'; locals = update c.locals i l' }) c'
      → Out c c'
  Out-next c s' l' c' o = record {
    inv = o.inv;
    out = o.out;
    free = o.free;
    others = λ j other. ground (arith, o.others j other);
  }

  Reaches-suc :
      (k : ℕ) (c : Conf Shared Pc) (s' : Shared) (l' : Pc)
      → turn p.num_threads (step p) i c ≡ record { shared = s'; locals = update c.locals i l' }
      → Reaches k (record { shared = s'; locals = update c.locals i l' })
      → Reaches (suc k) c
  unfolding run
  Reaches-suc k c s' l' e o =
      subst (λ c1. Out c (run p.num_threads (step p) (replicate k i) c1)) (sym e)
        (Out-next c s' l' _ o)

  module _ (lt : i < p.num_threads) where
    alone_from :
        (m : ℕ) (c : Conf Shared Pc)
        → Inv p c
        → computes (c.locals i) ≡ true
        → c.shared.lock ≡ holds (c.locals i)
        → measure p c.shared.cur (c.locals i) < m
        → (k : ℕ) × Reaches k c
    unfolding run
    alone_from zero c inv comp own less = absurd (omega arith)
    alone_from (suc m) c inv comp own less =
        go (alone_from m) (step p i c.shared (c.locals i)) refl
          (step-Nearer c.shared (c.locals i) (cur_bound small inv i) (inv.fits i) comp own)
      where
        go :
            ((c : Conf Shared Pc)
              → Inv p c
              → computes (c.locals i) ≡ true
              → c.shared.lock ≡ holds (c.locals i)
              → measure p c.shared.cur (c.locals i) < m
              → (k : ℕ) × Reaches k c)
            → (r : Option (Shared × Pc)) → step p i c.shared (c.locals i) ≡ r
            → Nearer p c.shared (c.locals i) r
            → (k : ℕ) × Reaches k c
        go rec none e n = absurd n
        go rec (some (s', l')) e (near, own', inl gone) = (
          1,
          Reaches-suc 0 c s' l' (turn_lem p.num_threads (step p) c i (c.locals i) s' l' lt refl e)
              (record {
                inv = Inv-keeps p small i c (c.locals i) lt inv refl s' l' e;
                out = ground arith;
                free = ground arith;
                others = λ j other. refl;
              }),
        )
        go rec (some (s', l')) e (near, own', inr still) =
            let (k, o) =
              rec (record { shared = s'; locals = update c.locals i l' })
                (Inv-keeps p small i c (c.locals i) lt inv refl s' l' e) (ground arith)
                (ground arith) (ground arith) in
            (
              suc k,
              Reaches-suc k c s' l'
                  (turn_lem p.num_threads (step p) c i (c.locals i) s' l' lt refl e) o,
            )

    -- A thread in `compute` that runs alone, with the lock free or its own, leaves `compute`.
    pub alone :
        (c : Conf Shared Pc)
        → Inv p c
        → computes (c.locals i) ≡ true
        → c.shared.lock ≡ holds (c.locals i)
        → (k : ℕ) × Reaches k c
    alone c inv comp own =
        alone_from (suc (measure p c.shared.cur (c.locals i))) c inv comp own (omega arith)

-- ===== src/Paging/Device/Books.antt =====
-- paging.c with any number of mappings: the books of the two counters.
use mathlib.Core.Path.{subst}
use c_operating_system.Prelude.{
  ℕ, ◌+◌, ◌-◌, ◌%◌, ◌^◌, ◌≤◌, ◌<◌, ◌≡◌, inl, inr, refl, false, Option, none, some, arith, ◌==◌,
  Bool-cases,
}
use c_operating_system.Threads.{update}
use c_operating_system.Threads.Total.{total, total-update, total-update_beyond}
use c_operating_system.Paging.{Vma, Tracer, Module, Supply, page_size}
use c_operating_system.Paging.Ledger.{Ledger, Balance, Agrees}
use c_operating_system.Paging.Mapping.{mmap-Kept}
use c_operating_system.Paging.Device.{Mapping, Device, view, put, fresh, placed, mmap, pages_of}

-- The books of one mapping, but for the counters.
abbrev pub Fine : Vma → ℕ → (ℕ → Option ℕ) → Option Tracer → Type 0
Fine vma areas table none = areas ≡ 0
Fine vma areas table (some t) = (areas ≡ 1) × (t.counter ≡ 1) × Agrees vma table t

pub Ledger-Fine :
    (vma : Vma) (areas strays leaks : ℕ) (m : Module) (o : Option Tracer)
    → Ledger vma areas strays leaks m o
    → Fine vma areas m.table o × Balance strays leaks m (pages_of vma m.table o)
Ledger-Fine vma areas strays leaks m none (gone, balance) = (gone, balance)
Ledger-Fine vma areas strays leaks m (some t) (a, b, agrees, balance) = ((a, b, agrees), balance)

Fine-Ledger :
    (vma : Vma) (areas strays leaks : ℕ) (m : Module) (o : Option Tracer)
    → Fine vma areas m.table o
    → Balance strays leaks m (pages_of vma m.table o)
    → Ledger vma areas strays leaks m o
Fine-Ledger vma areas strays leaks m none gone balance = (gone, balance)
Fine-Ledger vma areas strays leaks m (some t) (a, b, agrees) balance = (a, b, agrees, balance)

abbrev pub held : Mapping → ℕ
held p = pages_of p.vma p.table p.tracer

pub record Books (n : ℕ) (areas : ℕ → ℕ) (strays leaks : ℕ) (d : Device) : Type 0 where
  pub aligned : (i : ℕ) → i < n → (d.mapping i).vma.vm_start % page_size ≡ 0
  pub fine :
      (i : ℕ) → i < n → Fine (d.mapping i).vma (areas i) (d.mapping i).table (d.mapping i).tracer
  pub balance :
      (d.allocate_page_counter + strays) % 2 ^ 32
      ≡ (d.free_page_counter + total held n d.mapping + leaks) % 2 ^ 32

-- The pages of the other mappings.
abbrev pub others : ℕ → Device → ℕ → ℕ
others n d i = total held n d.mapping - held (d.mapping i)

held-le-total : (n i : ℕ) (d : Device) → i < n → held (d.mapping i) ≤ total held n d.mapping
held-le-total n i d lt = omega (
  arith,
  total-update held n i d.mapping
      (record { vma = (d.mapping i).vma; tracer = none; table = λ _. none }) lt,
)

-- To a function that is called for a mapping, the pages of the others are as good as lost.
pub Books-Ledger :
    (n i : ℕ) (areas : ℕ → ℕ) (strays leaks : ℕ) (d : Device)
    → i < n
    → Books n areas strays leaks d
    → Ledger
        (d.mapping i).vma
        (areas i)
        strays
        (leaks + others n d i)
        (view d i)
        (d.mapping i).tracer
Books-Ledger n i areas strays leaks d lt b =
    Fine-Ledger (d.mapping i).vma (areas i) strays (leaks + others n d i) (view d i)
      (d.mapping i).tracer (b.fine i lt) (omega (arith, b.balance, held-le-total n i d lt))

pub put-Books :
    (n i : ℕ) (areas : ℕ → ℕ) (areas' strays strays' leaks lost_now : ℕ) (d : Device) (m : Module)
    → i < n
    → Books n areas strays leaks d
    → Ledger (d.mapping i).vma areas' strays' (leaks + others n d i + lost_now) m m.tracer
    → Books n (update areas i areas') strays' (leaks + lost_now) (put d i m)
put-Books n i areas areas' strays strays' leaks lost_now d m lt b ledger =
    let (fine, balance) = Ledger-Fine (d.mapping i).vma areas' strays' _ m m.tracer ledger in
    record {
      aligned = λ j below. ground (arith, b.aligned j below, b.aligned i lt);
      fine = λ j below. elim (Bool-cases (i == j)) [
        | inl e ↦ rw e fine
        | inr e ↦ rw e (b.fine j below)
      ];
      balance = omega (
        arith,
        balance,
        held-le-total n i d lt,
        total-update held n i d.mapping
            (record { vma = (d.mapping i).vma; tracer = m.tracer; table = m.table }) lt,
      );
    }

pub same-Books :
    (n i : ℕ) (areas : ℕ → ℕ) (strays leaks : ℕ) (d : Device)
    → Books n (update areas i (areas i)) strays leaks d
    → Books n areas strays leaks d
same-Books n i areas strays leaks d b = record {
  aligned = b.aligned;
  fine = λ j below.
      subst (λ a. Fine (d.mapping j).vma a (d.mapping j).table (d.mapping j).tracer)
        {x = update areas i (areas i) j} {y = areas j} (ground arith) (b.fine j below);
  balance = b.balance;
}

-- A call of `paging_mmap`: what it leaves for the new area.
pub mmap-Ledger :
    (n : ℕ) (areas : ℕ → ℕ) (strays leaks : ℕ) (d : Device) (vma : Vma) (demand_paging : ℕ)
    (found : ℕ → Option ℕ) (supply : Supply)
    → Books n areas strays leaks d
    → Fine vma 1
        (mmap d vma demand_paging found supply).0.table
        (mmap d vma demand_paging found supply).0.tracer
      × Balance strays (leaks + total held n d.mapping) (mmap d vma demand_paging found supply).0 (
          pages_of vma
            (mmap d vma demand_paging found supply).0.table
            (mmap d vma demand_paging found supply).0.tracer)
mmap-Ledger n areas strays leaks d vma demand_paging found supply b =
    Ledger-Fine vma 1 strays (leaks + total held n d.mapping)
      (mmap d vma demand_paging found supply).0 (mmap d vma demand_paging found supply).0.tracer
      (mmap-Kept vma strays (leaks + total held n d.mapping) demand_paging found supply (fresh d)
        (omega (arith, b.balance)) (λ k. refl))

module _ (n : ℕ) (areas : ℕ → ℕ) (strays leaks : ℕ) (d : Device) (vma : Vma) (m : Module) where
  -- The mappings that were there are as before.
  pub before-aligned :
      (j : ℕ)
      → j < n
      → Books n areas strays leaks d
      → ((placed d n vma m).mapping j).vma.vm_start % page_size ≡ 0
  before-aligned j below b = ground (arith, b.aligned j below)

  pub before-Fine :
      (j : ℕ)
      → j < n
      → Books n areas strays leaks d
      → Fine
          ((placed d n vma m).mapping j).vma
          (areas j)
          ((placed d n vma m).mapping j).table
          ((placed d n vma m).mapping j).tracer
  before-Fine j below b = let e : (n == j) ≡ false = ground (arith, below) in rw e (b.fine j below)

  pub before-total : total held n (placed d n vma m).mapping ≡ total held n d.mapping
  before-total = total-update_beyond held n n _ _ (omega arith)

-- ===== src/Paging/Device/Balance.antt =====
-- paging.c with any number of mappings: what `kmod_paging_exit` prints.
use c_operating_system.Paging.Ledger.{Ledger}
use c_operating_system.Paging.Device.{Device}
use c_operating_system.Paging.Device.Books.{Books}

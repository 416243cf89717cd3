-- ===== src/Device.antt =====
-- The calls of the operating system by which a process uses the device file: open, close and ioctl on
-- a descriptor. user_space/libipc/ipclib.c makes them; the character device stands behind them.
use ipc_msq_multicore.Common.{◌≡◌, Bool, true, false, ℤ, minus, is_negative}
use ipc_msq_multicore.Common.Outcome.{Outcome, done}
use ipc_msq_multicore.Main.{Request}

pub record Device : Type 1 where
  pub State : Type 0
  pub open_file : State → ℤ × State
  pub close_file : ℤ → State → Outcome State
  pub ioctl : ℤ → Request → State → Outcome (ℤ × Request × State)
  pub is_open : State → ℤ → Bool

-- What the manual pages say of the descriptors: open gives an open one or a negative number, close
-- makes it invalid, ioctl leaves the descriptors alone and answers -1 on one that is not open.
pub record IsLawful (D : Device) : Type 0 where
  pub opens :
      (s : D.State)
      → is_negative (D.open_file s).0 ≡ false
      → D.is_open (D.open_file s).1 (D.open_file s).0 ≡ true
  pub closes : (fd : ℤ) (s s' : D.State) → D.close_file fd s ≡ done s' → D.is_open s' fd ≡ false
  pub keeps :
      (fd fd' : ℤ) (r r' : Request) (ret : ℤ) (s s' : D.State)
      → D.ioctl fd r s ≡ done (ret, r', s')
      → D.is_open s' fd' ≡ D.is_open s fd'
  pub refuses :
      (fd : ℤ) (r : Request) (s : D.State)
      → D.is_open s fd ≡ false
      → D.ioctl fd r s ≡ done (minus 1, r, s)

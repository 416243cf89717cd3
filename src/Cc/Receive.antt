-- ===== src/Cc/Receive.antt =====
-- What ipc_cc_get_cmd gives its caller.
use ipc_msq_multicore.Common.{ℕ, ◌≡◌, Option, none, some, true, arith, is_negative}
use ipc_msq_multicore.Cc.{Dev, Cmd, Sources, default_case, dsp_case, cpu2_case, cpu1_case, get_cmd}

-- No case of the switch reaches the read of the command.
pub cpu1_case-none : (core : ℕ) (v : Sources) → cpu1_case core v ≡ none
unfolding cpu1_case cpu2_case dsp_case default_case
cpu1_case-none core v = ground arith

cpu2_case-none : (core : ℕ) (v : Sources) → cpu2_case core v ≡ none
unfolding cpu2_case dsp_case default_case
cpu2_case-none core v = ground arith

dsp_case-none : (core : ℕ) (v : Sources) → dsp_case core v ≡ none
unfolding dsp_case default_case
dsp_case-none core v = ground arith

-- Whatever the device, the running core and the core asked for, ipc_cc_get_cmd returns a negative
-- number and leaves the caller's command as it was.
pub get_cmd_fails :
    (u : Sources) (core : ℕ) (cmd : Option Cmd) (dd : Option Dev)
    → let (ret, cmd', _) = get_cmd u core cmd dd in (is_negative ret ≡ true) × (cmd' ≡ cmd)
unfolding get_cmd default_case
get_cmd_fails u core cmd none = ground arith
get_cmd_fails u core none (some dd) = ground arith
get_cmd_fails u core (some cmd) (some dd) =
    ground (arith, cpu1_case-none core u, cpu2_case-none core u, dsp_case-none core u)

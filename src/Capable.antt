-- ===== src/Capable.antt =====
-- capable, suser and fsuser of sharedFolderHW2/sched.h.
use Prim.Native.Nat.{bit_or}
use os_hw.Base.{ℕ, Bool, true, false, not, ◌&&◌, ◌==◌, if◌then◌else◌}
use os_hw.Model.{Env, Capability, Kernel, set_task}

abbrev pub pf_superpriv : ℕ
pf_superpriv = 0x100

-- The use of a capability leaves its mark in the flags of `current`.
unfoldable pub capable : Env → Capability → Kernel → Kernel × Bool
capable env cap k =
    let t = k.tasks k.current in
    if env.cap_raised t.cap_effective cap
    then (set_task k k.current (record t { flags = bit_or t.flags pf_superpriv }), true)
    else (k, false)

-- suser and fsuser; `noroot` is issecure(SECURE_NOROOT), and `fsuid` a field of `current`.
unfoldable pub suser : Bool → Kernel → Kernel × Bool
suser noroot k =
    let t = k.tasks k.current in
    if not noroot && t.euid == 0
    then (set_task k k.current (record t { flags = bit_or t.flags pf_superpriv }), true)
    else (k, false)

unfoldable pub fsuser : Bool → ℕ → Kernel → Kernel × Bool
fsuser noroot fsuid k =
    let t = k.tasks k.current in
    if not noroot && fsuid == 0
    then (set_task k k.current (record t { flags = bit_or t.flags pf_superpriv }), true)
    else (k, false)

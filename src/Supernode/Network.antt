-- ===== src/Supernode/Network.antt =====
-- pkg/supernode/network.go: the network that is proposed for a community. A mask of `n` bits is
-- 2^32 - 2^(32 - n), so masking is written as division and remainder by 2^(32 - n).
use native.Mathlib.Nat.{mul-add-div_right, div-eq_of_lt, one-le-pow}
use n2n_go.Base.{ℕ, ◌+◌, ◌-◌, ◌*◌, ◌/◌, ◌%◌, ◌^◌, ◌≤◌, ◌<◌, ◌≡◌, ◌∙◌, arith, ltb, if◌then◌else◌}
use n2n_go.Base.Bytes.{byte_at, u32}
use n2n_go.Base.Exec.{ok, Result, err}
use n2n_go.Base.Keys.{Text}
use n2n_go.Errors.{Error}
use n2n_go.Supernode.State.{Env, Prefix, NetworkAllocator}

-- `ProposeVirtualNetwork`. Go builds no mask of more than 32 bits, and reading it then panics.
unfoldable pub propose_virtual_network : Env → NetworkAllocator → Text → Result Error Prefix
propose_virtual_network env m community =
    let h = env.sha256 community in
    let offset = u32 (byte_at 0 h) (byte_at 1 h) (byte_at 2 h) (byte_at 3 h) % 2 ^ 24 in
    let hosts = 2 ^ (32 - m.mask_len) in
    let host_part = offset % hosts in
    let vip = m.base_network / hosts * hosts + host_part in
    if ltb 32 m.mask_len
    then err Error.panic
    -- `netip.Addr.Prefix` keeps the network bits only.
    else ok (record { addr = vip / hosts * hosts; bits = m.mask_len })

network_kept :
    (base hosts offset : ℕ)
    → 0 < hosts
    → (base / hosts * hosts + offset % hosts) / hosts ≡ base / hosts
network_kept base hosts offset h =
    mul-add-div_right h (base / hosts) (offset % hosts)
    ∙ omega (arith, div-eq_of_lt {n = offset % hosts} {m = hosts} (omega arith))

-- The proposal depends on nothing but the allocator: every community, whatever its name hashes to,
-- is given the base network itself, with all host bits zero.
propose_virtual_network_lem :
    (env : Env) (m : NetworkAllocator) (community : Text)
    → m.mask_len ≤ 32
    → propose_virtual_network env m community
      ≡ ok (record {
        addr = m.base_network / 2 ^ (32 - m.mask_len) * 2 ^ (32 - m.mask_len);
        bits = m.mask_len;
      })
unfolding propose_virtual_network
propose_virtual_network_lem env m community h =
    let hosts = 2 ^ (32 - m.mask_len) in
    let b = env.sha256 community in
    let offset = u32 (byte_at 0 b) (byte_at 1 b) (byte_at 2 b) (byte_at 3 b) % 2 ^ 24 in
    ground (
      arith,
      network_kept m.base_network hosts offset (one-le-pow (32 - m.mask_len) 2 (omega arith)),
    )

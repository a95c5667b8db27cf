-- ===== src/RemoteAccess/Tests.antt =====
-- Configurations of the listen address (RemoteAccess.antt).
use meowth.Prelude.{
  ◌≡◌, refl, true, false, [], ◌∷◌, some, String, codes, bytes_eq, trim_space, ok, err, pos,
}
use meowth.RemoteAccess.{
  Addr, v4, addr_eq, is_tailscale, is_unspecified, is_loopback, RemoteAccess, RawBlock, not_allowed,
  Netip, file, load, read_config, validate, is_valid_mode, check_port, parse_bind_addr,
  check_mode_addr_allow_set, check_tailscale_interface, classify_bind_for_d5,
}
use meowth.RemoteAccess.Safety.{is_safe, load-is_safe}

-- A parser that takes every text for one address.
abbrev netip : Addr → Netip
netip a = record { parses_addr_port = λ b. false; parse_addr = λ b. some a }

abbrev block : String → RawBlock
block mode = record {
  mode = some mode;
  bind_addr = some (codes "100.64.0.1");
  bind_port = some (pos 7040);
  acknowledged_by = some (codes "ops");
}

abbrev tailnet : Addr
tailnet = v4 0x64400001

abbrev remote : RemoteAccess
remote = record {
  mode = "tailscale";
  bind_addr = tailnet;
  bind_port = 7040;
  acknowledged_by = codes "ops";
}

remote_loads :
    load (netip tailnet) (file 80 true (some (some (block "tailscale")))) (tailnet ∷ []) ≡ ok remote
unfolding load read_config validate is_valid_mode check_port parse_bind_addr
    check_mode_addr_allow_set check_tailscale_interface is_tailscale is_unspecified addr_eq bytes_eq
    trim_space
remote_loads = refl

public_refused :
    load (netip (v4 0x08080808)) (file 80 true (some (some (block "https_proxy")))) []
    ≡ err (not_allowed "https_proxy" (v4 0x08080808) "public_ip")
unfolding load read_config validate is_valid_mode check_port parse_bind_addr
    check_mode_addr_allow_set classify_bind_for_d5 is_tailscale is_unspecified is_loopback addr_eq
    bytes_eq trim_space
public_refused = refl

load-is_safe_example : is_safe (tailnet ∷ []) remote ≡ true
load-is_safe_example =
    load-is_safe (netip tailnet) (file 80 true (some (some (block "tailscale")))) (tailnet ∷ [])
      remote remote_loads

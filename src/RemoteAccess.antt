-- ===== src/RemoteAccess.antt =====
-- The listen address of the daemon: daemon/internal/remoteaccess/remoteaccess.go. The address parsers
-- of net/netip, the TOML decoder and the file system are arguments.
pub mod Safety
pub mod Tests
use meowth.Prelude.{
  ℕ, ◌+◌, ◌*◌, ◌/◌, ◌^◌, Bool, true, false, ◌&&◌, ◌||◌, not, List, [], ◌∷◌, Option, none, some,
  String, str_eq, leb, ltb, ◌==◌, if◌then◌else◌, length, Bytes, codes, bytes_eq, trim_space, Result,
  ok, err, ◌>>=◌, ◌>>◌, ℤ, pos, negsuc,
}

-- netip.Addr: the 32 or 128 bits as a number, and the zone of an IPv6 address.
pub data Addr : Type 0 where
  v4 : ℕ → Addr
  v6 : ℕ → String → Addr

unfoldable pub addr_eq : Addr → Addr → Bool
addr_eq (v4 a) (v4 b) = a == b
addr_eq (v6 a z) (v6 b y) = a == b && str_eq z y
addr_eq (v4 a) (v6 b y) = false
addr_eq (v6 a z) (v4 b) = false

unfoldable pub is_unspecified : Addr → Bool
is_unspecified (v4 a) = a == 0
is_unspecified (v6 a z) = a == 0 && str_eq z ""

-- 100.64.0.0/10 and fd7a:115c:a1e0::/48; a prefix contains no address with a zone.
unfoldable pub is_tailscale : Addr → Bool
is_tailscale (v4 a) = a / 2 ^ 22 == 0x191
is_tailscale (v6 a z) = str_eq z "" && a / 2 ^ 80 == 0xfd7a115ca1e0

abbrev pub loopback_v4 : Addr
loopback_v4 = v4 0x7f000001

abbrev pub loopback_v6 : Addr
loopback_v6 = v6 1 ""

unfoldable pub is_loopback : Addr → Bool
unfolding addr_eq
is_loopback a = addr_eq a loopback_v4 || addr_eq a loopback_v6

pub record RemoteAccess : Type 0 where
  pub mode : String
  pub bind_addr : Addr
  pub bind_port : ℕ
  pub acknowledged_by : Bytes

unfoldable pub is_local : RemoteAccess → Bool
is_local r = str_eq r.mode "local"

-- The strictly decoded table; `none` is a missing field.
pub record RawBlock : Type 0 where
  pub mode : Option String
  pub bind_addr : Option Bytes
  pub bind_port : Option ℤ
  pub acknowledged_by : Option Bytes

-- The D-codes, and what fails before them.
pub data StartupError : Type 0 where
  missing : String → StartupError
  bad_mode : String → StartupError
  missing_ack : String → StartupError
  bad_addr : Bytes → String → StartupError
  bad_port : ℤ → StartupError
  not_allowed : String → Addr → String → StartupError
  not_running ip_mismatch : Addr → StartupError
  stat_failed open_failed toml_failed : StartupError
  too_large : ℕ → StartupError
  unknown_mode : String → StartupError

-- netip.ParseAddrPort, as to whether it succeeds, and netip.ParseAddr.
pub record Netip : Type 0 where
  pub parses_addr_port : Bytes → Bool
  pub parse_addr : Bytes → Option Addr

-- What readConfig meets: no file, an error of the disk, or a file of some size and its decoding.
pub data ConfigFile : Type 0 where
  absent unreadable : ConfigFile
  -- size; opens; the decoded table, if it decodes and is there
  file : ℕ → Bool → Option (Option RawBlock) → ConfigFile

abbrev pub max_config_size : ℕ
max_config_size = 65536

unfoldable pub is_valid_mode : String → Bool
is_valid_mode m =
    str_eq m "local" || str_eq m "tailscale" || str_eq m "ssh_tunnel" || str_eq m "https_proxy"

unfoldable pub check_port : ℤ → Result StartupError ℕ
check_port (pos n) = if ltb n 1 || ltb 65535 n then err (bad_port (pos n)) else ok n
check_port (negsuc n) = err (bad_port (negsuc n))

contains_slash : Bytes → Bool
contains_slash [] = false
contains_slash (c ∷ s) = c == b'/' || contains_slash s

not_wildcard : Bytes → Option Addr → Result StartupError Addr
not_wildcard raw none = err (bad_addr raw "not_an_ip")
not_wildcard raw (some a) = if is_unspecified a then err (bad_addr raw "wildcard") else ok a

unfoldable pub parse_bind_addr : Netip → Bytes → Result StartupError Addr
unfolding contains_slash not_wildcard
parse_bind_addr net raw =
    let v = if bytes_eq raw (codes "localhost") then codes "127.0.0.1" else raw in
    if length raw == 0
    then err (bad_addr raw "empty")
    else if contains_slash v
    then err (bad_addr raw "has_cidr")
    else if net.parses_addr_port v
    then err (bad_addr raw "has_port")
    else not_wildcard raw (net.parse_addr v)

unfoldable pub classify_bind_for_d5 : Addr → String
classify_bind_for_d5 a =
    if is_tailscale a then "tailscale_ip" else if is_loopback a then "loopback" else "public_ip"

unfoldable pub check_mode_addr_allow_set : String → Addr → Result StartupError (Unit {0})
check_mode_addr_allow_set mode a =
    if str_eq mode "local" || str_eq mode "ssh_tunnel" || str_eq mode "https_proxy"
    then (if is_loopback a then ok tt else err (not_allowed mode a (classify_bind_for_d5 a)))
    else if str_eq mode "tailscale"
    then (if is_tailscale a then ok tt else err (not_allowed mode a (classify_bind_for_d5 a)))
    else err (unknown_mode mode)

-- The loop over the interfaces; the Boolean is `hasTailscaleIface` so far.
check_tailscale_from : Addr → Bool → List Addr → Result StartupError (Unit {0})
check_tailscale_from a seen [] = if seen then err (ip_mismatch a) else err (not_running a)
check_tailscale_from a seen (i ∷ rest) =
    let later = check_tailscale_from a (seen || is_tailscale i) rest in
    if addr_eq i a then ok tt else later

unfoldable pub check_tailscale_interface : Addr → List Addr → Result StartupError (Unit {0})
unfolding check_tailscale_from
check_tailscale_interface a ifaces = check_tailscale_from a false ifaces

or_empty : Option Bytes → Bytes
or_empty none = []
or_empty (some b) = b

field : {A : Type 0} → String → Option A → Result StartupError A
field name none = err (missing name)
field name (some a) = ok a

abbrev guard : Bool → StartupError → Result StartupError (Unit {0})
guard true e = ok tt
guard false e = err e

-- Steps 5 to 9 of `validate`, on the three fields that must be there.
validate_fields : Netip → List Addr → String → Bytes → ℤ → Bytes → Result StartupError RemoteAccess
validate_fields net ifaces mode raw_addr raw_port ack = do
  guard (is_valid_mode mode) (bad_mode mode)
  guard (str_eq mode "local" || not (length (trim_space ack) == 0)) (missing_ack mode)
  port ← check_port raw_port
  addr ← parse_bind_addr net raw_addr
  check_mode_addr_allow_set mode addr
  if str_eq mode "tailscale" then check_tailscale_interface addr ifaces else ok tt
  ok (record { mode = mode; bind_addr = addr; bind_port = port; acknowledged_by = ack })

unfoldable pub validate : Netip → RawBlock → List Addr → Result StartupError RemoteAccess
unfolding validate_fields or_empty field
validate net b ifaces = do
  mode ← field "mode" b.mode
  addr ← field "bind_addr" b.bind_addr
  port ← field "bind_port" b.bind_port
  validate_fields net ifaces mode addr port (or_empty b.acknowledged_by)

abbrev pub default_local : RemoteAccess
default_local = record {
  mode = "local";
  bind_addr = loopback_v4;
  bind_port = 7040;
  acknowledged_by = [];
}

unfoldable pub read_config : ConfigFile → Result StartupError (Option RawBlock)
read_config absent = ok none
read_config unreadable = err stat_failed
read_config (file size opens none) =
    if ltb max_config_size size
    then err (too_large size)
    else if opens
    then err toml_failed
    else err open_failed
read_config (file size opens (some block)) =
    if ltb max_config_size size
    then err (too_large size)
    else if opens
    then ok block
    else err open_failed

or_default : Netip → List Addr → Option RawBlock → Result StartupError RemoteAccess
or_default net ifaces none = ok default_local
or_default net ifaces (some b) = validate net b ifaces

-- `Load`
unfoldable pub load : Netip → ConfigFile → List Addr → Result StartupError RemoteAccess
unfolding or_default
load net config ifaces = read_config config >>= or_default net ifaces

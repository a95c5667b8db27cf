-- ===== src/RemoteAccess/Safety.antt =====
-- What the daemon may listen on (RemoteAccess.antt).
use meowth.Prelude.{
  ℕ, ◌≡◌, refl, Bool, true, false, ◌&&◌, ◌||◌, not, List, [], ◌∷◌, Option, none, some, String,
  str_eq, leb, ◌==◌, if◌then◌else◌, length, Bytes, trim_space, Result, ok, err, ◌>>=◌, ◌>>◌, ℤ, pos,
  negsuc, arith, eq_iff, Bool-cases, inl, inr, subst,
}
use meowth.RemoteAccess.{
  Addr, addr_eq, is_tailscale, is_loopback, RemoteAccess, RawBlock, StartupError, Netip, ConfigFile,
  is_valid_mode, check_port, parse_bind_addr, check_mode_addr_allow_set, check_tailscale_from,
  check_tailscale_interface, guard, field, or_empty, validate_fields, validate, default_local,
  read_config, or_default, load,
}

abbrev pub owns : List Addr → Addr → Bool
owns [] a = false
owns (i ∷ rest) a = addr_eq i a || owns rest a

-- An address that only this host, or its tailnet through an address of its own, can reach; a port
-- that exists; and a name behind every mode but local.
unfoldable pub is_safe : List Addr → RemoteAccess → Bool
is_safe ifaces r =
    leb 1 r.bind_port
    && leb r.bind_port 65535
    && (if str_eq r.mode "tailscale"
        then is_tailscale r.bind_addr && owns ifaces r.bind_addr
        else is_loopback r.bind_addr)
    && (str_eq r.mode "local" || not (length (trim_space r.acknowledged_by) == 0))

tailscale-owns :
    (a : Addr) (seen : Bool) (ifaces : List Addr)
    → check_tailscale_from a seen ifaces ≡ ok tt
    → owns ifaces a ≡ true
unfolding check_tailscale_from
tailscale-owns a seen [] h = ground (arith, h)
tailscale-owns a seen (i ∷ rest) h =
    ground (arith, h, tailscale-owns a (seen || is_tailscale i) rest)

port-bounds : (raw : ℤ) (n : ℕ) → check_port raw ≡ ok n → (leb 1 n && leb n 65535) ≡ true
unfolding check_port
port-bounds (pos k) n h = ground (arith, h)
port-bounds (negsuc k) n h = cc

tailscale-allowed :
    (a : Addr) → check_mode_addr_allow_set "tailscale" a ≡ ok tt → is_tailscale a ≡ true
unfolding check_mode_addr_allow_set
tailscale-allowed a h = ground (arith, h)

others-allowed :
    (mode : String) (a : Addr)
    → str_eq mode "tailscale" ≡ false
    → check_mode_addr_allow_set mode a ≡ ok tt
    → is_loopback a ≡ true
unfolding check_mode_addr_allow_set
others-allowed mode a n h = ground (arith, n, h)

allowed :
    (mode : String) (a : Addr)
    → check_mode_addr_allow_set mode a ≡ ok tt
    → (if str_eq mode "tailscale" then is_tailscale a else is_loopback a) ≡ true
allowed mode a h = elim (Bool-cases (str_eq mode "tailscale")) [
  | inl t ↦ rw t (
      tailscale-allowed a
        (subst (λ m. check_mode_addr_allow_set m a ≡ ok tt) ((eq_iff mode "tailscale").0 t) h))
  | inr n ↦ rw n (others-allowed mode a n h)
]

bind-ok :
    {A B : Type 0} (x : Result StartupError A) (f : A → Result StartupError B) (b : B)
    → (x >>= f) ≡ ok b
    → (a : A) × (x ≡ ok a) × (f a ≡ ok b)
bind-ok (err e) f b h = cc
bind-ok (ok a) f b h = (a, refl, h)

then-ok :
    {B : Type 0} (x : Result StartupError (Unit {0})) (y : Result StartupError B) (b : B)
    → (x >> y) ≡ ok b
    → (x ≡ ok tt) × (y ≡ ok b)
then-ok (err e) y b h = cc
then-ok (ok t) y b h = (refl, h)

guarded : (b : Bool) (e : StartupError) → guard b e ≡ ok tt → b ≡ true
guarded true e h = refl
guarded false e h = cc

is_member :
    (mode : String) (a : Addr) (ifaces : List Addr)
    → (if str_eq mode "tailscale" then check_tailscale_interface a ifaces else ok tt) ≡ ok tt
    → (if str_eq mode "tailscale" then owns ifaces a else true) ≡ true
unfolding check_tailscale_interface
is_member mode a ifaces h = ground (arith, h, tailscale-owns a false ifaces)

abbrev success : RemoteAccess → Result StartupError RemoteAccess
success r = ok r

same_safe :
    (ifaces : List Addr) (q r : RemoteAccess)
    → success q ≡ success r
    → is_safe ifaces q ≡ true
    → is_safe ifaces r ≡ true
same_safe ifaces q r e h = cc (e, h)

all_checks :
    (ifaces : List Addr) (r q : RemoteAccess)
    → (leb 1 q.bind_port && leb q.bind_port 65535) ≡ true
    → (if str_eq q.mode "tailscale" then is_tailscale q.bind_addr else is_loopback q.bind_addr)
      ≡ true
    → (if str_eq q.mode "tailscale" then owns ifaces q.bind_addr else true) ≡ true
    → (str_eq q.mode "local" || not (length (trim_space q.acknowledged_by) == 0)) ≡ true
    → success q ≡ success r
    → is_safe ifaces r ≡ true
unfolding is_safe
all_checks ifaces r q port addr member named e =
    same_safe ifaces q r e (ground (arith, port, addr, member, named))

fields-is_safe :
    (net : Netip) (ifaces : List Addr) (mode : String) (raw_addr : Bytes) (raw_port : ℤ)
    (ack : Bytes) (r : RemoteAccess)
    → validate_fields net ifaces mode raw_addr raw_port ack ≡ ok r
    → is_safe ifaces r ≡ true
unfolding validate_fields
fields-is_safe net ifaces mode raw_addr raw_port ack r h =
    let (m, h1) = then-ok (guard (is_valid_mode mode) _) _ r h in
    let (named, h2) =
      then-ok (guard (str_eq mode "local" || not (length (trim_space ack) == 0)) _) _ r h1 in
    let (port, p, h3) = bind-ok (check_port raw_port) _ r h2 in
    let (addr, a, h4) = bind-ok (parse_bind_addr net raw_addr) _ r h3 in
    let (fits, h5) = then-ok (check_mode_addr_allow_set mode addr) _ r h4 in
    let (member, e) =
      then-ok (if str_eq mode "tailscale" then check_tailscale_interface addr ifaces else ok tt) _ r
        h5 in
    all_checks ifaces r _ (port-bounds raw_port port p) (allowed mode addr fits)
      (is_member mode addr ifaces member) (guarded _ _ named) e

validate-is_safe :
    (net : Netip) (b : RawBlock) (ifaces : List Addr) (r : RemoteAccess)
    → validate net b ifaces ≡ ok r
    → is_safe ifaces r ≡ true
unfolding validate
validate-is_safe net b ifaces r h =
    let (mode, m, h1) = bind-ok (field "mode" b.mode) _ r h in
    let (addr, a, h2) = bind-ok (field "bind_addr" b.bind_addr) _ r h1 in
    let (port, p, h3) = bind-ok (field "bind_port" b.bind_port) _ r h2 in
    fields-is_safe net ifaces mode addr port (or_empty b.acknowledged_by) r h3

or_default-is_safe :
    (net : Netip) (ifaces : List Addr) (o : Option RawBlock) (r : RemoteAccess)
    → or_default net ifaces o ≡ ok r
    → is_safe ifaces r ≡ true
unfolding or_default
or_default-is_safe net ifaces none r h =
    same_safe ifaces default_local r h
      (unfold is_safe in unfold is_loopback in unfold addr_eq in refl)
or_default-is_safe net ifaces (some b) r h = validate-is_safe net b ifaces r h

-- Whatever the configuration file holds and whatever the address parsers make of it, a daemon that
-- starts listens on a port from 1 to 65535 and on a loopback address, or, in the tailscale mode, on a
-- tailnet address of one of its own interfaces; and every mode but local carries a name.
pub load-is_safe :
    (net : Netip) (config : ConfigFile) (ifaces : List Addr) (r : RemoteAccess)
    → load net config ifaces ≡ ok r
    → is_safe ifaces r ≡ true
unfolding load
load-is_safe net config ifaces r h =
    let (o, c, g) = bind-ok (read_config config) _ r h in or_default-is_safe net ifaces o r g

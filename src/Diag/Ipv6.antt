-- ===== src/Diag/Ipv6.antt =====
-- Traffic that goes past the proxy: balena/network-config/internal/diag/ipv6.go. The names in
-- /sys/class/net and the addresses of an interface are what one check is answered.
use nf_sdk.Base.{
  Bool, true, false, ◌&&◌, ◌||◌, not, Option, none, some, List, [], ◌∷◌, ◌++◌, Text, codes, text_eq,
  starts_with, if◌then◌else◌,
}

-- A `net.Addr` of an interface: whether it is an `*net.IPNet`, and what the code asks of its IP.
pub record InterfaceAddress : Type 0 where
  pub is_net : Bool
  pub is_ipv4 : Bool
  pub is_link_local : Bool
  pub is_loopback : Bool
  pub ip : Text

pub record Ipv6Bypass : Type 0 where
  pub has_global_ipv6 : Bool
  pub addresses : List Text
  -- whether there is advice
  pub advice : Bool

unfoldable pub is_virtual : Text → Bool
unfolding text_eq starts_with
is_virtual name =
    text_eq name (codes "lo")
    || starts_with name (codes "veth")
    || starts_with name (codes "br-")
    || starts_with name (codes "balena")
    || starts_with name (codes "resin-")
    || starts_with name (codes "docker")

unfoldable pub host_names : List Text → List Text
unfolding is_virtual
host_names [] = []
host_names (name ∷ names) =
    let rest = host_names names in if is_virtual name then rest else name ∷ rest

unfoldable pub host_interfaces : Option (List Text) → List Text
unfolding host_names
host_interfaces none = []
host_interfaces (some names) = host_names names

unfoldable pub is_global_ipv6 : InterfaceAddress → Bool
is_global_ipv6 a = a.is_net && not a.is_ipv4 && not (a.is_link_local || a.is_loopback)

unfoldable pub note_address : Text → InterfaceAddress → Ipv6Bypass → Ipv6Bypass
unfolding is_global_ipv6
note_address name a out =
    if is_global_ipv6 a
    then record out {
      has_global_ipv6 = true;
      addresses = out.addresses ++ (name ++ (codes " " ++ a.ip)) ∷ [];
    }
    else out

unfoldable pub note_addresses : Text → List InterfaceAddress → Ipv6Bypass → Ipv6Bypass
unfolding note_address
note_addresses name [] out = out
note_addresses name (a ∷ more) out = note_addresses name more (note_address name a out)

-- The addresses of an interface that is found and can be read.
unfoldable pub note_interface : Text → Option (List InterfaceAddress) → Ipv6Bypass → Ipv6Bypass
unfolding note_addresses
note_interface name none out = out
note_interface name (some a) out = note_addresses name a out

unfoldable pub note_interfaces :
    (Text → Option (List InterfaceAddress)) → List Text → Ipv6Bypass → Ipv6Bypass
unfolding note_interface
note_interfaces addresses_of [] out = out
note_interfaces addresses_of (name ∷ names) out =
    note_interfaces addresses_of names (note_interface name (addresses_of name) out)

unfoldable pub check_ipv6_bypass :
    (Text → Option (List InterfaceAddress)) → Option (List Text) → Bool → Ipv6Bypass
unfolding note_interfaces host_interfaces
check_ipv6_bypass addresses_of names proxy_configured =
    let out =
      note_interfaces addresses_of (host_interfaces names)
        (record { has_global_ipv6 = false; addresses = []; advice = false }) in
    record out { advice = out.has_global_ipv6 && proxy_configured }

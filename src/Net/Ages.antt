-- ===== src/Net/Ages.antt =====
-- net_mode.rs: preferences that were written before they had all of their flags.
use hash_chat.Prelude.{
  ◌≤◌, ◌≡◌, refl, Bool, true, false, ◌&&◌, [], ◌++◌, length, length-append, inl, inr, arith, ok,
  ◌>>=◌,
}
use hash_chat.Prelude.Bytes.{Bytes}
use hash_chat.Net.{NetConfig, mode_str, dns_str, posture_str, is_custom, lacks_address}
use hash_chat.Net.Lock.{IsLocked}
use hash_chat.Net.Persist.{
  from_persist_bytes, to_persist_bytes, read_fields, read_flag, assemble, address_str,
  write_persist_str, flag_str, bridges_bytes,
}
use hash_chat.Net.RoundTrip.{
  IsAddress, read_write, mode-IsShort, dns-IsShort, posture-IsShort, address-IsShort, mode_back,
  dns_back, posture_back, address_back, blank_address, flag_read, bridges_read, fields_of,
  forced_same, finish,
}

-- without the two flags, without the one for bridges, or as they are written now
pub data Age : Type 0 where
  flagless bridgeless current : Age

abbrev pub isolation_at : Age → Bool → Bool
isolation_at flagless b = true
isolation_at bridgeless b = b
isolation_at current b = b

abbrev pub bridges_at : Age → Bool → Bool
bridges_at flagless b = false
bridges_at bridgeless b = false
bridges_at current b = b

-- what preferences of an age say: the flags that they lack have their defaults
abbrev pub aged : Age → NetConfig → NetConfig
aged age net = record net {
  socks_isolation = isolation_at age net.socks_isolation;
  require_bridges = bridges_at age net.require_bridges;
}

abbrev pub last_bytes : Age → NetConfig → Bytes
last_bytes flagless net = []
last_bytes bridgeless net = []
last_bytes current net = bridges_bytes net.require_bridges

abbrev pub flags_bytes : Age → NetConfig → Bytes
flags_bytes flagless net = []
flags_bytes bridgeless net = write_persist_str (flag_str net.socks_isolation) ++ []
flags_bytes current net =
    write_persist_str (flag_str net.socks_isolation) ++ bridges_bytes net.require_bridges

unfoldable pub prefs_bytes : Age → NetConfig → Bytes
prefs_bytes age net =
    write_persist_str (mode_str net.mode)
    ++ (write_persist_str (dns_str net.dns)
        ++ (write_persist_str (address_str net.custom_dns)
            ++ (write_persist_str (posture_str net.posture) ++ flags_bytes age net)))

pub current_bytes : (net : NetConfig) → prefs_bytes current net ≡ to_persist_bytes net
unfolding prefs_bytes to_persist_bytes
current_bytes net = refl

isolation_read :
    (age : Age) (net : NetConfig)
    → read_flag true (flags_bytes age net)
      ≡ ok (isolation_at age net.socks_isolation, last_bytes age net)
unfolding read_flag
isolation_read flagless net = refl
isolation_read bridgeless net = flag_read true net.socks_isolation []
isolation_read current net = flag_read true net.socks_isolation (bridges_bytes net.require_bridges)

last_read :
    (age : Age) (net : NetConfig)
    → read_flag false (last_bytes age net) ≡ ok (bridges_at age net.require_bridges, [])
unfolding read_flag
last_read flagless net = refl
last_read bridgeless net = refl
last_read current net = bridges_read net.require_bridges

fields_read :
    (age : Age) (net : NetConfig)
    → IsAddress net.custom_dns
    → read_fields (prefs_bytes age net) ≡ ok (fields_of (aged age net))
unfolding read_fields prefs_bytes fields_of
fields_read age net a =
    rw
      (
        read_write (mode_str net.mode) _ (mode-IsShort net.mode),
        ◌>>=◌,
        read_write (dns_str net.dns) _ (dns-IsShort net.dns),
        read_write (address_str net.custom_dns) _ (address-IsShort net.custom_dns a),
        read_write (posture_str net.posture) _ (posture-IsShort net.posture),
        isolation_read age net,
        last_read age net,
      )
      refl

aged-IsLocked : (age : Age) (net : NetConfig) → IsLocked net → IsLocked (aged age net)
aged-IsLocked flagless net v = elim v.locked [
  | inl s ↦ record { locked = inl s }
  | inr (x, m, i) ↦ record { locked = inr (x, m, refl) }
]
aged-IsLocked bridgeless net v = record { locked = v.locked }
aged-IsLocked current net v = record { locked = v.locked }

-- preferences of any age load, unless a custom DNS lacks its address
pub aged_lem :
    (age : Age) (net : NetConfig)
    → IsLocked net
    → IsAddress net.custom_dns
    → (is_custom net.dns && lacks_address net.custom_dns) ≡ false
    → from_persist_bytes (prefs_bytes age net) ≡ ok (aged age net)
unfolding from_persist_bytes assemble fields_of
aged_lem age net v a set =
    rw
      (
        fields_read age net a,
        ◌>>=◌,
        mode_back net.mode,
        dns_back net.dns,
        posture_back net.posture,
        blank_address net.custom_dns,
        address_back net.custom_dns a,
        set,
      )
      (finish false (forced_same (aged age net) (aged-IsLocked age net v) net.posture refl))

longer : (front xs ys : Bytes) → length xs ≤ length ys → length (front ++ xs) ≤ length (front ++ ys)
longer front xs ys h = omega (arith, length-append front xs, length-append front ys, h)

flags_le :
    (age : Age) (net : NetConfig) → length (flags_bytes age net) ≤ length (flags_bytes current net)
flags_le flagless net = omega arith
flags_le bridgeless net =
    longer (write_persist_str (flag_str net.socks_isolation)) _ _ (omega arith)
flags_le current net = omega arith

pub length-prefs_bytes :
    (age : Age) (net : NetConfig) → length (prefs_bytes age net) ≤ length (to_persist_bytes net)
unfolding prefs_bytes to_persist_bytes
length-prefs_bytes age net = longer (write_persist_str (mode_str net.mode)) _ _ (
    longer (write_persist_str (dns_str net.dns)) _ _ (
      longer (write_persist_str (address_str net.custom_dns)) _ _
        (longer (write_persist_str (posture_str net.posture)) _ _ (flags_le age net))))

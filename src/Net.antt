-- ===== src/Net.antt =====
-- src/rust/net_mode.rs: network preferences and the posture that locks them.
pub mod Persist
pub mod Lock
pub mod RoundTrip
pub mod Ages
use hash_chat.Prelude.{
  Bool, true, false, not, ◌&&◌, ◌||◌, Option, none, some, if◌then◌else◌, Result, ok, err, panic,
  ◌>>=◌,
}
use hash_chat.Prelude.Utf8.{Text, chars, same_text, is_blank, trim, to_ascii_lowercase}

pub data NetworkMode : Type 0 where
  tor i2p clearnet : NetworkMode

pub data DnsPreference : Type 0 where
  system quad9 custom : DnsPreference

pub data PostureProfile : Type 0 where
  standard extreme : PostureProfile

pub data NetModeError : Type 0 where
  invalid_mode invalid_dns invalid_posture extreme_tor_only extreme_socks_isolation : NetModeError
  extreme_contact_export extreme_groups extreme_voice custom_dns_required : NetModeError
  i2p_not_implemented clearnet_refused : NetModeError

-- `NetworkMode::as_str` and `NetworkMode::parse_token`
unfoldable pub mode_str : NetworkMode → Text
unfolding chars
mode_str tor = chars "tor"
mode_str i2p = chars "i2p"
mode_str clearnet = chars "clearnet"

unfoldable pub parse_mode : Text → Result NetModeError NetworkMode
parse_mode s =
    let t = to_ascii_lowercase (trim s) in
    if same_text t (chars "tor") || same_text t (chars "onion")
    then ok tor
    else if same_text t (chars "i2p") || same_text t (chars "garlic")
    then ok i2p
    else if same_text t (chars "clearnet")
        || same_text t (chars "clear")
        || same_text t (chars "direct")
    then ok clearnet
    else err invalid_mode

-- `DnsPreference::as_str` and `DnsPreference::parse_token`
unfoldable pub dns_str : DnsPreference → Text
unfolding chars
dns_str system = chars "system"
dns_str quad9 = chars "quad9"
dns_str custom = chars "custom"

unfoldable pub parse_dns : Text → Result NetModeError DnsPreference
parse_dns s =
    let t = to_ascii_lowercase (trim s) in
    if same_text t (chars "system") || same_text t (chars "os") || same_text t (chars "default")
    then ok system
    else if same_text t (chars "quad9") || same_text t (chars "9.9.9.9")
    then ok quad9
    else if same_text t (chars "custom")
    then ok custom
    else err invalid_dns

-- `PostureProfile::as_str`, `PostureProfile::parse_token` and `PostureProfile::locks_tor_only`
unfoldable pub posture_str : PostureProfile → Text
unfolding chars
posture_str standard = chars "standard"
posture_str extreme = chars "extreme"

unfoldable pub parse_posture : Text → Result NetModeError PostureProfile
parse_posture s =
    let t = to_ascii_lowercase (trim s) in
    if same_text t (chars "standard")
      || same_text t (chars "normal")
      || same_text t (chars "default")
    then ok standard
    else if same_text t (chars "extreme") || same_text t (chars "paranoid")
    then ok extreme
    else err invalid_posture

abbrev pub locks_tor_only : PostureProfile → Bool
locks_tor_only standard = false
locks_tor_only extreme = true

pub record NetConfig : Type 0 where
  pub mode : NetworkMode
  pub dns : DnsPreference
  pub custom_dns : Option Text
  pub posture : PostureProfile
  pub socks_isolation : Bool
  pub require_bridges : Bool

abbrev pub default : NetConfig
default = record {
  mode = tor;
  dns = system;
  custom_dns = none;
  posture = standard;
  socks_isolation = true;
  require_bridges = false;
}

abbrev pub is_tor : NetworkMode → Bool
is_tor tor = true
is_tor i2p = false
is_tor clearnet = false

abbrev pub is_custom : DnsPreference → Bool
is_custom system = false
is_custom quad9 = false
is_custom custom = true

-- the choices that a posture forces
abbrev pub force : PostureProfile → NetConfig → NetConfig
force standard cfg = cfg
force extreme cfg = record cfg { mode = tor; socks_isolation = true }

-- the process environment, at the names that start with `HASHCHAT_`
pub record Env : Type 0 where
  pub net_mode : Option Text
  pub dns : Option Text
  pub dns_custom : Option Text
  pub extreme_set : Bool
  pub posture : Option Text

or_else {ℓ} : {A : Type ℓ} → Result NetModeError A → A → A
or_else (ok a) d = a
or_else (err e) d = d
or_else panic d = d

-- an unknown token leaves the default
read_env {ℓ} : {A : Type ℓ} → (Text → Result NetModeError A) → Option Text → A → A
unfolding or_else
read_env parse none d = d
read_env parse (some v) d = or_else (parse v) d

env_custom : Option Text → NetConfig → NetConfig
env_custom none cfg = cfg
env_custom (some v) cfg =
    let t = trim v in
    if not (is_blank t) then record cfg { custom_dns = some t; dns = custom } else cfg

unfoldable pub set_posture : PostureProfile → NetConfig → NetConfig
set_posture posture cfg = force posture (record cfg { posture = posture })

-- the preferences before the posture is looked at
unfoldable pub env_start : Env → NetConfig
unfolding read_env env_custom
env_start env = env_custom env.dns_custom (record default {
  mode = read_env parse_mode env.net_mode tor;
  dns = read_env parse_dns env.dns system;
})

unfoldable pub env_posture : Env → PostureProfile
unfolding read_env
env_posture env = read_env parse_posture env.posture (if env.extreme_set then extreme else standard)

unfoldable pub from_env : Env → NetConfig
from_env env = set_posture (env_posture env) (env_start env)

unfoldable pub set_mode : NetworkMode → NetConfig → Result NetModeError (Unit {0}) × NetConfig
set_mode mode cfg =
    if locks_tor_only cfg.posture && not (is_tor mode)
    then (err extreme_tor_only, cfg)
    else (ok tt, record cfg { mode = mode })

-- `self.custom_dns.as_ref().map(|s| s.is_empty()).unwrap_or(true)`
abbrev pub lacks_address : Option Text → Bool
lacks_address none = true
lacks_address (some s) = is_blank s

-- what a custom preference stores, or none if there is no address
unfoldable pub address_for : Option Text → Option Text → Option (Option Text)
address_for none stored = if lacks_address stored then none else some stored
address_for (some addr) stored =
    if not (is_blank (trim addr))
    then some (some (trim addr))
    else if lacks_address stored
    then none
    else some stored

set_custom : Option (Option Text) → NetConfig → Result NetModeError (Unit {0}) × NetConfig
set_custom none cfg = (err custom_dns_required, cfg)
set_custom (some stored) cfg = (ok tt, record cfg { custom_dns = stored; dns = custom })

unfoldable pub set_dns :
    DnsPreference → Option Text → NetConfig → Result NetModeError (Unit {0}) × NetConfig
unfolding set_custom address_for
set_dns custom address cfg = set_custom (address_for address cfg.custom_dns) cfg
set_dns system address cfg = (ok tt, record cfg { custom_dns = none; dns = system })
set_dns quad9 address cfg = (ok tt, record cfg { custom_dns = none; dns = quad9 })

unfoldable pub set_socks_isolation : Bool → NetConfig → Result NetModeError (Unit {0}) × NetConfig
set_socks_isolation on cfg =
    if locks_tor_only cfg.posture && not on
    then (err extreme_socks_isolation, cfg)
    else (ok tt, record cfg { socks_isolation = on })

unfoldable pub socks_isolation_enabled : NetConfig → Bool
socks_isolation_enabled cfg = if locks_tor_only cfg.posture then true else cfg.socks_isolation

unfoldable pub require_messenger_transport : NetConfig → Result NetModeError (Unit {0})
require_messenger_transport cfg = elim cfg.mode [
  | tor ↦ ok tt
  | i2p ↦ err i2p_not_implemented
  | clearnet ↦ err clearnet_refused
]

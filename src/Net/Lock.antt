-- ===== src/Net/Lock.antt =====
-- net_mode.rs: the locks of the extreme posture.
use hash_chat.Prelude.{
  ◌≡◌, refl, Bool, true, false, not, ◌&&◌, Option, none, some, ◌⊎◌, inl, inr, Result, ok,
  Bool-cases, >>=-eq-ok, refuse_if, subst,
}
use hash_chat.Prelude.Bytes.{Bytes}
use hash_chat.Prelude.Utf8.{Text, is_blank}
use hash_chat.Net.{
  NetConfig, NetworkMode, DnsPreference, PostureProfile, NetModeError, Env, tor, i2p, clearnet,
  system, quad9, custom, standard, extreme, force, from_env, set_mode, set_dns, set_custom,
  address_for, set_posture, env_posture, env_start, set_socks_isolation, locks_tor_only, is_tor,
  is_custom, parse_mode, parse_dns, parse_posture, custom_dns_required,
}
use hash_chat.Net.Persist.{from_persist_bytes, read_fields, assemble, Fields, address_of}

-- The posture is standard, or the transport is Tor with isolated streams.
pub record IsLocked (cfg : NetConfig) : Type 0 where
  pub locked :
      (cfg.posture ≡ standard)
      ⊎ ((cfg.posture ≡ extreme) × (cfg.mode ≡ tor) × (cfg.socks_isolation ≡ true))

-- One change of the preferences.
pub data Change : NetConfig → NetConfig → Type 0 where
  sets_mode : {cfg : NetConfig} (mode : NetworkMode) → Change cfg (set_mode mode cfg).1
  sets_dns :
      {cfg : NetConfig} (dns : DnsPreference) (address : Option Text)
      → Change cfg (set_dns dns address cfg).1
  sets_posture : {cfg : NetConfig} (posture : PostureProfile) → Change cfg (set_posture posture cfg)
  sets_isolation : {cfg : NetConfig} (on : Bool) → Change cfg (set_socks_isolation on cfg).1
  requires_bridges :
      {cfg : NetConfig} (on : Bool) → Change cfg (record cfg { require_bridges = on })
  restores : {cfg e : NetConfig} (buf : Bytes) → from_persist_bytes buf ≡ ok e → Change cfg e

pub data Changes (cfg : NetConfig) : NetConfig → Type 0 where
  unchanged : Changes cfg cfg
  after : {d e : NetConfig} → Changes cfg d → Change d e → Changes cfg e

force-IsLocked : (p : PostureProfile) (cfg : NetConfig) → cfg.posture ≡ p → IsLocked (force p cfg)
force-IsLocked standard cfg e = record { locked = inl e }
force-IsLocked extreme cfg e = record { locked = inr (e, refl, refl) }

set_posture-IsLocked : (p : PostureProfile) (cfg : NetConfig) → IsLocked (set_posture p cfg)
unfolding set_posture
set_posture-IsLocked p cfg = force-IsLocked p (record cfg { posture = p }) refl

from_env-IsLocked : (env : Env) → IsLocked (from_env env)
unfolding from_env
from_env-IsLocked env = set_posture-IsLocked (env_posture env) (env_start env)

tor_is : (m : NetworkMode) → is_tor m ≡ true → m ≡ tor
tor_is tor h = refl
tor_is i2p h = cc
tor_is clearnet h = cc

standard_is : (p : PostureProfile) → locks_tor_only p ≡ false → p ≡ standard
standard_is standard h = refl
standard_is extreme h = cc

-- in the extreme posture, a lock that lets a value through lets only the safe one through
let_through :
    (p : PostureProfile) (safe : Bool)
    → locks_tor_only p && not safe ≡ false
    → (p ≡ standard) ⊎ (safe ≡ true)
let_through standard safe h = inl refl
let_through extreme true h = inr refl
let_through extreme false h = cc

set_mode-IsLocked :
    (mode : NetworkMode) (cfg : NetConfig) → IsLocked cfg → IsLocked (set_mode mode cfg).1
unfolding set_mode
set_mode-IsLocked mode cfg v = elim (Bool-cases (locks_tor_only cfg.posture && not (is_tor mode))) [
  | inl refused ↦ rw refused v
  | inr passed ↦ rw passed (record {
    locked = elim v.locked [
      | inl s ↦ inl s
      | inr (x, m, i) ↦ elim (let_through cfg.posture (is_tor mode) passed) [
        | inl s ↦ inl s
        | inr t ↦ inr (x, tor_is mode t, i)
      ]
    ];
  })
]

set_isolation-IsLocked :
    (on : Bool) (cfg : NetConfig) → IsLocked cfg → IsLocked (set_socks_isolation on cfg).1
unfolding set_socks_isolation
set_isolation-IsLocked on cfg v = elim (Bool-cases (locks_tor_only cfg.posture && not on)) [
  | inl refused ↦ rw refused v
  | inr passed ↦ rw passed (record {
    locked = elim v.locked [
      | inl s ↦ inl s
      | inr (x, m, i) ↦ elim (let_through cfg.posture on passed) [
        | inl s ↦ inl s
        | inr t ↦ inr (x, m, t)
      ]
    ];
  })
]

set_custom-IsLocked :
    (o : Option (Option Text)) (cfg : NetConfig) → IsLocked cfg → IsLocked (set_custom o cfg).1
unfolding set_custom
set_custom-IsLocked none cfg v = v
set_custom-IsLocked (some stored) cfg v = record { locked = v.locked }

set_dns-IsLocked :
    (dns : DnsPreference) (address : Option Text) (cfg : NetConfig)
    → IsLocked cfg
    → IsLocked (set_dns dns address cfg).1
unfolding set_dns
set_dns-IsLocked custom address cfg v =
    set_custom-IsLocked (address_for address cfg.custom_dns) cfg v
set_dns-IsLocked system address cfg v = record { locked = v.locked }
set_dns-IsLocked quad9 address cfg v = record { locked = v.locked }

assemble-IsLocked : (f : Fields) {cfg : NetConfig} → assemble f ≡ ok cfg → IsLocked cfg
unfolding assemble
assemble-IsLocked f {cfg} h =
    let (mode, parsed, h) = >>=-eq-ok (parse_mode f.mode_s) _ h in
    let (dns, parsed, h) = >>=-eq-ok (parse_dns f.dns_s) _ h in
    let (posture, parsed, h) = >>=-eq-ok (parse_posture f.posture_s) _ h in
    let (passed, checked, h) =
      >>=-eq-ok (refuse_if (is_custom dns && is_blank f.custom_s) custom_dns_required) _ h in
    let built : NetConfig = record {
      mode = mode;
      dns = dns;
      custom_dns = address_of f.custom_s;
      posture = posture;
      socks_isolation = f.socks_isolation;
      require_bridges = f.require_bridges;
    } in
    let same : force posture built ≡ cfg = ok-inj h in
    subst IsLocked same (force-IsLocked posture built refl)
  where
    ok-inj : {a b : NetConfig} → Path (Result NetModeError NetConfig) (ok a) (ok b) → a ≡ b
    ok-inj e = cc

restored-IsLocked : (buf : Bytes) {cfg : NetConfig} → from_persist_bytes buf ≡ ok cfg → IsLocked cfg
unfolding from_persist_bytes
restored-IsLocked buf h =
    let (f, reads, h) = >>=-eq-ok (read_fields buf) assemble h in assemble-IsLocked f h

Change-IsLocked : {cfg e : NetConfig} → Change cfg e → IsLocked cfg → IsLocked e
Change-IsLocked {cfg} (sets_mode mode) v = set_mode-IsLocked mode cfg v
Change-IsLocked {cfg} (sets_dns dns address) v = set_dns-IsLocked dns address cfg v
Change-IsLocked {cfg} (sets_posture posture) v = set_posture-IsLocked posture cfg
Change-IsLocked {cfg} (sets_isolation on) v = set_isolation-IsLocked on cfg v
Change-IsLocked (requires_bridges on) v = record { locked = v.locked }
Change-IsLocked (restores buf h) v = restored-IsLocked buf h

-- From any environment, through any sequence of changes and restored preferences, a configuration
-- in the extreme posture is on Tor with isolated streams.
pub extreme_stays-IsLocked :
    (env : Env) {cfg : NetConfig} → Changes (from_env env) cfg → IsLocked cfg
extreme_stays-IsLocked env unchanged = from_env-IsLocked env
extreme_stays-IsLocked env (after run change) =
    Change-IsLocked change (extreme_stays-IsLocked env run)

-- ===== src/SessionPersist/Codec/Options.antt =====
-- session_persist.rs and wipe_settings.rs: the optional fields of a blob, and the fields that are
-- checked when they are read.
use hash_chat.Prelude.{
  ℕ, min, ◌+◌, ◌^◌, ◌≤◌, ◌<◌, ◌≡◌, refl, ap, Bool, true, false, ◌&&◌, Option, none, some, [], ◌∷◌,
  ◌++◌, length, length-append, length-replicate, take, drop, replicate, if◌then◌else◌, Result, ok,
  ◌>>=◌, arith,
}
use hash_chat.Prelude.Bytes.{Bytes, be32, length-be32, from_be_bytes, from_be_bytes-be32}
use hash_chat.Net.{NetConfig, is_custom, lacks_address}
use hash_chat.Net.Lock.{IsLocked}
use hash_chat.Net.RoundTrip.{IsAddress}
use hash_chat.Net.Ages.{Age, aged, prefs_bytes, aged_lem, length-prefs_bytes}
use hash_chat.Net.Persist.{to_persist_bytes}
use hash_chat.SendJitter.{max_send_jitter_secs}
use hash_chat.Invites.{PendingInvites, from_bytes}
use hash_chat.SessionPersist.{WipeSettings}
use hash_chat.SessionPersist.Codec.{
  BlobError, truncated_wipe, truncated_save, bad_wipe_flag, bad_save_flag, truncated_jitter,
  write_len_bytes, since, wipe_bytes, wipe_of, optional_bytes, flagged, read_optional, map_option,
  read_wipe, read_save_id, read_prefs, read_jitter, read_invites,
}
use hash_chat.SessionPersist.Codec.Fields.{Reads, fixed-Reads, word-Reads, bytes-Reads}

-- a value of `n` bytes, if there is one
abbrev pub IsSized : ℕ → Option Bytes → Type 0
IsSized n none = Unit
IsSized n (some b) = length b ≡ n

pub optional-Reads :
    (n : ℕ) (t e : BlobError) (o : Option Bytes)
    → IsSized n o
    → Reads (read_optional n t e) (optional_bytes n o) o
unfolding read_optional optional_bytes flagged from_be_bytes
optional-Reads n t e none v rest =
    rw
      (
        fixed-Reads (1 + n) t (0 ∷ replicate n 0) (omega (arith, length-replicate {A = ℕ} n 0))
            rest,
        ◌>>=◌,
      )
      refl
optional-Reads n t e (some b) v rest =
    rw (fixed-Reads (1 + n) t (1 ∷ b) (omega (arith, v)) rest, ◌>>=◌) refl

pub record IsWipe (w : WipeSettings) : Type 0 where
  pub days : w.deadman_days < 2 ^ 32
  pub limit : w.failwipe_limit < 2 ^ 32
  pub digest : length w.duress_digest ≡ 32

abbrev pub IsWipes : Option WipeSettings → Type 0
IsWipes none = Unit
IsWipes (some w) = IsWipe w

take_word : (n : ℕ) (t : Bytes) → take 4 (be32 n ++ t) ≡ be32 n
unfolding be32
take_word n t = refl

drop_word : (n : ℕ) (t : Bytes) → drop 4 (be32 n ++ t) ≡ t
unfolding be32
drop_word n t = refl

drop_words : (m n : ℕ) (t : Bytes) → drop 8 (be32 m ++ (be32 n ++ t)) ≡ t
unfolding be32
drop_words m n t = refl

wipe_back : (w : WipeSettings) → IsWipe w → wipe_of (wipe_bytes w) ≡ w
unfolding wipe_of wipe_bytes
wipe_back w v =
    rw
      (
        take_word w.deadman_days (be32 w.failwipe_limit ++ w.duress_digest),
        drop_word w.deadman_days (be32 w.failwipe_limit ++ w.duress_digest),
        take_word w.failwipe_limit w.duress_digest,
        drop_words w.deadman_days w.failwipe_limit w.duress_digest,
        from_be_bytes-be32 w.deadman_days v.days,
        from_be_bytes-be32 w.failwipe_limit v.limit,
      )
      refl

length-wipe_bytes : (w : WipeSettings) → IsWipe w → length (wipe_bytes w) ≡ 40
unfolding wipe_bytes
length-wipe_bytes w v = omega (
  arith,
  length-append (be32 w.deadman_days) (be32 w.failwipe_limit ++ w.duress_digest),
  length-append (be32 w.failwipe_limit) w.duress_digest,
  length-be32 w.deadman_days,
  length-be32 w.failwipe_limit,
  v.digest,
)

wipes-IsSized : (o : Option WipeSettings) → IsWipes o → IsSized 40 (map_option wipe_bytes o)
wipes-IsSized none v = tt
wipes-IsSized (some w) v = length-wipe_bytes w v

wipes_back :
    (o : Option WipeSettings) → IsWipes o → map_option wipe_of (map_option wipe_bytes o) ≡ o
wipes_back none v = refl
wipes_back (some w) v = ap some (wipe_back w v)

pub wipe-Reads :
    (o : Option WipeSettings)
    → IsWipes o
    → Reads read_wipe (optional_bytes 40 (map_option wipe_bytes o)) o
unfolding read_wipe
wipe-Reads o v rest =
    rw
      (
        optional-Reads 40 truncated_wipe bad_wipe_flag (map_option wipe_bytes o) (wipes-IsSized o v)
            rest,
        ◌>>=◌,
        wipes_back o v,
      )
      refl

pub save_id-Reads : (o : Option Bytes) → IsSized 16 o → Reads read_save_id (optional_bytes 16 o) o
unfolding read_save_id
save_id-Reads o v = optional-Reads 16 truncated_save bad_save_flag o v

-- Preferences that a blob can hold: they obey their posture, the address, if any, is not empty, and a
-- custom DNS has one.
pub record IsPrefs (net : NetConfig) : Type 0 where
  pub size : length (to_persist_bytes net) < 2 ^ 32
  pub locked : IsLocked net
  pub address : IsAddress net.custom_dns
  pub custom_set : (is_custom net.dns && lacks_address net.custom_dns) ≡ false

pub prefs-Reads :
    (age : Age) (net : NetConfig)
    → IsPrefs net
    → Reads read_prefs (write_len_bytes (prefs_bytes age net)) (aged age net)
unfolding read_prefs
prefs-Reads age net v rest =
    rw
      (
        bytes-Reads (prefs_bytes age net) (omega (arith, length-prefs_bytes age net, v.size)) rest,
        ◌>>=◌,
        aged_lem age net v.locked v.address v.custom_set,
      )
      refl

pub jitter-Reads : (n : ℕ) → n ≤ max_send_jitter_secs → Reads read_jitter (be32 n) n
unfolding read_jitter
jitter-Reads n h rest =
    let capped : min n max_send_jitter_secs ≡ n = omega (arith, h) in
    rw (word-Reads truncated_jitter n (omega (arith, h)) rest, ◌>>=◌, capped) refl

-- a record of open invites
pub record IsInvites (raw : Bytes) : Type 0 where
  pub size : length raw < 2 ^ 32
  pub book : PendingInvites
  pub opens : from_bytes raw ≡ ok book

pub invites-Reads : (raw : Bytes) → IsInvites raw → Reads read_invites (write_len_bytes raw) raw
unfolding read_invites
invites-Reads raw v rest = rw (bytes-Reads raw v.size rest, ◌>>=◌, v.opens) refl

-- a field that is written, and read, since some version
pub since-Reads :
    {A : Type 0} (b : Bool) (absent a : A) (read : Bytes → Result BlobError (A × Bytes))
    (bytes : Bytes)
    → Reads read bytes a
    → Reads (since b absent read) (if b then bytes else []) (if b then a else absent)
unfolding since
since-Reads true absent a read bytes h rest = h rest
since-Reads false absent a read bytes h rest = refl

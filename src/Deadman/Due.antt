-- ===== src/Deadman/Due.antt =====
-- deadman.rs: when a store is wiped that was unlocked a number of times.
use hash_chat.Prelude.{
  ℕ, min, ◌+◌, ◌-◌, ◌*◌, ◌^◌, ◌≤◌, ◌<◌, ◌≡◌, refl, ◌∙◌, ap, subst, Bool, true, false, not, ◌&&◌,
  ◌||◌, Option, none, some, List, [], ◌∷◌, length, leb, if◌then◌else◌, Result, ok, err, panic,
  Bool-cases, inl, inr, All, arith,
}
use hash_chat.Prelude.Words.{same_text_refl}
use hash_chat.Prelude.Plain.{IsPlain}
use hash_chat.Prelude.Decimal.{length-decimal}
use hash_chat.Prelude.Fields.{parse-decimal}
use hash_chat.Prelude.Line.{from_utf8-line, split-line, length-line}
use hash_chat.PrivateFile.{Storage, Calls, Answer, is_loose, is_present, write_private_file}
use hash_chat.PrivateFile.Held.{held, Holds, write_lem, write_again, read_held}
use hash_chat.Deadman.{
  DeadmanConfig, SetError, bad_days, magic, max_file_bytes, is_days, encode, decode, decode_parts,
  decoded, deadman_config, written, set_deadman, touched, touch_deadman, remaining_secs, is_due,
  due_at, wipe_if_deadman_due,
}

-- a setting that the file may hold
record IsSetting (cfg : DeadmanConfig) : Type 0 where
  least : 1 ≤ cfg.days
  most : cfg.days ≤ 365
  word : cfg.last_unlock_unix < 2 ^ 64

magic-IsPlain : All IsPlain magic
unfolding magic
magic-IsPlain = omega arith

in_range : (days : ℕ) → 1 ≤ days → days ≤ 365 → is_days days ≡ true
in_range days lo hi = ground arith

decode-encode : (cfg : DeadmanConfig) → IsSetting cfg → decode (encode cfg) ≡ some cfg
unfolding decode encode decode_parts
decode-encode cfg v =
    rw
      (
        from_utf8-line magic magic-IsPlain cfg.days cfg.last_unlock_unix,
        split-line magic magic-IsPlain cfg.days cfg.last_unlock_unix,
        same_text_refl magic,
        parse-decimal 32 cfg.days (omega (arith, v.most)),
        parse-decimal 64 cfg.last_unlock_unix v.word,
        in_range cfg.days v.least v.most,
      )
      refl

length-encode : (cfg : DeadmanConfig) → IsSetting cfg → length (encode cfg) ≤ max_file_bytes
unfolding encode magic
length-encode cfg v = omega (
  arith,
  length-line magic magic-IsPlain cfg.days cfg.last_unlock_unix,
  length-decimal 2 cfg.days (omega (arith, v.most)),
  length-decimal 19 cfg.last_unlock_unix (omega (arith, v.word)),
)

config_lem :
    (r : Calls) (mode : ℕ) (cfg : DeadmanConfig)
    → is_loose mode ≡ false
    → IsSetting cfg
    → deadman_config r (held mode (encode cfg)) ≡ (
      (if◌then◌else◌ {A = Option DeadmanConfig} r.file_calls (some cfg) none),
      held mode (encode cfg),
    )
unfolding deadman_config decoded
config_lem r mode cfg tight v =
    rw (read_held r mode max_file_bytes (encode cfg) tight (omega arith) (length-encode cfg v))
      (elim (Bool-cases r.file_calls) [
        | inl e ↦ rw (e, decode-encode cfg v) refl
        | inr e ↦ rw e refl
      ])

set_lem :
    (k : Calls) (days now : ℕ) (s : Storage) {after : Storage}
    → now < 2 ^ 64
    → set_deadman k days now s ≡ (ok tt, after)
    → IsSetting (record { days = days; last_unlock_unix = now })
      × Holds after (encode (record { days = days; last_unlock_unix = now }))
unfolding set_deadman written
set_lem k days now s small h = by_days (is_days days) refl h
  where
    setting : (d : ℕ) → is_days d ≡ true → IsSetting (record { days = d; last_unlock_unix = now })
    setting d e = record { least = ground (arith, e); most = ground (arith, e); word = small }

    by_write :
        (a : Answer (Unit {0})) {end : Storage}
        → write_private_file k (encode (record { days = days; last_unlock_unix = now })) s ≡ a
        → written a ≡ (ok tt, end)
        → Holds end (encode (record { days = days; last_unlock_unix = now }))
    by_write (ok u, mid) e g =
        subst (λ z. Holds z (encode (record { days = days; last_unlock_unix = now })))
          (ap (λ a. a.1) g)
          (write_lem k (encode (record { days = days; last_unlock_unix = now })) s e)
    by_write (err x, mid) e g = cc (ap (λ a. a.0) g)
    by_write (panic, mid) e g = cc (ap (λ a. a.0) g)

    by_days :
        (b : Bool) {end : Storage}
        → is_days days ≡ b
        → (if◌then◌else◌ {A = Result SetError (Unit {0}) × Storage}
            (not b)
            (err bad_days, s)
            (written
              (write_private_file k (encode (record { days = days; last_unlock_unix = now })) s)))
          ≡ (ok tt, end)
        → IsSetting (record { days = days; last_unlock_unix = now })
          × Holds end (encode (record { days = days; last_unlock_unix = now }))
    by_days true e g = (setting days e, by_write _ refl g)
    by_days false e g = cc (ap (λ a. a.0) g)

touch_lem :
    (r w : Calls) (mode days last now : ℕ)
    → is_loose mode ≡ false
    → IsSetting (record { days = days; last_unlock_unix = last })
    → now < 2 ^ 64
    → touch_deadman r w now (held mode (encode (record { days = days; last_unlock_unix = last })))
      ≡ held mode (
          encode (record {
            days = days;
            last_unlock_unix = if r.file_calls && w.file_calls then now else last;
          }))
unfolding touch_deadman touched set_deadman written
touch_lem r w mode days last now tight v small =
    rw (config_lem r mode (record { days = days; last_unlock_unix = last }) tight v)
      (elim (Bool-cases r.file_calls) [
        | inr e ↦ rw e refl
        | inl e ↦
            rw
              (
                e,
                touched,
                set_deadman,
                in_range days v.least v.most,
                write_again w mode (encode (record { days = days; last_unlock_unix = last }))
                    (encode (record { days = days; last_unlock_unix = now })) tight
                    (omega (arith, length-encode _ later)),
              )
              (elim (Bool-cases w.file_calls) [ inl k ↦ rw k refl | inr k ↦ rw k refl ])
      ])
  where
    later : IsSetting (record { days = days; last_unlock_unix = now })
    later = record { least = v.least; most = v.most; word = small }

-- an unlock, with the answers to its reading and its writing
pub record Unlock : Type 0 where
  pub at : ℕ
  pub r : Calls
  pub w : Calls

unfoldable pub touch_all : List Unlock → Storage → Storage
unfolding touch_deadman
touch_all [] s = s
touch_all (u ∷ us) s = touch_all us (touch_deadman u.r u.w u.at s)

-- the last unlock whose time could be written down
unfoldable pub last_written : ℕ → List Unlock → ℕ
last_written last [] = last
last_written last (u ∷ us) =
    last_written (if u.r.file_calls && u.w.file_calls then u.at else last) us

all_lem :
    (us : List Unlock) (mode days last : ℕ)
    → is_loose mode ≡ false
    → IsSetting (record { days = days; last_unlock_unix = last })
    → All (λ u. u.at < 2 ^ 64) us
    → (touch_all us (held mode (encode (record { days = days; last_unlock_unix = last })))
        ≡ held mode (encode (record { days = days; last_unlock_unix = last_written last us })))
      × IsSetting (record { days = days; last_unlock_unix = last_written last us })
unfolding touch_all last_written
all_lem [] mode days last tight v h = (refl, v)
all_lem (u ∷ us) mode days last tight v h =
    let kept = if u.r.file_calls && u.w.file_calls then u.at else last in
    let v' : IsSetting (record { days = days; last_unlock_unix = kept }) = record {
      least = v.least;
      most = v.most;
      word = either (u.r.file_calls && u.w.file_calls);
    } in
    let (rest, valid) = all_lem us mode days kept tight v' h.1 in
    (ap (touch_all us) (touch_lem u.r u.w mode days last u.at tight v h.0) ∙ rest, valid)
  where
    either : (b : Bool) → (if b then u.at else last) < 2 ^ 64
    either true = h.0
    either false = v.word

due_iff :
    (days last now : ℕ)
    → last < 2 ^ 64
    → is_due now (record { days = days; last_unlock_unix = last })
      ≡ leb (min (last + days * 86400) (2 ^ 64 - 1)) now
unfolding is_due remaining_secs
due_iff days last now small = ground (arith, small)

-- A store whose switch was set for some days, and which was then unlocked any number of times, is
-- wiped at a start exactly if those days have passed since the last unlock whose time could be
-- written down (or since the setting), counted to the end of 64-bit time at most. If the file cannot
-- be read at that start, it is wiped; if already looking up its name fails, it is not.
pub deadman_lem :
    (k r : Calls) (days now start : ℕ) (s : Storage) {after : Storage} (us : List Unlock)
    → set_deadman k days now s ≡ (ok tt, after)
    → now < 2 ^ 64
    → All (λ u. u.at < 2 ^ 64) us
    → wipe_if_deadman_due r start (touch_all us after) ≡ (
        r.lookup
        && (not r.file_calls || leb (min (last_written now us + days * 86400) (2 ^ 64 - 1)) start))
unfolding wipe_if_deadman_due is_present due_at
deadman_lem k r days now start s {after} us h small words =
    let (v, (mode, tight, same)) = set_lem k days now s small h in
    let (end, valid) = all_lem us mode days now tight v words in
    rw
      (
        ap (touch_all us) same,
        end,
        config_lem r mode (record { days = days; last_unlock_unix = last_written now us }) tight
            valid,
      )
      (elim (Bool-cases r.file_calls) [
        | inl e ↦
            rw (e, due_at, due_iff days (last_written now us) start valid.word)
              (found r.lookup (leb (min (last_written now us + days * 86400) (2 ^ 64 - 1)) start))
        | inr e ↦ rw e (found r.lookup true)
      ])
  where
    found : (b due : Bool) → (if not (b && true) then false else due) ≡ (b && due)
    found true due = refl
    found false due = refl

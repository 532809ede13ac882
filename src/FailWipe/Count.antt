-- ===== src/FailWipe/Count.antt =====
-- failwipe.rs: how many attempts are let through.
use hash_chat.Prelude.{
  ℕ, ◌+◌, ◌≤◌, ◌≡◌, refl, ap, subst, Bool, true, false, not, ◌&&◌, Option, none, some, length, leb,
  if◌then◌else◌, Result, ok, err, panic, Bool-cases, inl, inr, All, arith,
}
use hash_chat.Prelude.Words.{same_text_refl}
use hash_chat.Prelude.Plain.{IsPlain}
use hash_chat.Prelude.Decimal.{length-decimal}
use hash_chat.Prelude.Line.{from_utf8-line, split-line, length-line}
use hash_chat.Prelude.Fields.{parse-decimal}
use hash_chat.PrivateFile.{Storage, Calls, Answer, is_loose, is_present, write_private_file}
use hash_chat.PrivateFile.Held.{held, Holds, write_lem, write_again, read_held}
use hash_chat.FailWipe.{
  FailWipeConfig, Attempt, SetError, allowed, wipe_now, bad_limit, magic, is_limit, max_file_bytes,
  encode, decode, decode_parts, decoded, failwipe_config, write, written, set_failwipe, if_written,
  count_attempt, begin_attempt, reset_count, attempt_succeeded, at_limit, attempt_failed,
}

-- a setting that the file may hold
pub record IsSetting (cfg : FailWipeConfig) : Type 0 where
  pub least : 3 ≤ cfg.limit
  pub most : cfg.limit ≤ 100
  pub counted : cfg.count ≤ cfg.limit

magic-IsPlain : All IsPlain magic
unfolding magic
magic-IsPlain = omega arith

limits : (limit : ℕ) → 3 ≤ limit → limit ≤ 100 → is_limit limit ≡ true
limits limit lo hi = ground arith

decode-encode : (cfg : FailWipeConfig) → IsSetting cfg → decode (encode cfg) ≡ some cfg
unfolding decode encode decode_parts
decode-encode cfg v =
    rw
      (
        from_utf8-line magic magic-IsPlain cfg.limit cfg.count,
        split-line magic magic-IsPlain cfg.limit cfg.count,
        same_text_refl magic,
        parse-decimal 32 cfg.limit (omega (arith, v.most)),
        parse-decimal 32 cfg.count (omega (arith, v.most, v.counted)),
        limits cfg.limit v.least v.most,
      )
      refl

length-encode : (cfg : FailWipeConfig) → IsSetting cfg → length (encode cfg) ≤ max_file_bytes
unfolding encode magic
length-encode cfg v = omega (
  arith,
  length-line magic magic-IsPlain cfg.limit cfg.count,
  length-decimal 2 cfg.limit (omega (arith, v.most)),
  length-decimal 2 cfg.count (omega (arith, v.most, v.counted)),
)

-- a storage whose file says a limit and a count
abbrev pub at_count : ℕ → ℕ → ℕ → Storage
at_count mode limit count = held mode (encode (record { limit = limit; count = count }))

config_lem :
    (r : Calls) (mode : ℕ) (cfg : FailWipeConfig)
    → is_loose mode ≡ false
    → IsSetting cfg
    → failwipe_config r (held mode (encode cfg)) ≡ (
      (if◌then◌else◌ {A = Option FailWipeConfig} r.file_calls (some cfg) none),
      held mode (encode cfg),
    )
unfolding failwipe_config decoded
config_lem r mode cfg tight v =
    rw (read_held r mode max_file_bytes (encode cfg) tight (omega arith) (length-encode cfg v))
      (elim (Bool-cases r.file_calls) [
        | inl e ↦ rw (e, decode-encode cfg v) refl
        | inr e ↦ rw e refl
      ])

-- whether an attempt is let through
abbrev pub passes : Calls → Calls → ℕ → ℕ → Bool
passes r w limit count = r.file_calls && (not (leb limit count) && w.file_calls)

pub begin_lem :
    (r w : Calls) (mode limit count : ℕ)
    → r.lookup ≡ true
    → is_loose mode ≡ false
    → IsSetting (record { limit = limit; count = count })
    → begin_attempt r w (at_count mode limit count) ≡ (
        if◌then◌else◌ {A = Attempt × Storage}
          (passes r w limit count)
          (allowed, at_count mode limit (count + 1))
          (wipe_now, at_count mode limit count))
unfolding begin_attempt is_present count_attempt write if_written
begin_lem r w mode limit count seen tight v =
    rw (config_lem r mode (record { limit = limit; count = count }) tight v, seen)
      (elim (Bool-cases r.file_calls) [
        | inr e ↦ rw e refl
        | inl e ↦ rw e (elim (Bool-cases (leb limit count)) [
          | inl full ↦ rw full refl
          | inr below ↦ rw below (counts below)
        ])
      ])
  where
    more : (a b : ℕ) → leb a b ≡ false → b + 1 ≤ a
    more a b e = ground (arith, e)

    counts :
        leb limit count ≡ false
        → if_written (
            write_private_file w
              (encode (record { limit = limit; count = count + 1 }))
              (at_count mode limit count))
          ≡ (if◌then◌else◌ {A = Attempt × Storage} w.file_calls
              (allowed, at_count mode limit (count + 1))
              (wipe_now, at_count mode limit count))
    counts below =
        let v' : IsSetting (record { limit = limit; count = count + 1 }) = record {
          least = v.least;
          most = v.most;
          counted = more limit count below;
        } in
        rw
          (write_again w mode (encode (record { limit = limit; count = count }))
            (encode (record { limit = limit; count = count + 1 })) tight
            (omega (arith, length-encode (record { limit = limit; count = count + 1 }) v')))
          (elim (Bool-cases w.file_calls) [ inl e ↦ rw e refl | inr e ↦ rw e refl ])

pub failed_lem :
    (r : Calls) (mode limit count : ℕ)
    → is_loose mode ≡ false
    → IsSetting (record { limit = limit; count = count })
    → attempt_failed r (at_count mode limit count)
      ≡ (if r.file_calls then leb limit count else r.lookup, at_count mode limit count)
unfolding attempt_failed at_limit is_present
failed_lem r mode limit count tight v =
    rw (config_lem r mode (record { limit = limit; count = count }) tight v)
      (elim (Bool-cases r.file_calls) [
        | inl e ↦ rw e refl
        | inr e ↦ rw e (ap {A = Bool} (λ b. (b, at_count mode limit count)) (seen_true r.lookup))
      ])
  where
    seen_true : (b : Bool) → (b && true) ≡ b
    seen_true true = refl
    seen_true false = refl

pub set_lem :
    (k : Calls) (limit : ℕ) (s : Storage) {after : Storage}
    → set_failwipe k limit s ≡ (ok tt, after)
    → (mode : ℕ) × (is_loose mode ≡ false)
      × (after ≡ at_count mode limit 0)
      × IsSetting (record { limit = limit; count = 0 })
unfolding set_failwipe write written
set_lem k limit s h = by_limit (is_limit limit) refl h
  where
    in_range : (n : ℕ) → is_limit n ≡ true → IsSetting (record { limit = n; count = 0 })
    in_range n e = record {
      least = ground (arith, e);
      most = ground (arith, e);
      counted = omega arith;
    }

    by_write :
        (a : Answer (Unit {0})) {end : Storage}
        → write_private_file k (encode (record { limit = limit; count = 0 })) s ≡ a
        → written a ≡ (ok tt, end)
        → Holds end (encode (record { limit = limit; count = 0 }))
    by_write (ok u, mid) e g =
        subst (λ z. Holds z (encode (record { limit = limit; count = 0 }))) (ap (λ a. a.1) g)
          (write_lem k (encode (record { limit = limit; count = 0 })) s e)
    by_write (err x, mid) e g = cc (ap (λ a. a.0) g)
    by_write (panic, mid) e g = cc (ap (λ a. a.0) g)

    by_limit :
        (b : Bool) {end : Storage}
        → is_limit limit ≡ b
        → (if◌then◌else◌ {A = Result SetError (Unit {0}) × Storage}
            (not b)
            (err bad_limit, s)
            (written (write_private_file k (encode (record { limit = limit; count = 0 })) s)))
          ≡ (ok tt, end)
        → (mode : ℕ) × (is_loose mode ≡ false)
          × (end ≡ at_count mode limit 0)
          × IsSetting (record { limit = limit; count = 0 })
    by_limit true e g =
        let (mode, tight, same) = by_write _ refl g in (mode, tight, same, in_range limit e)
    by_limit false e g = cc (ap (λ a. a.0) g)

pub succeeded_lem :
    (r w : Calls) (mode limit count : ℕ)
    → is_loose mode ≡ false
    → IsSetting (record { limit = limit; count = count })
    → attempt_succeeded r w (at_count mode limit count) ≡ (
        if◌then◌else◌ {A = Storage}
          (r.file_calls && w.file_calls)
          (at_count mode limit 0)
          (at_count mode limit count))
unfolding attempt_succeeded reset_count write
succeeded_lem r w mode limit count tight v =
    rw (config_lem r mode (record { limit = limit; count = count }) tight v)
      (elim (Bool-cases r.file_calls) [
        | inr e ↦ rw e refl
        | inl e ↦
            rw
              (
                e,
                reset_count,
                write_again w mode (encode (record { limit = limit; count = count }))
                    (encode (record { limit = limit; count = 0 })) tight
                    (omega (arith, length-encode (record { limit = limit; count = 0 }) (reset v))),
              )
              (elim (Bool-cases w.file_calls) [ inl k ↦ rw k refl | inr k ↦ rw k refl ])
      ])
  where
    reset :
        {limit count : ℕ}
        → IsSetting (record { limit = limit; count = count })
        → IsSetting (record { limit = limit; count = 0 })
    reset v = record { least = v.least; most = v.most; counted = omega arith }

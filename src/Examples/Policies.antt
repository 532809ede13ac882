-- ===== src/Examples/Policies.antt =====
-- The preferences, the queue and the timers at concrete inputs.
use hash_chat.Prelude.{
  ℕ, ◌-◌, ◌*◌, ◌+◌, ◌≤◌, ◌<◌, ◌≡◌, ◌↔◌, ◌&&◌, refl, min, true, false, none, some, ok, err, [], ◌∷◌,
  All, arith, if◌then◌else◌, inl,
}
use hash_chat.Prelude.Bytes.{Bytes}
use hash_chat.Prelude.Utf8.{chars}
use hash_chat.Net.{
  NetConfig, Env, tor, i2p, custom, standard, is_custom, lacks_address, from_env, set_mode,
  custom_dns_required,
}
use hash_chat.Net.Lock.{IsLocked, Changes, unchanged, after, sets_mode, extreme_stays-IsLocked}
use hash_chat.Net.Persist.{to_persist_bytes, from_persist_bytes}
use hash_chat.Net.RoundTrip.{from_persist_bytes-to_persist_bytes}
use hash_chat.VoiceQueue.{max_voice_chunks, push, pop}
use hash_chat.VoiceQueue.Fifo.{Use, opened, pushed, popped, IsChunk, queue_lem}
use hash_chat.SendJitter.{draw, delay_from_source, max_send_jitter_secs}
use hash_chat.SendJitter.Uniform.{delay_lem}
use hash_chat.UnlockBackoff
use hash_chat.UnlockBackoff.{unlock_backoff_delay_secs, u64_max}
use hash_chat.UnlockBackoff.Growth.{delay_mono}
use hash_chat.ClockCheck.{clock_rollback_secs}
use hash_chat.ClockCheck.Mark.{mark_after, mark_lem}

abbrev env : Env
env = record {
  net_mode = some (chars "clearnet");
  dns = none;
  dns_custom = none;
  extreme_set = true;
  posture = none;
}

abbrev tried : NetConfig
tried = (set_mode i2p (from_env env)).1

moved : Changes (from_env env) tried
moved = after unchanged (sets_mode i2p)

extreme_stays-IsLocked_example : IsLocked tried
extreme_stays-IsLocked_example = extreme_stays-IsLocked env moved

-- a custom resolver without an address, as the environment can leave it
abbrev unaddressed : NetConfig
unaddressed = record {
  mode = tor;
  dns = custom;
  custom_dns = none;
  posture = standard;
  socks_isolation = true;
  require_bridges = true;
}

unaddressed-IsLocked : IsLocked unaddressed
unaddressed-IsLocked = record { locked = inl refl }

from_persist_bytes-to_persist_bytes_example :
    from_persist_bytes (to_persist_bytes unaddressed)
    ≡ (if is_custom custom && lacks_address none then err custom_dns_required else ok unaddressed)
from_persist_bytes-to_persist_bytes_example =
    from_persist_bytes-to_persist_bytes unaddressed unaddressed-IsLocked tt

abbrev chunk : Bytes
chunk = 1 ∷ 2 ∷ []

abbrev other : Bytes
other = 3 ∷ []

used : Use (chunk ∷ other ∷ []) (chunk ∷ []) (other ∷ [])
unfolding push pop
used = popped (pushed false other (pushed true chunk (pushed false chunk opened)))

queue_lem_example :
    (chunk ∷ other ∷ [] ≡ chunk ∷ other ∷ []) × (1 ≤ max_voice_chunks) × All IsChunk (other ∷ [])
queue_lem_example = queue_lem used

-- the last draw of 32 bits but one is above the zone
abbrev high_first : ℕ → ℕ
high_first i = 4_294_967_294 - i * 1_000_000

delay_lem_example :
    (delay_from_source 2 (λ i. 2 * 2001 + 7) ≡ 7)
    × (delay_from_source 2 high_first ≡ draw 63 0 2 (λ i. high_first (i + 1)))
    × (delay_from_source 500 (λ i. 5) ≤ min 500 max_send_jitter_secs * 1000)
delay_lem_example =
    delay_lem 2 7 2 (λ i. 2 * 2001 + 7) high_first (omega arith) (omega arith) (omega arith)
      (omega arith) refl (omega arith) (omega arith) 500 (λ i. 5)

delay_mono_example :
    (unlock_backoff_delay_secs 6 UnlockBackoff.standard
      ≤ unlock_backoff_delay_secs 9 UnlockBackoff.standard)
    × (unlock_backoff_delay_secs 9 UnlockBackoff.standard ≤ 60)
    × (unlock_backoff_delay_secs 4 UnlockBackoff.standard ≡ 0)
    × (unlock_backoff_delay_secs 5 UnlockBackoff.standard ≡ min (min 2 u64_max) 60)
delay_mono_example =
    delay_mono 6 9 UnlockBackoff.standard (omega arith) (omega arith) 4 (omega arith)

mark_lem_example :
    (600 ≤ mark_after 600 (9000 ∷ 5000 ∷ []))
    × (9000 < mark_after 600 (9000 ∷ 5000 ∷ []) + 600)
    × ((clock_rollback_secs (mark_after 600 (9000 ∷ 5000 ∷ [])) 4000 ≡ none)
        ↔ (mark_after 600 (9000 ∷ 5000 ∷ []) ≤ 4000 + 3600))
mark_lem_example = mark_lem 600 (9000 ∷ 5000 ∷ []) 0 refl 4000

-- ===== src/Invites/Hello.antt =====
-- invite.rs: what a hello frame spends.
use hash_chat.Prelude.{ℕ, Option, none, some}
use hash_chat.Prelude.Bytes.{Bytes}
use hash_chat.Prelude.BTreeMap.{remove}
use hash_chat.Ratchet.Crypto.{Crypto}
use hash_chat.Invites.{PendingInvites}

-- the store without the invite that a frame opened
abbrev pub spent : Option (ℕ × Bytes) → PendingInvites → PendingInvites
spent none p = p
spent (some (id, plain)) p = record { invites = remove id p.invites }

-- ===== src/VoiceQueue.antt =====
-- src/rust/voice_queue.rs: the bounded queue of voice chunks.
pub mod Fifo
use hash_chat.Prelude.{
  ℕ, ◌*◌, Bool, true, false, Option, none, some, List, [], ◌∷◌, ◌++◌, length, ltb, leb,
  if◌then◌else◌, Result, ok, err,
}
use hash_chat.Prelude.Bytes.{Bytes}
use hash_chat.Wire.Size.{max_hs_inbound_frame}

abbrev pub max_voice_chunks : ℕ
max_voice_chunks = 32

abbrev pub max_voice_chunk_bytes : ℕ
max_voice_chunk_bytes = max_hs_inbound_frame

pub data VoiceQueueRefusal : Type 0 where
  extreme empty too_large full : VoiceQueueRefusal

abbrev pub VoiceChunkQueue : Type 0
VoiceChunkQueue = List Bytes

-- `chunk.is_empty()`
abbrev pub is_empty : Bytes → Bool
is_empty [] = true
is_empty (b ∷ bs) = false

unfoldable pub push :
    Bool → Bytes → VoiceChunkQueue → Result VoiceQueueRefusal (Unit {0}) × VoiceChunkQueue
push is_extreme chunk q =
    if is_extreme
    then (err extreme, q)
    else if is_empty chunk
    then (err empty, q)
    else if ltb max_voice_chunk_bytes (length chunk)
    then (err too_large, q)
    else if leb max_voice_chunks (length q)
    then (err full, q)
    else (ok tt, q ++ chunk ∷ [])

unfoldable pub pop : VoiceChunkQueue → Option Bytes × VoiceChunkQueue
pop [] = (none, [])
pop (chunk ∷ q) = (some chunk, q)

-- `while let Some(mut chunk) = self.chunks.pop_front() { chunk.zeroize(); }`
unfoldable pub clear : VoiceChunkQueue → VoiceChunkQueue
clear [] = []
clear (chunk ∷ q) = clear q

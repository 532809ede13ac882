-- ===== src/VoiceQueue/Fifo.antt =====
-- voice_queue.rs: the order and the bound of the queue.
use hash_chat.Prelude.{
  ◌≤◌, ◌<◌, ◌≡◌, refl, ap, sym, ◌∙◌, Bool, true, false, Option, none, some, List, [], ◌∷◌, ◌++◌,
  length, length-append, append_assoc, append-nil, arith, ltb, leb, Result, ok, err, panic, All,
  All-append, Bool-cases, inl, inr,
}
use hash_chat.Prelude.Bytes.{Bytes}
use hash_chat.VoiceQueue.{
  VoiceChunkQueue, VoiceQueueRefusal, extreme, empty, too_large, full, push, pop, max_voice_chunks,
  max_voice_chunk_bytes, is_empty,
}

-- what a push adds to the chunks that were accepted
abbrev pub accepted_by : Result VoiceQueueRefusal (Unit {0}) → Bytes → List Bytes
accepted_by (ok u) chunk = chunk ∷ []
accepted_by (err e) chunk = []
accepted_by panic chunk = []

-- what a pop adds to the chunks that were taken
abbrev pub taken_by : Option Bytes → List Bytes
taken_by none = []
taken_by (some chunk) = chunk ∷ []

-- A use of a queue: the chunks that were accepted, those that were taken, and the queue that is left.
pub data Use : List Bytes → List Bytes → VoiceChunkQueue → Type 0 where
  opened : Use [] [] []
  pushed :
      {accepted taken : List Bytes} {q : VoiceChunkQueue} (is_extreme : Bool) (chunk : Bytes)
      → Use accepted taken q
      → Use
          (accepted ++ accepted_by (push is_extreme chunk q).0 chunk)
          taken
          (push is_extreme chunk q).1
  popped :
      {accepted taken : List Bytes} {q : VoiceChunkQueue}
      → Use accepted taken q
      → Use accepted (taken ++ taken_by (pop q).0) (pop q).1

-- a chunk that may wait
pub record IsChunk (chunk : Bytes) : Type 0 where
  pub some_bytes : 0 < length chunk
  pub bounded : length chunk ≤ max_voice_chunk_bytes

record IsQueue (accepted taken : List Bytes) (q : VoiceChunkQueue) : Type 0 where
  order : taken ++ q ≡ accepted
  room : length q ≤ max_voice_chunks
  chunks : All IsChunk q

nonempty : (chunk : Bytes) → is_empty chunk ≡ false → 0 < length chunk
nonempty [] h = cc
nonempty (b ∷ bs) h = omega arith

-- a push refuses, or it adds a fit chunk where there is room
data Push (is_extreme : Bool) (chunk : Bytes) (q : VoiceChunkQueue) : Type 0 where
  refused : (e : VoiceQueueRefusal) → push is_extreme chunk q ≡ (err e, q) → Push is_extreme chunk q
  added :
      push is_extreme chunk q ≡ (ok tt, q ++ chunk ∷ [])
      → IsChunk chunk
      → length q < max_voice_chunks
      → Push is_extreme chunk q

Push-cases : (is_extreme : Bool) (chunk : Bytes) (q : VoiceChunkQueue) → Push is_extreme chunk q
unfolding push
Push-cases true chunk q = refused extreme refl
Push-cases false chunk q = elim (Bool-cases (is_empty chunk)) [
  | inl e ↦ refused empty (rw e refl)
  | inr e ↦ elim (Bool-cases (ltb max_voice_chunk_bytes (length chunk))) [
    | inl l ↦ refused too_large (rw (e, l) refl)
    | inr l ↦ elim (Bool-cases (leb max_voice_chunks (length q))) [
      | inl f ↦ refused full (rw (e, l, f) refl)
      | inr f ↦
          added (rw (e, l, f) refl)
            (record { some_bytes = nonempty chunk e; bounded = ground (arith, l) })
            (ground (arith, f))
    ]
  ]
]

push-IsQueue :
    {accepted taken : List Bytes} {q : VoiceChunkQueue} (is_extreme : Bool) (chunk : Bytes)
    → IsQueue accepted taken q
    → IsQueue
        (accepted ++ accepted_by (push is_extreme chunk q).0 chunk)
        taken
        (push is_extreme chunk q).1
push-IsQueue {accepted} {taken} {q} is_extreme chunk v = elim (Push-cases is_extreme chunk q) [
  | refused r e ↦ rw (e, append-nil) v
  | added e fit room ↦ rw e (record {
    order = sym (append_assoc taken q (chunk ∷ [])) ∙ ap (λ t. t ++ chunk ∷ []) v.order;
    room = omega (arith, length-append q (chunk ∷ []));
    chunks = All-append IsChunk q (chunk ∷ []) v.chunks (fit, tt);
  })
]

pop-IsQueue :
    {accepted taken : List Bytes} (q : VoiceChunkQueue)
    → IsQueue accepted taken q
    → IsQueue accepted (taken ++ taken_by (pop q).0) (pop q).1
unfolding pop
pop-IsQueue [] v = rw append-nil v
pop-IsQueue {accepted} {taken} (chunk ∷ q) v = record {
  order = append_assoc taken (chunk ∷ []) q ∙ v.order;
  room = omega (arith, v.room);
  chunks = v.chunks.1;
}

Use-IsQueue :
    {accepted taken : List Bytes} {q : VoiceChunkQueue}
    → Use accepted taken q
    → IsQueue accepted taken q
Use-IsQueue opened = record { order = refl; room = omega arith; chunks = tt }
Use-IsQueue (pushed is_extreme chunk u) = push-IsQueue is_extreme chunk (Use-IsQueue u)
Use-IsQueue (popped {q = q} u) = pop-IsQueue q (Use-IsQueue u)

-- Whatever is pushed and popped, the chunks taken and then the chunks waiting are the accepted ones
-- in order; at most 32 wait, each of at least one byte and at most 16 KiB.
pub queue_lem :
    {accepted taken : List Bytes} {q : VoiceChunkQueue}
    → Use accepted taken q
    → (taken ++ q ≡ accepted) × (length q ≤ max_voice_chunks) × All IsChunk q
queue_lem u = let v = Use-IsQueue u in (v.order, v.room, v.chunks)

-- ===== src/Client/Assembly/Accepted.antt =====
-- A chunk that is accepted, and the write that the source makes of it (`handle_frame_chunk`).
use robocol.Prelude.{
  ℕ, ◌+◌, ◌*◌, ◌<◌, ◌≡◌, true, ◌||◌, Option, none, some, ok, leb, ltb, length, get_or, subst, arith,
  Bool-cases, inl, inr,
}
use robocol.Wire.{Bytes, write_at}
use robocol.Cmd.{frame_chunk_size}
use robocol.Client.State.{PartialFrame}
use robocol.Client.Frames.{accept_chunk}
use robocol.Client.Assembly.Patch.{patch-write_at}

-- The flag of the chunk and the range of its bytes are in bounds, and the write gives the new buffer.
InBounds : PartialFrame → ℕ → Bytes → Option PartialFrame → Type 0
InBounds f index bytes none = Unit
InBounds f index bytes (some f') =
    (index < length f.received)
    × (write_at f.content (index * frame_chunk_size) bytes ≡ ok f'.content)

accept_chunk-InBounds :
    (f : PartialFrame) (index : ℕ) (bytes : Bytes)
    → InBounds f index bytes (accept_chunk f index bytes)
unfolding accept_chunk InBounds
accept_chunk-InBounds f index bytes =
    elim (Bool-cases (leb (length f.received) index || get_or f.received index true)) [
      | inl refused ↦ rw (accept_chunk, refused) tt
      | inr fresh ↦
          elim (Bool-cases (ltb (length f.content) (index * frame_chunk_size + length bytes))) [
            | inl long ↦ rw (accept_chunk, fresh, long) tt
            | inr fits ↦
                rw (accept_chunk, fresh, fits)
                  (
                    ground (arith, fresh),
                    patch-write_at f.content (index * frame_chunk_size) bytes (ground arith),
                  )
          ]
    ]

-- A chunk that is accepted, in any frame and whatever its number and its bytes: its flag is inside the flags,
-- and copying its bytes into the buffer at its offset does not panic and gives the buffer that the frame has
-- then.
pub accept_chunk-write_at :
    (f f' : PartialFrame) (index : ℕ) (bytes : Bytes)
    → accept_chunk f index bytes ≡ some f'
    → (index < length f.received)
      × (write_at f.content (index * frame_chunk_size) bytes ≡ ok f'.content)
unfolding InBounds
accept_chunk-write_at f f' index bytes h =
    subst (InBounds f index bytes) h (accept_chunk-InBounds f index bytes)

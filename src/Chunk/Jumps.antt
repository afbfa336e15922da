-- ===== src/Chunk/Jumps.antt =====
-- Jump distances: what `to_next_opcode` and `emit_loop` write is what a reader of the two bytes,
-- the virtual machine or the disassembler, adds or subtracts to reach the target.
use cpplox.Chunk.{narrow16, read_big_endian, write_big_endian, patch_to_next_opcode}
use cpplox.Prelude.{
  size_sub_le, ℕ, ◌+◌, ◌-◌, ◌*◌, ◌/◌, ◌%◌, ◌<◌, ◌≤◌, some, List, ◌≡◌, ◌≢◌, ◌∙◌, refl, ap, true,
  Bool-cases, inl, inr, length, get_elem?, length-set, get_elem?-set_self, get_elem?-set_ne, set,
  arith, ltb,
}
use cpplox.Result.{Result, ok, err, narrowing_error}

read_of :
    (index high low : ℕ) (bytes : List ℕ)
    → get_elem? bytes index ≡ some high
    → get_elem? bytes (index + 1) ≡ some low
    → read_big_endian index bytes ≡ some (high * 256 + low)
unfolding read_big_endian
read_of index high low bytes h l = ground arith

module _ (index distance : ℕ) (bytes : List ℕ) where
  pub length-write_big_endian : length (write_big_endian index distance bytes) ≡ length bytes
  unfolding write_big_endian
  length-write_big_endian =
      length-set (set bytes index (distance / 256)) (index + 1) (distance % 256)
      ∙ length-set bytes index (distance / 256)

  pub read-write_big_endian :
      index + 1 < length bytes
      → read_big_endian index (write_big_endian index distance bytes) ≡ some distance
  unfolding read_big_endian write_big_endian
  read-write_big_endian h =
      let high = set bytes index (distance / 256) in
      let size = length-set bytes index (distance / 256) in
      read_of index (distance / 256) (distance % 256) _
        (get_elem?-set_ne high (index + 1) index (distance % 256) (λ e. absurd (omega arith))
          ∙ get_elem?-set_self bytes index (distance / 256) (omega arith))
        (get_elem?-set_self high (index + 1) (distance % 256) (omega arith))
      ∙ ap some (omega arith)

  pub get_elem?-write_big_endian :
      (k : ℕ)
      → k ≢ index
      → k ≢ index + 1
      → get_elem? (write_big_endian index distance bytes) k ≡ get_elem? bytes k
  unfolding write_big_endian
  get_elem?-write_big_endian k h h' =
      get_elem?-set_ne (set bytes index (distance / 256)) (index + 1) k (distance % 256)
        (λ e. absurd (omega arith))
      ∙ get_elem?-set_ne bytes index k (distance / 256) (λ e. absurd (omega arith))

-- The jump at `jump_begin` in `bytes` is patched to lead to their end.
abbrev pub Patched : ℕ → List ℕ → Result (List ℕ) → Type 0
Patched jump_begin bytes (ok bytes') =
    (distance : ℕ) × (read_big_endian (jump_begin - 2) bytes' ≡ some distance)
    × (jump_begin + distance ≡ length bytes)
    × (length bytes' ≡ length bytes)
    × ((k : ℕ) → k ≢ jump_begin - 2 → k ≢ jump_begin - 1 → get_elem? bytes' k ≡ get_elem? bytes k)
Patched jump_begin bytes (err e) = (e ≡ narrowing_error) × (65536 ≤ length bytes - jump_begin)

-- For a jump whose two bytes end at `jump_begin`, within the bytecode, `to_next_opcode` writes
-- the distance from behind the jump to the end of the bytecode and changes no other byte; it
-- throws only when that distance does not fit 16 bits.
pub patch_to_next_opcode-Patched :
    (jump_begin : ℕ) (bytes : List ℕ)
    → 2 ≤ jump_begin
    → jump_begin ≤ length bytes
    → Patched jump_begin bytes (patch_to_next_opcode jump_begin bytes)
unfolding patch_to_next_opcode narrow16
patch_to_next_opcode-Patched jump_begin bytes h h' =
    let distance = length bytes - jump_begin in
    let inside : ltb (jump_begin - 2) (length bytes) ≡ true = ground arith in
    rw (size_sub_le (length bytes) jump_begin h', size_sub_le jump_begin 2 h)
      (elim (Bool-cases (ltb distance 65536)) [
        | inl e ↦ rw e (
            rw inside (
              distance,
              read-write_big_endian (jump_begin - 2) distance bytes (omega arith),
              omega arith,
              length-write_big_endian (jump_begin - 2) distance bytes,
              λ k n n'.
                  get_elem?-write_big_endian (jump_begin - 2) distance bytes k n
                    (λ e'. n' (omega arith)),
            ))
        | inr e ↦ rw e (refl, ground arith)
      ])

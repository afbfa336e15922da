-- ===== src/Vm/Emitted/Jumps.antt =====
-- The jumps that the writer of src/chunk.cpp emits, as VM::run of src/vm.cpp runs them.
use cpplox.Chunk.Jumps.{Patched, patch_to_next_opcode-Patched}
use cpplox.Chunk.Loops.{LoopsBack, emit_loop-LoopsBack, emit_dummy-eq, with_dummy}
use cpplox.Chunk.{
  Chunk, SourceMapToken, read_big_endian, emit_loop, emit_dummy, narrow16, patch_to_next_opcode,
  to_next_opcode,
}
use cpplox.Objects.{Object}
use cpplox.Opcode.{Opcode, opcode_byte}
use cpplox.Prelude.{
  ℕ, ◌+◌, ◌-◌, ◌≤◌, ◌≡◌, ◌∙◌, refl, ap, subst, false, not, some, List, [], ◌∷◌, ◌++◌, get_elem?,
  get_elem?-length, length, arith, size_sub, if◌then◌else◌, inl, inr, Option-cases, ltb,
}
use cpplox.Result.{ok, bind-eq-ok}
use cpplox.Value.{Double, Value, is_truthy}
use cpplox.Vm.Calls.{Next, continue_at}
use cpplox.Vm.Captures.{Frame}
use cpplox.Vm.Instructions.{distance_at, instruction, jump_if_false_at, loop_at}
use cpplox.Vm.Keeps.{bind-done}
use cpplox.Vm.Run.{round}
use cpplox.Vm.State.{Vm, Outcome, done, threw, undefined_behaviour, peek}
use cpplox.Vm.Emitted.{Extends, IsMapped, round-fetched}

-- The jumps that are patched.
pub data Forward : Type 0 where
  always if_false : Forward

abbrev pub opcode_of : Forward → Opcode
opcode_of always = Opcode.jump
opcode_of if_false = Opcode.jump_if_false

module _ {D : Type 0} where
  -- Where a jump goes on: at its target, or behind it.
  abbrev pub jumped : Forward → ℕ → ℕ → Vm D → Outcome D Next
  jumped always behind target s = done (continue_at target) s
  jumped if_false behind target s = elim s.stack [
    | v ∷ vs ↦ done (continue_at (if not (is_truthy v) then target else behind)) s
    | [] ↦ threw undefined_behaviour s
  ]

  distance_at-eq :
      (frame : Frame D) (ip distance : ℕ) (s : Vm D)
      → read_big_endian ip frame.chunk.bytecode ≡ some distance
      → distance_at frame ip s ≡ done distance s
  unfolding distance_at
  distance_at-eq frame ip distance s h = rw (h, distance_at) refl

  -- The distance that a chunk has, a chunk that extends it has.
  read_big_endian-Extends :
      (c c' : Chunk D) (index distance : ℕ)
      → Extends c c'
      → read_big_endian index c.bytecode ≡ some distance
      → read_big_endian index c'.bytecode ≡ some distance
  unfolding read_big_endian
  read_big_endian-Extends c c' index distance extends h =
      elim (Option-cases (get_elem? c.bytecode index)) [
        | inl e ↦ absurd (ground (arith, e))
        | inr (high, e) ↦ elim (Option-cases (get_elem? c.bytecode (index + 1))) [
          | inl e' ↦ absurd (ground (arith, e, e'))
          | inr (low, e') ↦
              let high_at = extends.bytes index high e in
              let low_at = extends.bytes (index + 1) low e' in
              ground (arith, e, e', high_at, low_at)
        ]
      ]

module _ {D : Type 0} ⦃d : Double D⦄ (size_of : Object D → ℕ) (clock : ℕ → D) where
  if_false-eq :
      (frame : Frame D) (ip distance target : ℕ) (s : Vm D) (vs : List (Value D))
      → read_big_endian ip frame.chunk.bytecode ≡ some distance
      → ip + 2 + distance ≡ target
      → jump_if_false_at frame ip (record s { stack = vs })
        ≡ jumped if_false (ip + 2) target (record s { stack = vs })
  unfolding jump_if_false_at distance_at peek
  if_false-eq frame ip distance target s [] h e = rw (h, jump_if_false_at, distance_at) refl
  if_false-eq frame ip distance target s (v ∷ vs) h e =
      rw (h, jump_if_false_at, distance_at) (rw e refl)

  jumped-eq :
      (jump : Forward) (frame : Frame D) (t : SourceMapToken) (ip distance target : ℕ) (s : Vm D)
      → read_big_endian ip frame.chunk.bytecode ≡ some distance
      → ip + 2 + distance ≡ target
      → instruction size_of clock frame t (opcode_of jump) ip s ≡ jumped jump (ip + 2) target s
  unfolding instruction
  jumped-eq always frame t ip distance target s h e =
      bind-done (distance_at frame ip) _ s s distance (distance_at-eq frame ip distance s h)
      ∙ ap (λ n. done (continue_at n) s) e
  jumped-eq if_false frame t ip distance target s h e =
      if_false-eq frame ip distance target s s.stack h e

  -- A jump whose opcode is three bytes before `jump_begin`, patched by `to_next_opcode`, wherever the
  -- chunk that is run goes on behind it: one round goes on where the bytecode ended when the jump was
  -- patched, or, for `jump_if_false` on a value that is truthy, behind the jump, with the state as it
  -- is; only where the stack is empty `jump_if_false` is undefined behaviour.
  pub to_next_opcode-jumped :
      (jump : Forward) (jump_begin : ℕ) (t : SourceMapToken) (c c' : Chunk D) (frame : Frame D)
      (s : Vm D)
      → 3 ≤ jump_begin
      → jump_begin ≤ length c.bytecode
      → get_elem? c.bytecode (jump_begin - 3) ≡ some (opcode_byte (opcode_of jump))
      → get_elem? c.source_map_tokens (jump_begin - 3) ≡ some t
      → to_next_opcode jump_begin c ≡ ok c'
      → Extends c' frame.chunk
      → round size_of clock frame (jump_begin - 3) s ≡ jumped jump jump_begin (length c.bytecode) s
  unfolding to_next_opcode
  to_next_opcode-jumped jump jump_begin t c c' frame s h h' at_o at_t patches extends =
      let (bytes, e, e') =
        bind-eq-ok (patch_to_next_opcode jump_begin c.bytecode)
          (λ bytes. ok (record c { bytecode = bytes })) patches in
      let patched : Patched jump_begin c.bytecode (ok bytes) =
        subst (Patched jump_begin c.bytecode) e
          (patch_to_next_opcode-Patched jump_begin c.bytecode (omega arith) h') in
      let (distance, reads, lands, size, others) = patched in
      let made : c' ≡ record c { bytecode = bytes } = ground arith in
      let extends' : Extends (record c { bytecode = bytes }) frame.chunk =
        subst (λ k. Extends k frame.chunk) made extends in
      let fetched =
        round-fetched size_of clock frame (jump_begin - 3) t (opcode_of jump) s
          (extends'.tokens (jump_begin - 3) t at_t)
          (extends'.bytes (jump_begin - 3) (opcode_byte (opcode_of jump)) (
            others (jump_begin - 3) (λ q. absurd (omega arith)) (λ q. absurd (omega arith))
            ∙ at_o)) in
      let begins : jump_begin - 3 + 1 ≡ jump_begin - 2 = omega arith in
      let behind : jump_begin - 3 + 1 + 2 ≡ jump_begin = omega arith in
      let reads' : read_big_endian (jump_begin - 3 + 1) frame.chunk.bytecode ≡ some distance =
        rw begins (
          read_big_endian-Extends (record c { bytecode = bytes }) frame.chunk (jump_begin - 2)
            distance extends' reads) in
      fetched
      ∙ jumped-eq jump frame t (jump_begin - 3 + 1) distance (length c.bytecode) s reads'
          (omega arith)
      ∙ ap (λ n. jumped jump n (length c.bytecode) s) behind

  emit_loop-tokens :
      (loop_begin : ℕ) (t : SourceMapToken) (c c' : Chunk D)
      → emit_loop loop_begin t c ≡ ok c'
      → c'.source_map_tokens ≡ c.source_map_tokens ++ t ∷ t ∷ t ∷ []
  unfolding emit_loop
  emit_loop-tokens loop_begin t c c' h =
      let (c₁, e, rest) = bind-eq-ok (emit_dummy Opcode.loop t c) _ h in
      let (distance, _, e') =
        bind-eq-ok (narrow16 (size_sub (length c₁.bytecode) loop_begin)) _ rest in
      let dummy : c₁ ≡ with_dummy Opcode.loop t c = ground (arith, emit_dummy-eq Opcode.loop t c) in
      let kept : c'.source_map_tokens ≡ c₁.source_map_tokens = ground arith in
      kept ∙ ap (λ k. k.source_map_tokens) dummy

  loop_at-eq :
      (frame : Frame D) (ip distance target : ℕ) (s : Vm D)
      → read_big_endian ip frame.chunk.bytecode ≡ some distance
      → target + distance ≡ ip + 2
      → loop_at frame ip s ≡ done (continue_at target) s
  unfolding loop_at
  loop_at-eq frame ip distance target s h e =
      let inside : ltb (ip + 2) distance ≡ false = ground arith in
      let lands : ip + 2 - distance ≡ target = omega arith in
      bind-done (distance_at frame ip) _ s s distance (distance_at-eq frame ip distance s h)
      ∙ rw inside (ap (λ n. done (continue_at n) s) lands)

  -- For the jump back that `emit_loop` writes to a target in the bytecode behind a chunk with each
  -- byte in the source map, wherever the chunk that is run goes on behind it: one round goes on at
  -- the target, with the state as it is.
  pub emit_loop-jumped :
      (loop_begin : ℕ) (t : SourceMapToken) (c c' : Chunk D) (frame : Frame D) (s : Vm D)
      → IsMapped c
      → loop_begin ≤ length c.bytecode
      → emit_loop loop_begin t c ≡ ok c'
      → Extends c' frame.chunk
      → round size_of clock frame (length c.bytecode) s ≡ done (continue_at loop_begin) s
  unfolding instruction
  emit_loop-jumped loop_begin t c c' frame s mapped h emits extends =
      let back : LoopsBack loop_begin c (ok c') =
        subst (LoopsBack loop_begin c) emits (emit_loop-LoopsBack loop_begin t c h) in
      let (distance, at_o, reads, lands, size, others) = back in
      let token : get_elem? c'.source_map_tokens (length c.bytecode) ≡ some t =
        rw (emit_loop-tokens loop_begin t c c' emits)
          (rw mapped (get_elem?-length c.source_map_tokens t (t ∷ t ∷ []))) in
      round-fetched size_of clock frame (length c.bytecode) t Opcode.loop s
        (extends.tokens (length c.bytecode) t token)
        (extends.bytes (length c.bytecode) (opcode_byte Opcode.loop) at_o)
      ∙ loop_at-eq frame (length c.bytecode + 1) distance loop_begin s
          (read_big_endian-Extends c' frame.chunk (length c.bytecode + 1) distance extends reads)
          (omega arith)

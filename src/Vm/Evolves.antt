-- ===== src/Vm/Evolves.antt =====
-- What a program cannot take back: VM::run in src/vm.cpp and the sessions of src/lox.cpp.
use cpplox.Memory
use cpplox.Memory.{mark_all}
use cpplox.Objects.{Object, trace_refs}
use cpplox.Prelude.{
  ℕ, ◌≡◌, ◌≤◌, ◌∙◌, refl, sym, ap, some, inl, inr, List, ◌∷◌, ◌++◌, Bytes, bytes_eq, bytes_eq_iff,
  Bool-cases, Option-cases, arith, append_assoc, append-nil, [],
}
use cpplox.Result.{Result-cases}
use cpplox.Table.Laws.{lookup-assign}
use cpplox.Table.{lookup, assign}
use cpplox.Value.{Value}
use cpplox.Vm.Actions.{IsKept}
use cpplox.Vm.Invariants.Runs.{IsRunKept}
use cpplox.Vm.Keeps.{Ends, Property, Keeps}
use cpplox.Vm.Run.{collect, halted, rounds, pop_frame, roots, without_first}
use cpplox.Vm.State.{Vm, Outcome, done, threw, make, intern, write_object, address_of}

module _ {D : Type 0} where
  -- A global variable that is defined, with any value.
  abbrev pub IsDefined : Bytes → List (Bytes × Value D) → Type 0
  IsDefined name globals = (v : Value D) × (lookup bytes_eq name globals ≡ some v)

  -- From one state to another: the activations are `frames`, what was written stays in front of what
  -- is, no global variable that was defined is undefined, and the clock is not read back.
  pub record Grown (s : Vm D) (frames call_frames : List ℕ) (globals : List (Bytes × Value D))
      (clock_calls : ℕ) (output : Bytes) : Type 0 where
    pub frames_are : call_frames ≡ frames
    pub writes : (text : Bytes) × (output ≡ s.output ++ text)
    pub defines : (name : Bytes) → IsDefined name s.globals → IsDefined name globals
    pub reads_clock : s.clock_calls ≤ clock_calls

  abbrev pub Evolves : Vm D → List ℕ → Vm D → Type 0
  Evolves s frames s' = Grown s frames s'.call_frames s'.globals s'.clock_calls s'.output

  module _ (size_of : Object D → ℕ) (s₀ : Vm D) where
    IsDefined-assign :
        (name key : Bytes) (v : Value D) (globals : List (Bytes × Value D))
        → IsDefined name globals
        → IsDefined name (assign bytes_eq key v globals)
    IsDefined-assign name key v globals (w, e) =
        rw (lookup-assign bytes_eq bytes_eq_iff name key v globals)
          (elim (Bool-cases (bytes_eq key name)) [
            | inl same ↦ rw same (v, refl)
            | inr other ↦ rw other (w, e)
          ])

    -- On every way out.
    abbrev pub Growth : List ℕ → Property D
    Growth frames = record { holds = Evolves s₀ frames; covers = λ e. Unit }

    Evolves-IsKept : (frames : List ℕ) → IsKept size_of (Growth frames)
    unfolding make intern write_object
    Evolves-IsKept frames = record {
      stack = λ s vs h. h;
      globals = λ s name v h. record {
        frames_are = h.frames_are;
        writes = h.writes;
        defines = λ key d. IsDefined-assign key name v s.globals (h.defines key d);
        reads_clock = h.reads_clock;
      };
      output = λ s text h. record {
        frames_are = h.frames_are;
        writes = (
          h.writes.0 ++ text,
          ap (λ out. out ++ text) h.writes.1 ∙ append_assoc s₀.output h.writes.0 text,
        );
        defines = h.defines;
        reads_clock = h.reads_clock;
      };
      clock = λ s h. record {
        frames_are = h.frames_are;
        writes = h.writes;
        defines = h.defines;
        reads_clock = let n = h.reads_clock in omega arith;
      };
      made = λ o s h. h;
      interned = λ text s h. h;
      written = λ a o s b at_a same h. h;
    }

    Evolves-collect : (frames : List ℕ) → Keeps (Growth frames) (collect size_of)
    unfolding collect
    Evolves-collect frames = record {
      at = λ s h.
          elim (Option-cases (
            halted size_of (rounds (mark_all (roots s) s.gc_heap)) s
              (mark_all (roots s) s.gc_heap))) [
                | inr (heap, e) ↦ rw (e, collect) (λ _. h)
                | inl none_halts ↦
                    elim (Result-cases (
                      Memory.collect_garbage (trace_refs (address_of s) s.stack) size_of (roots s)
                        s.gc_heap)) [
                          | inl ((heap, destroyed), e) ↦ rw (none_halts, e, collect) h
                          | inr (x, e) ↦ rw (none_halts, e, collect) (λ _. h)
                        ]
              ];
    }

    Evolves-entered :
        (frames : List ℕ) (a : ℕ) (s : Vm D)
        → Evolves s₀ frames s
        → Evolves s₀ (a ∷ frames) (record s { call_frames = a ∷ s.call_frames })
    Evolves-entered frames a s h = record {
      frames_are = ap (◌∷◌ a) h.frames_are;
      writes = h.writes;
      defines = h.defines;
      reads_clock = h.reads_clock;
    }

    Evolves-left :
        (frames : List ℕ) (a : ℕ) (o : Outcome D (Unit {0}))
        → Ends (Growth (a ∷ frames)) o
        → Ends (Growth frames) (pop_frame o)
    Evolves-left frames a (done x s) h = record {
      frames_are = ap without_first h.frames_are;
      writes = h.writes;
      defines = h.defines;
      reads_clock = h.reads_clock;
    }
    Evolves-left frames a (threw x s) h =
        let grown = h tt in
        λ _. record {
          frames_are = ap without_first grown.frames_are;
          writes = grown.writes;
          defines = grown.defines;
          reads_clock = grown.reads_clock;
        }

    pub Evolves-IsRunKept : IsRunKept size_of Growth
    Evolves-IsRunKept = record {
      kept = Evolves-IsKept;
      collected = Evolves-collect;
      entered = Evolves-entered;
      left = Evolves-left;
    }

  pub Evolves-refl : (s : Vm D) → Evolves s s.call_frames s
  Evolves-refl s = record {
    frames_are = refl;
    writes = ([], sym (append-nil s.output));
    defines = λ name d. d;
    reads_clock = omega arith;
  }

-- ===== src/Tests/Sources.antt =====
-- What the tests share: source texts, numbers for doubles, and a virtual machine to start with.
use Prim.Native.Char.{code}
use Prim.Native.String.{String}
use cpplox.Prelude.{length, List, false, some, ℕ, ◌+◌, ◌-◌, ◌*◌, ◌/◌, [], ◌∷◌, Bytes, ltb, ◌==◌}
use cpplox.Chunk.{SourceMapToken}
use cpplox.Memory.{ControlBlock}
use cpplox.Objects.{Object}
use cpplox.Value.{Double, Value}
use cpplox.Vm.Keeps.{final}
use cpplox.Vm.Run.{empty_vm, initial}
use cpplox.Vm.State.{Vm}

-- The bytes of an ASCII text.
abbrev pub codes : String → Bytes
codes String.[] = []
codes (String.◌∷◌ c s) = code c ∷ codes s

abbrev digits_value : ℕ → Bytes → ℕ
digits_value acc [] = acc
digits_value acc (c ∷ cs) = digits_value (acc * 10 + (c - b'0')) cs

-- Natural numbers in place of doubles.
instance abbrev pub whole_numbers : Double ℕ
whole_numbers = record {
  add = ◌+◌;
  subtract = ◌-◌;
  multiply = ◌*◌;
  divide = ◌/◌;
  negate = λ x. x;
  equal = ◌==◌;
  less = ltb;
  parse = λ s. some (digits_value 0 s);
  show = λ x. x ∷ [];
}

-- The size of a block, and the seconds of each reading of the clock.
abbrev pub size : Object ℕ → ℕ
size _ = 100

abbrev pub seconds : ℕ → ℕ
seconds n = n

abbrev pub start : Vm ℕ
start = final (initial {D = ℕ} size)

abbrev pub token : SourceMapToken
token = record { lexeme = codes "x"; line = 1 }

abbrev pub block : ℕ → Object ℕ → ControlBlock (Object ℕ)
block a o = record { address = a; marked = false; value = o }

abbrev pub vm_with : List (Value ℕ) → List (ControlBlock (Object ℕ)) → Vm ℕ
vm_with stack blocks = record (empty_vm {D = ℕ} size) {
  stack = stack;
  gc_heap = record {
    all_ptrs = blocks;
    gray_worklist = [];
    n_allocated_bytes = 300;
    next_address = length blocks;
  };
}

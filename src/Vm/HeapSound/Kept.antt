-- ===== src/Vm/HeapSound/Kept.antt =====
-- Every instruction, activation and collection of VM::run in src/vm.cpp keeps the heap in order, and
-- the constructor of VM gives one that is.
use cpplox.Memory.Marking.{flag_of, is_marked}
use cpplox.Memory.{find_block}
use cpplox.Objects.{Object, a_native_fn}
use cpplox.Prelude.{ℕ, ◌≢◌, refl, inl, inr, arith}
use cpplox.Table.{lookup}
use cpplox.Vm.Actions.{IsKept}
use cpplox.Vm.Keeps.{final, Ends, Property, Keeps}
use cpplox.Vm.Invariants.Runs.{IsRunKept}
use cpplox.Vm.Run.{word_clock, collect, empty_vm, initial, pop_frame}
use cpplox.Vm.State.{Outcome, done, threw, out_of_range, make, intern, write_object}
use cpplox.Vm.HeapSound.{
  HeapSound, SizesByType, made-HeapSound, interned-HeapSound, written-HeapSound, collect-Survives,
}

module _ {D : Type 0} (size_of : Object D → ℕ) where
  -- In order behind every error but the out_of_range of a collection.
  abbrev pub HeapInOrder : Property D
  HeapInOrder = record { holds = HeapSound size_of; covers = λ e. e ≢ out_of_range }

  HeapSound-collect : Keeps HeapInOrder (collect size_of)
  HeapSound-collect = record {
    at = λ s h. elim (collect-Survives size_of s h) [
      | inl (s', e, kept) ↦ rw e kept.sound
      | inr (heap, e, why) ↦ rw e λ other. absurd (other refl)
    ];
  }

  HeapSound-IsKept : SizesByType size_of → IsKept size_of HeapInOrder
  unfolding make intern write_object
  HeapSound-IsKept sizes = record {
    stack = λ s vs h. h;
    globals = λ s name v h. h;
    output = λ s text h. h;
    clock = λ s h. h;
    made = made-HeapSound size_of;
    interned = interned-HeapSound size_of;
    written = written-HeapSound size_of sizes;
  }

  HeapSound-left : (o : Outcome D (Unit {0})) → Ends HeapInOrder o → Ends HeapInOrder (pop_frame o)
  HeapSound-left (done a s) h = h
  HeapSound-left (threw e s) h = h

  pub HeapSound-IsRunKept : SizesByType size_of → IsRunKept size_of (λ frames. HeapInOrder)
  HeapSound-IsRunKept sizes = record {
    kept = λ frames. HeapSound-IsKept sizes;
    collected = λ frames. HeapSound-collect;
    entered = λ frames a s h. h;
    left = λ frames a o h. HeapSound-left o h;
  }

  empty-HeapSound : HeapSound size_of (empty_vm size_of)
  unfolding is_marked flag_of find_block lookup
  empty-HeapSound = record {
    idle = record { clean = λ x. refl; no_grays = refl; distinct = tt; accounted = refl };
    fresh = tt;
    interned = record {
      live = λ t a e. absurd (ground arith);
      listed = λ t a e. absurd (ground arith);
      named = λ a p e. absurd (ground arith);
    };
  }

  pub HeapSound-initial : HeapSound size_of (final (initial size_of))
  unfolding initial make intern
  HeapSound-initial =
      let made = made-HeapSound size_of a_native_fn (empty_vm size_of) empty-HeapSound in
      let native = final (make size_of a_native_fn (empty_vm size_of)) in
      interned-HeapSound size_of word_clock native made

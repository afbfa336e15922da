-- ===== src/Vm/HeapSound.antt =====
-- The heap of the virtual machine and its table of strings, which new objects, assignments through
-- pointers and collections in VM::run leave in order.
pub mod Kept
use cpplox.Interned.Destroy.{IsInterned}
use cpplox.Interned.Identity.{get-Got, collected-IsInterned}
use cpplox.Interned.{InternedStrings, on_destroy_all}
use cpplox.Memory
use cpplox.Memory.Allocate.{make-Allocated}
use cpplox.Memory.Collect.{IsFresh}
use cpplox.Memory.Marking.{value_at, flag_of, is_marked}
use cpplox.Memory.Reach.{Reach}
use cpplox.Memory.Sweep.{IsIdle, Collected, collect_garbage-Collected}
use cpplox.Memory.{ControlBlock, GcHeap, find_block}
use cpplox.Objects.{Object, a_native_fn, a_string, trace_refs}
use cpplox.Prelude.{ℕ, ◌≡◌, ◌≢◌, ◌⊎◌, ◌↔◌, ◌∙◌, refl, sym, some, inl, inr, List, Bytes, arith}
use cpplox.Result.{ok}
use cpplox.Table.{lookup}
use cpplox.Vm.Actions.{IsKept, Replaces}
use cpplox.Vm.Keeps.{final, Ends, Property, Keeps}
use cpplox.Vm.Halts.{IsDangling, traced-Halts}
use cpplox.Vm.Live.{Live, Live-of_Reach, Reach-of_Live}
use cpplox.Vm.Invariants.Runs.{IsRunKept}
use cpplox.Vm.Run.{word_clock, collect, empty_vm, initial, pop_frame, text_of, roots}
use cpplox.Vm.Writes.{
  flag_of-write_block, IsFresh-write_block, DistinctAddresses-write_block, total-write_block,
  value_at-write_block,
}
use cpplox.Vm.State.{Vm, Outcome, done, threw, out_of_range, make, intern, write_object, address_of}

module _ {D : Type 0} where
  -- The heap between two instructions, and the strings in it: no block is marked or twice there, the
  -- byte count is the sum of the sizes, and the table gives each of its texts the one object that is
  -- the text.
  pub record IsSound (size_of : Object D → ℕ) (heap : GcHeap (Object D)) (strings : InternedStrings)
      : Type 0 where
    pub idle : IsIdle size_of heap
    pub fresh : IsFresh heap.next_address heap.all_ptrs
    pub interned : IsInterned a_string text_of (λ s. refl) heap.all_ptrs strings

  abbrev pub HeapSound : (Object D → ℕ) → Vm D → Type 0
  HeapSound size_of s = IsSound size_of s.gc_heap s.interned_strings

  -- The types of two objects decide the sizes of their blocks.
  abbrev pub SizesByType : (Object D → ℕ) → Type 0
  SizesByType size_of = (o o' : Object D) → Replaces o o' → size_of o ≡ size_of o'

  module _ (size_of : Object D → ℕ) where
    pub made-HeapSound :
        (o : Object D) (s : Vm D)
        → HeapSound size_of s
        → HeapSound size_of (final (make size_of o s))
    unfolding make
    made-HeapSound o s h =
        let new = make-Allocated size_of o s.gc_heap h.idle h.fresh in
        let i = h.interned in
        record {
          idle = new.idle;
          fresh = new.fresh;
          interned = record {
            live = λ t a e.
                let was = i.live t a e in
                let u = new.unused in new.kept a (λ q. ground arith) ∙ was;
            listed = i.listed;
            named = i.named;
          };
        }

    pub interned-HeapSound :
        (text : Bytes) (s : Vm D)
        → HeapSound size_of s
        → HeapSound size_of (final (intern size_of text s))
    unfolding intern
    interned-HeapSound text s h =
        let got =
          get-Got a_string text_of (λ t. refl) size_of text s.interned_strings s.gc_heap h.interned
            h.idle h.fresh in
        record { idle = got.idle; fresh = got.fresh; interned = got.interned }

    pub written-HeapSound :
        SizesByType size_of
        → (a : ℕ) (o : Object D) (s : Vm D) (b : ControlBlock (Object D))
        → find_block a s.gc_heap.all_ptrs ≡ some b
        → Replaces b.value o
        → HeapSound size_of s
        → HeapSound size_of (final (write_object a o s))
    unfolding write_object is_marked
    written-HeapSound sizes a o s b at_a same h =
        let blocks = s.gc_heap.all_ptrs in
        let i = h.interned in
        record {
          idle = record {
            clean = λ x. flag_of-write_block x a o blocks ∙ h.idle.clean x;
            no_grays = h.idle.no_grays;
            distinct = DistinctAddresses-write_block a o blocks h.idle.distinct;
            accounted =
                h.idle.accounted
                ∙ sym (total-write_block size_of a o blocks b at_a (sizes b.value o same));
          };
          fresh = IsFresh-write_block s.gc_heap.next_address a o blocks h.fresh;
          interned = record {
            live = λ t x e. value_at-write_block x a t o blocks b at_a same (i.live t x e);
            listed = i.listed;
            named = i.named;
          };
        }

    collect_garbage-HeapSound :
        (s : Vm D)
        → HeapSound size_of s
        → (heap : GcHeap (Object D)) × (destroyed : List (ControlBlock (Object D)))
          × (Memory.collect_garbage (trace_refs (address_of s) s.stack) size_of (roots s) s.gc_heap
              ≡ ok (heap, destroyed))
          × Collected (trace_refs (address_of s) s.stack) size_of (roots s) s.gc_heap heap destroyed
          × IsSound size_of heap
              (on_destroy_all text_of s.gc_heap.all_ptrs destroyed s.interned_strings)
    collect_garbage-HeapSound s h =
        let (heap, destroyed, e, c) =
          collect_garbage-Collected (trace_refs (address_of s) s.stack) size_of (roots s) s.gc_heap
            h.idle in
        (
          heap,
          destroyed,
          e,
          c,
          record {
            idle = c.idle;
            fresh = c.fresh h.fresh;
            interned =
                (collected-IsInterned a_string text_of (λ t. refl)
                  (trace_refs (address_of s) s.stack) size_of (roots s) s.gc_heap heap destroyed
                  s.interned_strings h.interned c).0;
          },
        )

  and_Live :
      (s : Vm D) {A B : Type 0} {a : ℕ}
      → A ↔ (B × Reach (trace_refs (address_of s) s.stack) (roots s) s.gc_heap.all_ptrs a)
      → A ↔ (B × Live s a)
  and_Live s e =
      (λ x. let (b, r) = e.0 x in (b, Live-of_Reach s r), λ (b, l). e.1 (b, Reach-of_Live s l))

  -- What a collection leaves of the objects and of the table of strings: what is live.
  pub record Survives (size_of : Object D → ℕ) (s s' : Vm D) : Type 0 where
    pub objects :
        (a : ℕ) (o : Object D)
        → (value_at s'.gc_heap.all_ptrs a ≡ some o)
          ↔ ((value_at s.gc_heap.all_ptrs a ≡ some o) × Live s a)
    pub strings :
        (text : Bytes) (a : ℕ)
        → (address_of s' text ≡ some a) ↔ ((address_of s text ≡ some a) × Live s a)
    pub readable :
        (a : ℕ) (o : Object D)
        → Live s a
        → value_at s.gc_heap.all_ptrs a ≡ some o
        → ¬ IsDangling s o
    pub same_stack : s'.stack ≡ s.stack
    pub same_globals : s'.globals ≡ s.globals
    pub same_frames : s'.call_frames ≡ s.call_frames
    pub same_output : s'.output ≡ s.output
    pub sound : HeapSound size_of s'

  -- What a collection leaves that throws: no object has changed, and a live one cannot be traced.
  abbrev pub Halted : Vm D → GcHeap (Object D) → Type 0
  Halted s heap =
      ((x : ℕ) → value_at heap.all_ptrs x ≡ value_at s.gc_heap.all_ptrs x)
      × ((a : ℕ) × (o : Object D) × Live s a
          × (value_at s.gc_heap.all_ptrs a ≡ some o)
          × IsDangling s o)

  module _ (size_of : Object D → ℕ) where
    -- From a heap in order, where no block is marked, no address is twice there, the byte count is
    -- the sum of the sizes, no address from the next one on was handed out, and the table of
    -- strings leads each of its texts to its object, a collection ends. Either every upvalue that
    -- is live (what the stack, the global variables and the activations refer to, and what live
    -- objects refer to) can be read: then the objects left are exactly the live ones, as they were,
    -- the texts left in the table are exactly those whose objects are live, the stack, the globals,
    -- the activations and the output stay, and the heap is in order again. Or a live upvalue is
    -- open at an index that the stack has not: then out_of_range is thrown, no object has changed,
    -- and nothing but the heap has.
    pub collect-Survives :
        (s : Vm D)
        → HeapSound size_of s
        → ((s' : Vm D) × (collect size_of s ≡ done tt s') × Survives size_of s s')
          ⊎ ((heap : GcHeap (Object D)) × (collect size_of s
                ≡ threw out_of_range (record s { gc_heap = heap }))
              × Halted s heap)
    unfolding collect address_of
    collect-Survives s h = elim (traced-Halts size_of s h.idle) [
      | inl (heap, e, values, halts) ↦
          let (a, o, reached, at_a, dangles) = halts in
          rw (e, collect)
            (inr (heap, refl, (values, (a, o, Live-of_Reach s reached, at_a, dangles))))
      | inr (goes, readable) ↦
          let (heap, destroyed, e, c, sound) = collect_garbage-HeapSound size_of s h in
          let table =
            collected-IsInterned a_string text_of (λ t. refl) (trace_refs (address_of s) s.stack)
              size_of (roots s) s.gc_heap heap destroyed s.interned_strings h.interned c in
          rw (goes, e, collect)
            (inl (
              _,
              refl,
              record {
                objects = λ a o. and_Live s (c.kept a o);
                strings = λ text a. and_Live s (table.1 text a);
                readable = λ a o live. readable a o (Reach-of_Live s live);
                same_stack = refl;
                same_globals = refl;
                same_frames = refl;
                same_output = refl;
                sound = sound;
              },
            ))
    ]

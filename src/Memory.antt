-- ===== src/Memory.antt =====
-- The mark-and-sweep heap: src/memory.hpp and src/memory.cpp. A pointer to a control block is its
-- address, `none` is null, and a heap that dereferences an address looks its block up. No address
-- is handed out twice.
pub mod Marking
pub mod Reach
pub mod Collect
pub mod Sweep
pub mod Allocate
use cpplox.Prelude.{
  ℕ, zero, suc, ◌+◌, Bool, true, false, Option, none, some, List, [], ◌∷◌, ◌++◌, length, ◌==◌,
  if◌then◌else◌, size_sub,
}
use cpplox.Result.{Result, ok, err, ◌>>=◌, out_of_fuel}

pub record ControlBlock (V : Type 0) : Type 0 where
  pub address : ℕ
  pub marked : Bool
  pub value : V

-- The back of gray_worklist_ stands first.
pub record GcHeap (V : Type 0) : Type 0 where
  pub all_ptrs : List (ControlBlock V)
  pub gray_worklist : List ℕ
  pub n_allocated_bytes : ℕ
  pub next_address : ℕ

module _ {V : Type 0} where
  unfoldable pub find_block : ℕ → List (ControlBlock V) → Option (ControlBlock V)
  find_block a [] = none
  find_block a (b ∷ bs) = if b.address == a then some b else find_block a bs

  -- `control_block.marked = true`
  unfoldable pub set_marked : ℕ → List (ControlBlock V) → List (ControlBlock V)
  set_marked a [] = []
  set_marked a (b ∷ bs) =
      if b.address == a then record b { marked = true } ∷ bs else b ∷ set_marked a bs

  -- GC_heap::mark, behind the test for null in the function template `mark`. An address without a
  -- block is a dangling pointer.
  unfoldable pub mark : Option ℕ → GcHeap V → GcHeap V
  unfolding find_block
  mark none h = h
  mark (some a) h = elim (find_block a h.all_ptrs) [
    | none ↦ h
    | some b ↦
        if b.marked
        then h
        else record h { all_ptrs = set_marked a h.all_ptrs; gray_worklist = a ∷ h.gray_worklist }
  ]

  unfoldable pub mark_all : List (Option ℕ) → GcHeap V → GcHeap V
  mark_all [] h = h
  mark_all (p ∷ ps) h = mark_all ps (mark p h)

  -- The two sides of `std::partition` by `marked`.
  unfoldable pub reached : List (ControlBlock V) → List (ControlBlock V)
  reached [] = []
  reached (b ∷ bs) = if b.marked then b ∷ reached bs else reached bs

  unfoldable pub unreached : List (ControlBlock V) → List (ControlBlock V)
  unreached [] = []
  unreached (b ∷ bs) = if b.marked then unreached bs else b ∷ unreached bs

  unfoldable pub unmark : List (ControlBlock V) → List (ControlBlock V)
  unmark [] = []
  unmark (b ∷ bs) = record b { marked = false } ∷ unmark bs

-- `size_of` gives the size of a value's control block.
module _ {V : Type 0} (size_of : V → ℕ) where
  unfoldable pub make : V → GcHeap V → ℕ × GcHeap V
  make v h = (
    h.next_address,
    record {
      all_ptrs = h.all_ptrs ++ record { address = h.next_address; marked = false; value = v } ∷ [];
      gray_worklist = h.gray_worklist;
      n_allocated_bytes = h.n_allocated_bytes + size_of v;
      next_address = h.next_address + 1;
    },
  )

  -- `n_allocated_bytes_ -= control_block->size()` for each block that is destroyed.
  unfoldable pub release : List (ControlBlock V) → ℕ → ℕ
  unfolding size_sub
  release [] n = n
  release (b ∷ bs) n = release bs (size_sub n (size_of b.value))

-- `trace_refs` gives the pointers that `trace_refs_trait` marks for a value.
module _ {V : Type 0} (trace_refs : V → List (Option ℕ)) (size_of : V → ℕ) where
  -- What tracing the block at an address marks.
  unfoldable pub trace_block : ℕ → GcHeap V → GcHeap V
  unfolding find_block mark_all
  trace_block a h = elim (find_block a h.all_ptrs) [
    | none ↦ h
    | some b ↦ mark_all (trace_refs b.value) h
  ]

  -- `while (! gray_worklist_.empty())`
  unfoldable pub trace_loop : ℕ → GcHeap V → Result (GcHeap V)
  trace_loop zero h = elim h.gray_worklist [ [] ↦ ok h | _ ∷ _ ↦ err out_of_fuel ]
  trace_loop (suc fuel) h = elim h.gray_worklist [
    | [] ↦ ok h
    | a ∷ grays ↦ trace_loop fuel (trace_block a (record h { gray_worklist = grays }))
  ]

  -- GC_heap::collect_garbage. `roots` is what the callbacks of on_mark_roots mark, in order; the
  -- blocks returned are those that on_destroy_ptr is told of.
  unfoldable pub collect_garbage :
      List (Option ℕ) → GcHeap V → Result (GcHeap V × List (ControlBlock V))
  collect_garbage roots h = do
    let rooted = mark_all roots h
    h₁ ← trace_loop (length rooted.all_ptrs + length rooted.gray_worklist) rooted
    let destroyed = unreached h₁.all_ptrs
    ok (
      record h₁ {
        all_ptrs = unmark (reached h₁.all_ptrs);
        n_allocated_bytes = release size_of destroyed h₁.n_allocated_bytes;
      },
      destroyed,
    )

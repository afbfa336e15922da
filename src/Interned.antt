-- ===== src/Interned.antt =====
-- Interned_strings of src/interned_strings.cpp: one string object in the heap for each text. A value
-- of the heap that is a string is made by `of_text` and read by `text_of`.
pub mod Destroy
pub mod Identity
use cpplox.Memory.{ControlBlock, GcHeap, find_block, make}
use cpplox.Prelude.{ℕ, Option, none, some, List, [], ◌∷◌, ◌==◌, Bytes, bytes_eq}
use cpplox.Table.{lookup, assign, erase}

pub record InternedStrings : Type 0 where
  pub strings_by_chars : List (Bytes × ℕ)
  pub strings_by_ptr : List (ℕ × ℕ)

abbrev pub no_strings : InternedStrings
no_strings = record { strings_by_chars = []; strings_by_ptr = [] }

module _ {V : Type 0} (size_of : V → ℕ) (of_text : Bytes → V) where
  -- The three overloads of Interned_strings::get.
  unfoldable pub get : Bytes → InternedStrings → GcHeap V → ℕ × InternedStrings × GcHeap V
  unfolding lookup assign bytes_eq make
  get text strings heap = elim (lookup bytes_eq text strings.strings_by_chars) [
    | some pointer ↦ (pointer, strings, heap)
    | none ↦
        let (pointer, heap') = make size_of (of_text text) heap in
        (
          pointer,
          record {
            strings_by_chars = assign bytes_eq text pointer strings.strings_by_chars;
            strings_by_ptr = assign ◌==◌ pointer pointer strings.strings_by_ptr;
          },
          heap',
        )
  ]

module _ {V : Type 0} (text_of : V → Option Bytes) where
  -- `**ptr` of a pointer to a string, in the blocks of the heap.
  unfoldable pub text_at : List (ControlBlock V) → ℕ → Option Bytes
  unfolding find_block
  text_at blocks pointer = elim (find_block pointer blocks) [
    | none ↦ none
    | some b ↦ text_of b.value
  ]

  -- The callback of on_destroy_ptr, while no block is destroyed yet.
  unfoldable pub on_destroy :
      List (ControlBlock V) → ControlBlock V → InternedStrings → InternedStrings
  unfolding lookup erase text_at bytes_eq
  on_destroy blocks b strings = elim (lookup ◌==◌ b.address strings.strings_by_ptr) [
    | none ↦ strings
    | some pointer ↦ elim (text_at blocks pointer) [
      | none ↦ strings
      | some text ↦ record {
        strings_by_chars = erase bytes_eq text strings.strings_by_chars;
        strings_by_ptr = erase ◌==◌ b.address strings.strings_by_ptr;
      }
    ]
  ]

  unfoldable pub on_destroy_all :
      List (ControlBlock V) → List (ControlBlock V) → InternedStrings → InternedStrings
  unfolding on_destroy
  on_destroy_all blocks [] strings = strings
  on_destroy_all blocks (b ∷ bs) strings = on_destroy_all blocks bs (on_destroy blocks b strings)

-- ===== src/Memory/Collect.antt =====
-- A collection keeps exactly the blocks that the roots reach.
use cpplox.Memory.Marking.{value_at, value_of, flag_of, unmarked}
use cpplox.Memory.{ControlBlock, find_block, reached, unreached, unmark}
use cpplox.Prelude.{
  All, if_cases, ◌<◌, ℕ, ◌≤◌, false, none, List, [], ◌∷◌, ◌≡◌, ◌↔◌, inl, inr, refl, length, arith,
  Bool-cases, if◌then◌else◌,
}

module _ {V : Type 0} where
  -- No two blocks have one address.
  abbrev pub DistinctAddresses : List (ControlBlock V) → Type 0
  DistinctAddresses [] = Unit
  DistinctAddresses (b ∷ bs) = (find_block b.address bs ≡ none) × DistinctAddresses bs

  -- No address from `next` on has been handed out.
  abbrev pub IsFresh : ℕ → List (ControlBlock V) → Type 0
  IsFresh next bs = All (λ b. b.address < next) bs

  pub IsFresh-unmark :
      (next : ℕ) (bs : List (ControlBlock V)) → IsFresh next (unmark bs) ↔ IsFresh next bs
  unfolding unmark
  IsFresh-unmark next [] = (λ h. h, λ h. h)
  IsFresh-unmark next (b ∷ bs) =
      let (f, g) = IsFresh-unmark next bs in (λ h. (h.0, f h.1), λ h. (h.0, g h.1))

  pub IsFresh-reached :
      (next : ℕ) (bs : List (ControlBlock V)) → IsFresh next bs → IsFresh next (reached bs)
  unfolding reached
  IsFresh-reached next [] h = tt
  IsFresh-reached next (b ∷ bs) h =
      if_cases (IsFresh next) b.marked (λ _. (h.0, IsFresh-reached next bs h.1))
        λ _. IsFresh-reached next bs h.1

  find_block-unmark :
      (a : ℕ) (bs : List (ControlBlock V))
      → (find_block a (unmark bs) ≡ none) ↔ (find_block a bs ≡ none)
  unfolding find_block unmark
  find_block-unmark a [] = (λ e. e, λ e. e)
  find_block-unmark a (b ∷ bs) = ground (arith, find_block-unmark a bs)

  pub DistinctAddresses-unmark :
      (bs : List (ControlBlock V)) → DistinctAddresses (unmark bs) ↔ DistinctAddresses bs
  unfolding unmark
  DistinctAddresses-unmark [] = (λ e. e, λ e. e)
  DistinctAddresses-unmark (b ∷ bs) =
      let (f, g) = DistinctAddresses-unmark bs in
      let (k, l) = find_block-unmark b.address bs in (λ (e, d). (k e, f d), λ (e, d). (l e, g d))

  find_block-reached :
      (a : ℕ) (bs : List (ControlBlock V))
      → find_block a bs ≡ none
      → find_block a (reached bs) ≡ none
  unfolding find_block reached
  find_block-reached a [] e = refl
  find_block-reached a (b ∷ bs) e = ground (arith, find_block-reached a bs)

  find_block-unreached :
      (a : ℕ) (bs : List (ControlBlock V))
      → find_block a bs ≡ none
      → find_block a (unreached bs) ≡ none
  unfolding find_block unreached
  find_block-unreached a [] e = refl
  find_block-unreached a (b ∷ bs) e = ground (arith, find_block-unreached a bs)

  pub DistinctAddresses-reached :
      (bs : List (ControlBlock V)) → DistinctAddresses bs → DistinctAddresses (reached bs)
  unfolding reached
  DistinctAddresses-reached [] d = tt
  DistinctAddresses-reached (b ∷ bs) d = elim (Bool-cases b.marked) [
    | inl e ↦
        rw (e, reached) (find_block-reached b.address bs d.0, DistinctAddresses-reached bs d.1)
    | inr e ↦ rw (e, reached) (DistinctAddresses-reached bs d.1)
  ]

  pub value_at-reached :
      (a : ℕ) (bs : List (ControlBlock V))
      → DistinctAddresses bs
      → value_at (reached bs) a ≡ (if flag_of (find_block a bs) then value_at bs a else none)
  unfolding value_at value_of flag_of find_block reached
  value_at-reached a [] d = refl
  value_at-reached a (b ∷ bs) d =
      ground (arith, value_at-reached a bs, find_block-reached b.address bs)

  pub value_at-unreached :
      (a : ℕ) (bs : List (ControlBlock V))
      → DistinctAddresses bs
      → value_at (unreached bs) a ≡ (if flag_of (find_block a bs) then none else value_at bs a)
  unfolding value_at value_of flag_of find_block unreached
  value_at-unreached a [] d = refl
  value_at-unreached a (b ∷ bs) d =
      ground (arith, value_at-unreached a bs, find_block-unreached b.address bs)

  pub value_at-unmark :
      (a : ℕ) (bs : List (ControlBlock V)) → value_at (unmark bs) a ≡ value_at bs a
  unfolding value_at value_of find_block unmark
  value_at-unmark a [] = refl
  value_at-unmark a (b ∷ bs) = ground (arith, value_at-unmark a bs)

  pub flag-unmark :
      (a : ℕ) (bs : List (ControlBlock V)) → flag_of (find_block a (unmark bs)) ≡ false
  unfolding flag_of find_block unmark
  flag-unmark a [] = refl
  flag-unmark a (b ∷ bs) = ground (arith, flag-unmark a bs)

  pub unmarked-le : (bs : List (ControlBlock V)) → unmarked bs ≤ length bs
  unmarked-le [] = omega arith
  unmarked-le (b ∷ bs) = ground (arith, unmarked-le bs)

-- ===== src/Compiler/Capture.antt =====
-- Captured variables: what the indices that track_upvalue of src/compiler.cpp records lead to, when
-- they are followed outwards through the functions being compiled.
use cpplox.Chunk.{TrackedUpvalue, upvalue_index, upupvalue_index}
use cpplox.Compiler.Named.{
  HasNone, IsFirst, FirstFound, find_first_local-FirstFound, is_captured_at, lt-length_of_IsFirst,
  is_captured_at-set_captured, add_upvalue-Holds,
}
use cpplox.Compiler.State.{FunctionChunk}
use cpplox.Compiler.Variables.{find_first_local, set_captured, capture, track_upvalue_in}
use cpplox.Prelude.{
  ℕ, suc, ◌≡◌, ◌∙◌, refl, sym, subst, ap, Bool, true, false, Option-cases, inl, inr, Option, none,
  some, List, [], ◌∷◌, get_elem?, All, arith, Bytes,
}

abbrev step_out : Option (ℕ × ℕ) → Option (ℕ × ℕ)
step_out none = none
step_out (some (out, local)) = some (suc out, local)

-- The upvalue at an index, followed outwards: how many functions out it leads, and to which local.
unfoldable pub follow : {D : Type 0} → List (FunctionChunk D) → ℕ → Option (ℕ × ℕ)
follow [] i = none
follow (f ∷ fs) i = elim (get_elem? f.tracked_upvalues i) [
  | none ↦ none
  | some (upvalue_index local) ↦ some (1, local)
  | some (upupvalue_index j) ↦ step_out (follow fs j)
]

-- The nearest enclosing function with a local of the name, and the first of its locals so named.
pub data Binds {D : Type 0} (name : Bytes) : List (FunctionChunk D) → ℕ → ℕ → Type 0 where
  here :
      (f g : FunctionChunk D) (fs : List (FunctionChunk D)) {local : ℕ}
      → IsFirst name g.tracked_locals local
      → Binds name (f ∷ g ∷ fs) 1 local
  further :
      (f g : FunctionChunk D) {fs : List (FunctionChunk D)} {out local : ℕ}
      → HasNone name g.tracked_locals
      → Binds name (g ∷ fs) out local
      → Binds name (f ∷ g ∷ fs) (suc out) local

-- The flag of a local in the function at an index.
abbrev pub is_captured_in : {D : Type 0} → List (FunctionChunk D) → ℕ → ℕ → Bool
is_captured_in fs out local = elim (get_elem? fs out) [
  | none ↦ false
  | some f ↦ is_captured_at local f.tracked_locals
]

-- No enclosing function has a local of the name.
abbrev pub IsFree : {D : Type 0} → Bytes → List (FunctionChunk D) → Type 0
IsFree name [] = Unit
IsFree name (f ∷ fs) = All (λ g. HasNone name g.tracked_locals) fs

-- Each index that led to a local leads to it still.
abbrev pub Leads : {D : Type 0} → List (FunctionChunk D) → List (FunctionChunk D) → Type 0
Leads fs gs = (i out local : ℕ) → follow fs i ≡ some (out, local) → follow gs i ≡ some (out, local)

module _ {D : Type 0} where
  -- What track_upvalue does for a name: the index it returns, and the functions behind it.
  abbrev pub Tracked : Bytes → List (FunctionChunk D) → Option (ℕ × List (FunctionChunk D)) → Type 0
  Tracked name fs none = IsFree name fs
  Tracked name fs (some (i, gs)) =
      (out local : ℕ) × Binds name fs out local
      × (follow gs i ≡ some (out, local))
      × (is_captured_in gs out local ≡ true)
      × Leads fs gs

  -- What one entry of a function's tracked_upvalues leads to, with the functions around it.
  abbrev entry : List (FunctionChunk D) → TrackedUpvalue → Option (ℕ × ℕ)
  entry fs (upvalue_index local) = some (1, local)
  entry fs (upupvalue_index j) = step_out (follow fs j)

  follow-entry :
      (f : FunctionChunk D) (fs : List (FunctionChunk D)) (i : ℕ) (u : TrackedUpvalue)
      → get_elem? f.tracked_upvalues i ≡ some u
      → follow (f ∷ fs) i ≡ entry fs u
  unfolding follow
  follow-entry f fs i (upvalue_index local) e = rw (e, follow) refl
  follow-entry f fs i (upupvalue_index j) e = rw (e, follow) refl

  follow-some :
      (f : FunctionChunk D) (fs : List (FunctionChunk D)) (i : ℕ) {target : ℕ × ℕ}
      → follow (f ∷ fs) i ≡ some target
      → (u : TrackedUpvalue) × (get_elem? f.tracked_upvalues i ≡ some u)
        × (entry fs u ≡ some target)
  unfolding follow
  follow-some f fs i h = elim (Option-cases (get_elem? f.tracked_upvalues i)) [
    | inl e ↦ let nowhere : follow (f ∷ fs) i ≡ none = rw (e, follow) refl in absurd (ground arith)
    | inr (u, e) ↦ (u, e, sym (follow-entry f fs i u e) ∙ h)
  ]

  Leads-entry :
      (fs gs : List (FunctionChunk D)) (u : TrackedUpvalue) (out local : ℕ)
      → Leads fs gs
      → entry fs u ≡ some (out, local)
      → entry gs u ≡ some (out, local)
  Leads-entry fs gs (upvalue_index l) out local leads h = h
  Leads-entry fs gs (upupvalue_index j) out local leads h = elim (Option-cases (follow fs j)) [
    | inl e ↦
        let nowhere : entry fs (upupvalue_index j) ≡ none = ap step_out e in absurd (ground arith)
    | inr ((o, l), e) ↦ ap step_out (leads j o l e) ∙ sym (ap step_out e) ∙ h
  ]

  Leads-concat :
      (f f' : FunctionChunk D) (fs gs : List (FunctionChunk D))
      → ((j : ℕ) (v : TrackedUpvalue)
          → get_elem? f.tracked_upvalues j ≡ some v
          → get_elem? f'.tracked_upvalues j ≡ some v)
      → Leads fs gs
      → Leads (f ∷ fs) (f' ∷ gs)
  Leads-concat f f' fs gs kept leads i out local h =
      let (u, at_i, to) = follow-some f fs i h in
      follow-entry f' gs i u (kept i u at_i) ∙ Leads-entry fs gs u out local leads to

  -- A name is captured from the nearest enclosing function that has a local of that name, and there
  -- the first one declared; the index returned leads to that local, which is flagged as captured,
  -- and each index that led to a local before leads to it still. When no index is returned, no
  -- enclosing function has a local of the name.
  pub track_upvalue_in-Tracked :
      (name : Bytes) (fs : List (FunctionChunk D)) → Tracked name fs (track_upvalue_in name fs)
  unfolding track_upvalue_in
  track_upvalue_in-Tracked name [] = tt
  track_upvalue_in-Tracked name (f ∷ []) = tt
  track_upvalue_in-Tracked name (f ∷ g ∷ fs) =
      let ih = track_upvalue_in-Tracked name (g ∷ fs) in
      let first = find_first_local-FirstFound name g.tracked_locals in
      elim (Option-cases (find_first_local name g.tracked_locals)) [
        | inr (local, e) ↦
            let is_first : IsFirst name g.tracked_locals local =
              subst (FirstFound name g.tracked_locals) e first in
            let f1 = (capture (upvalue_index local) f).1 in
            let g1 : FunctionChunk D = record g {
              tracked_locals = set_captured local g.tracked_locals;
            } in
            rw (e, track_upvalue_in)
              (
                1,
                local,
                here f g fs is_first,
                follow-entry f1 (g1 ∷ fs) (capture (upvalue_index local) f).0 (upvalue_index local)
                    (add_upvalue-Holds (upvalue_index local) f.tracked_upvalues).0,
                is_captured_at-set_captured g.tracked_locals local
                    (lt-length_of_IsFirst name g.tracked_locals local is_first),
                Leads-concat f f1 (g ∷ fs) (g1 ∷ fs)
                    (add_upvalue-Holds (upvalue_index local) f.tracked_upvalues).1
                    (Leads-concat g g1 fs fs (λ j v h. h) (λ j o l h. h)),
              )
        | inl e ↦
            let has_none : HasNone name g.tracked_locals =
              subst (FirstFound name g.tracked_locals) e first in
            elim (Option-cases (track_upvalue_in name (g ∷ fs))) [
              | inl free ↦
                  rw (e, track_upvalue_in, free) (has_none, subst (Tracked name (g ∷ fs)) free ih)
              | inr ((up, gs), e') ↦
                  let inner : Tracked name (g ∷ fs) (some (up, gs)) =
                    subst (Tracked name (g ∷ fs)) e' ih in
                  let (out, local, binds, follows, marked, leads) = inner in
                  rw (e, track_upvalue_in, e')
                    (
                      suc out,
                      local,
                      further f g has_none binds,
                      follow-entry (capture (upupvalue_index up) f).1 gs
                            (capture (upupvalue_index up) f).0 (upupvalue_index up)
                            (add_upvalue-Holds (upupvalue_index up) f.tracked_upvalues).0
                          ∙ ap step_out follows,
                      marked,
                      Leads-concat f (capture (upupvalue_index up) f).1 (g ∷ fs) gs
                          (add_upvalue-Holds (upupvalue_index up) f.tracked_upvalues).1 leads,
                    )
            ]
      ]

-- ===== src/Compiler/Named.antt =====
-- The searches behind a capture in src/compiler.cpp: for a local by its name, whose is_captured is
-- set, and for an upvalue in tracked_upvalues.
use cpplox.Chunk.{TrackedUpvalue, upvalue_index, upupvalue_index}
use cpplox.Compiler.State.{TrackedLocal}
use cpplox.Compiler.Variables.{
  find_first_local, set_captured, upvalue_eq, find_upvalue, add_upvalue,
}
use cpplox.Prelude.{
  ℕ, ◌≡◌, ◌≢◌, ◌∙◌, refl, subst, Bool, true, false, Bool-cases, Option-cases, inl, inr, Option,
  none, some, List, [], ◌∷◌, length, get_elem?, get_elem?-length, get_elem?-append,
  lt-length_of_get_elem?, All, arith, ◌==◌, ◌<◌, if_cases, if◌then◌else◌, Bytes, bytes_eq,
  bytes_eq_iff,
}

-- No local has the name.
abbrev pub HasNone : Bytes → List TrackedLocal → Type 0
HasNone name ls = All (λ l. l.name ≢ name) ls

-- The local at the index has the name, and no local declared before it has.
pub data IsFirst (name : Bytes) : List TrackedLocal → ℕ → Type 0 where
  found :
      (l : TrackedLocal) (ls : List TrackedLocal)
      → l.name ≡ name
      → HasNone name ls
      → IsFirst name (l ∷ ls) (length ls)
  before :
      (l : TrackedLocal) {ls : List TrackedLocal} {i : ℕ}
      → IsFirst name ls i
      → IsFirst name (l ∷ ls) i

abbrev pub FirstFound : Bytes → List TrackedLocal → Option ℕ → Type 0
FirstFound name ls none = HasNone name ls
FirstFound name ls (some i) = IsFirst name ls i

pub find_first_local-FirstFound :
    (name : Bytes) (ls : List TrackedLocal) → FirstFound name ls (find_first_local name ls)
unfolding find_first_local
find_first_local-FirstFound name [] = tt
find_first_local-FirstFound name (l ∷ ls) =
    let ih = find_first_local-FirstFound name ls in
    elim (Option-cases (find_first_local name ls)) [
      | inr (i, e) ↦ rw e (before l (subst (FirstFound name ls) e ih))
      | inl e ↦
          let none_behind : HasNone name ls = subst (FirstFound name ls) e ih in
          elim (Bool-cases (bytes_eq l.name name)) [
            | inl t ↦ rw (e, t) (found l ls ((bytes_eq_iff l.name name).0 t) none_behind)
            | inr n ↦ rw (e, n) (λ q. let same = (bytes_eq_iff l.name name).1 q in cc, none_behind)
          ]
    ]

-- The flag of the local at an index.
unfoldable pub is_captured_at : ℕ → List TrackedLocal → Bool
is_captured_at i [] = false
is_captured_at i (l ∷ ls) = if length ls == i then l.is_captured else is_captured_at i ls

pub lt-length_of_IsFirst :
    (name : Bytes) (ls : List TrackedLocal) (i : ℕ) → IsFirst name ls i → i < length ls
lt-length_of_IsFirst name [] i h = elim h [ ]
lt-length_of_IsFirst name (l ∷ ls) i (found _ _ named none_behind) = omega arith
lt-length_of_IsFirst name (l ∷ ls) i (before _ h) = omega (arith, lt-length_of_IsFirst name ls i h)

length-set_captured : (i : ℕ) (ls : List TrackedLocal) → length (set_captured i ls) ≡ length ls
unfolding set_captured
length-set_captured i [] = refl
length-set_captured i (l ∷ ls) = ground (arith, length-set_captured i ls)

pub is_captured_at-set_captured :
    (ls : List TrackedLocal) (i : ℕ) → i < length ls → is_captured_at i (set_captured i ls) ≡ true
unfolding is_captured_at set_captured
is_captured_at-set_captured [] i h = absurd (omega arith)
is_captured_at-set_captured (l ∷ ls) i h =
    let behind = length-set_captured i ls in
    if_cases (λ x. is_captured_at i x ≡ true) (length ls == i) (λ e. rw e refl)
      λ n. let ih = is_captured_at-set_captured ls i (ground arith) in ground arith

abbrev pub Holds : TrackedUpvalue → List TrackedUpvalue → ℕ × List TrackedUpvalue → Type 0
Holds u us (i, vs) =
    (get_elem? vs i ≡ some u)
    × ((j : ℕ) (v : TrackedUpvalue) → get_elem? us j ≡ some v → get_elem? vs j ≡ some v)

upvalue_eq-eq : (u v : TrackedUpvalue) → upvalue_eq u v ≡ true → u ≡ v
unfolding upvalue_eq
upvalue_eq-eq (upvalue_index i) (upvalue_index j) h = ground arith
upvalue_eq-eq (upupvalue_index i) (upupvalue_index j) h = ground arith
upvalue_eq-eq (upvalue_index i) (upupvalue_index j) h = cc
upvalue_eq-eq (upupvalue_index i) (upvalue_index j) h = cc

find_upvalue-get_elem? :
    (u : TrackedUpvalue) (us : List TrackedUpvalue) (i : ℕ)
    → find_upvalue u us ≡ some i
    → get_elem? us i ≡ some u
unfolding find_upvalue
find_upvalue-get_elem? u [] i h = cc
find_upvalue-get_elem? u (v ∷ us) i h = elim (Bool-cases (upvalue_eq v u)) [
  | inl e ↦ let same = upvalue_eq-eq v u e in ground arith
  | inr n ↦ elim (Option-cases (find_upvalue u us)) [
    | inl no_index ↦ absurd (ground arith)
    | inr (j, later) ↦ let at_j = find_upvalue-get_elem? u us j later in ground arith
  ]
]

pub add_upvalue-Holds :
    (u : TrackedUpvalue) (us : List TrackedUpvalue) → Holds u us (add_upvalue u us)
unfolding add_upvalue
add_upvalue-Holds u us = elim (Option-cases (find_upvalue u us)) [
  | inr (i, e) ↦ rw (e, add_upvalue) (find_upvalue-get_elem? u us i e, λ j v h. h)
  | inl e ↦
      rw (e, add_upvalue)
        (
          get_elem?-length us u [],
          λ j v h. get_elem?-append us (u ∷ []) j (lt-length_of_get_elem? us j v h) ∙ h,
        )
]

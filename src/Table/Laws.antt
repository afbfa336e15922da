-- ===== src/Table/Laws.antt =====
-- The laws of the tables, for an equality test that decides equality.
use cpplox.Prelude.{
  ◌≡◌, ◌↔◌, ◌⊎◌, sym, ap, refl, Bool, true, Bool-cases, Option-cases, none, some, List, [], ◌∷◌,
  if◌then◌else◌, inl, inr, arith,
}
use cpplox.Table.{lookup, assign, erase, insert_all}

module _ {K V : Type 0} (eq : K → K → Bool) (eq_iff : (a b : K) → (eq a b ≡ true) ↔ (a ≡ b)) where
  pub lookup-assign :
      (j k : K) (v : V) (m : List (K × V))
      → lookup eq j (assign eq k v m) ≡ (if eq k j then some v else lookup eq j m)
  unfolding lookup assign
  lookup-assign j k v [] = refl
  lookup-assign j k v ((i, w) ∷ m) =
      ground (arith, eq_iff i k, eq_iff i j, eq_iff k j, lookup-assign j k v m)

  pub lookup-erase :
      (j k : K) (m : List (K × V))
      → lookup eq j (erase eq k m) ≡ (if eq k j then none else lookup eq j m)
  unfolding lookup erase
  lookup-erase j k [] = ground arith
  lookup-erase j k ((i, w) ∷ m) =
      ground (arith, eq_iff i k, eq_iff i j, eq_iff k j, lookup-erase j k m)

  -- The entry of `m` where it has one, and else the first of the entries that are put in.
  pub lookup-insert_all :
      (j : K) (entries m : List (K × V))
      → lookup eq j (insert_all eq entries m)
        ≡ elim (lookup eq j m) [ some v ↦ some v | none ↦ lookup eq j entries ]
  unfolding lookup insert_all
  lookup-insert_all j [] m = ground arith
  lookup-insert_all j ((k, v) ∷ entries) m = elim (Option-cases (lookup eq k m)) [
    | inl e ↦
        rw (e, insert_all)
          (ground (
            arith,
            e,
            eq_iff k j,
            lookup-insert_all j entries (assign eq k v m),
            lookup-assign j k v m,
          ))
    | inr (w, e) ↦ rw (e, insert_all) (ground (arith, e, eq_iff k j, lookup-insert_all j entries m))
  ]

  -- A new key adds one entry.
  pub lookup-assign_new :
      (j k : K) (v w : V) (m : List (K × V))
      → lookup eq k m ≡ none
      → (lookup eq j (assign eq k v m) ≡ some w) ↔ (((j ≡ k) × (w ≡ v)) ⊎ (lookup eq j m ≡ some w))
  lookup-assign_new j k v w m new = elim (Bool-cases (eq k j)) [
    | inl e ↦
        let same : k ≡ j = (eq_iff k j).0 e in
        let absent : lookup eq j m ≡ none = rw (sym same) new in
        rw (lookup-assign j k v m, e)
          (
            λ h. inl (sym same, ground arith),
            λ h. elim h [ inl (_, q) ↦ ap some (sym q) | inr old ↦ absurd (ground arith) ],
          )
    | inr n ↦
        rw (lookup-assign j k v m, n)
          (
            λ h. inr h,
            λ h. elim h [
              | inl (q, _) ↦ let same = (eq_iff k j).1 (sym q) in absurd (ground arith)
              | inr old ↦ old
            ],
          )
  ]

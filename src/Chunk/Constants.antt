-- ===== src/Chunk/Constants.antt =====
-- The constants vector: `insert_constant` finds or appends, and never stores a value twice.
use cpplox.Chunk.{Chunk, find_constant, insert_constant}
use cpplox.Prelude.{
  ℕ, true, false, none, some, List, [], ◌∷◌, ◌++◌, ◌≡◌, ◌⊎◌, ◌∙◌, inl, inr, refl, All, All-append,
  get_elem?, get_elem?-append, get_elem?-length, lt-length_of_get_elem?, arith, Bool-cases,
  Option-cases,
}
use cpplox.Value.{Double, Value, value_eq}

module _ {D : Type 0} ⦃d : Double D⦄ where
  -- No later constant equals an earlier one.
  abbrev pub Distinct : List (Value D) → Type 0
  Distinct [] = Unit
  Distinct (w ∷ ws) = All (λ v. value_eq w v ≡ false) ws × Distinct ws

  pub find_constant-some :
      (v : Value D) (ws : List (Value D)) (i : ℕ)
      → find_constant v ws ≡ some i
      → (w : Value D) × (get_elem? ws i ≡ some w) × (value_eq w v ≡ true)
  unfolding find_constant
  find_constant-some v [] i h = cc
  find_constant-some v (w ∷ ws) i h = elim (Bool-cases (value_eq w v)) [
    | inl e ↦ (w, ground arith, e)
    | inr e ↦ elim (Option-cases (find_constant v ws)) [
      | inl no_index ↦ absurd (ground arith)
      | inr (j, found) ↦
          let (u, at_j, equal) = find_constant-some v ws j found in (u, ground arith, equal)
    ]
  ]

  find_constant-none :
      (v : Value D) (ws : List (Value D))
      → find_constant v ws ≡ none
      → All (λ w. value_eq w v ≡ false) ws
  unfolding find_constant
  find_constant-none v [] h = tt
  find_constant-none v (w ∷ ws) h = ground (arith, find_constant-none v ws)

  Distinct-concat :
      (v : Value D) (ws : List (Value D))
      → All (λ w. value_eq w v ≡ false) ws
      → Distinct ws
      → Distinct (ws ++ v ∷ [])
  Distinct-concat v [] a h = (tt, tt)
  Distinct-concat v (w ∷ ws) a h = (
    All-append (λ u. value_eq w u ≡ false) ws (v ∷ []) h.0 (a.0, tt),
    Distinct-concat v ws a.1 h.1,
  )

  -- What `insert_constant` does for a value: the index returned, and the chunk behind it.
  pub record Inserted (v : Value D) (c : Chunk D) (i : ℕ) (c' : Chunk D) : Type 0 where
    pub found :
        (w : Value D) × (get_elem? c'.constants i ≡ some w) × ((value_eq w v ≡ true) ⊎ (w ≡ v))
    pub kept :
        (j : ℕ) (w : Value D) → get_elem? c.constants j ≡ some w → get_elem? c'.constants j ≡ some w
    pub distinct : Distinct c.constants → Distinct c'.constants
    pub code : c'.bytecode ≡ c.bytecode
    pub tokens : c'.source_map_tokens ≡ c.source_map_tokens

  -- The index that `insert_constant` returns leads to the value, or to one equal to it; every
  -- index handed out before leads where it did; no two constants are equal if none were before;
  -- and the bytecode and its source map stay as they are.
  pub insert_constant-Inserted :
      (v : Value D) (c : Chunk D) → Inserted v c (insert_constant v c).0 (insert_constant v c).1
  unfolding insert_constant
  insert_constant-Inserted v c = elim (Option-cases (find_constant v c.constants)) [
    | inl e ↦
        rw (e, insert_constant)
          (record {
            found = (v, get_elem?-length c.constants v [], inr refl);
            kept = λ j w h.
                get_elem?-append c.constants (v ∷ []) j (lt-length_of_get_elem? c.constants j w h)
                ∙ h;
            distinct = λ h. Distinct-concat v c.constants (find_constant-none v c.constants e) h;
            code = refl;
            tokens = refl;
          })
    | inr (i, e) ↦
        let (w, at_i, equal) = find_constant-some v c.constants i e in
        rw (e, insert_constant)
          (record {
            found = (w, at_i, inl equal);
            kept = λ j w h. h;
            distinct = λ h. h;
            code = refl;
            tokens = refl;
          })
  ]

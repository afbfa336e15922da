-- ===== src/Interned/Destroy.antt =====
-- The callback of Interned_strings, on the blocks that a collection destroys.
use cpplox.Interned.{InternedStrings, text_at, on_destroy, on_destroy_all}
use cpplox.Memory.Marking.{value_at, value_of}
use cpplox.Memory.{ControlBlock, find_block}
use cpplox.Prelude.{
  ℕ, ◌≡◌, ◌≢◌, ◌↔◌, ◌∙◌, refl, sym, ap, true, Bool-cases, Option-cases, inl, inr, Option, none,
  some, List, [], ◌∷◌, ◌==◌, Bytes, bytes_eq, bytes_eq_iff, arith,
}
use cpplox.Table.Laws.{lookup-erase}
use cpplox.Table.{lookup, erase}

pub ==_iff : (a b : ℕ) → ((a == b) ≡ true) ↔ (a ≡ b)
==_iff a b = ground arith

-- The pointer that a text has, and whether a pointer is known.
abbrev pub pointer_of : Bytes → InternedStrings → Option ℕ
pointer_of text strings = lookup bytes_eq text strings.strings_by_chars

abbrev pub known : ℕ → InternedStrings → Option ℕ
known a strings = lookup ◌==◌ a strings.strings_by_ptr

module _ {V : Type 0} where
  pub absent_cons :
      (a : ℕ) (b : ControlBlock V) (bs : List (ControlBlock V))
      → (find_block a (b ∷ bs) ≡ none) ↔ ((a ≢ b.address) × (find_block a bs ≡ none))
  unfolding find_block
  absent_cons a b bs = elim (Bool-cases (b.address == a)) [
    | inl e ↦ rw e (λ h. absurd (ground arith), λ h. absurd (ground arith))
    | inr n ↦ rw n (λ h. (λ q. ground arith, h), λ h. h.1)
  ]

  pub absent_iff :
      (a : ℕ) (bs : List (ControlBlock V)) → (find_block a bs ≡ none) ↔ (value_at bs a ≡ none)
  unfolding value_at value_of
  absent_iff a bs = elim (Option-cases (find_block a bs)) [
    | inl e ↦ rw (e, value_at, value_of) (λ h. refl, λ h. refl)
    | inr (b, e) ↦
        rw (e, value_at, value_of) (λ h. absurd (ground arith), λ h. absurd (ground arith))
  ]

module _ {V : Type 0} (of_text : Bytes → V) (text_of : V → Option Bytes)
    (reads : (s : Bytes) → text_of (of_text s) ≡ some s) where
  -- Each text that has a pointer has one to its string, and the pointers known are these.
  pub record IsInterned (blocks : List (ControlBlock V)) (strings : InternedStrings) : Type 0 where
    pub live :
        (t : Bytes) (a : ℕ) → pointer_of t strings ≡ some a → value_at blocks a ≡ some (of_text t)
    pub listed : (t : Bytes) (a : ℕ) → pointer_of t strings ≡ some a → known a strings ≡ some a
    pub named :
        (a p : ℕ)
        → known a strings ≡ some p
        → (p ≡ a) × (t : Bytes) × (pointer_of t strings ≡ some a)

  text_at-eq :
      (blocks : List (ControlBlock V)) (a : ℕ) (t : Bytes)
      → value_at blocks a ≡ some (of_text t)
      → text_at text_of blocks a ≡ some t
  unfolding text_at value_at value_of
  text_at-eq blocks a t h = elim (Option-cases (find_block a blocks)) [
    | inl e ↦
        let missing : value_at blocks a ≡ none = rw (e, value_at, value_of) refl in
        absurd (ground arith)
    | inr (b, e) ↦
        let there : value_at blocks a ≡ some b.value = rw (e, value_at, value_of) refl in
        let same : b.value ≡ of_text t = ground arith in rw (e, text_at) (ap text_of same ∙ reads t)
  ]

  -- What the destruction of a block does to the tables.
  record Forgets (x : ℕ) (st st' : InternedStrings) : Type 0 where
    pointers :
        (t : Bytes) (a : ℕ) → (pointer_of t st' ≡ some a) ↔ ((pointer_of t st ≡ some a) × (a ≢ x))
    knows : (a p : ℕ) → (known a st' ≡ some p) ↔ ((known a st ≡ some p) × (a ≢ x))

  Forgets-unknown :
      (blocks : List (ControlBlock V)) (x : ℕ) (st : InternedStrings)
      → IsInterned blocks st
      → known x st ≡ none
      → Forgets x st st
  Forgets-unknown blocks x st i e = record {
    pointers = λ t a. (
      λ h. (
        h,
        λ q. let l = i.listed t a h in let l' : known x st ≡ some a = rw (sym q) l in ground arith,
      ),
      λ h. h.0,
    );
    knows = λ a p.
        (λ h. (h, λ q. let h' : known x st ≡ some p = rw (sym q) h in ground arith), λ h. h.0);
  }

  same_text :
      (blocks : List (ControlBlock V)) (st : InternedStrings) (t u : Bytes) (a : ℕ)
      → IsInterned blocks st
      → pointer_of t st ≡ some a
      → pointer_of u st ≡ some a
      → t ≡ u
  same_text blocks st t u a i h k =
      let one = text_at-eq blocks a t (i.live t a h) in
      let other = text_at-eq blocks a u (i.live u a k) in ground arith

  Forgets-erase :
      (blocks : List (ControlBlock V)) (x : ℕ) (t : Bytes) (st : InternedStrings)
      → IsInterned blocks st
      → pointer_of t st ≡ some x
      → Forgets x st (record {
        strings_by_chars = erase bytes_eq t st.strings_by_chars;
        strings_by_ptr = erase ◌==◌ x st.strings_by_ptr;
      })
  Forgets-erase blocks x t st i has = record {
    pointers = λ u a.
        let l = lookup-erase bytes_eq bytes_eq_iff u t st.strings_by_chars in
        elim (Bool-cases (bytes_eq t u)) [
          | inl e ↦
              let same : t ≡ u = (bytes_eq_iff t u).0 e in
              let at_u : pointer_of u st ≡ some x = rw (sym same) has in
              rw (l, e) (λ h. ground arith, λ h. ground arith)
          | inr n ↦
              rw (l, n)
                (
                  λ h. (
                    h,
                    λ q.
                        let at_x : pointer_of u st ≡ some x = rw (sym q) h in
                        let same = (bytes_eq_iff t u).1 (same_text blocks st t u x i has at_x) in
                        ground arith,
                  ),
                  λ h. h.0,
                )
        ];
    knows = λ a p.
        let l = lookup-erase ◌==◌ ==_iff a x st.strings_by_ptr in
        rw l (λ h. ground arith, λ h. ground arith);
  }

  on_destroy-Forgets :
      (blocks : List (ControlBlock V)) (b : ControlBlock V) (st : InternedStrings)
      → IsInterned blocks st
      → Forgets b.address st (on_destroy text_of blocks b st)
  unfolding on_destroy
  on_destroy-Forgets blocks b st i = elim (Option-cases (known b.address st)) [
    | inl e ↦ rw (e, on_destroy) (Forgets-unknown blocks b.address st i e)
    | inr (p, e) ↦
        let (same, t, has) = i.named b.address p e in
        let there : text_at text_of blocks p ≡ some t =
          rw same (text_at-eq blocks b.address t (i.live t b.address has)) in
        rw (e, on_destroy, there) (Forgets-erase blocks b.address t st i has)
  ]

  IsInterned-Forgets :
      (blocks : List (ControlBlock V)) (x : ℕ) (st st' : InternedStrings)
      → IsInterned blocks st
      → Forgets x st st'
      → IsInterned blocks st'
  IsInterned-Forgets blocks x st st' i f = record {
    live = λ t a h. i.live t a ((f.pointers t a).0 h).0;
    listed = λ t a h.
        let (old, other) = (f.pointers t a).0 h in (f.knows a a).1 (i.listed t a old, other);
    named = λ a p h.
        let (old, other) = (f.knows a p).0 h in
        let (same, t, has) = i.named a p old in (same, t, (f.pointers t a).1 (has, other));
  }

  pub on_destroy_all-Forgets :
      (blocks bs : List (ControlBlock V)) (st : InternedStrings)
      → IsInterned blocks st
      → IsInterned blocks (on_destroy_all text_of blocks bs st)
        × ((t : Bytes) (a : ℕ)
            → (pointer_of t (on_destroy_all text_of blocks bs st) ≡ some a)
              ↔ ((pointer_of t st ≡ some a) × (find_block a bs ≡ none)))
  unfolding on_destroy_all find_block
  on_destroy_all-Forgets blocks [] st i = (i, λ t a. (λ h. (h, refl), λ h. h.0))
  on_destroy_all-Forgets blocks (b ∷ bs) st i =
      let f = on_destroy-Forgets blocks b st i in
      let i' = IsInterned-Forgets blocks b.address st (on_destroy text_of blocks b st) i f in
      let (j, ih) = on_destroy_all-Forgets blocks bs (on_destroy text_of blocks b st) i' in
      (
        j,
        λ t a. (
          λ h.
              let (k, absent) = (ih t a).0 h in
              let (old, other) = (f.pointers t a).0 k in
              (old, (absent_cons a b bs).1 (other, absent)),
          λ h. (ih t a).1 (
            (f.pointers t a).1 (h.0, ((absent_cons a b bs).0 h.1).0),
            ((absent_cons a b bs).0 h.1).1,
          ),
        ),
      )

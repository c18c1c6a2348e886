-- ===== src/Parts/Ids.antt =====
-- src/s3handler.cpp: the identifiers of uploads and parts in the keys of parts.
use hs.Prelude.{
  ℕ, ◌/◌, ◌%◌, ◌^◌, ◌≤◌, ◌<◌, ◌≡◌, ◌≢◌, refl, sym, ap, ap₂, ◌∙◌, inl, inr, false, none, some, List,
  [], ◌∷◌, ◌++◌, append_assoc, ◌==◌, ==_iff, arith, Bool-cases,
}
use hs.Data.Memory.{to_memory, from_memory}
use hs.Parts.{
  upload_id_to_str, no_id, upload_id_from_str, dot, split_dot, upload_id_from_str_dot, part_key,
}

-- An identifier that is not below 0 is read back.
pub upload_id_from_str-upload_id_to_str :
    (id : ℕ) → id < 2 ^ 63 → upload_id_from_str (upload_id_to_str id) ≡ id
unfolding upload_id_from_str upload_id_to_str to_memory from_memory
upload_id_from_str-upload_id_to_str id h = ground arith

-- No byte of the list is a dot.
pub data NoDot : List ℕ → Type 0 where
  none_left : NoDot []
  one_more : {c : ℕ} {s : List ℕ} → c ≢ dot → NoDot s → NoDot (c ∷ s)

split_dot-NoDot : (a b : List ℕ) → NoDot a → split_dot (a ++ (dot ∷ b)) ≡ some (a, b)
unfolding split_dot
split_dot-NoDot _ b none_left = refl
split_dot-NoDot _ b (one_more {c} {s} n h) = rw (not_dot c n, split_dot-NoDot s b h) refl
  where
    not_dot : (c : ℕ) → c ≢ dot → (c == dot) ≡ false
    not_dot c n = ground arith

-- If neither identifier is below 0 and no byte of the upload's is a dot, both identifiers of a part's
-- key are read back.
pub upload_id_from_str_dot-part_key :
    (id n : ℕ)
    → id < 2 ^ 63
    → n < 2 ^ 63
    → NoDot (upload_id_to_str id)
    → upload_id_from_str_dot (part_key id n) ≡ (id, n)
unfolding upload_id_from_str_dot part_key
upload_id_from_str_dot-part_key id n hi hn nodot =
    ap
      (λ o. elim o as (λ x. ℕ × ℕ) [
        | none ↦ (no_id, no_id)
        | some (a, b) ↦ (upload_id_from_str a, upload_id_from_str b)
      ])
      (split_dot-NoDot (upload_id_to_str id) (upload_id_to_str n) nodot)
    ∙ ap₂ (λ a b. (a, b)) (upload_id_from_str-upload_id_to_str id hi)
        (upload_id_from_str-upload_id_to_str n hn)

-- An identifier of one or two bytes, of which one is that of a dot.
pub data HasDot (id : ℕ) : Type 0 where
  only : id ≡ dot → HasDot id
  high : id / 256 ≡ dot → id < 65535 → HasDot id
  low : 255 ≤ id → id < 65535 → id % 256 ≡ dot → HasDot id

-- What is read when the first dot stands in the identifier of the upload.
dot_first :
    (a s b : List ℕ)
    → NoDot a
    → (upload_id_from_str_dot ((a ++ (dot ∷ s)) ++ b)).0 ≡ upload_id_from_str a
unfolding upload_id_from_str_dot
dot_first a s b h =
    ap
      (λ o.
        (elim o as (λ x. ℕ × ℕ) [
          | none ↦ (no_id, no_id)
          | some (x, y) ↦ (upload_id_from_str x, upload_id_from_str y)
        ]).0)
      (ap split_dot (append_assoc a (dot ∷ s) b) ∙ split_dot-NoDot a (s ++ b) h)

module _ (id n : ℕ) where
  -- The first dot is at the place behind `a`, and `a` stands for another identifier.
  other_id :
      (a s : List ℕ)
      → NoDot a
      → upload_id_to_str id ≡ a ++ (dot ∷ s)
      → upload_id_from_str a ≢ id
      → (upload_id_from_str_dot (part_key id n)).0 ≢ id
  unfolding part_key
  other_id a s h e other same = other (
      sym (dot_first a s (dot ∷ upload_id_to_str n) h)
      ∙ ap (λ t. (upload_id_from_str_dot (t ++ (dot ∷ upload_id_to_str n))).0) (sym e)
      ∙ same)

  id_of_two_bytes : 255 ≤ id → id < 65535 → upload_id_to_str id ≡ 0 ∷ (id / 256) ∷ (id % 256) ∷ []
  unfolding upload_id_to_str to_memory
  id_of_two_bytes p h = ground arith

  high_dot : id / 256 ≡ dot → id < 65535 → (upload_id_from_str_dot (part_key id n)).0 ≢ id
  unfolding upload_id_from_str
  high_dot e h =
      other_id (0 ∷ []) (id % 256 ∷ []) (one_more (omega arith) none_left)
        (id_of_two_bytes (omega arith) h ∙ ap (λ t. 0 ∷ t ∷ (id % 256) ∷ []) e) (omega arith)

  low_dot :
      255 ≤ id
      → id < 65535
      → id % 256 ≡ dot
      → id / 256 ≢ dot
      → (upload_id_from_str_dot (part_key id n)).0 ≢ id
  unfolding upload_id_from_str from_memory
  low_dot p h e n_dot =
      other_id (0 ∷ (id / 256) ∷ []) [] (one_more (omega arith) (one_more n_dot none_left))
        (id_of_two_bytes p h ∙ ap (λ t. 0 ∷ (id / 256) ∷ t ∷ []) e) (λ same. omega arith)

  one_dot : id ≡ dot → (upload_id_from_str_dot (part_key id n)).0 ≢ id
  unfolding upload_id_from_str upload_id_to_str to_memory
  one_dot e = other_id (0 ∷ []) [] (one_more (omega arith) none_left) (rw e) (omega arith)

-- If a byte of an upload's identifier of at most two bytes is that of a dot, another identifier is
-- read from the keys of all its parts.
pub upload_id_from_str_dot-HasDot :
    (id n : ℕ) → HasDot id → (upload_id_from_str_dot (part_key id n)).0 ≢ id
upload_id_from_str_dot-HasDot id n (only e) = one_dot id n e
upload_id_from_str_dot-HasDot id n (high e h) = high_dot id n e h
upload_id_from_str_dot-HasDot id n (low p h e) = elim (Bool-cases (id / 256 == dot)) [
  | inl same ↦ high_dot id n ((==_iff (id / 256) dot).0 same) h
  | inr other ↦ low_dot id n p h e (ground (arith, other))
]

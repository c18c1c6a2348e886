-- ===== src/Buckets/Affixes.antt =====
-- src/Buckets.cpp, src/Auth.cpp: `starts_with` and `ends_with` of `std::string_view`.
use hs.Prelude.{
  ℕ, ◌-◌, ◌≡◌, ◌↔◌, refl, sym, ap, ap₂, ◌∙◌, Bool, true, false, ◌&&◌, List, [], ◌∷◌, ◌++◌, length,
  length-append, take, drop, take-append-drop, drop-append, leb, le_leb, ◌==◌, ==_iff, bytes_eq,
  bytes_eq_refl, bytes_eq→eq, arith,
}

unfoldable pub starts_with : List ℕ → List ℕ → Bool
starts_with s [] = true
starts_with [] (p ∷ ps) = false
starts_with (c ∷ s) (p ∷ ps) = (c == p) && starts_with s ps

unfoldable pub ends_with : List ℕ → List ℕ → Bool
ends_with s end = leb (length end) (length s) && bytes_eq (drop (length s - length end) s) end

-- The text is the affix and more bytes.
abbrev pub Begins : List ℕ → List ℕ → Type 0
Begins s front = (rest : List ℕ) × (s ≡ front ++ rest)

abbrev pub Ends : List ℕ → List ℕ → Type 0
Ends s end = (front : List ℕ) × (s ≡ front ++ end)

both : (a b : Bool) → (a && b) ≡ true → (a ≡ true) × (b ≡ true)
both true b h = (refl, h)
both false b h = ground (arith, h)

starts_with-Begins : (s front : List ℕ) → starts_with s front ≡ true → Begins s front
unfolding starts_with
starts_with-Begins s [] h = (s, refl)
starts_with-Begins [] (p ∷ ps) h = cc
starts_with-Begins (c ∷ s) (p ∷ ps) h =
    let (same, later) = both (c == p) (starts_with s ps) h in
    let (rest, e) = starts_with-Begins s ps later in
    (rest, ap₂ (λ a b. a ∷ b) ((==_iff c p).0 same) e)

starts_with-append : (front rest : List ℕ) → starts_with (front ++ rest) front ≡ true
unfolding starts_with
starts_with-append [] rest = refl
starts_with-append (p ∷ ps) rest = ground (arith, starts_with-append ps rest)

pub starts_with_iff : (s front : List ℕ) → (starts_with s front ≡ true) ↔ Begins s front
starts_with_iff s front = (
  starts_with-Begins s front,
  λ h. ap (λ x. starts_with x front) h.1 ∙ starts_with-append front h.0,
)

ends_with-append : (front end : List ℕ) → ends_with (front ++ end) end ≡ true
unfolding ends_with
ends_with-append front end =
    rw
      (
        len,
        drop-append,
        bytes_eq_refl end,
        le_leb (length end) (length (front ++ end)) (omega (arith, length-append front end)),
      )
      refl
  where
    len : length (front ++ end) - length end ≡ length front
    len = omega (arith, length-append front end)

pub ends_with_iff : (s end : List ℕ) → (ends_with s end ≡ true) ↔ Ends s end
unfolding ends_with
ends_with_iff s end = (forth, λ h. ap (λ x. ends_with x end) h.1 ∙ ends_with-append h.0 end)
  where
    forth : ends_with s end ≡ true → Ends s end
    forth h =
        let n = length s - length end in
        let (short, same) = both (leb (length end) (length s)) (bytes_eq (drop n s) end) h in
        (
          take n s,
          sym (take-append-drop n s) ∙ ap (λ e. take n s ++ e) (bytes_eq→eq (drop n s) end same),
        )

-- ===== src/Data/Varint/Get.antt =====
-- What `sqlite3GetVarint` reads from each byte on, with the words as sums of groups of seven bits:
-- `d0`, `d1`, … are the groups read so far, and a byte that continues is 128 more than its group.
use hs.Prelude.{
  ℕ, ◌+◌, ◌*◌, ◌/◌, ◌%◌, ◌^◌, ◌≤◌, ◌<◌, ◌≡◌, ap, ap₂, ◌∙◌, bit_and, bit_or, true, false, List,
  get_or, gt_not_leb, ◌==◌, arith,
}
use hs.Prelude.Bits.{bit_or-split, bit_or-zero}
use hs.Prelude.Bits.Masks.{
  bit_and-127, bit_and-128, bit_and-two_slots, bit_and-three_slots, bit_or-join,
  bit_or-join_swapped, bit_or-below,
}
use hs.Data.Varint.{
  shl32, words, slot_2_0, is_last, get_1, get_2, get_3, get_4, get_5, get_6, get_7, get_8,
  get_varint,
}

pub is_last-true : (x : ℕ) → x % 256 < 128 → is_last x ≡ true
is_last-true x h = ground (arith, bit_and-128 x)

pub is_last-false : (x : ℕ) → 128 ≤ x % 256 → is_last x ≡ false
is_last-false x h = ground (arith, bit_and-128 x)

pos_not_zero : (m : ℕ) → 0 < m → (m == 0) ≡ false
pos_not_zero m h = ground arith

push_14 : (x e : ℕ) → e < 256 → bit_or (shl32 x 14) e ≡ x % 2 ^ 18 * 2 ^ 14 + e
push_14 x e h = bit_or-below 14 (x % 2 ^ 18) e (shl32 x 14) (omega arith) (omega arith)

words_sum : (s a : ℕ) → s < 2 ^ 32 → a < 2 ^ 32 → words s a ≡ s * 2 ^ 32 + a
words_sum s a hs ha = bit_or-below 32 s a (s * 2 ^ 32 % 2 ^ 64) ha (omega arith)

module _ (p : List ℕ) (v max_length : ℕ) where
  pub get_1-last :
      (d0 e : ℕ)
      → d0 < 128
      → e < 128
      → get_or p 1 0 ≡ e
      → get_1 p v max_length (128 + d0) ≡ (2, d0 * 2 ^ 7 + e)
  unfolding get_1
  get_1-last d0 e h0 he r = rw (r, is_last-true e (omega arith)) (ap (λ (t : ℕ). (2, t)) value)
    where
      value : bit_or (shl32 (bit_and (128 + d0) 0x7f) 7) e ≡ d0 * 2 ^ 7 + e
      value = bit_or-below 7 d0 e _ (omega arith) (omega (arith, bit_and-127 (128 + d0)))

  pub get_1-more :
      (d0 d1 : ℕ)
      → d1 < 128
      → get_or p 1 0 ≡ 128 + d1
      → 2 < max_length
      → get_1 p v max_length (128 + d0) ≡ get_2 p v max_length (128 + d0) (128 + d1)
  unfolding get_1
  get_1-more d0 d1 h1 r m = rw (r, is_last-false (128 + d1) (omega arith)) (ground arith)

  pub get_2-last :
      (d0 d1 e : ℕ)
      → d0 < 128
      → d1 < 128
      → e < 128
      → get_or p 2 0 ≡ e
      → get_2 p v max_length (128 + d0) (128 + d1) ≡ (3, d0 * 2 ^ 14 + d1 * 2 ^ 7 + e)
  unfolding get_2
  get_2-last d0 d1 e h0 h1 he r =
      rw
        (
          r,
          push_14 (128 + d0) e (omega arith),
          is_last-true ((128 + d0) % 2 ^ 18 * 2 ^ 14 + e) (omega arith),
        )
        (ap (λ (t : ℕ). (3, t))
          (bit_or-join 0 d0 e 0 d1 _ _ (omega arith) (omega arith) (omega arith) (omega arith)
              (omega (arith, bit_and-two_slots ((128 + d0) % 2 ^ 18 * 2 ^ 14 + e)))
              (omega (arith, bit_and-127 (128 + d1)))
            ∙ omega arith))

  pub get_2-more :
      (d0 d1 d2 : ℕ)
      → d0 < 128
      → d1 < 128
      → d2 < 128
      → get_or p 2 0 ≡ 128 + d2
      → 3 < max_length
      → get_2 p v max_length (128 + d0) (128 + d1)
        ≡ get_3 p v max_length (d0 * 2 ^ 14 + d2) (128 + d1)
  unfolding get_2
  get_2-more d0 d1 d2 h0 h1 h2 r m =
      rw
        (
          r,
          push_14 (128 + d0) (128 + d2) (omega arith),
          is_last-false ((128 + d0) % 2 ^ 18 * 2 ^ 14 + (128 + d2)) (omega arith),
          gt_not_leb max_length 3 m,
        )
        (ap (λ t. get_3 p v max_length t (128 + d1))
          (omega (arith, bit_and-two_slots ((128 + d0) % 2 ^ 18 * 2 ^ 14 + (128 + d2)))))

  pub get_3-last :
      (d0 d1 d2 e : ℕ)
      → d0 < 128
      → d1 < 128
      → d2 < 128
      → e < 128
      → get_or p 3 0 ≡ e
      → get_3 p v max_length (d0 * 2 ^ 14 + d2) (128 + d1)
        ≡ (4, d0 * 2 ^ 21 + d1 * 2 ^ 14 + d2 * 2 ^ 7 + e)
  unfolding get_3
  get_3-last d0 d1 d2 e h0 h1 h2 he r =
      rw
        (
          r,
          push_14 (128 + d1) e (omega arith),
          is_last-true ((128 + d1) % 2 ^ 18 * 2 ^ 14 + e) (omega arith),
        )
        (ap (λ (t : ℕ). (4, t))
          (bit_or-join_swapped 0 d1 e d0 d2 _ _ (omega arith) (omega arith) (omega arith)
              (omega arith) (omega arith)
              (omega (arith, bit_and-two_slots ((128 + d1) % 2 ^ 18 * 2 ^ 14 + e)))
            ∙ omega arith))

  pub get_3-more :
      (d0 d1 d2 d3 : ℕ)
      → d0 < 128
      → d1 < 128
      → d2 < 128
      → d3 < 128
      → get_or p 3 0 ≡ 128 + d3
      → 4 < max_length
      → get_3 p v max_length (d0 * 2 ^ 14 + d2) (128 + d1)
        ≡ get_4 p v max_length (d0 * 2 ^ 14 + d2) (d1 * 2 ^ 14 + d3) (d0 * 2 ^ 14 + d2)
  unfolding get_3
  get_3-more d0 d1 d2 d3 h0 h1 h2 h3 r m =
      rw
        (
          r,
          push_14 (128 + d1) (128 + d3) (omega arith),
          is_last-false ((128 + d1) % 2 ^ 18 * 2 ^ 14 + (128 + d3)) (omega arith),
          gt_not_leb max_length 4 m,
        )
        (ap (λ t. get_4 p v max_length (d0 * 2 ^ 14 + d2) t (d0 * 2 ^ 14 + d2))
          (omega (arith, bit_and-two_slots ((128 + d1) % 2 ^ 18 * 2 ^ 14 + (128 + d3)))))

  pub get_4-last :
      (d0 d1 d2 d3 e : ℕ)
      → d0 < 128
      → d1 < 128
      → d2 < 128
      → d3 < 128
      → e < 128
      → get_or p 4 0 ≡ e
      → get_4 p v max_length (d0 * 2 ^ 14 + d2) (d1 * 2 ^ 14 + d3) (d0 * 2 ^ 14 + d2)
        ≡ (5, d0 * 2 ^ 28 + d1 * 2 ^ 21 + d2 * 2 ^ 14 + d3 * 2 ^ 7 + e)
  unfolding get_4
  get_4-last d0 d1 d2 d3 e h0 h1 h2 h3 he r =
      rw
        (
          r,
          push_14 (d0 * 2 ^ 14 + d2) e (omega arith),
          is_last-true ((d0 * 2 ^ 14 + d2) % 2 ^ 18 * 2 ^ 14 + e) (omega arith),
        )
        (ap (λ (t : ℕ). (5, t))
          (ap (words ((d0 * 2 ^ 14 + d2) / 2 ^ 18)) (
              bit_or-join (d0 % 16) d2 e d1 d3 _ _ (omega arith) (omega arith) (omega arith)
                (omega arith) (omega arith) (omega arith))
            ∙ words_sum ((d0 * 2 ^ 14 + d2) / 2 ^ 18) _ (omega arith) (omega arith)
            ∙ omega arith))

  pub get_4-more :
      (d0 d1 d2 d3 d4 : ℕ)
      → d0 < 128
      → d1 < 128
      → d2 < 128
      → d3 < 128
      → d4 < 128
      → get_or p 4 0 ≡ 128 + d4
      → 5 < max_length
      → get_4 p v max_length (d0 * 2 ^ 14 + d2) (d1 * 2 ^ 14 + d3) (d0 * 2 ^ 14 + d2)
        ≡ get_5 p v max_length
            (d0 % 16 * 2 ^ 28 + d2 * 2 ^ 14 + (128 + d4))
            (d1 * 2 ^ 14 + d3)
            (d0 * 2 ^ 21 + d1 * 2 ^ 14 + d2 * 2 ^ 7 + d3)
  unfolding get_4
  get_4-more d0 d1 d2 d3 d4 h0 h1 h2 h3 h4 r m =
      rw
        (
          r,
          push_14 (d0 * 2 ^ 14 + d2) (128 + d4) (omega arith),
          is_last-false ((d0 * 2 ^ 14 + d2) % 2 ^ 18 * 2 ^ 14 + (128 + d4)) (omega arith),
          gt_not_leb max_length 5 m,
        )
        (ap₂ (λ t u. get_5 p v max_length t (d1 * 2 ^ 14 + d3) u) (omega arith)
          (bit_or-join_swapped 0 d1 d3 d0 d2 _ _ (omega arith) (omega arith) (omega arith)
              (omega arith) (omega arith) (omega arith)
            ∙ omega arith))

  pub get_5-last :
      (d0 d1 d2 d3 d4 e : ℕ)
      → d0 < 128
      → d1 < 128
      → d2 < 128
      → d3 < 128
      → d4 < 128
      → e < 128
      → get_or p 5 0 ≡ e
      → get_5 p v max_length
          (d0 % 16 * 2 ^ 28 + d2 * 2 ^ 14 + (128 + d4))
          (d1 * 2 ^ 14 + d3)
          (d0 * 2 ^ 21 + d1 * 2 ^ 14 + d2 * 2 ^ 7 + d3)
        ≡ (6, d0 * 2 ^ 35 + d1 * 2 ^ 28 + d2 * 2 ^ 21 + d3 * 2 ^ 14 + d4 * 2 ^ 7 + e)
  unfolding get_5
  get_5-last d0 d1 d2 d3 d4 e h0 h1 h2 h3 h4 he r =
      rw
        (
          r,
          push_14 (d1 * 2 ^ 14 + d3) e (omega arith),
          is_last-true ((d1 * 2 ^ 14 + d3) % 2 ^ 18 * 2 ^ 14 + e) (omega arith),
        )
        (ap (λ (t : ℕ). (6, t))
          (ap (words ((d0 * 2 ^ 21 + d1 * 2 ^ 14 + d2 * 2 ^ 7 + d3) / 2 ^ 18)) (
              bit_or-join_swapped (d1 % 16) d3 e d2 d4 _ _ (omega arith) (omega arith) (omega arith)
                (omega arith)
                (omega (arith, bit_and-two_slots (d0 % 16 * 2 ^ 28 + d2 * 2 ^ 14 + (128 + d4))))
                (omega arith))
            ∙ words_sum ((d0 * 2 ^ 21 + d1 * 2 ^ 14 + d2 * 2 ^ 7 + d3) / 2 ^ 18) _ (omega arith)
                (omega arith)
            ∙ omega arith))

  pub get_5-more :
      (d0 d1 d2 d3 d4 d5 : ℕ)
      → d0 < 128
      → d1 < 128
      → d2 < 128
      → d3 < 128
      → d4 < 128
      → d5 < 128
      → get_or p 5 0 ≡ 128 + d5
      → 6 < max_length
      → get_5 p v max_length
          (d0 % 16 * 2 ^ 28 + d2 * 2 ^ 14 + (128 + d4))
          (d1 * 2 ^ 14 + d3)
          (d0 * 2 ^ 21 + d1 * 2 ^ 14 + d2 * 2 ^ 7 + d3)
        ≡ get_6 p v max_length
            (d0 % 16 * 2 ^ 28 + d2 * 2 ^ 14 + (128 + d4))
            (d1 % 16 * 2 ^ 28 + d3 * 2 ^ 14 + (128 + d5))
            (d0 * 2 ^ 21 + d1 * 2 ^ 14 + d2 * 2 ^ 7 + d3)
  unfolding get_5
  get_5-more d0 d1 d2 d3 d4 d5 h0 h1 h2 h3 h4 h5 r m =
      rw
        (
          r,
          push_14 (d1 * 2 ^ 14 + d3) (128 + d5) (omega arith),
          is_last-false ((d1 * 2 ^ 14 + d3) % 2 ^ 18 * 2 ^ 14 + (128 + d5)) (omega arith),
          gt_not_leb max_length 6 m,
        )
        (ap
          (λ t.
            get_6 p v max_length (d0 % 16 * 2 ^ 28 + d2 * 2 ^ 14 + (128 + d4)) t
              (d0 * 2 ^ 21 + d1 * 2 ^ 14 + d2 * 2 ^ 7 + d3))
          (omega arith))

  pub get_6-last :
      (d0 d1 d2 d3 d4 d5 e : ℕ)
      → d0 < 128
      → d1 < 128
      → d2 < 128
      → d3 < 128
      → d4 < 128
      → d5 < 128
      → e < 128
      → get_or p 6 0 ≡ e
      → get_6 p v max_length
          (d0 % 16 * 2 ^ 28 + d2 * 2 ^ 14 + (128 + d4))
          (d1 % 16 * 2 ^ 28 + d3 * 2 ^ 14 + (128 + d5))
          (d0 * 2 ^ 21 + d1 * 2 ^ 14 + d2 * 2 ^ 7 + d3)
        ≡ (7, d0 * 2 ^ 42 + d1 * 2 ^ 35 + d2 * 2 ^ 28 + d3 * 2 ^ 21 + d4 * 2 ^ 14 + d5 * 2 ^ 7 + e)
  unfolding get_6
  get_6-last d0 d1 d2 d3 d4 d5 e h0 h1 h2 h3 h4 h5 he r =
      rw
        (
          r,
          push_14 (d0 % 16 * 2 ^ 28 + d2 * 2 ^ 14 + (128 + d4)) e (omega arith),
          is_last-true ((d0 % 16 * 2 ^ 28 + d2 * 2 ^ 14 + (128 + d4)) % 2 ^ 18 * 2 ^ 14 + e)
              (omega arith),
        )
        (ap (λ (t : ℕ). (7, t))
          (ap (words ((d0 * 2 ^ 21 + d1 * 2 ^ 14 + d2 * 2 ^ 7 + d3) / 2 ^ 11)) (
              bit_or-join (d2 % 16) d4 e d3 d5 _ _ (omega arith) (omega arith) (omega arith)
                (omega arith)
                (omega (
                  arith,
                  bit_and-three_slots
                      ((d0 % 16 * 2 ^ 28 + d2 * 2 ^ 14 + (128 + d4)) % 2 ^ 18 * 2 ^ 14 + e),
                ))
                (omega (arith, bit_and-two_slots (d1 % 16 * 2 ^ 28 + d3 * 2 ^ 14 + (128 + d5)))))
            ∙ words_sum ((d0 * 2 ^ 21 + d1 * 2 ^ 14 + d2 * 2 ^ 7 + d3) / 2 ^ 11) _ (omega arith)
                (omega arith)
            ∙ omega arith))

  pub get_6-more :
      (d0 d1 d2 d3 d4 d5 d6 : ℕ)
      → d0 < 128
      → d1 < 128
      → d2 < 128
      → d3 < 128
      → d4 < 128
      → d5 < 128
      → d6 < 128
      → get_or p 6 0 ≡ 128 + d6
      → 7 < max_length
      → get_6 p v max_length
          (d0 % 16 * 2 ^ 28 + d2 * 2 ^ 14 + (128 + d4))
          (d1 % 16 * 2 ^ 28 + d3 * 2 ^ 14 + (128 + d5))
          (d0 * 2 ^ 21 + d1 * 2 ^ 14 + d2 * 2 ^ 7 + d3)
        ≡ get_7 p v max_length
            (d4 * 2 ^ 14 + d6)
            (d1 % 16 * 2 ^ 28 + d3 * 2 ^ 14 + (128 + d5))
            (d0 * 2 ^ 21 + d1 * 2 ^ 14 + d2 * 2 ^ 7 + d3)
  unfolding get_6
  get_6-more d0 d1 d2 d3 d4 d5 d6 h0 h1 h2 h3 h4 h5 h6 r m =
      rw
        (
          r,
          push_14 (d0 % 16 * 2 ^ 28 + d2 * 2 ^ 14 + (128 + d4)) (128 + d6) (omega arith),
          is_last-false
              ((d0 % 16 * 2 ^ 28 + d2 * 2 ^ 14 + (128 + d4)) % 2 ^ 18 * 2 ^ 14 + (128 + d6))
              (omega arith),
          gt_not_leb max_length 7 m,
        )
        (ap
          (λ t.
            get_7 p v max_length t (d1 % 16 * 2 ^ 28 + d3 * 2 ^ 14 + (128 + d5))
              (d0 * 2 ^ 21 + d1 * 2 ^ 14 + d2 * 2 ^ 7 + d3))
          (omega (
            arith,
            bit_and-two_slots
                ((d0 % 16 * 2 ^ 28 + d2 * 2 ^ 14 + (128 + d4)) % 2 ^ 18 * 2 ^ 14 + (128 + d6)),
          )))

  pub get_7-last :
      (d0 d1 d2 d3 d4 d5 d6 e : ℕ)
      → d0 < 128
      → d1 < 128
      → d2 < 128
      → d3 < 128
      → d4 < 128
      → d5 < 128
      → d6 < 128
      → e < 128
      → get_or p 7 0 ≡ e
      → get_7 p v max_length
          (d4 * 2 ^ 14 + d6)
          (d1 % 16 * 2 ^ 28 + d3 * 2 ^ 14 + (128 + d5))
          (d0 * 2 ^ 21 + d1 * 2 ^ 14 + d2 * 2 ^ 7 + d3)
        ≡ (
          8,
          d0 * 2 ^ 49
              + d1 * 2 ^ 42
              + d2 * 2 ^ 35
              + d3 * 2 ^ 28
              + d4 * 2 ^ 21
              + d5 * 2 ^ 14
              + d6 * 2 ^ 7
              + e,
        )
  unfolding get_7
  get_7-last d0 d1 d2 d3 d4 d5 d6 e h0 h1 h2 h3 h4 h5 h6 he r =
      rw
        (
          r,
          push_14 (d1 % 16 * 2 ^ 28 + d3 * 2 ^ 14 + (128 + d5)) e (omega arith),
          is_last-true ((d1 % 16 * 2 ^ 28 + d3 * 2 ^ 14 + (128 + d5)) % 2 ^ 18 * 2 ^ 14 + e)
              (omega arith),
        )
        (ap (λ (t : ℕ). (8, t))
          (ap (words ((d0 * 2 ^ 21 + d1 * 2 ^ 14 + d2 * 2 ^ 7 + d3) / 2 ^ 4)) (
              bit_or-join_swapped (d3 % 16) d5 e d4 d6 _ _ (omega arith) (omega arith) (omega arith)
                (omega arith) (omega arith)
                (omega (
                  arith,
                  bit_and-three_slots
                      ((d1 % 16 * 2 ^ 28 + d3 * 2 ^ 14 + (128 + d5)) % 2 ^ 18 * 2 ^ 14 + e),
                )))
            ∙ words_sum ((d0 * 2 ^ 21 + d1 * 2 ^ 14 + d2 * 2 ^ 7 + d3) / 2 ^ 4) _ (omega arith)
                (omega arith)
            ∙ omega arith))

  pub get_7-more :
      (d0 d1 d2 d3 d4 d5 d6 d7 : ℕ)
      → d0 < 128
      → d1 < 128
      → d2 < 128
      → d3 < 128
      → d4 < 128
      → d5 < 128
      → d6 < 128
      → d7 < 128
      → get_or p 7 0 ≡ 128 + d7
      → 8 < max_length
      → get_7 p v max_length
          (d4 * 2 ^ 14 + d6)
          (d1 % 16 * 2 ^ 28 + d3 * 2 ^ 14 + (128 + d5))
          (d0 * 2 ^ 21 + d1 * 2 ^ 14 + d2 * 2 ^ 7 + d3)
        ≡ get_8 p v max_length
            (d4 * 2 ^ 14 + d6)
            (d3 % 16 * 2 ^ 28 + (128 + d5) * 2 ^ 14 + (128 + d7))
            (d0 * 2 ^ 21 + d1 * 2 ^ 14 + d2 * 2 ^ 7 + d3)
  unfolding get_7
  get_7-more d0 d1 d2 d3 d4 d5 d6 d7 h0 h1 h2 h3 h4 h5 h6 h7 r m =
      rw
        (
          r,
          push_14 (d1 % 16 * 2 ^ 28 + d3 * 2 ^ 14 + (128 + d5)) (128 + d7) (omega arith),
          is_last-false
              ((d1 % 16 * 2 ^ 28 + d3 * 2 ^ 14 + (128 + d5)) % 2 ^ 18 * 2 ^ 14 + (128 + d7))
              (omega arith),
          gt_not_leb max_length 8 m,
        )
        (ap
          (λ t.
            get_8 p v max_length (d4 * 2 ^ 14 + d6) t (d0 * 2 ^ 21 + d1 * 2 ^ 14 + d2 * 2 ^ 7 + d3))
          (omega arith))

  -- The ninth byte counts with all its eight bits.
  pub get_8-last :
      (d0 d1 d2 d3 d4 d5 d6 d7 e : ℕ)
      → d0 < 128
      → d1 < 128
      → d2 < 128
      → d3 < 128
      → d4 < 128
      → d5 < 128
      → d6 < 128
      → d7 < 128
      → e < 256
      → get_or p 4 0 ≡ 128 + d4
      → get_or p 8 0 ≡ e
      → get_8 p v max_length
          (d4 * 2 ^ 14 + d6)
          (d3 % 16 * 2 ^ 28 + (128 + d5) * 2 ^ 14 + (128 + d7))
          (d0 * 2 ^ 21 + d1 * 2 ^ 14 + d2 * 2 ^ 7 + d3)
        ≡ (
          9,
          d0 * 2 ^ 57
              + d1 * 2 ^ 50
              + d2 * 2 ^ 43
              + d3 * 2 ^ 36
              + d4 * 2 ^ 29
              + d5 * 2 ^ 22
              + d6 * 2 ^ 15
              + d7 * 2 ^ 8
              + e,
        )
  unfolding get_8
  get_8-last d0 d1 d2 d3 d4 d5 d6 d7 e h0 h1 h2 h3 h4 h5 h6 h7 he r4 r8 =
      rw (r4, r8)
        (ap (λ (t : ℕ). (9, t))
          (ap₂ words high low
            ∙ words_sum ((d0 * 2 ^ 21 + d1 * 2 ^ 14 + d2 * 2 ^ 7 + d3) * 16 + d4 / 8)
                (d4 % 8 * 2 ^ 29 + d5 * 2 ^ 22 + d6 * 2 ^ 15 + d7 * 2 ^ 8 + e) (omega arith)
                (omega arith)
            ∙ omega arith))
    where
      high :
          bit_or
            (shl32 (d0 * 2 ^ 21 + d1 * 2 ^ 14 + d2 * 2 ^ 7 + d3) 4)
            (bit_and (128 + d4) 0x7f / 2 ^ 3)
          ≡ (d0 * 2 ^ 21 + d1 * 2 ^ 14 + d2 * 2 ^ 7 + d3) * 16 + d4 / 8
      high =
          bit_or-below 4 (d0 * 2 ^ 21 + d1 * 2 ^ 14 + d2 * 2 ^ 7 + d3) _ _
            (omega (arith, bit_and-127 (128 + d4))) (omega arith)
          ∙ omega (arith, bit_and-127 (128 + d4))

      first : bit_or (shl32 (d4 * 2 ^ 14 + d6) 15) e ≡ (d4 % 8 * 2 ^ 21 + d6 * 2 ^ 7) * 2 ^ 8 + e
      first = bit_or-below 15 (d4 % 8 * 2 ^ 14 + d6) e _ (omega arith) (omega arith) ∙ omega arith

      second :
          shl32 (bit_and (d3 % 16 * 2 ^ 28 + (128 + d5) * 2 ^ 14 + (128 + d7)) slot_2_0) 8
          ≡ (d5 * 2 ^ 14 + d7) * 2 ^ 8 + 0
      second =
          omega (arith, bit_and-two_slots (d3 % 16 * 2 ^ 28 + (128 + d5) * 2 ^ 14 + (128 + d7)))

      low :
          bit_or
            (bit_or (shl32 (d4 * 2 ^ 14 + d6) 15) e)
            (shl32 (bit_and (d3 % 16 * 2 ^ 28 + (128 + d5) * 2 ^ 14 + (128 + d7)) slot_2_0) 8)
          ≡ d4 % 8 * 2 ^ 29 + d5 * 2 ^ 22 + d6 * 2 ^ 15 + d7 * 2 ^ 8 + e
      low =
          ap₂ bit_or first second
          ∙ omega (
            arith,
            bit_or-split 8 (d4 % 8 * 2 ^ 21 + d6 * 2 ^ 7) (d5 * 2 ^ 14 + d7) e 0 he (omega arith),
            bit_or-zero e,
            bit_or-join_swapped 0 d5 d7 (d4 % 8) d6 (d4 % 8 * 2 ^ 21 + d6 * 2 ^ 7)
                (d5 * 2 ^ 14 + d7) (omega arith) (omega arith) (omega arith) (omega arith)
                (omega arith) (omega arith),
          )

  pub get_0-last :
      (e : ℕ) → e < 128 → get_or p 0 0 ≡ e → 0 < max_length → get_varint p v max_length ≡ (1, e)
  unfolding get_varint
  get_0-last e he r m = rw (r, is_last-true e (omega arith), pos_not_zero max_length m)

  pub get_0-more :
      (d0 : ℕ)
      → d0 < 128
      → get_or p 0 0 ≡ 128 + d0
      → 1 < max_length
      → get_varint p v max_length ≡ get_1 p v max_length (128 + d0)
  unfolding get_varint
  get_0-more d0 h0 r m = rw (
    r,
    is_last-false (128 + d0) (omega arith),
    pos_not_zero max_length (omega arith),
    gt_not_leb max_length 1 m,
  )

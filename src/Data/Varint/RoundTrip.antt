-- ===== src/Data/Varint/RoundTrip.antt =====
-- src/data.cpp: `sqlite3GetVarint` on what `sqlite3PutVarint` writes.
use hs.Prelude.{
  ℕ, zero, suc, ◌+◌, ◌/◌, ◌%◌, ◌^◌, ◌≤◌, ◌<◌, ◌≡◌, refl, ap, ◌∙◌, List, [], ◌∷◌, ◌++◌, length,
  arith,
}
use hs.Data.Varint.{varint_len, put_varint, get_varint}
use hs.Data.Varint.Get.{
  get_0-last, get_0-more, get_1-last, get_1-more, get_2-last, get_2-more, get_3-last, get_3-more,
  get_4-last, get_4-more, get_5-last, get_5-more, get_6-last, get_6-more, get_7-last, get_7-more,
  get_8-last,
}
use hs.Data.Varint.Put.{
  groups, encoding, encoding_9, HasGroups, put_varint-encoding, put_varint-encoding_9,
  varint_len_small, varint_len_large, Shape, small, large, shape,
}

get-encoding_0 :
    (v old m : ℕ) (rest : List ℕ)
    → v < 128 ^ 1
    → 1 ≤ m
    → get_varint (encoding 0 v ++ rest) old m ≡ (1, v)
unfolding encoding
get-encoding_0 v old m rest hv hm =
    let p : List ℕ = encoding 0 v ++ rest in
    get_0-last p old m (v % 128) (omega arith) refl (omega arith)
    ∙ ap (λ (t : ℕ). (1, t)) (omega arith)

get-encoding_1 :
    (v old m : ℕ) (rest : List ℕ)
    → v < 128 ^ 2
    → 2 ≤ m
    → get_varint (encoding 1 v ++ rest) old m ≡ (2, v)
unfolding encoding
get-encoding_1 v old m rest hv hm =
    let p : List ℕ = encoding 1 v ++ rest in
    get_0-more p old m (v / 128 % 128) (omega arith) (omega arith) (omega arith)
    ∙ get_1-last p old m (v / 128 % 128) (v % 128) (omega arith) (omega arith) refl
    ∙ ap (λ (t : ℕ). (2, t)) (omega arith)

get-encoding_2 :
    (v old m : ℕ) (rest : List ℕ)
    → v < 128 ^ 3
    → 3 ≤ m
    → get_varint (encoding 2 v ++ rest) old m ≡ (3, v)
unfolding encoding
get-encoding_2 v old m rest hv hm =
    let p : List ℕ = encoding 2 v ++ rest in
    get_0-more p old m (v / 128 / 128 % 128) (omega arith) (omega arith) (omega arith)
    ∙ get_1-more p old m (v / 128 / 128 % 128) (v / 128 % 128) (omega arith) (omega arith)
        (omega arith)
    ∙ get_2-last p old m (v / 128 / 128 % 128) (v / 128 % 128) (v % 128) (omega arith) (omega arith)
        (omega arith) refl
    ∙ ap (λ (t : ℕ). (3, t)) (omega arith)

get-encoding_3 :
    (v old m : ℕ) (rest : List ℕ)
    → v < 128 ^ 4
    → 4 ≤ m
    → get_varint (encoding 3 v ++ rest) old m ≡ (4, v)
unfolding encoding
get-encoding_3 v old m rest hv hm =
    let p : List ℕ = encoding 3 v ++ rest in
    get_0-more p old m (v / 128 / 128 / 128 % 128) (omega arith) (omega arith) (omega arith)
    ∙ get_1-more p old m (v / 128 / 128 / 128 % 128) (v / 128 / 128 % 128) (omega arith)
        (omega arith) (omega arith)
    ∙ get_2-more p old m (v / 128 / 128 / 128 % 128) (v / 128 / 128 % 128) (v / 128 % 128)
        (omega arith) (omega arith) (omega arith) (omega arith) (omega arith)
    ∙ get_3-last p old m (v / 128 / 128 / 128 % 128) (v / 128 / 128 % 128) (v / 128 % 128) (v % 128)
        (omega arith) (omega arith) (omega arith) (omega arith) refl
    ∙ ap (λ (t : ℕ). (4, t)) (omega arith)

get-encoding_4 :
    (v old m : ℕ) (rest : List ℕ)
    → v < 128 ^ 5
    → 5 ≤ m
    → get_varint (encoding 4 v ++ rest) old m ≡ (5, v)
unfolding encoding
get-encoding_4 v old m rest hv hm =
    let p : List ℕ = encoding 4 v ++ rest in
    get_0-more p old m (v / 128 / 128 / 128 / 128 % 128) (omega arith) (omega arith) (omega arith)
    ∙ get_1-more p old m (v / 128 / 128 / 128 / 128 % 128) (v / 128 / 128 / 128 % 128) (omega arith)
        (omega arith) (omega arith)
    ∙ get_2-more p old m (v / 128 / 128 / 128 / 128 % 128) (v / 128 / 128 / 128 % 128)
        (v / 128 / 128 % 128) (omega arith) (omega arith) (omega arith) (omega arith) (omega arith)
    ∙ get_3-more p old m (v / 128 / 128 / 128 / 128 % 128) (v / 128 / 128 / 128 % 128)
        (v / 128 / 128 % 128) (v / 128 % 128) (omega arith) (omega arith) (omega arith)
        (omega arith) (omega arith) (omega arith)
    ∙ get_4-last p old m (v / 128 / 128 / 128 / 128 % 128) (v / 128 / 128 / 128 % 128)
        (v / 128 / 128 % 128) (v / 128 % 128) (v % 128) (omega arith) (omega arith) (omega arith)
        (omega arith) (omega arith) refl
    ∙ ap (λ (t : ℕ). (5, t)) (omega arith)

get-encoding_5 :
    (v old m : ℕ) (rest : List ℕ)
    → v < 128 ^ 6
    → 6 ≤ m
    → get_varint (encoding 5 v ++ rest) old m ≡ (6, v)
unfolding encoding
get-encoding_5 v old m rest hv hm =
    let p : List ℕ = encoding 5 v ++ rest in
    get_0-more p old m (v / 128 / 128 / 128 / 128 / 128 % 128) (omega arith) (omega arith)
      (omega arith)
    ∙ get_1-more p old m (v / 128 / 128 / 128 / 128 / 128 % 128) (v / 128 / 128 / 128 / 128 % 128)
        (omega arith) (omega arith) (omega arith)
    ∙ get_2-more p old m (v / 128 / 128 / 128 / 128 / 128 % 128) (v / 128 / 128 / 128 / 128 % 128)
        (v / 128 / 128 / 128 % 128) (omega arith) (omega arith) (omega arith) (omega arith)
        (omega arith)
    ∙ get_3-more p old m (v / 128 / 128 / 128 / 128 / 128 % 128) (v / 128 / 128 / 128 / 128 % 128)
        (v / 128 / 128 / 128 % 128) (v / 128 / 128 % 128) (omega arith) (omega arith) (omega arith)
        (omega arith) (omega arith) (omega arith)
    ∙ get_4-more p old m (v / 128 / 128 / 128 / 128 / 128 % 128) (v / 128 / 128 / 128 / 128 % 128)
        (v / 128 / 128 / 128 % 128) (v / 128 / 128 % 128) (v / 128 % 128) (omega arith)
        (omega arith) (omega arith) (omega arith) (omega arith) (omega arith) (omega arith)
    ∙ get_5-last p old m (v / 128 / 128 / 128 / 128 / 128 % 128) (v / 128 / 128 / 128 / 128 % 128)
        (v / 128 / 128 / 128 % 128) (v / 128 / 128 % 128) (v / 128 % 128) (v % 128) (omega arith)
        (omega arith) (omega arith) (omega arith) (omega arith) (omega arith) refl
    ∙ ap (λ (t : ℕ). (6, t)) (omega arith)

get-encoding_6 :
    (v old m : ℕ) (rest : List ℕ)
    → v < 128 ^ 7
    → 7 ≤ m
    → get_varint (encoding 6 v ++ rest) old m ≡ (7, v)
unfolding encoding
get-encoding_6 v old m rest hv hm =
    let p : List ℕ = encoding 6 v ++ rest in
    get_0-more p old m (v / 128 / 128 / 128 / 128 / 128 / 128 % 128) (omega arith) (omega arith)
      (omega arith)
    ∙ get_1-more p old m (v / 128 / 128 / 128 / 128 / 128 / 128 % 128)
        (v / 128 / 128 / 128 / 128 / 128 % 128) (omega arith) (omega arith) (omega arith)
    ∙ get_2-more p old m (v / 128 / 128 / 128 / 128 / 128 / 128 % 128)
        (v / 128 / 128 / 128 / 128 / 128 % 128) (v / 128 / 128 / 128 / 128 % 128) (omega arith)
        (omega arith) (omega arith) (omega arith) (omega arith)
    ∙ get_3-more p old m (v / 128 / 128 / 128 / 128 / 128 / 128 % 128)
        (v / 128 / 128 / 128 / 128 / 128 % 128) (v / 128 / 128 / 128 / 128 % 128)
        (v / 128 / 128 / 128 % 128) (omega arith) (omega arith) (omega arith) (omega arith)
        (omega arith) (omega arith)
    ∙ get_4-more p old m (v / 128 / 128 / 128 / 128 / 128 / 128 % 128)
        (v / 128 / 128 / 128 / 128 / 128 % 128) (v / 128 / 128 / 128 / 128 % 128)
        (v / 128 / 128 / 128 % 128) (v / 128 / 128 % 128) (omega arith) (omega arith) (omega arith)
        (omega arith) (omega arith) (omega arith) (omega arith)
    ∙ get_5-more p old m (v / 128 / 128 / 128 / 128 / 128 / 128 % 128)
        (v / 128 / 128 / 128 / 128 / 128 % 128) (v / 128 / 128 / 128 / 128 % 128)
        (v / 128 / 128 / 128 % 128) (v / 128 / 128 % 128) (v / 128 % 128) (omega arith)
        (omega arith) (omega arith) (omega arith) (omega arith) (omega arith) (omega arith)
        (omega arith)
    ∙ get_6-last p old m (v / 128 / 128 / 128 / 128 / 128 / 128 % 128)
        (v / 128 / 128 / 128 / 128 / 128 % 128) (v / 128 / 128 / 128 / 128 % 128)
        (v / 128 / 128 / 128 % 128) (v / 128 / 128 % 128) (v / 128 % 128) (v % 128) (omega arith)
        (omega arith) (omega arith) (omega arith) (omega arith) (omega arith) (omega arith) refl
    ∙ ap (λ (t : ℕ). (7, t)) (omega arith)

get-encoding_7 :
    (v old m : ℕ) (rest : List ℕ)
    → v < 128 ^ 8
    → 8 ≤ m
    → get_varint (encoding 7 v ++ rest) old m ≡ (8, v)
unfolding encoding
get-encoding_7 v old m rest hv hm =
    let p : List ℕ = encoding 7 v ++ rest in
    get_0-more p old m (v / 128 / 128 / 128 / 128 / 128 / 128 / 128 % 128) (omega arith)
      (omega arith) (omega arith)
    ∙ get_1-more p old m (v / 128 / 128 / 128 / 128 / 128 / 128 / 128 % 128)
        (v / 128 / 128 / 128 / 128 / 128 / 128 % 128) (omega arith) (omega arith) (omega arith)
    ∙ get_2-more p old m (v / 128 / 128 / 128 / 128 / 128 / 128 / 128 % 128)
        (v / 128 / 128 / 128 / 128 / 128 / 128 % 128) (v / 128 / 128 / 128 / 128 / 128 % 128)
        (omega arith) (omega arith) (omega arith) (omega arith) (omega arith)
    ∙ get_3-more p old m (v / 128 / 128 / 128 / 128 / 128 / 128 / 128 % 128)
        (v / 128 / 128 / 128 / 128 / 128 / 128 % 128) (v / 128 / 128 / 128 / 128 / 128 % 128)
        (v / 128 / 128 / 128 / 128 % 128) (omega arith) (omega arith) (omega arith) (omega arith)
        (omega arith) (omega arith)
    ∙ get_4-more p old m (v / 128 / 128 / 128 / 128 / 128 / 128 / 128 % 128)
        (v / 128 / 128 / 128 / 128 / 128 / 128 % 128) (v / 128 / 128 / 128 / 128 / 128 % 128)
        (v / 128 / 128 / 128 / 128 % 128) (v / 128 / 128 / 128 % 128) (omega arith) (omega arith)
        (omega arith) (omega arith) (omega arith) (omega arith) (omega arith)
    ∙ get_5-more p old m (v / 128 / 128 / 128 / 128 / 128 / 128 / 128 % 128)
        (v / 128 / 128 / 128 / 128 / 128 / 128 % 128) (v / 128 / 128 / 128 / 128 / 128 % 128)
        (v / 128 / 128 / 128 / 128 % 128) (v / 128 / 128 / 128 % 128) (v / 128 / 128 % 128)
        (omega arith) (omega arith) (omega arith) (omega arith) (omega arith) (omega arith)
        (omega arith) (omega arith)
    ∙ get_6-more p old m (v / 128 / 128 / 128 / 128 / 128 / 128 / 128 % 128)
        (v / 128 / 128 / 128 / 128 / 128 / 128 % 128) (v / 128 / 128 / 128 / 128 / 128 % 128)
        (v / 128 / 128 / 128 / 128 % 128) (v / 128 / 128 / 128 % 128) (v / 128 / 128 % 128)
        (v / 128 % 128) (omega arith) (omega arith) (omega arith) (omega arith) (omega arith)
        (omega arith) (omega arith) (omega arith) (omega arith)
    ∙ get_7-last p old m (v / 128 / 128 / 128 / 128 / 128 / 128 / 128 % 128)
        (v / 128 / 128 / 128 / 128 / 128 / 128 % 128) (v / 128 / 128 / 128 / 128 / 128 % 128)
        (v / 128 / 128 / 128 / 128 % 128) (v / 128 / 128 / 128 % 128) (v / 128 / 128 % 128)
        (v / 128 % 128) (v % 128) (omega arith) (omega arith) (omega arith) (omega arith)
        (omega arith) (omega arith) (omega arith) (omega arith) refl
    ∙ ap (λ (t : ℕ). (8, t)) (omega arith)

get-encoding_9 :
    (v old m : ℕ) (rest : List ℕ)
    → v < 2 ^ 64
    → 9 ≤ m
    → get_varint (encoding_9 v ++ rest) old m ≡ (9, v)
unfolding encoding_9
get-encoding_9 v old m rest hv hm =
    let p : List ℕ = encoding_9 v ++ rest in
    get_0-more p old m (v / 256 / 128 / 128 / 128 / 128 / 128 / 128 / 128 % 128) (omega arith)
      (omega arith) (omega arith)
    ∙ get_1-more p old m (v / 256 / 128 / 128 / 128 / 128 / 128 / 128 / 128 % 128)
        (v / 256 / 128 / 128 / 128 / 128 / 128 / 128 % 128) (omega arith) (omega arith)
        (omega arith)
    ∙ get_2-more p old m (v / 256 / 128 / 128 / 128 / 128 / 128 / 128 / 128 % 128)
        (v / 256 / 128 / 128 / 128 / 128 / 128 / 128 % 128)
        (v / 256 / 128 / 128 / 128 / 128 / 128 % 128) (omega arith) (omega arith) (omega arith)
        (omega arith) (omega arith)
    ∙ get_3-more p old m (v / 256 / 128 / 128 / 128 / 128 / 128 / 128 / 128 % 128)
        (v / 256 / 128 / 128 / 128 / 128 / 128 / 128 % 128)
        (v / 256 / 128 / 128 / 128 / 128 / 128 % 128) (v / 256 / 128 / 128 / 128 / 128 % 128)
        (omega arith) (omega arith) (omega arith) (omega arith) (omega arith) (omega arith)
    ∙ get_4-more p old m (v / 256 / 128 / 128 / 128 / 128 / 128 / 128 / 128 % 128)
        (v / 256 / 128 / 128 / 128 / 128 / 128 / 128 % 128)
        (v / 256 / 128 / 128 / 128 / 128 / 128 % 128) (v / 256 / 128 / 128 / 128 / 128 % 128)
        (v / 256 / 128 / 128 / 128 % 128) (omega arith) (omega arith) (omega arith) (omega arith)
        (omega arith) (omega arith) (omega arith)
    ∙ get_5-more p old m (v / 256 / 128 / 128 / 128 / 128 / 128 / 128 / 128 % 128)
        (v / 256 / 128 / 128 / 128 / 128 / 128 / 128 % 128)
        (v / 256 / 128 / 128 / 128 / 128 / 128 % 128) (v / 256 / 128 / 128 / 128 / 128 % 128)
        (v / 256 / 128 / 128 / 128 % 128) (v / 256 / 128 / 128 % 128) (omega arith) (omega arith)
        (omega arith) (omega arith) (omega arith) (omega arith) (omega arith) (omega arith)
    ∙ get_6-more p old m (v / 256 / 128 / 128 / 128 / 128 / 128 / 128 / 128 % 128)
        (v / 256 / 128 / 128 / 128 / 128 / 128 / 128 % 128)
        (v / 256 / 128 / 128 / 128 / 128 / 128 % 128) (v / 256 / 128 / 128 / 128 / 128 % 128)
        (v / 256 / 128 / 128 / 128 % 128) (v / 256 / 128 / 128 % 128) (v / 256 / 128 % 128)
        (omega arith) (omega arith) (omega arith) (omega arith) (omega arith) (omega arith)
        (omega arith) (omega arith) (omega arith)
    ∙ get_7-more p old m (v / 256 / 128 / 128 / 128 / 128 / 128 / 128 / 128 % 128)
        (v / 256 / 128 / 128 / 128 / 128 / 128 / 128 % 128)
        (v / 256 / 128 / 128 / 128 / 128 / 128 % 128) (v / 256 / 128 / 128 / 128 / 128 % 128)
        (v / 256 / 128 / 128 / 128 % 128) (v / 256 / 128 / 128 % 128) (v / 256 / 128 % 128)
        (v / 256 % 128) (omega arith) (omega arith) (omega arith) (omega arith) (omega arith)
        (omega arith) (omega arith) (omega arith) (omega arith) (omega arith)
    ∙ get_8-last p old m (v / 256 / 128 / 128 / 128 / 128 / 128 / 128 / 128 % 128)
        (v / 256 / 128 / 128 / 128 / 128 / 128 / 128 % 128)
        (v / 256 / 128 / 128 / 128 / 128 / 128 % 128) (v / 256 / 128 / 128 / 128 / 128 % 128)
        (v / 256 / 128 / 128 / 128 % 128) (v / 256 / 128 / 128 % 128) (v / 256 / 128 % 128)
        (v / 256 % 128) (v % 256) (omega arith) (omega arith) (omega arith) (omega arith)
        (omega arith) (omega arith) (omega arith) (omega arith) (omega arith) (omega arith) refl
    ∙ ap (λ (t : ℕ). (9, t)) (omega arith)

get-small :
    (k v old m : ℕ) (rest : List ℕ)
    → k < 8
    → v < 128 ^ suc k
    → suc k ≤ m
    → get_varint (encoding k v ++ rest) old m ≡ (suc k, v)
get-small zero v old m rest hk hv hm = get-encoding_0 v old m rest hv hm
get-small (suc zero) v old m rest hk hv hm = get-encoding_1 v old m rest hv hm
get-small (suc (suc zero)) v old m rest hk hv hm = get-encoding_2 v old m rest hv hm
get-small (suc (suc (suc zero))) v old m rest hk hv hm = get-encoding_3 v old m rest hv hm
get-small (suc (suc (suc (suc zero)))) v old m rest hk hv hm = get-encoding_4 v old m rest hv hm
get-small (suc (suc (suc (suc (suc zero))))) v old m rest hk hv hm =
    get-encoding_5 v old m rest hv hm
get-small (suc (suc (suc (suc (suc (suc zero)))))) v old m rest hk hv hm =
    get-encoding_6 v old m rest hv hm
get-small (suc (suc (suc (suc (suc (suc (suc zero))))))) v old m rest hk hv hm =
    get-encoding_7 v old m rest hv hm
get-small (suc (suc (suc (suc (suc (suc (suc (suc k)))))))) v old m rest hk hv hm =
    absurd (omega arith)

HasGroups-lt : (k v : ℕ) → HasGroups k v → v < 128 ^ suc k
HasGroups-lt zero v h = h
HasGroups-lt (suc k) v h = h.1

-- For every 64-bit `v`, `sqlite3GetVarint` with at least `sqlite3VarintLen(v)` bytes left reads back
-- the `v` that `sqlite3PutVarint` wrote, takes exactly those bytes, and looks at nothing behind them.
pub get_varint-put_varint :
    (v old m : ℕ) (rest : List ℕ)
    → v < 2 ^ 64
    → varint_len v ≤ m
    → get_varint (put_varint v ++ rest) old m ≡ (varint_len v, v)
get_varint-put_varint v old m rest hv hm = go (shape v)
  where
    go : Shape v → get_varint (put_varint v ++ rest) old m ≡ (varint_len v, v)
    go (small k hk h) =
        rw (put_varint-encoding k v hk h, varint_len_small k v hk h)
          (get-small k v old m rest hk (HasGroups-lt k v h)
            (omega (arith, varint_len_small k v hk h)))
    go (large h) =
        rw (put_varint-encoding_9 v h hv, varint_len_large v h hv)
          (get-encoding_9 v old m rest hv (omega (arith, varint_len_large v h hv)))

length-groups : (k v : ℕ) (t : List ℕ) → length (groups k v t) ≡ k + length t
unfolding groups
length-groups zero v t = omega arith
length-groups (suc k) v t = omega (arith, length-groups k (v / 128) ((v % 128 + 128) ∷ t))

-- `sqlite3PutVarint` writes exactly the number of bytes that `sqlite3VarintLen` says, which is the
-- assertion `p == needed_bytes` of `CWData::addVarInt`, and that is 1 to 9.
pub length-put_varint :
    (v : ℕ)
    → v < 2 ^ 64
    → (length (put_varint v) ≡ varint_len v) × (1 ≤ varint_len v) × (varint_len v ≤ 9)
unfolding encoding encoding_9
length-put_varint v hv = go (shape v)
  where
    go : Shape v → (length (put_varint v) ≡ varint_len v) × (1 ≤ varint_len v) × (varint_len v ≤ 9)
    go (small k hk h) =
        rw (put_varint-encoding k v hk h, varint_len_small k v hk h)
          (omega (arith, length-groups k (v / 128) (v % 128 ∷ [])))
    go (large h) =
        rw (put_varint-encoding_9 v h hv, varint_len_large v h hv)
          (omega (arith, length-groups 8 (v / 256) (v % 256 ∷ [])))

-- ===== src/Data/Reader/RoundTrip.antt =====
-- src/data.cpp: each getter of `CRData` on what the function of `CWData` for the same type appends.
use hs.Prelude.{
  ℕ, zero, suc, ◌+◌, ◌-◌, ◌*◌, ◌^◌, ◌≤◌, ◌<◌, ◌≡◌, refl, sym, ap, ap₂, ◌∙◌, false, some, List, [],
  ◌∷◌, ◌++◌, length, length-append, take, take-append, leb, ltb, ◌==◌, ◌&&◌, ◌||◌, arith,
}
use hs.Data.Memory.{to_memory, from_memory, little_endian_16, little_endian_32, little_endian_64}
use hs.Data.Memory.Swap.{
  length-to_memory, from_memory-to_memory, little_endian_16_lem, little_endian_32_lem,
  little_endian_64_lem,
}
use hs.Data.Varint.{varint_len, put_varint, get_varint}
use hs.Data.Varint.RoundTrip.{get_varint-put_varint, length-put_varint}
use hs.Data.Varint.Bounds.{get_varint-local}
use hs.Data.Reader.{
  CrData, advance, current, get_left, get_fixed, get_uint, get_int64, get_ushort, get_char,
  get_var_int, get_bytes, max_string, get_str, get_str_2,
}
use hs.Data.Reader.Stream.{
  IsValid, Holds, Holds-length, Holds-advance, current-get_or, current-take, Decodes, >>=-Decodes,
}

ltb-false : (a b : ℕ) → b ≤ a → ltb a b ≡ false
ltb-false a b h = ground arith

-- The test of the getters passes when the stream begins with `front`.
enough :
    (r : CrData) (front rest : List ℕ)
    → Holds r (front ++ rest)
    → r.streampos + length front ≤ r.datalen
enough r front rest h = omega (arith, Holds-length r (front ++ rest) h, length-append front rest)

pub from_memory-take : (n : ℕ) (bs : List ℕ) → from_memory n (take n bs) ≡ from_memory n bs
unfolding from_memory
from_memory-take zero bs = refl
from_memory-take (suc n) [] = refl
from_memory-take (suc n) (b ∷ bs) = ap (λ t. b + 256 * t) (from_memory-take n bs)

pub get_fixed-Decodes :
    (n : ℕ) (convert : ℕ → ℕ) (x : ℕ)
    → convert x ≡ x
    → x < 256 ^ n
    → Decodes (get_fixed n convert) (to_memory n x) x
unfolding get_fixed
get_fixed-Decodes n convert x same hx r rest h =
    let fits : r.streampos + n ≤ r.datalen =
      omega (arith, enough r (to_memory n x) rest h, length-to_memory n x) in
    (
      advance n r,
      rw (ltb-false r.datalen (r.streampos + n) fits, value) (ap₂ (λ t u. (some t, u)) same refl),
      rw (length-to_memory n x) at (Holds-advance r (to_memory n x) rest h),
    )
  where
    value : from_memory n (current r) ≡ x
    value =
        sym (from_memory-take n (current r))
        ∙ ap (from_memory n) (
            current-take r (to_memory n x ++ rest) h n
              (omega (arith, enough r (to_memory n x) rest h, length-to_memory n x)))
        ∙ from_memory-take n (to_memory n x ++ rest)
        ∙ from_memory-to_memory n x rest hx

pub get_char-Decodes : (c : ℕ) → Decodes get_char (c ∷ []) c
unfolding get_char
get_char-Decodes c r rest h =
    let fits = enough r (c ∷ []) rest h in
    (
      advance 1 r,
      rw (
        ltb-false r.datalen (r.streampos + 1) fits,
        current-get_or r (c ∷ rest) h 0 (omega arith),
      ),
      Holds-advance r (c ∷ []) rest h,
    )

pub get_bytes-Decodes : (bs : List ℕ) → Decodes (get_bytes (length bs)) bs bs
unfolding get_bytes
get_bytes-Decodes bs r rest h =
    let fits = enough r bs rest h in
    (
      advance (length bs) r,
      rw (
        ltb-false r.datalen (r.streampos + length bs) fits,
        current-take r (bs ++ rest) h (length bs) (omega arith),
        take-append,
      ),
      Holds-advance r bs rest h,
    )

pub get_uint-Decodes : (x : ℕ) → x < 2 ^ 32 → Decodes get_uint (to_memory 4 x) x
unfolding get_uint
get_uint-Decodes x hx = get_fixed-Decodes 4 little_endian_32 x (little_endian_32_lem x) hx

pub get_int64-Decodes : (x : ℕ) → x < 2 ^ 64 → Decodes get_int64 (to_memory 8 x) x
unfolding get_int64
get_int64-Decodes x hx = get_fixed-Decodes 8 little_endian_64 x (little_endian_64_lem x) hx

pub get_ushort-Decodes : (x : ℕ) → x < 2 ^ 16 → Decodes get_ushort (to_memory 2 x) x
unfolding get_ushort
get_ushort-Decodes x hx = get_fixed-Decodes 2 little_endian_16 x (little_endian_16_lem x) hx

pub get_left_lem : (r : CrData) → IsValid r → get_left r ≡ r.datalen - r.streampos
get_left_lem r v = omega (arith, v.limit)

-- On a stream that begins with a varint, `sqlite3GetVarint` is given what it needs.
varint_read :
    (v : ℕ) (r : CrData) (rest : List ℕ)
    → v < 2 ^ 64
    → Holds r (put_varint v ++ rest)
    → get_varint (current r) 0 (get_left r) ≡ (varint_len v, v)
varint_read v r rest hv h =
    get_varint-local (current r) (put_varint v ++ rest) 0 (get_left r)
      (λ i lt. current-get_or r _ h i (omega (arith, get_left_lem r h.valid)))
    ∙ get_varint-put_varint v 0 (get_left r) rest hv (
        omega
          (arith, get_left_lem r h.valid, enough r (put_varint v) rest h, length-put_varint v hv))

pub get_var_int-Decodes : (v : ℕ) → v < 2 ^ 64 → Decodes get_var_int (put_varint v) v
unfolding get_var_int
get_var_int-Decodes v hv r rest h =
    let (len, low, high) = length-put_varint v hv in
    (
      advance (varint_len v) r,
      rw (varint_read v r rest hv h, some_bytes (varint_len v) low),
      rw len at (Holds-advance r (put_varint v) rest h),
    )
  where
    some_bytes : (n : ℕ) → 1 ≤ n → (n == 0) ≡ false
    some_bytes n h = ground arith

string_size :
    (n : ℕ) → n ≤ max_string → ((leb n (2 ^ 63 - 1) && ltb max_string n) || leb (2 ^ 63) n) ≡ false
string_size n h = ground arith

-- `getStr2` reads back any string of up to 10 MiB that `addString2` wrote.
pub get_str_2-Decodes :
    (s : List ℕ) → length s ≤ max_string → Decodes get_str_2 (put_varint (length s) ++ s) s
unfolding get_str_2
get_str_2-Decodes s hs =
    >>=-Decodes get_var_int _ (put_varint (length s)) s (length s) s
      (get_var_int-Decodes (length s) (omega arith))
      (rw (string_size (length s) hs) (get_bytes-Decodes s))

-- `getStr` reads back any string of up to 10 MiB that `addString` wrote.
pub get_str-Decodes :
    (s : List ℕ) → length s ≤ max_string → Decodes get_str (to_memory 4 (length s) ++ s) s
unfolding get_str
get_str-Decodes s hs =
    >>=-Decodes get_uint _ (to_memory 4 (length s)) s (length s) s
      (get_uint-Decodes (length s) (omega arith))
      (rw (ltb-false max_string (length s) hs) (get_bytes-Decodes s))

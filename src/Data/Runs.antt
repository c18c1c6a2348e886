-- ===== src/Data/Runs.antt =====
-- Runs of the writer and the reader, and the theorems about them at concrete inputs.
use hs.Prelude.{
  ℕ, ◌+◌, ◌-◌, ◌^◌, ◌≤◌, ◌<◌, ◌≡◌, refl, ap, List, [], ◌∷◌, ◌++◌, length, get_or, arith, codes,
}
use hs.Prelude.Order.{lt_wf}
use native.Mathlib.Decide.{dec_lt}
use hs.Data.Varint.{
  varint_len, varint_len_loop, put_varint, put_varint64, low_groups, high_groups, get_varint, get_1,
  get_2, get_3, get_4, get_5, get_6, get_7, get_8,
}
use hs.Data.Varint.RoundTrip.{get_varint-put_varint, length-put_varint}
use hs.Data.Varint.Bounds.{get_varint-local}
use hs.Data.Writer.{empty, add_string_2, add_varint, add_buffer}
use hs.Data.Reader.{of_string}
use hs.Data.Reader.Stream.{Holds, of_string-Holds}

put_300 : put_varint 300 ≡ 0x82 ∷ 0x2c ∷ []
unfolding put_varint
put_300 = refl

put_2_32 : put_varint (2 ^ 32) ≡ 0x90 ∷ 0x80 ∷ 0x80 ∷ 0x80 ∷ 0 ∷ []
unfolding put_varint put_varint64 low_groups lt_wf dec_lt
put_2_32 = refl

get_max : get_varint (put_varint (2 ^ 64 - 1)) 7 9 ≡ (9, 2 ^ 64 - 1)
unfolding put_varint put_varint64 high_groups get_varint get_1 get_2 get_3 get_4 get_5 get_6 get_7
    get_8
get_max = refl

len_max : varint_len (2 ^ 64 - 1) ≡ 9
unfolding varint_len varint_len_loop lt_wf dec_lt
len_max = refl

get_varint-put_varint_example :
    get_varint (put_varint (2 ^ 63 + 5) ++ 77 ∷ []) 0 20 ≡ (varint_len (2 ^ 63 + 5), 2 ^ 63 + 5)
get_varint-put_varint_example =
    get_varint-put_varint (2 ^ 63 + 5) 0 20 (77 ∷ []) (omega arith)
      (omega (arith, (length-put_varint (2 ^ 63 + 5) (omega arith)).2))

length-put_varint_example :
    (length (put_varint 16384) ≡ varint_len 16384) × (1 ≤ varint_len 16384) × (varint_len 16384 ≤ 9)
length-put_varint_example = length-put_varint 16384 (omega arith)

abbrev two_bytes : List ℕ
two_bytes = 0x82 ∷ 0x2c ∷ []

abbrev one_byte : List ℕ
one_byte = 0x82 ∷ []

get_varint-local_example : get_varint two_bytes 5 1 ≡ get_varint one_byte 5 1
get_varint-local_example = get_varint-local two_bytes one_byte 5 1 agree
  where
    agree : (i : ℕ) → i < 1 → get_or two_bytes i 0 ≡ get_or one_byte i 0
    agree i h = let e : i ≡ 0 = omega arith in rw e

-- "key" as `addString2` writes it, followed by one more byte.
abbrev key_bytes : List ℕ
key_bytes = (add_string_2 (codes "key") empty).bytes ++ 9 ∷ []

key_written : key_bytes ≡ 3 ∷ b'k' ∷ b'e' ∷ b'y' ∷ 9 ∷ []
unfolding add_string_2 add_varint add_buffer put_varint
key_written = refl

key-Holds : Holds (of_string key_bytes) key_bytes
key-Holds = of_string-Holds key_bytes (omega (arith, ap length key_written))

-- ===== src/Parts/Runs.antt =====
-- The parts of an upload of equal size, recorded in several orders, and the keys of parts.
use hs.Prelude.{ℕ, ◌+◌, ◌<◌, ◌≡◌, ◌≢◌, refl, true, false, ◌||◌, [], ◌∷◌, ◌==◌, arith}
use hs.Parts.{
  PartExt, upload_id_to_str, upload_id_from_str_dot, part_key, add_loop, filter_parts, finish_parts,
  add_part_ext,
}
use hs.Data.Memory.{to_memory}
use hs.Parts.Ids.{
  upload_id_from_str_dot-part_key, upload_id_from_str_dot-HasDot, only, none_left, one_more,
}
use hs.Parts.Cover.{
  Fits, AllFit, covers, covers-add_part_ext, add_part_ext-lost, add_part_ext-invented, no_runs,
  one_before,
}

abbrev run : ℕ → ℕ → PartExt
run start len = record { size = 9; start = start; len = len }

in_order : add_part_ext (add_part_ext (run 1 1 ∷ []) 9 2) 9 3 ≡ run 1 3 ∷ []
unfolding add_part_ext add_loop finish_parts
in_order = refl

three_first :
    add_part_ext (run 3 1 ∷ []) 9 1
    ≡ record { size = 9; start = 3; len = 4294967294 } ∷ run 2 2 ∷ run 1 1 ∷ []
unfolding add_part_ext add_loop finish_parts filter_parts
three_first = refl

three_one_two : covers 3 (add_part_ext (add_part_ext (run 3 1 ∷ []) 9 1) 9 2) ≡ false
unfolding add_part_ext add_loop finish_parts filter_parts
three_one_two = refl

upload_id_from_str_dot-part_key_example : upload_id_from_str_dot (part_key 7 12) ≡ (7, 12)
unfolding upload_id_to_str to_memory
upload_id_from_str_dot-part_key_example =
    upload_id_from_str_dot-part_key 7 12 (omega arith) (omega arith)
      (one_more (omega arith) (one_more (omega arith) none_left))

upload_id_from_str_dot-HasDot_example : (upload_id_from_str_dot (part_key 46 12)).0 ≢ 46
upload_id_from_str_dot-HasDot_example = upload_id_from_str_dot-HasDot 46 12 (only refl)

run-Fits : (start len : ℕ) → start + len < 1000 → Fits (run start len)
run-Fits start len h = record { start = omega arith; len = omega arith; end = omega arith }

covers-add_part_ext_example :
    covers 2 (add_part_ext (run 1 2 ∷ []) 9 3) ≡ (covers 2 (run 1 2 ∷ []) || (2 == 3))
covers-add_part_ext_example =
    covers-add_part_ext 9 3 2 (run 1 2 ∷ []) (omega arith) (omega arith)
      (AllFit.one_more (run-Fits 1 2 (omega arith)) AllFit.none_left) (one_before refl no_runs)

add_part_ext-lost_example : covers 3 (add_part_ext (run 2 2 ∷ run 1 1 ∷ []) 9 2) ≡ false
add_part_ext-lost_example =
    add_part_ext-lost 9 2 3 (run 2 2) (run 1 1) (omega arith) (omega arith) (omega arith)
      (run-Fits 2 2 (omega arith)) (run-Fits 1 1 (omega arith)) refl refl refl

add_part_ext-invented_example : covers 2 (add_part_ext (run 3 1 ∷ []) 9 1) ≡ true
add_part_ext-invented_example =
    add_part_ext-invented 9 1 (run 3 1) (omega arith) (run-Fits 3 1 (omega arith)) (omega arith)
      (omega arith)

-- ===== src/Buckets/Names/Reserved.antt =====
-- src/Buckets.cpp: the names that `isValidBucketName` refuses for how they begin or end.
use hs.Prelude.{ℕ, ◌≡◌, ◌↔◌, inl, inr, refl, Bool, true, false, List, codes, arith, Bool-cases}
use hs.Buckets.Affixes.{Begins, Ends, starts_with, ends_with, starts_with_iff, ends_with_iff}
use hs.Buckets.Names.{is_reserved}

-- The beginnings and ends that are reserved
pub data Reserved (name : List ℕ) : Type 0 where
  xn : Begins name (codes "xn--") → Reserved name
  sthree : Begins name (codes "sthree-") → Reserved name
  amzn_s3_demo : Begins name (codes "amzn-s3-demo-") → Reserved name
  s3alias : Ends name (codes "-s3alias") → Reserved name
  ol_s3 : Ends name (codes "--ol-s3") → Reserved name
  mrap : Ends name (codes ".mrap") → Reserved name
  x_s3 : Ends name (codes "--x-s3") → Reserved name
  table_s3 : Ends name (codes "--table-s3") → Reserved name

refuted : (b : Bool) → ¬ (b ≡ true) → b ≡ false
refuted b h = elim (Bool-cases b) [ inl e ↦ absurd (h e) | inr e ↦ e ]

pub is_reserved-Reserved : (name : List ℕ) → (is_reserved name ≡ false) ↔ (¬ Reserved name)
unfolding is_reserved
is_reserved-Reserved name = (forth, back)
  where
    forth : is_reserved name ≡ false → ¬ Reserved name
    forth h (xn b) = ground (arith, h, (starts_with_iff name (codes "xn--")).1 b)
    forth h (sthree b) = ground (arith, h, (starts_with_iff name (codes "sthree-")).1 b)
    forth h (amzn_s3_demo b) = ground (arith, h, (starts_with_iff name (codes "amzn-s3-demo-")).1 b)
    forth h (s3alias b) = ground (arith, h, (ends_with_iff name (codes "-s3alias")).1 b)
    forth h (ol_s3 b) = ground (arith, h, (ends_with_iff name (codes "--ol-s3")).1 b)
    forth h (mrap b) = ground (arith, h, (ends_with_iff name (codes ".mrap")).1 b)
    forth h (x_s3 b) = ground (arith, h, (ends_with_iff name (codes "--x-s3")).1 b)
    forth h (table_s3 b) = ground (arith, h, (ends_with_iff name (codes "--table-s3")).1 b)

    begins : (front : List ℕ) → ¬ Begins name front → starts_with name front ≡ false
    begins front h = refuted (starts_with name front) (λ e. h ((starts_with_iff name front).0 e))

    ends : (end : List ℕ) → ¬ Ends name end → ends_with name end ≡ false
    ends end h = refuted (ends_with name end) (λ e. h ((ends_with_iff name end).0 e))

    back : ¬ Reserved name → is_reserved name ≡ false
    back h =
        rw
          (
            begins (codes "xn--") (λ b. h (xn b)),
            begins (codes "sthree-") (λ b. h (sthree b)),
            begins (codes "amzn-s3-demo-") (λ b. h (amzn_s3_demo b)),
            ends (codes "-s3alias") (λ b. h (s3alias b)),
            ends (codes "--ol-s3") (λ b. h (ol_s3 b)),
            ends (codes ".mrap") (λ b. h (mrap b)),
            ends (codes "--x-s3") (λ b. h (x_s3 b)),
            ends (codes "--table-s3") (λ b. h (table_s3 b)),
          )
          refl

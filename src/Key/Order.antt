-- ===== src/Key/Order.antt =====
-- src/s3handler.cpp: `mdb_cmp_s3key` as the comparison of a sorted database.
use Prim.Native.Nat.{compare, Ordering}
use Prim.Native.Nat.Ordering.{lt, eq, gt}
use hs.Prelude.{
  ℕ, ◌+◌, ◌%◌, ◌^◌, ◌≤◌, ◌<◌, ◌*◌, ◌≡◌, ◌↔◌, refl, sym, ap, ap₂, ◌∙◌, List, [], ◌∷◌, length, arith,
}
use hs.Key.{
  KeyInfo, make_key, extract_key_info, compare_bytes, compare_signed, then_by, compare_info,
  cmp_s3key,
}
use hs.Key.RoundTrip.{extract_key_info-make_key}

abbrev pub flip : Ordering → Ordering
flip lt = gt
flip eq = eq
flip gt = lt

-- A comparison by which values can be sorted: it turns round with its arguments, values that it
-- finds equal compare alike with all others, and it is transitive.
pub record IsOrder {ℓ} {A : Type ℓ} (cmp : A → A → Ordering) : Type ℓ where
  pub turned : (a b : A) → cmp b a ≡ flip (cmp a b)
  pub alike : (a b c : A) → cmp a b ≡ eq → cmp a c ≡ cmp b c
  pub chained : (a b c : A) → cmp a b ≡ lt → cmp b c ≡ lt → cmp a c ≡ lt

compare-IsOrder : IsOrder compare
compare-IsOrder = record {
  turned = λ a b. ground arith;
  alike = λ a b c e. ground arith;
  chained = λ a b c p q. ground arith;
}

compare_bytes-turned : (a b : List ℕ) → compare_bytes b a ≡ flip (compare_bytes a b)
unfolding compare_bytes
compare_bytes-turned [] [] = refl
compare_bytes-turned [] (b ∷ bs) = refl
compare_bytes-turned (a ∷ s) [] = refl
compare_bytes-turned (a ∷ s) (b ∷ bs) = ground (arith, compare_bytes-turned s bs)

compare_bytes-same : (a b : List ℕ) → compare_bytes a b ≡ eq → a ≡ b
unfolding compare_bytes
compare_bytes-same [] [] e = refl
compare_bytes-same [] (b ∷ bs) e = cc
compare_bytes-same (a ∷ s) [] e = cc
compare_bytes-same (a ∷ s) (b ∷ bs) e = ground (arith, compare_bytes-same s bs)

compare_bytes-chained :
    (a b c : List ℕ) → compare_bytes a b ≡ lt → compare_bytes b c ≡ lt → compare_bytes a c ≡ lt
unfolding compare_bytes
compare_bytes-chained _ [] [] p q = cc
compare_bytes-chained [] (b ∷ bs) [] p q = cc
compare_bytes-chained [] _ (c ∷ cs) p q = refl
compare_bytes-chained (a ∷ s) [] (c ∷ cs) p q = cc
compare_bytes-chained (a ∷ s) (b ∷ bs) [] p q = cc
compare_bytes-chained (a ∷ s) (b ∷ bs) (c ∷ cs) p q = ground (arith, compare_bytes-chained s bs cs)

compare_bytes-IsOrder : IsOrder compare_bytes
compare_bytes-IsOrder = record {
  turned = compare_bytes-turned;
  alike = λ a b c e. ap (λ t. compare_bytes t c) (compare_bytes-same a b e);
  chained = compare_bytes-chained;
}

module _ {ℓ κ} {A : Type ℓ} {B : Type κ} (f : A → B) (cmp : B → B → Ordering)
    (o : IsOrder cmp) where
  by-IsOrder : IsOrder (λ a b. cmp (f a) (f b))
  by-IsOrder = record {
    turned = λ a b. o.turned (f a) (f b);
    alike = λ a b c. o.alike (f a) (f b) (f c);
    chained = λ a b c. o.chained (f a) (f b) (f c);
  }

  turned-IsOrder : IsOrder (λ a b. cmp (f b) (f a))
  turned-IsOrder = record {
    turned = λ a b. o.turned (f b) (f a);
    alike = λ a b c e.
        o.turned (f a) (f c)
        ∙ ap flip (o.alike (f a) (f b) (f c) (o.turned (f b) (f a) ∙ ap flip e))
        ∙ sym (o.turned (f b) (f c));
    chained = λ a b c p q. o.chained (f c) (f b) (f a) q p;
  }

then_by-eq : (x y : Ordering) → then_by x y ≡ eq → (x ≡ eq) × (y ≡ eq)
unfolding then_by
then_by-eq lt y e = cc
then_by-eq eq y e = (refl, e)
then_by-eq gt y e = cc

-- One comparison, and another one for what it finds equal
module _ {ℓ} {A : Type ℓ} (first second : A → A → Ordering) (o : IsOrder first)
    (o' : IsOrder second) where
  then_by-turned : (x y : Ordering) → then_by (flip x) (flip y) ≡ flip (then_by x y)
  unfolding then_by
  then_by-turned lt y = refl
  then_by-turned eq y = refl
  then_by-turned gt y = refl

  then_by-IsOrder : IsOrder (λ a b. then_by (first a b) (second a b))
  unfolding then_by
  then_by-IsOrder = record {
    turned =
        λ a b. ap₂ then_by (o.turned a b) (o'.turned a b) ∙ then_by-turned (first a b) (second a b);
    alike = λ a b c e.
        let (e1, e2) = then_by-eq (first a b) (second a b) e in
        ap₂ then_by (o.alike a b c e1) (o'.alike a b c e2);
    chained = λ a b c p q. ground (
      arith,
      o.chained a b c,
      o.alike a b c,
      o.alike b c a,
      o.turned a b,
      o.turned c a,
      o'.chained a b c,
    );
  }

compare_info-IsOrder : IsOrder compare_info
unfolding compare_info compare_signed
compare_info-IsOrder =
    then_by-IsOrder (λ a b. compare_signed b.bucket_id a.bucket_id) _
      (turned-IsOrder (λ a. (a.bucket_id + 2 ^ 63) % 2 ^ 64) compare compare-IsOrder)
      (then_by-IsOrder (λ a b. compare_bytes a.key b.key) _
        (by-IsOrder (λ a. a.key) compare_bytes compare_bytes-IsOrder)
        (turned-IsOrder (λ a. (a.version + 2 ^ 63) % 2 ^ 64) compare compare-IsOrder))

-- `mdb_cmp_s3key` is fit to sort the database, on any keys, corrupted ones included: it turns round
-- with its arguments, keys that it finds equal compare alike with all others, and it is transitive.
pub cmp_s3key-IsOrder : IsOrder cmp_s3key
unfolding cmp_s3key
cmp_s3key-IsOrder = by-IsOrder extract_key_info compare_info compare_info-IsOrder

signed_same : (a b : ℕ) → a < 2 ^ 64 → b < 2 ^ 64 → compare_signed a b ≡ eq → a ≡ b
unfolding compare_signed
signed_same a b ha hb e = ground arith

-- The numbers of a key have 64 bits, and its length is within the reader's limit.
pub record IsStorable (i : KeyInfo) : Type 0 where
  pub bucket : i.bucket_id < 2 ^ 64
  pub version : i.version < 2 ^ 64
  pub key : 19 + length i.key ≤ 100 * 1024 * 1024

compare_info-same : (a b : KeyInfo) → IsStorable a → IsStorable b → compare_info a b ≡ eq → a ≡ b
unfolding compare_info
compare_info-same a b ha hb e =
    let (e1, e23) = then_by-eq _ _ e in
    let (e2, e3) = then_by-eq _ _ e23 in
    equal (signed_same b.bucket_id a.bucket_id hb.bucket ha.bucket e1)
      (compare_bytes-same a.key b.key e2) (signed_same b.version a.version hb.version ha.version e3)
  where
    equal : b.bucket_id ≡ a.bucket_id → a.key ≡ b.key → b.version ≡ a.version → a ≡ b
    equal p q r = cc

IsOrder-self {ℓ} : {A : Type ℓ} (cmp : A → A → Ordering) → IsOrder cmp → (a : A) → cmp a a ≡ eq
IsOrder-self cmp o a = unturned (cmp a a) (o.turned a a)
  where
    unturned : (x : Ordering) → x ≡ flip x → x ≡ eq
    unturned lt e = cc
    unturned eq e = refl
    unturned gt e = cc

-- The keys of two objects that can be stored are equal in the database exactly if bucket, key and
-- version are.
pub cmp_s3key-make_key :
    (a b : KeyInfo)
    → IsStorable a
    → IsStorable b
    → (cmp_s3key (make_key a) (make_key b) ≡ eq) ↔ (a ≡ b)
unfolding cmp_s3key
cmp_s3key-make_key a b ha hb = (
  λ e. compare_info-same a b ha hb (
      rw
        (
          extract_key_info-make_key a ha.bucket ha.version ha.key,
          extract_key_info-make_key b hb.bucket hb.version hb.key,
        )
        at e),
  λ e.
      ap (λ t. cmp_s3key (make_key a) (make_key t)) (sym e)
      ∙ IsOrder-self cmp_s3key cmp_s3key-IsOrder (make_key a),
)

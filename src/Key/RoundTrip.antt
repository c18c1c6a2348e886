-- ===== src/Key/RoundTrip.antt =====
-- src/s3handler.cpp: `extractKeyInfoView` on what `make_key` makes.
use hs.Prelude.{
  ℕ, ◌+◌, ◌*◌, ◌^◌, ◌≤◌, ◌<◌, ◌≡◌, sym, ap, ◌∙◌, inl, inr, Bool-cases, true, false, Option, none,
  some, List, [], ◌∷◌, ◌++◌, length, length-append, append_assoc, ◌==◌, ==_iff, arith,
}
use hs.Data.Varint.{put_varint}
use hs.Data.Varint.RoundTrip.{length-put_varint}
use hs.Data.Writer.{add_char, add_varint, add_buffer}
use hs.Data.Reader.{CrData, of_string, ◌>>=◌, go_on, get_char, get_var_int}
use hs.Data.Reader.Stream.{Holds, of_string-Holds, Decodes}
use hs.Data.Reader.RoundTrip.{get_left_lem, get_char-Decodes, get_var_int-Decodes}
use hs.Key.{
  KeyInfo, write_key, make_key, rest_of, give_info, read_key_info, extract_key_info, common_prefix,
}

-- What is left when a reader holds the key alone.
rest_of-Holds : (r : CrData) (key : List ℕ) → Holds r key → rest_of r ≡ key
unfolding rest_of
rest_of-Holds r key h = rw (get_left_lem r h.valid) h.content

give_info-Holds :
    (version bucket_id : ℕ) (key : List ℕ) (r : CrData)
    → Holds r key
    → (give_info version bucket_id r).0
      ≡ some (record { key = key; version = version; bucket_id = bucket_id })
unfolding give_info
give_info-Holds version bucket_id key r h =
    ap (λ k. some (record { key = k; version = version; bucket_id = bucket_id }))
      (rest_of-Holds r key h)

-- A getter that finds its code, and what runs behind it.
read_on {ℓ κ} :
    {A : Type ℓ} {B : Type κ} (get : CrData → Option A × CrData)
    (k : A → CrData → Option B × CrData) (c rest : List ℕ) (a : A) (o : Option B) (r : CrData)
    → Decodes get c a
    → Holds r (c ++ rest)
    → ((r' : CrData) → Holds r' rest → (k a r').0 ≡ o)
    → ((get >>= k) r).0 ≡ o
read_on get k c rest a o r d h next =
    let (r', e, h') = d r rest h in ap (λ p. (go_on k p).0) e ∙ next r' h'

-- The codes of a key with version 0, and of one with another version
unversioned : KeyInfo → List ℕ
unversioned i = (0 ∷ []) ++ (put_varint i.bucket_id ++ i.key)

versioned : KeyInfo → List ℕ
versioned i = (1 ∷ []) ++ (put_varint i.bucket_id ++ (put_varint i.version ++ i.key))

module _ (i : KeyInfo) where
  make_key-unversioned : (i.version == 0) ≡ true → make_key i ≡ unversioned i
  unfolding make_key write_key add_char add_varint add_buffer unversioned
  make_key-unversioned e = rw (e, make_key)

  make_key-versioned : (i.version == 0) ≡ false → make_key i ≡ versioned i
  unfolding make_key write_key add_char add_varint add_buffer versioned
  make_key-versioned e =
      rw (e, make_key) (append_assoc (1 ∷ put_varint i.bucket_id) (put_varint i.version) i.key)

  module _ (bucket : i.bucket_id < 2 ^ 64) (version : i.version < 2 ^ 64) (r : CrData) where
    read_unversioned : i.version ≡ 0 → Holds r (unversioned i) → (read_key_info r).0 ≡ some i
    unfolding read_key_info unversioned
    read_unversioned e h =
        read_on get_char _ (0 ∷ []) _ 0 (some i) r (get_char-Decodes 0) h (λ r1 h1.
          read_on get_var_int _ (put_varint i.bucket_id) i.key i.bucket_id (some i) r1
            (get_var_int-Decodes i.bucket_id bucket) h1
            (λ r2 h2.
              give_info-Holds 0 i.bucket_id i.key r2 h2
              ∙ ap (λ v. some (record i { version = v })) (sym e)))

    read_versioned : Holds r (versioned i) → (read_key_info r).0 ≡ some i
    unfolding read_key_info versioned
    read_versioned h = read_on get_char _ (1 ∷ []) _ 1 (some i) r (get_char-Decodes 1) h (λ r1 h1.
        read_on get_var_int _ (put_varint i.bucket_id) _ i.bucket_id (some i) r1
          (get_var_int-Decodes i.bucket_id bucket) h1
          (λ r2 h2.
            read_on get_var_int _ (put_varint i.version) i.key i.version (some i) r2
              (get_var_int-Decodes i.version version) h2
              (λ r3 h3. give_info-Holds i.version i.bucket_id i.key r3 h3)))

    read_made : Holds r (make_key i) → (read_key_info r).0 ≡ some i
    read_made h = elim (Bool-cases (i.version == 0)) [
      | inl e ↦ read_unversioned ((==_iff i.version 0).0 e) (rw (make_key-unversioned e) at h)
      | inr e ↦ read_versioned (rw (make_key-versioned e) at h)
    ]

  length-make_key :
      i.bucket_id < 2 ^ 64 → i.version < 2 ^ 64 → length (make_key i) ≤ 19 + length i.key
  unfolding unversioned versioned
  length-make_key hb hv = elim (Bool-cases (i.version == 0)) [
    | inl e ↦ omega (
      arith,
      ap length (make_key-unversioned e),
      length-append (put_varint i.bucket_id) i.key,
      length-put_varint i.bucket_id hb,
    )
    | inr e ↦ omega (
      arith,
      ap length (make_key-versioned e),
      length-append (put_varint i.bucket_id) (put_varint i.version ++ i.key),
      length-append (put_varint i.version) i.key,
      length-put_varint i.bucket_id hb,
      length-put_varint i.version hv,
    )
  ]

-- `extractKeyInfoView` gives back the key, the version and the bucket of which `make_key` made a
-- database key, for numbers of 64 bits and keys of at most 100 MiB less 19 bytes.
pub extract_key_info-make_key :
    (i : KeyInfo)
    → i.bucket_id < 2 ^ 64
    → i.version < 2 ^ 64
    → 19 + length i.key ≤ 100 * 1024 * 1024
    → extract_key_info (make_key i) ≡ i
unfolding extract_key_info
extract_key_info-make_key i hb hv hk =
    ap
      (λ o. elim o as (λ x. KeyInfo) [
        | some info ↦ info
        | none ↦ record { key = make_key i; version = 0; bucket_id = 0 }
      ])
      (read_made i hb hv (of_string (make_key i))
        (of_string-Holds (make_key i) (omega (arith, length-make_key i hb hv))))

-- Two versions of an object have one common prefix, which is the key of its version 0.
pub common_prefix-make_key :
    (i : KeyInfo)
    → i.bucket_id < 2 ^ 64
    → i.version < 2 ^ 64
    → 19 + length i.key ≤ 100 * 1024 * 1024
    → common_prefix (make_key i) ≡ make_key (record i { version = 0 })
unfolding common_prefix
common_prefix-make_key i hb hv hk =
    ap (λ j. make_key (record j { version = 0 })) (extract_key_info-make_key i hb hv hk)

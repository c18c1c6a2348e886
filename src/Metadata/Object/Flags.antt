-- ===== src/Metadata/Object/Flags.antt =====
-- src/ObjMetadata.cpp: the value of `flags`, as the tests of `deserialize` read it.
use hs.Prelude.{◌≡◌, refl, Bool, true, false, not, ◌&&◌}
use hs.Metadata.Content.{has_content_type}
use hs.Metadata.User.{has_user_metadata}
use hs.Metadata.Object.{
  ObjMetadata, has_value, has_flag, flags_of, metadata_flags, with_content_type, with_meta,
  with_disposition, with_cache_control, with_encoding, with_language, with_expires, with_lock_info,
  with_legal_hold,
}

-- A test that holds for both Booleans, and what it says of each.
unfoldable both : (Bool → Bool) → Bool
both p = p false && p true

unfoldable same : Bool → Bool → Bool
same true b = b
same false b = not b

and_inv : (a b : Bool) → (a && b) ≡ true → (a ≡ true) × (b ≡ true)
and_inv true b h = (refl, h)
and_inv false b h = cc

both-each : (p : Bool → Bool) → both p ≡ true → (b : Bool) → p b ≡ true
unfolding both
both-each p h false = (and_inv (p false) (p true) h).0
both-each p h true = (and_inv (p false) (p true) h).1

same→eq : (a b : Bool) → same a b ≡ true → a ≡ b
unfolding same
same→eq true true h = refl
same→eq false false h = refl
same→eq true false h = cc
same→eq false true h = cc

-- A Boolean function of nine arguments that is true everywhere.
abbrev Nine : Type 0
Nine = Bool → Bool → Bool → Bool → Bool → Bool → Bool → Bool → Bool → Bool

unfoldable everywhere : Nine → Bool
everywhere p = both (λ a. both (λ b. both (λ c.
    both (λ d. both (λ e. both (λ f. both (λ g. both (λ h. both (λ i. p a b c d e f g h i)))))))))

everywhere-each :
    (p : Nine) → everywhere p ≡ true → (a b c d e f g h i : Bool) → p a b c d e f g h i ≡ true
unfolding everywhere
everywhere-each p all a b c d e f g h i =
    both-each _
      (both-each _
        (both-each _
          (both-each _
            (both-each _ (both-each _ (both-each _ (both-each _ (both-each _ all a) b) c) d) e) f)
          g)
        h)
      i

-- Each flag of some metadata says whether its part is there.
module _ (m : ObjMetadata) where
  -- A test at the conditions of `flags`.
  abbrev tested : Nine → Bool
  tested p =
      p (has_content_type m.content_type) (has_user_metadata m.user_metadata)
        (has_value m.disposition) (has_value m.cache_control) (has_value m.encoding)
        (has_value m.language) (has_value m.expires) (has_value m.lock_info) m.legal_hold

  tested-everywhere : (p : Nine) → everywhere p ≡ true → tested p ≡ true
  tested-everywhere p all =
      everywhere-each p all (has_content_type m.content_type) (has_user_metadata m.user_metadata)
        (has_value m.disposition) (has_value m.cache_control) (has_value m.encoding)
        (has_value m.language) (has_value m.expires) (has_value m.lock_info) m.legal_hold

  pub metadata_flags-with_content_type :
      has_flag (metadata_flags m) with_content_type ≡ has_content_type m.content_type
  unfolding metadata_flags everywhere both same flags_of
  metadata_flags-with_content_type = same→eq _ _ (
      tested-everywhere
        (λ a b c d e f g h i. same (has_flag (flags_of a b c d e f g h i) with_content_type) a)
        refl)

  pub metadata_flags-with_meta :
      has_flag (metadata_flags m) with_meta ≡ has_user_metadata m.user_metadata
  unfolding metadata_flags everywhere both same flags_of
  metadata_flags-with_meta = same→eq _ _ (
      tested-everywhere
        (λ a b c d e f g h i. same (has_flag (flags_of a b c d e f g h i) with_meta) b) refl)

  pub metadata_flags-with_disposition :
      has_flag (metadata_flags m) with_disposition ≡ has_value m.disposition
  unfolding metadata_flags everywhere both same flags_of
  metadata_flags-with_disposition = same→eq _ _ (
      tested-everywhere
        (λ a b c d e f g h i. same (has_flag (flags_of a b c d e f g h i) with_disposition) c) refl)

  pub metadata_flags-with_cache_control :
      has_flag (metadata_flags m) with_cache_control ≡ has_value m.cache_control
  unfolding metadata_flags everywhere both same flags_of
  metadata_flags-with_cache_control = same→eq _ _ (
      tested-everywhere
        (λ a b c d e f g h i. same (has_flag (flags_of a b c d e f g h i) with_cache_control) d)
        refl)

  pub metadata_flags-with_encoding :
      has_flag (metadata_flags m) with_encoding ≡ has_value m.encoding
  unfolding metadata_flags everywhere both same flags_of
  metadata_flags-with_encoding = same→eq _ _ (
      tested-everywhere
        (λ a b c d e f g h i. same (has_flag (flags_of a b c d e f g h i) with_encoding) e) refl)

  pub metadata_flags-with_language :
      has_flag (metadata_flags m) with_language ≡ has_value m.language
  unfolding metadata_flags everywhere both same flags_of
  metadata_flags-with_language = same→eq _ _ (
      tested-everywhere
        (λ a b c d e f g h i. same (has_flag (flags_of a b c d e f g h i) with_language) f) refl)

  pub metadata_flags-with_expires : has_flag (metadata_flags m) with_expires ≡ has_value m.expires
  unfolding metadata_flags everywhere both same flags_of
  metadata_flags-with_expires = same→eq _ _ (
      tested-everywhere
        (λ a b c d e f g h i. same (has_flag (flags_of a b c d e f g h i) with_expires) g) refl)

  pub metadata_flags-with_lock_info :
      has_flag (metadata_flags m) with_lock_info ≡ has_value m.lock_info
  unfolding metadata_flags everywhere both same flags_of
  metadata_flags-with_lock_info = same→eq _ _ (
      tested-everywhere
        (λ a b c d e f g h i. same (has_flag (flags_of a b c d e f g h i) with_lock_info) h) refl)

  pub metadata_flags-with_legal_hold : has_flag (metadata_flags m) with_legal_hold ≡ m.legal_hold
  unfolding metadata_flags everywhere both same flags_of
  metadata_flags-with_legal_hold = same→eq _ _ (
      tested-everywhere
        (λ a b c d e f g h i. same (has_flag (flags_of a b c d e f g h i) with_legal_hold) i) refl)

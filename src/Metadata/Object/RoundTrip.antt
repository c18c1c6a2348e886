-- ===== src/Metadata/Object/RoundTrip.antt =====
-- src/ObjMetadata.cpp: the parts of `deserialize` on what the parts of `serialize` write.
use hs.Prelude.{
  ℕ, ◌^◌, ◌≤◌, ◌<◌, ◌≡◌, refl, sym, ap, if◌then◌else◌, Bool, true, false, Option, none, some, List,
  [], ◌∷◌, length, arith,
}
use hs.Data.Writer.{when_set, add_string_2}
use hs.Data.Reader.{CrData, ◌>>=◌, give, get_str_2, max_string}
use hs.Data.Restore.{Restores, >>-Restores, give-Restores, Restores-map, add_string_2-Restores}
use hs.Metadata.Content.{
  ContentType, is_empty, has_content_type, write_content_type, read_content_type,
}
use hs.Metadata.User.{UserMetadata, has_user_metadata, write_user_metadata, read_user_metadata}
use hs.Metadata.RoundTrip.{
  Storable, in_table, named, AllShort, write_content_type-Restores, write_user_metadata-Restores,
}
use hs.Metadata.Object.{
  LockInfo, ObjMetadata, fresh, has_flag, has_value, metadata_flags, write_value, write_lock_info,
  write_metadata, read_if, read_type, read_user, read_disposition, read_cache_control,
  read_encoding, read_language, read_expires, read_lock, read_lock_info, read_metadata,
  with_content_type, with_meta, with_disposition, with_cache_control, with_encoding, with_language,
  with_expires, with_lock_info, with_legal_hold,
}
use hs.Metadata.Object.Lock.{LockFits, if_Restores, write_lock_info-Restores}
use hs.Metadata.Object.Flags.{
  metadata_flags-with_content_type, metadata_flags-with_meta, metadata_flags-with_disposition,
  metadata_flags-with_cache_control, metadata_flags-with_encoding, metadata_flags-with_language,
  metadata_flags-with_expires, metadata_flags-with_lock_info, metadata_flags-with_legal_hold,
}

-- A text that is not there, or that `getStr2` takes.
abbrev pub IsShort : Option (List ℕ) → Type 0
IsShort o = (s : List ℕ) → o ≡ some s → length s ≤ max_string

-- Every part of the metadata fits its encoding.
pub record AllFit (m : ObjMetadata) : Type 0 where
  pub content : Storable m.content_type
  pub count : length m.user_metadata < 2 ^ 63
  pub user : AllShort m.user_metadata
  pub disposition : IsShort m.disposition
  pub cache_control : IsShort m.cache_control
  pub encoding : IsShort m.encoding
  pub language : IsShort m.language
  pub expires : IsShort m.expires
  pub lock : (l : LockInfo) → m.lock_info ≡ some l → LockFits l

no_content_type :
    (c : ContentType) → Storable c → has_content_type c ≡ false → fresh.content_type ≡ c
unfolding has_content_type is_empty
no_content_type _ (in_table {n} h1 h2) off = absurd (positive n h1 off)
  where
    positive : (n : ℕ) → 1 ≤ n → ¬ (has_content_type (record { number = n; name = [] }) ≡ false)
    positive n h e = ground arith
no_content_type _ (named {s = []} h) off = refl
no_content_type _ (named {s = x ∷ s} h) off = cc

no_user_metadata : (u : UserMetadata) → has_user_metadata u ≡ false → [] ≡ u
unfolding has_user_metadata
no_user_metadata [] off = refl
no_user_metadata (kv ∷ u) off = cc

-- A text that a flag says is there.
value_restored :
    (o : Option (List ℕ)) (b : Bool) (get : ObjMetadata → CrData → Option ObjMetadata × CrData)
    (put : Option (List ℕ) → ObjMetadata)
    → b ≡ has_value o
    → get (put none) ≡ (get_str_2 >>= (λ val. give (put (some val))))
    → IsShort o
    → Restores (write_value o) (read_if b get (put none)) (put o)
unfolding write_value has_value read_if
value_restored none b get put e same short = rw e (give-Restores (put none))
value_restored (some s) b get put e same short =
    rw (e, same)
      (Restores-map (add_string_2 s) get_str_2 (λ val. put (some val)) s
        (add_string_2-Restores s (short s refl)))

module _ (m : ObjMetadata) (fit : AllFit m) where
  -- The object after each part of `deserialize`.
  abbrev s1 : ObjMetadata
  s1 = record fresh { content_type = m.content_type }

  abbrev s2 : ObjMetadata
  s2 = record s1 { user_metadata = m.user_metadata }

  abbrev s3 : ObjMetadata
  s3 = record s2 { disposition = m.disposition }

  abbrev s4 : ObjMetadata
  s4 = record s3 { cache_control = m.cache_control }

  abbrev s5 : ObjMetadata
  s5 = record s4 { encoding = m.encoding }

  abbrev s6 : ObjMetadata
  s6 = record s5 { language = m.language }

  abbrev s7 : ObjMetadata
  s7 = record s6 { expires = m.expires }

  abbrev s8 : ObjMetadata
  s8 = record s7 { lock_info = m.lock_info }

  -- The flags that were written, as the tests of `deserialize` read them.
  abbrev flag : ℕ → Bool
  flag f = has_flag (metadata_flags m) f

  content_restored :
      Restores
        (when_set (has_content_type m.content_type) (write_content_type m.content_type))
        (read_if (flag with_content_type) read_type fresh)
        s1
  unfolding read_type
  content_restored = rw (metadata_flags-with_content_type m) (
      if_Restores _ _ read_type fresh s1
        (λ _.
          Restores-map (write_content_type m.content_type) (read_content_type fresh.content_type) _
            m.content_type (write_content_type-Restores m.content_type fit.content))
        (λ off.
          ap (λ c. record fresh { content_type = c })
            (no_content_type m.content_type fit.content off)))

  user_restored :
      Restores
        (when_set (has_user_metadata m.user_metadata) (write_user_metadata m.user_metadata))
        (read_if (flag with_meta) read_user s1)
        s2
  unfolding read_user
  user_restored = rw (metadata_flags-with_meta m) (
      if_Restores _ _ read_user s1 s2
        (λ _.
          Restores-map (write_user_metadata m.user_metadata) (read_user_metadata []) _
            m.user_metadata (write_user_metadata-Restores m.user_metadata fit.count fit.user))
        (λ off. ap (λ u. record s1 { user_metadata = u }) (no_user_metadata m.user_metadata off)))

  disposition_restored :
      Restores (write_value m.disposition) (read_if (flag with_disposition) read_disposition s2) s3
  unfolding read_disposition
  disposition_restored =
      value_restored m.disposition _ read_disposition (λ o. record s2 { disposition = o })
        (metadata_flags-with_disposition m) refl fit.disposition

  cache_control_restored :
      Restores
        (write_value m.cache_control)
        (read_if (flag with_cache_control) read_cache_control s3)
        s4
  unfolding read_cache_control
  cache_control_restored =
      value_restored m.cache_control _ read_cache_control (λ o. record s3 { cache_control = o })
        (metadata_flags-with_cache_control m) refl fit.cache_control

  encoding_restored :
      Restores (write_value m.encoding) (read_if (flag with_encoding) read_encoding s4) s5
  unfolding read_encoding
  encoding_restored =
      value_restored m.encoding _ read_encoding (λ o. record s4 { encoding = o })
        (metadata_flags-with_encoding m) refl fit.encoding

  language_restored :
      Restores (write_value m.language) (read_if (flag with_language) read_language s5) s6
  unfolding read_language
  language_restored =
      value_restored m.language _ read_language (λ o. record s5 { language = o })
        (metadata_flags-with_language m) refl fit.language

  expires_restored :
      Restores (write_value m.expires) (read_if (flag with_expires) read_expires s6) s7
  unfolding read_expires
  expires_restored =
      value_restored m.expires _ read_expires (λ o. record s6 { expires = o })
        (metadata_flags-with_expires m) refl fit.expires

  lock_restored :
      Restores (write_lock_info m.lock_info) (read_if (flag with_lock_info) read_lock_info s7) s8
  unfolding read_lock_info write_lock_info has_value read_if
  lock_restored = rw (metadata_flags-with_lock_info m) (part m.lock_info fit.lock)
    where
      part :
          (o : Option LockInfo)
          → ((l : LockInfo) → o ≡ some l → LockFits l)
          → Restores
              (write_lock_info o)
              (read_if (has_value o) read_lock_info s7)
              (record s7 { lock_info = o })
      part none fits = give-Restores s7
      part (some l) fits =
          Restores-map (write_lock_info (some l)) read_lock (λ l. record s7 { lock_info = some l })
            l (write_lock_info-Restores l (fits l refl))

  legal_hold_restored : (if flag with_legal_hold then record s8 { legal_hold = true } else s8) ≡ m
  legal_hold_restored = rw (metadata_flags-with_legal_hold m) (last m.legal_hold refl)
    where
      last : (b : Bool) → m.legal_hold ≡ b → (if b then record s8 { legal_hold = true } else s8) ≡ m
      last true e = ap (λ b. record s8 { legal_hold = b }) (sym e)
      last false e = ap (λ b. record s8 { legal_hold = b }) (sym e)

  -- What `serialize` appends to a writer, `deserialize` takes off a reader, by the flags that say
  -- what there is, and the object that it leaves is the one that was written.
  pub write_metadata-Restores :
      Restores (write_metadata m) (read_metadata fresh (metadata_flags m)) m
  unfolding write_metadata read_metadata
  write_metadata-Restores = >>-Restores _ _ _ _ s1 m content_restored (
      >>-Restores _ _ _ _ s2 m user_restored (
        >>-Restores _ _ _ _ s3 m disposition_restored (
          >>-Restores _ _ _ _ s4 m cache_control_restored (
            >>-Restores _ _ _ _ s5 m encoding_restored (
              >>-Restores _ _ _ _ s6 m language_restored (
                >>-Restores _ _ _ _ s7 m expires_restored (
                  >>-Restores (write_lock_info m.lock_info) (λ w. w) _ _ s8 m lock_restored
                    (rw legal_hold_restored (give-Restores m)))))))))

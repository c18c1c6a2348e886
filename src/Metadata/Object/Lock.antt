-- ===== src/Metadata/Object/Lock.antt =====
-- src/ObjMetadata.cpp: reading the lock of an object that was written.
use hs.Prelude.{
  ℕ, ◌+◌, ◌*◌, ◌%◌, ◌^◌, ◌<◌, ◌≡◌, refl, sym, ap, ap₂, Bool, true, false, Option, some, arith,
}
use hs.Data.Writer.{CwData, ◌>>◌, when_set, add_int64}
use hs.Data.Reader.{CrData, get_int64}
use hs.Data.Restore.{Restores, >>-Restores, give-Restores, Restores-map, add_int64-Restores}
use hs.Metadata.Object.{
  LockInfo, no_lock, retain_until_set, event_hold, event_duration, days_of, years_of,
  write_lock_info, read_if, read_retain_until, read_event_duration, read_lock,
}

-- A part that is written and read under the same condition, and changes nothing without it.
pub if_Restores {ℓ} :
    {A : Type ℓ} (b : Bool) (write : CwData → CwData) (get : A → CrData → Option A × CrData)
    (a a' : A)
    → (b ≡ true → Restores write (get a) a')
    → (b ≡ false → a ≡ a')
    → Restores (when_set b write) (read_if b get a) a'
unfolding read_if
if_Restores true write get a a' there missing = there refl
if_Restores false write get a a' there missing = rw (missing refl) (give-Restores a')

-- The numbers fit the fields, the duration fits its packing, and what a flag rules out is 0.
pub record LockFits (l : LockInfo) : Type 0 where
  pub flags : l.flags < 2 ^ 32
  pub until : l.retain_until < 2 ^ 64
  pub years : l.event_duration_years < 1000
  pub duration : l.event_duration_days * 1000 + l.event_duration_years < 2 ^ 32
  pub no_until : retain_until_set l ≡ false → l.retain_until ≡ 0
  pub no_days : event_hold l ≡ false → l.event_duration_days ≡ 0
  pub no_years : event_hold l ≡ false → l.event_duration_years ≡ 0

module _ (l : LockInfo) (fits : LockFits l) where
  abbrev with_flags : LockInfo
  with_flags = record no_lock { flags = l.flags }

  abbrev with_until : LockInfo
  with_until = record with_flags { retain_until = l.retain_until }

  until_restored :
      Restores
        (when_set (retain_until_set l) (add_int64 l.retain_until))
        (read_if (retain_until_set l) read_retain_until with_flags)
        with_until
  unfolding read_retain_until
  until_restored =
      if_Restores (retain_until_set l) (add_int64 l.retain_until) read_retain_until with_flags
        with_until
        (λ _.
          Restores-map (add_int64 l.retain_until) get_int64 _ l.retain_until
            (add_int64-Restores l.retain_until fits.until))
        (λ off. ap (λ t. record with_flags { retain_until = t }) (sym (fits.no_until off)))

  abbrev with_duration : ℕ → ℕ → LockInfo
  with_duration d y = record with_until { event_duration_days = d; event_duration_years = y }

  duration_kept : with_duration (days_of (event_duration l)) (years_of (event_duration l)) ≡ l
  duration_kept =
      ap₂ with_duration (unpack_days _ _ fits.years fits.duration)
        (unpack_years _ _ fits.years fits.duration)
    where
      unpack_days :
          (d y : ℕ) → y < 1000 → d * 1000 + y < 2 ^ 32 → days_of ((d * 1000 + y) % 2 ^ 32) ≡ d
      unpack_days d y h1 h2 = ground arith

      unpack_years :
          (d y : ℕ) → y < 1000 → d * 1000 + y < 2 ^ 32 → years_of ((d * 1000 + y) % 2 ^ 32) ≡ y
      unpack_years d y h1 h2 = ground arith

  duration_restored :
      Restores
        (when_set (event_hold l) (add_int64 (event_duration l)))
        (read_if (event_hold l) read_event_duration with_until)
        l
  unfolding read_event_duration
  duration_restored =
      if_Restores (event_hold l) (add_int64 (event_duration l)) read_event_duration with_until l
        (λ _. rw duration_kept at (
          Restores-map (add_int64 (event_duration l)) get_int64
            (λ d. with_duration (days_of d) (years_of d)) (event_duration l)
            (add_int64-Restores (event_duration l) (omega arith))))
        (λ off. ap₂ with_duration (sym (fits.no_days off)) (sym (fits.no_years off)))

  -- The lock of an object, of which the numbers fit, is read back as it was written.
  pub write_lock_info-Restores : Restores (write_lock_info (some l)) read_lock l
  unfolding write_lock_info read_lock
  write_lock_info-Restores =
      let small : l.flags % 2 ^ 32 ≡ l.flags = omega (arith, fits.flags) in
      >>-Restores (add_int64 l.flags)
        (when_set (retain_until_set l) (add_int64 l.retain_until)
          >> when_set (event_hold l) (add_int64 (event_duration l)))
        get_int64 _ l.flags l (add_int64-Restores l.flags (omega (arith, fits.flags)))
        (rw small (>>-Restores _ _ _ _ with_until l until_restored duration_restored))

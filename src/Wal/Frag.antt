-- ===== src/Wal/Frag.antt =====
-- src/WalFile.cpp: `SFragInfo` in the records, with the ones that it is linked to.
use hs.Prelude.{
  ℕ, zero, suc, ◌-◌, ◌^◌, ◌≤◌, ◌<◌, ◌≡◌, refl, Bool, true, false, Option, none, some, List, [], ◌∷◌,
  length, ◌==◌, if◌then◌else◌, arith,
}
use hs.Data.Writer.{CwData, ◌>>◌, add_char, add_varint, add_string_2}
use hs.Data.Reader.{get_char, get_var_int, get_str_2, max_string}
use hs.Data.Scan.{Scanner, ◌>>=◌, give, abort, scan, Scans, >>-Scans, give-Scans}
use hs.Wal.{MatchInfo, FragInfo}
use hs.Wal.Extents.{write_exts, read_exts, number_scanned, string_scanned, ExtsFit, exts_scanned}
use hs.Wal.Match.{
  write_optional, write_match_info, read_match_info, char_scanned, MatchFits, match_info_scanned,
}

-- `serializeFragInfo` up to `linked`
unfoldable pub write_own : FragInfo → CwData → CwData
write_own info =
    add_char info.action
    >> add_string_2 info.fn
    >> add_varint info.offset
    >> add_varint info.len
    >> add_varint info.last_modified
    >> add_string_2 info.md5sum
    >> add_varint (length info.extra_exts)
    >> write_exts info.extra_exts
    >> write_optional write_match_info info.match_info

-- `serializeFragInfo`, which always returns true
unfoldable pub write_frag_info : FragInfo → List FragInfo → CwData → CwData
write_frag_info info [] = write_own info >> add_char 0
write_frag_info info (next ∷ others) = write_own info >> (add_char 1 >> write_frag_info next others)

-- The block under `if (hasMatchInfo)`; only the first of linked items may have one.
unfoldable pub read_item_match : ℕ → Bool → Scanner (Option MatchInfo)
read_item_match junk is_first = do
  has_match_info ← scan get_char junk
  if has_match_info == 0
      then give none
      else if is_first
      then (do i ← read_match_info junk; give (some i))
      else abort

-- `deserializeFragInfo` up to `linked`, on a new object
unfoldable pub read_own : ℕ → Bool → Scanner FragInfo
read_own junk is_first = do
  action ← scan get_char junk
  fn ← scan get_str_2 []
  offset ← scan get_var_int (2 ^ 64 - 1)
  len ← scan get_var_int 0
  last_modified ← scan get_var_int 0
  md5sum ← scan get_str_2 []
  extra_exts_size ← scan get_var_int 0
  exts ← read_exts extra_exts_size []
  match ← read_item_match junk is_first
  give record {
    action = action;
    fn = fn;
    offset = offset;
    len = len;
    last_modified = last_modified;
    md5sum = md5sum;
    extra_exts = exts;
    match_info = match;
  }

-- `deserializeFragInfo`: the item and the ones that it is linked to. The recursion runs on fuel; as
-- many rounds as there are items are enough.
unfoldable pub read_frag_info : ℕ → ℕ → Bool → Scanner (FragInfo × List FragInfo)
read_frag_info zero junk is_first = abort
read_frag_info (suc fuel) junk is_first = do
  info ← read_own junk is_first
  has_linked ← scan get_char junk
  if has_linked == 0
      then give (info, [])
      else (do linked ← read_frag_info fuel junk false; give (info, linked.0 ∷ linked.1))

-- The item fits the records.
pub record FragFits (is_first : Bool) (info : FragInfo) : Type 0 where
  pub fn : length info.fn ≤ max_string
  pub offset : info.offset < 2 ^ 64
  pub len : info.len < 2 ^ 64
  pub last_modified : info.last_modified < 2 ^ 64
  pub md5sum : length info.md5sum ≤ max_string
  pub count : length info.extra_exts < 2 ^ 64
  pub exts : ExtsFit info.extra_exts
  pub match : (i : MatchInfo) → info.match_info ≡ some i → (is_first ≡ true) × MatchFits i

-- Linked items fit if each does, and only the first of all may have conditions.
pub data LinkedFit : List FragInfo → Type 0 where
  last : LinkedFit []
  linked :
      {info : FragInfo} {others : List FragInfo}
      → FragFits false info
      → LinkedFit others
      → LinkedFit (info ∷ others)

match_scanned :
    (junk : ℕ) (is_first : Bool) (o : Option MatchInfo)
    → ((i : MatchInfo) → o ≡ some i → (is_first ≡ true) × MatchFits i)
    → Scans (write_optional write_match_info o) (read_item_match junk is_first) o
unfolding write_optional read_item_match
match_scanned junk is_first none fits =
    >>-Scans (add_char 0) (λ w. w) _ _ 0 none (char_scanned junk 0) (give-Scans none)
match_scanned junk is_first (some i) fits =
    let (first, fit) = fits i refl in
    >>-Scans (add_char 1) (write_match_info i) _ _ 1 (some i) (char_scanned junk 1) (
      rw first (
        >>-Scans (write_match_info i) (λ w. w) _ _ i (some i) (match_info_scanned junk i fit)
          (give-Scans (some i))))

own_scanned :
    (junk : ℕ) (is_first : Bool) (info : FragInfo)
    → FragFits is_first info
    → Scans (write_own info) (read_own junk is_first) info
unfolding write_own read_own
own_scanned junk is_first info fits = >>-Scans _ _ _ _ _ info (char_scanned junk info.action) (
    >>-Scans _ _ _ _ _ info (string_scanned [] info.fn fits.fn) (
      >>-Scans _ _ _ _ _ info (number_scanned (2 ^ 64 - 1) info.offset fits.offset) (
        >>-Scans _ _ _ _ _ info (number_scanned 0 info.len fits.len) (
          >>-Scans _ _ _ _ _ info (number_scanned 0 info.last_modified fits.last_modified) (
            >>-Scans _ _ _ _ _ info (string_scanned [] info.md5sum fits.md5sum) (
              >>-Scans _ _ _ _ _ info (number_scanned 0 _ fits.count) (
                >>-Scans _ _ _ _ _ info (exts_scanned info.extra_exts [] fits.exts) (
                  >>-Scans _ (λ w. w) _ _ _ info
                    (match_scanned junk is_first info.match_info fits.match)
                    (give-Scans info)))))))))

pub frag_info_scanned :
    (fuel junk : ℕ) (is_first : Bool) (info : FragInfo) (others : List FragInfo)
    → length others < fuel
    → FragFits is_first info
    → LinkedFit others
    → Scans (write_frag_info info others) (read_frag_info fuel junk is_first) (info, others)
unfolding write_frag_info read_frag_info
frag_info_scanned zero junk is_first info others enough fits links = absurd (omega (arith, enough))
frag_info_scanned (suc fuel) junk is_first info _ enough fits last =
    >>-Scans (write_own info) (add_char 0) _ _ info (info, []) (own_scanned junk is_first info fits)
      (>>-Scans (add_char 0) (λ w. w) _ _ 0 (info, []) (char_scanned junk 0)
        (give-Scans {A = FragInfo × List FragInfo} (info, [])))
frag_info_scanned (suc fuel) junk is_first info _ enough fits
      (linked {info = next} {others} fit links) =
    >>-Scans (write_own info) (add_char 1 >> write_frag_info next others) _ _ info
      (info, next ∷ others) (own_scanned junk is_first info fits)
      (>>-Scans (add_char 1) (write_frag_info next others) _ _ 1 (info, next ∷ others)
        (char_scanned junk 1)
        (>>-Scans (write_frag_info next others) (λ w. w) _ _ (next, others) (info, next ∷ others)
          (frag_info_scanned fuel junk false next others (omega (arith, enough)) fit links)
          (give-Scans {A = FragInfo × List FragInfo} (info, next ∷ others))))

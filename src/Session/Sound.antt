-- ===== src/Session/Sound.antt =====
-- src/Session.cpp: no iterator that `accessKeyToSession` holds is left behind.
use hs.Prelude.{
  ℕ, ◌≡◌, ◌≢◌, refl, sym, ap, ◌∙◌, Bool, true, false, none, some, List, [], ◌∷◌, bytes_eq,
  bytes_eq_refl, bytes_eq→eq, Bool-cases, inl, inr, if◌then◌else◌, arith,
}
use mathlib.Core.Option.{some-injective}
use hs.Session.{
  SessionStorage, State, find_session, insert_session, erase_session, assign, remove_session,
  with_session, set_storage,
}

abbrev Sessions : Type 0
Sessions = List (List ℕ × SessionStorage)

find_session-insert_self :
    (id : List ℕ) (st : SessionStorage) (l : Sessions)
    → find_session id l ≡ none
    → find_session id (insert_session id st l) ≡ some st
unfolding find_session insert_session
find_session-insert_self id st [] e = rw (bytes_eq_refl id) refl
find_session-insert_self id st ((i, old) ∷ rest) e =
    ground (arith, e, find_session-insert_self id st rest)

find_session-insert_other :
    (id j : List ℕ) (st x : SessionStorage) (l : Sessions)
    → find_session j l ≡ some x
    → find_session j (insert_session id st l) ≡ some x
unfolding find_session insert_session
find_session-insert_other id j st x [] e = cc
find_session-insert_other id j st x ((i, old) ∷ rest) e =
    ground (arith, e, find_session-insert_other id j st x rest)

pub find_session-erase_self :
    (id : List ℕ) (l : Sessions) → find_session id (erase_session id l) ≡ none
unfolding find_session erase_session
find_session-erase_self id [] = refl
find_session-erase_self id ((i, old) ∷ rest) = ground (arith, find_session-erase_self id rest)

not_both : (i id j : List ℕ) → id ≢ j → bytes_eq i id ≡ true → bytes_eq i j ≡ false
not_both i id j different e = elim (Bool-cases (bytes_eq i j)) [
  | inl e' ↦ absurd (different (sym (bytes_eq→eq i id e) ∙ bytes_eq→eq i j e'))
  | inr e' ↦ e'
]

find_session-erase_other :
    (id j : List ℕ) (l : Sessions) → id ≢ j → find_session j (erase_session id l) ≡ find_session j l
unfolding find_session erase_session
find_session-erase_other id j [] different = refl
find_session-erase_other id j ((i, old) ∷ rest) different =
    ground (arith, not_both i id j different, find_session-erase_other id j rest different)

find_session-assign_self :
    (id : List ℕ) (st x : SessionStorage) (l : Sessions)
    → find_session id l ≡ some x
    → find_session id (assign id st l) ≡ some st
unfolding find_session assign
find_session-assign_self id st x [] e = cc
find_session-assign_self id st x ((i, old) ∷ rest) e =
    ground (arith, e, find_session-assign_self id st x rest)

find_session-assign_other :
    (id j : List ℕ) (st : SessionStorage) (l : Sessions)
    → id ≢ j
    → find_session j (assign id st l) ≡ find_session j l
unfolding find_session assign
find_session-assign_other id j st [] different = refl
find_session-assign_other id j st ((i, old) ∷ rest) different =
    ground (arith, not_both i id j different, find_session-assign_other id j st rest different)

-- The session that an entry of `accessKeyToSession` is for is there, and has that key.
pub record Points (s : State) (key id : List ℕ) : Type 0 where
  pub storage : SessionStorage
  pub there : find_session id s.sessions ≡ some storage
  pub its_key : storage.access_key ≡ key

abbrev pub IsSound : State → Type 0
IsSound s = (key id : List ℕ) → s.by_key key ≡ some id → Points s key id

is_different : (a b : List ℕ) → bytes_eq a b ≡ false → a ≢ b
is_different a b e same =
    let h : false ≡ true = sym e ∙ ap (bytes_eq a) (sym same) ∙ bytes_eq_refl a in cc

by_none : {b : Bool} {A : Type 0} (x y : A) → b ≡ false → (if b then x else y) ≡ y
by_none x y e = rw e refl

by_some : {b : Bool} {A : Type 0} (x y : A) → b ≡ true → (if b then x else y) ≡ x
by_some x y e = rw e refl

module _ (s : State) (sound : IsSound s) where
  pub remove_session-IsSound :
      (id : List ℕ) (st : SessionStorage)
      → find_session id s.sessions ≡ some st
      → IsSound (remove_session s id st)
  unfolding remove_session
  remove_session-IsSound id st there key j e = elim (Bool-cases (bytes_eq key st.access_key)) [
    | inl same ↦ let h = sym (by_some none (s.by_key key) same) ∙ e in cc
    | inr other ↦ kept other (sound key j (sym (by_none none (s.by_key key) other) ∙ e))
  ]
    where
      kept :
          bytes_eq key st.access_key ≡ false
          → Points s key j
          → Points (remove_session s id st) key j
      kept other p = record {
        storage = p.storage;
        there = find_session-erase_other id j s.sessions different ∙ p.there;
        its_key = p.its_key;
      }
        where
          different : id ≢ j
          different same = is_different key st.access_key other (
              sym p.its_key
              ∙ ap (λ (x : SessionStorage). x.access_key)
                  (some-injective _ _
                    (sym p.there ∙ ap (λ i. find_session i s.sessions) (sym same) ∙ there)))

  pub set_storage-IsSound :
      (id : List ℕ) (old st : SessionStorage)
      → find_session id s.sessions ≡ some old
      → st.access_key ≡ old.access_key
      → IsSound (set_storage s id st)
  set_storage-IsSound id old st there same_key key j e =
      let p = sound key j e in
      elim (Bool-cases (bytes_eq id j)) [
        | inl same ↦ itself (bytes_eq→eq id j same) p
        | inr other ↦ record {
          storage = p.storage;
          there = find_session-assign_other id j st s.sessions (is_different id j other) ∙ p.there;
          its_key = p.its_key;
        }
      ]
    where
      itself : id ≡ j → Points s key j → Points (set_storage s id st) key j
      itself same p = record {
        storage = st;
        there =
            ap (λ i. find_session i (assign id st s.sessions)) (sym same)
            ∙ find_session-assign_self id st old s.sessions there;
        its_key =
            same_key
            ∙ ap (λ (x : SessionStorage). x.access_key)
                (some-injective _ _
                  (sym there ∙ ap (λ i. find_session i s.sessions) same ∙ p.there))
            ∙ p.its_key;
      }

  pub with_session-IsSound :
      (id access_key secret_access_key : List ℕ) (user_id now : ℕ)
      → find_session id s.sessions ≡ none
      → IsSound (with_session s id access_key secret_access_key user_id now)
  with_session-IsSound id access_key secret_access_key user_id now fresh key j e =
      elim (Bool-cases (bytes_eq key access_key)) [
        | inl same ↦ record {
          storage = made;
          there =
              ap (λ i. find_session i (insert_session id made s.sessions))
                (sym (some-injective _ _ (sym (by_some (some id) (s.by_key key) same) ∙ e)))
              ∙ find_session-insert_self id made s.sessions fresh;
          its_key = sym (bytes_eq→eq key access_key same);
        }
        | inr other ↦ before (sound key j (sym (by_none (some id) (s.by_key key) other) ∙ e))
      ]
    where
      made : SessionStorage
      made = record { user_id = user_id; access_key = access_key; used_at = now; locked = false }

      before :
          Points s key j → Points (with_session s id access_key secret_access_key user_id now) key j
      before p = record {
        storage = p.storage;
        there = find_session-insert_other id j made p.storage s.sessions p.there;
        its_key = p.its_key;
      }

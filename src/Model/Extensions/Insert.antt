-- ===== src/Model/Extensions/Insert.antt =====
-- The insertion of crates/group-agent-model/src/extensions.rs, which trims keys.
use Prim.Native.Char.{code}
use group.Prelude.{
  leb, if◌then◌else◌, get, ◌==◌, ==_iff, nat_eq, string_eq, bool_eq, option_eq, list_eq, Result,
  ◌>>=◌, ok, err, ℕ, String, ◌≡◌, refl, ◌≢◌, ◌⊎◌, inl, inr, Bool, true, false, ◌&&◌, ◌||◌, Option,
  none, some, List, [], ◌∷◌,
}
use group.Model.Extensions.{Extensions, insert_sorted}
use group.Model.Extensions.Merge.{get-insert_sorted}

pub data ExtensionError : Type 0 where
  empty_key : ExtensionError
  duplicate_key : String → ExtensionError

-- `char::is_whitespace`, the property White_Space of Unicode.
unfoldable pub is_whitespace : ℕ → Bool
is_whitespace c =
    (leb 9 c && leb c 13)
    || (c == 32)
    || (c == 133)
    || (c == 160)
    || (c == 5760)
    || (leb 8192 c && leb c 8202)
    || (c == 8232)
    || (c == 8233)
    || (c == 8239)
    || (c == 8287)
    || (c == 12288)

unfoldable pub trim_start : String → String
trim_start String.[] = ""
trim_start (String.◌∷◌ c s) =
    let rest = trim_start s in if is_whitespace (code c) then rest else String.◌∷◌ c s

unfoldable pub trim_end : String → String
trim_end String.[] = ""
trim_end (String.◌∷◌ c s) =
    let rest = trim_end s in
    if is_whitespace (code c) && (rest == "") then "" else String.◌∷◌ c rest

-- `str::trim`.
unfoldable pub trim : String → String
unfolding trim_start trim_end
trim s = trim_end (trim_start s)

module _ {V : Type 0} where
  -- `Extensions::get`.
  unfoldable pub get_extension : String → Extensions V → Option V
  unfolding trim
  get_extension key extensions = get (trim key) extensions.entries

  -- `insert` at a trimmed key, from whether it is empty and what it has.
  unfoldable pub place :
      Bool → Option V → String → V → Extensions V → Result (Unit {0}) ExtensionError × Extensions V
  unfolding insert_sorted
  place true found key value extensions = (err empty_key, extensions)
  place false (some existing) key value extensions = (err (duplicate_key key), extensions)
  place false none key value extensions =
      (ok tt, record { entries = insert_sorted key value extensions.entries })

  -- `Extensions::insert`.
  unfoldable pub insert_extension :
      String → V → Extensions V → Result (Unit {0}) ExtensionError × Extensions V
  unfolding trim place
  insert_extension key value extensions =
      let trimmed = trim key in
      place (trimmed == "") (get trimmed extensions.entries) trimmed value extensions

  -- `Extensions::with`.
  abbrev pub with_extension : String → V → Extensions V → Result (Extensions V) ExtensionError
  unfolding trim place
  with_extension key value extensions =
      let inserted = insert_extension key value extensions in inserted.0 >>= λ _. ok inserted.1

  abbrev pub insert_each : List (String × V) → Extensions V → Result (Extensions V) ExtensionError
  unfolding trim place
  insert_each [] extensions = ok extensions
  insert_each ((key, value) ∷ rest) extensions =
      let inserted = insert_extension key value extensions in
      let later = insert_each rest inserted.1 in inserted.0 >>= λ _. later

  -- `Extensions::try_from_iter`.
  unfoldable pub try_from_iter : List (String × V) → Result (Extensions V) ExtensionError
  unfolding trim place
  try_from_iter entries = insert_each entries (record { entries = [] })

  -- What a result of an insertion tells of the extensions before and after it.
  abbrev pub Inserts :
      String → String → V → Extensions V → Result (Unit {0}) ExtensionError × Extensions V → Type 0
  Inserts key other value before (ok u, after) =
      (trim key ≢ "")
      × (get_extension key before ≡ none)
      × (get_extension other after
          ≡ (if trim key == trim other then some value else get_extension other before))
  Inserts key other value before (err e, after) =
      ((trim key ≡ "") ⊎ ((v : V) × (get_extension key before ≡ some v))) × (after ≡ before)

  placed :
      (empty : Bool) (found : Option V) (key other : String) (value : V) (before : Extensions V)
      → (trim key == "") ≡ empty
      → get_extension key before ≡ found
      → Inserts key other value before (place empty found (trim key) value before)
  unfolding place get_extension
  placed true found key other value before p q = (inl ((==_iff (trim key) "").0 p), refl)
  placed false (some v) key other value before p q = (inr (v, q), refl)
  placed false none key other value before p q = (
    λ h. let t = (==_iff (trim key) "").1 h in absurd (cc),
    q,
    get-insert_sorted (trim key) (trim other) value before.entries,
  )

  -- An insertion succeeds only where the trimmed key is not empty and has no value, and then any key
  -- finds what it found before, except those that are trimmed to the same key, which find the
  -- value. It fails only where the trimmed key is empty or has a value, and then changes nothing.
  pub insert_extension-Inserts :
      (key other : String) (value : V) (before : Extensions V)
      → Inserts key other value before (insert_extension key value before)
  unfolding insert_extension get_extension
  insert_extension-Inserts key other value before =
      placed (trim key == "") (get_extension key before) key other value before refl refl

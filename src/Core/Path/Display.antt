-- ===== src/Core/Path/Display.antt =====
-- `write_segments` and the two `Display` implementations of
-- crates/group-agent-core/src/path.rs. A text is the list of its code points.
use Prim.Native.Char.{code}
use text.Mathlib.TextEquality.{Char-path}
use group.Prelude.{
  if◌then◌else◌, ◌==◌, nat_eq, string_eq, bool_eq, option_eq, list_eq, ℕ, String, ◌≡◌, refl, sym,
  ap, ap₂, ◌∙◌, ◌≢◌, Bool, true, false, List, [], ◌∷◌, ◌++◌, append_assoc, arith,
}
use group.Core.Path.{NodeId, GraphPath, NodePath}

abbrev pub Text : Type 0
Text = List ℕ

unfoldable pub codes : String → Text
codes String.[] = []
codes (String.◌∷◌ c s) = code c ∷ codes s

-- What one character writes.
unfoldable pub escape : ℕ → Text
escape c =
    if c == b'%'
    then b'%' ∷ b'2' ∷ b'5' ∷ []
    else if c == b'/'
    then b'%' ∷ b'2' ∷ b'F' ∷ []
    else c ∷ []

unfoldable pub write_characters : Text → Text
unfolding escape
write_characters [] = []
write_characters (c ∷ s) = escape c ++ write_characters s

unfoldable pub write_each : List NodeId → Text
unfolding write_characters codes
write_each [] = []
write_each (segment ∷ rest) = b'/' ∷ (write_characters (codes segment) ++ write_each rest)

abbrev root_text : Text
root_text = b'<' ∷ b'r' ∷ b'o' ∷ b'o' ∷ b't' ∷ b'>' ∷ []

unfoldable pub write_segments : List NodeId → Bool → Text
unfolding write_each
write_segments [] root_label = if root_label then root_text else []
write_segments (segment ∷ rest) root_label = write_each (segment ∷ rest)

pub display_graph_path : GraphPath → Text
unfolding write_segments
display_graph_path path = write_segments path.segments true

unfoldable pub display_node_path : NodePath → Text
unfolding write_segments
display_node_path path = write_segments path.segments false

codes-injective : (s t : String) → codes s ≡ codes t → s ≡ t
unfolding codes
codes-injective String.[] String.[] h = refl
codes-injective String.[] (String.◌∷◌ d t) h = cc
codes-injective (String.◌∷◌ c s) String.[] h = cc
codes-injective (String.◌∷◌ c s) (String.◌∷◌ d t) h =
    λ i. String.◌∷◌ (Char-path c d (cc) i) (codes-injective s t (cc) i)

-- A rest that begins a new segment, or ends the text.
data IsRest : Text → Type 0 where
  ended : IsRest []
  next : (t : Text) → IsRest (b'/' ∷ t)

escape-not-rest : (c : ℕ) (s t : Text) → IsRest t → escape c ++ s ≢ t
unfolding escape
escape-not-rest c s t ended h = ground arith
escape-not-rest c s t (next u) h = ground arith

escape-injective : (c d : ℕ) (s t : Text) → escape c ++ s ≡ escape d ++ t → (c ≡ d) × (s ≡ t)
unfolding escape
escape-injective c d s t h = ground arith

write_characters-injective :
    (a b s t : Text)
    → IsRest s
    → IsRest t
    → write_characters a ++ s ≡ write_characters b ++ t
    → (a ≡ b) × (s ≡ t)
unfolding write_characters
write_characters-injective [] [] s t p q h = (refl, h)
write_characters-injective [] (d ∷ b) s t p q h = absurd (
    escape-not-rest d (write_characters b ++ t) s p
      (sym (h ∙ append_assoc (escape d) (write_characters b) t)))
write_characters-injective (c ∷ a) [] s t p q h = absurd (
    escape-not-rest c (write_characters a ++ s) t q
      (sym (append_assoc (escape c) (write_characters a) s) ∙ h))
write_characters-injective (c ∷ a) (d ∷ b) s t p q h =
    let (same, rest) = escape-injective c d (write_characters a ++ s) (write_characters b ++ t) (
      sym (append_assoc (escape c) (write_characters a) s)
      ∙ h
      ∙ append_assoc (escape d) (write_characters b) t) in
    let (same', rest') = write_characters-injective a b s t p q rest in
    (ap₂ (λ x l. x ∷ l) same same', rest')

write_each-IsRest : (xs : List NodeId) → IsRest (write_each xs)
unfolding write_each
write_each-IsRest [] = ended
write_each-IsRest (x ∷ xs) = next _

write_each-injective : (xs ys : List NodeId) → write_each xs ≡ write_each ys → xs ≡ ys
unfolding write_each
write_each-injective [] [] h = refl
write_each-injective [] (y ∷ ys) h = cc
write_each-injective (x ∷ xs) [] h = cc
write_each-injective (x ∷ xs) (y ∷ ys) h =
    let (same, rest) =
      write_characters-injective (codes x) (codes y) (write_each xs) (write_each ys)
        (write_each-IsRest xs) (write_each-IsRest ys) (cc) in
    ap₂ (λ z l. z ∷ l) (codes-injective x y same) (write_each-injective xs ys rest)

segments-injective :
    (xs ys : List NodeId) (b : Bool) → write_segments xs b ≡ write_segments ys b → xs ≡ ys
unfolding write_segments
segments-injective [] [] b h = refl
segments-injective [] (y ∷ ys) true h = unfold write_each in ground arith
segments-injective [] (y ∷ ys) false h = unfold write_each in cc
segments-injective (x ∷ xs) [] true h = unfold write_each in ground arith
segments-injective (x ∷ xs) [] false h = unfold write_each in cc
segments-injective (x ∷ xs) (y ∷ ys) b h = write_each-injective (x ∷ xs) (y ∷ ys) h

-- Two paths that are displayed alike are one path, for namespaces and for nodes: the escapes keep
-- a separator inside an identifier apart from one between identifiers, and `<root>` is no other
-- namespace.
pub display-injective :
    ((g k : GraphPath) → display_graph_path g ≡ display_graph_path k → g ≡ k)
    × ((p q : NodePath) → display_node_path p ≡ display_node_path q → p ≡ q)
unfolding display_graph_path display_node_path
display-injective = (
  λ g k h. ap (λ l. record { segments = l }) (segments-injective g.segments k.segments true h),
  λ p q h. ap (λ l. record { segments = l }) (segments-injective p.segments q.segments false h),
)

-- ===== src/Pattern/Words.antt =====
-- What a pattern stands for: texts with groups of alternatives.
use lumine_for_android.Prelude.{
  Bytes, ℕ, ◌<◌, ◌≡◌, refl, ◌≢◌, Bool, true, false, not, ◌&&◌, none, some, List, [], ◌∷◌, ◌++◌, map,
  arith, ltb, ◌==◌, All,
}
use lumine_for_android.Pattern.{split_open, split_close}

-- a byte of ASCII that is no bracket and no bar
unfoldable pub is_plain : ℕ → Bool
is_plain c = ltb c 0x80 && not (c == b'(') && not (c == b')') && not (c == b'|')

abbrev pub ArePlain : Bytes → Type 0
ArePlain s = All (λ c. is_plain c ≡ true) s

abbrev pub AllPlain : List Bytes → Type 0
AllPlain ws = All ArePlain ws

-- Alternatives: one text at least. A group has text in front of it, and alternatives.
pub record Alternatives : Type 0 where
  pub first : Bytes
  pub others : List Bytes

pub record Group : Type 0 where
  pub text : Bytes
  pub inside : Alternatives

-- the alternatives as a list
abbrev pub choices : Alternatives → List Bytes
choices a = a.first ∷ a.others

-- how they are written
unfoldable pub join : Bytes → List Bytes → Bytes
join w [] = w
join w (v ∷ vs) = w ++ b'|' ∷ join v vs

abbrev pub written_choices : Alternatives → Bytes
written_choices a = join a.first a.others

unfoldable pub written : List Group → Alternatives → Bytes
written [] last = written_choices last
written (g ∷ gs) last = g.text ++ b'(' ∷ (written_choices g.inside ++ b')' ∷ written gs last)

-- each alternative behind the text, in front of each of the words, in the order of the alternatives
unfoldable pub crossed : Bytes → List Bytes → List Bytes → List Bytes
crossed text [] ws = []
crossed text (a ∷ rest) ws = map (λ w. text ++ a ++ w) ws ++ crossed text rest ws

-- the words that a pattern stands for
unfoldable pub words : List Group → Alternatives → List Bytes
words [] last = choices last
words (g ∷ gs) last = crossed g.text (choices g.inside) (words gs last)

abbrev pub IsPattern : List Group → Alternatives → Type 0
IsPattern gs last =
    AllPlain (choices last) × All (λ (g : Group). ArePlain g.text × AllPlain (choices g.inside)) gs

pub plain_facts : (c : ℕ) → is_plain c ≡ true → (c < 0x80) × (c ≢ b'(') × (c ≢ b')') × (c ≢ b'|')
unfolding is_plain
plain_facts c h = ground arith

pub split_open-text :
    (text rest : Bytes) → ArePlain text → split_open (text ++ b'(' ∷ rest) ≡ some (text, rest)
unfolding split_open
split_open-text [] rest h = refl
split_open-text (c ∷ cs) rest h =
    let f = plain_facts c h.0 in
    let t : (c == b'(') ≡ false = ground arith in rw (t, split_open-text cs rest h.1, split_open)

pub no_open : (s : Bytes) → All (λ c. c ≢ b'(') s → split_open s ≡ none
unfolding split_open
no_open [] h = refl
no_open (c ∷ cs) h =
    let t : (c == b'(') ≡ false = ground (arith, h.0) in rw (t, no_open cs h.1, split_open)

pub split_close-inside :
    (inside rest : Bytes)
    → All (λ c. (c ≢ b'(') × (c ≢ b')')) inside
    → split_close 1 (inside ++ b')' ∷ rest) ≡ some (inside, rest)
unfolding split_close
split_close-inside [] rest h = refl
split_close-inside (c ∷ cs) rest h =
    let t : (c == b'(') ≡ false = ground (arith, h.0.0) in
    let u : (c == b')') ≡ false = ground (arith, h.0.1) in
    rw (t, u, split_close-inside cs rest h.1, split_close)
